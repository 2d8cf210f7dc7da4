-- ===== src/MemoryTests.antt =====
-- Runs of the BPF programs on the kernel's memory, and the theorems about them at concrete inputs.
use ebpf_docker_anormaly_det.Prelude.{
  ℕ, ◌+◌, ◌-◌, ◌*◌, ◌/◌, ◌^◌, ◌≡◌, refl, false, Option, none, some, String, List, [], ◌∷◌, ◌++◌,
  arith,
}
use ebpf_docker_anormaly_det.CTypes.{
  Members, Slot, struct, union, field, int, signed, unsigned, w8, w32, w64, done, ◌⨾◌, size_of,
  find, find_in, slot, holder_of, members_of,
}
use ebpf_docker_anormaly_det.Memory.{Memory, load, store}
use ebpf_docker_anormaly_det.Memory.Bytes.{bytes_at}
use ebpf_docker_anormaly_det.Memory.Fields.{Declares, read_member, write_member, read_member_lem}
use ebpf_docker_anormaly_det.CoRe.{CoreRead}
use ebpf_docker_anormaly_det.Kernel.Room.{read}
use ebpf_docker_anormaly_det.Prelude.Int.{pos}
use ebpf_docker_anormaly_det.Kernel.{PerCpuArray, PerCpuHash}
use ebpf_docker_anormaly_det.KernelModel.{percpu_cell, percpu_hash, no_slots, value}
use ebpf_docker_anormaly_det.Prelude.Table.{lookup}
use ebpf_docker_anormaly_det.ProcExit.{ProcExitEvent}
use ebpf_docker_anormaly_det.ProcExit.Task.{
  Current, DeclaresExit, start_and_exit, exit_program, event_of,
}
use ebpf_docker_anormaly_det.Collector.ProcExit.{reinterpret}
use ebpf_docker_anormaly_det.Collector.ProcExit.CoRe.{IsLeader, reinterpret-exit_program}
use ebpf_docker_anormaly_det.Collector.ProcExit.Struct.{reinterpret-read_member}
use ebpf_docker_anormaly_det.Prelude.Bytes.{of_bytes, drop, take}
use ebpf_docker_anormaly_det.ProcExit.Struct.{proc_exit_event}
use ebpf_docker_anormaly_det.Vmlinux.Registers.{pt_regs}
use ebpf_docker_anormaly_det.BpfObjects.Structs.{tcp_stats}
use ebpf_docker_anormaly_det.PidRuntime.{
  CpuAcct, zero_acct, switch_in, switch_out, trace_sched_switch,
}
use ebpf_docker_anormaly_det.PidRuntime.Tracepoint.{switch_record, trace_sched_switch-switch_record}
use ebpf_docker_anormaly_det.TcpStats.{TcpStats, zero_stats, Task, charge}
use ebpf_docker_anormaly_det.TcpStats.Arguments.{
  ProbeRegs, bits_of, sendmsg_returned, cleanup_rbuf_entered, cleanup_rbuf_entered-sendmsg_returned,
  HasRoom,
}
use ebpf_docker_anormaly_det.TcpStats.Stored.{Holds, charge_at, add_member}
use ebpf_docker_anormaly_det.TcpStats.Stored.Charge.{charge_at-Holds}

-- CO-RE by definition: a load of the local size at the target's offset.
abbrev core_load : ℕ → Memory → Option Slot → Option Slot → Option ℕ
core_load base m l none = none
core_load base m none (some s) = none
core_load base m (some l) (some s) = some (load (size_of l.type) (base + s.start / 8) m)

abbrev core : CoreRead
core = record {
  read = λ local target x base m. core_load base m (find_in x local) (find_in x target);
  read_found = λ local target x base m l s e f p q. rw (e, f) refl;
  read_missing = λ local target x base m e. rw e refl;
}

-- A kernel whose task_struct has the two members in the other order, one inside an anonymous union.
abbrev other_task : Members
other_task =
    field "exit_code" (int signed w32)
    ⨾ field ""
        (union (field "start_boottime" (int unsigned w64) ⨾ field "pad" (int unsigned w8) ⨾ done))
    ⨾ done

other_task-DeclaresExit : DeclaresExit other_task
unfolding find size_of holder_of
other_task-DeclaresExit = record {
  start_boottime = record {
    slot = slot 64 64 (int unsigned w64) false;
    found = refl;
    addressable = refl;
    size = refl;
  };
  exit_code = record {
    slot = slot 0 32 (int signed w32) false;
    found = refl;
    addressable = refl;
    size = refl;
  };
  apart = λ e. omega (arith, e);
}

abbrev comm : List ℕ
comm = 115 ∷ 104 ∷ 0 ∷ 0 ∷ 0 ∷ 0 ∷ 0 ∷ 0 ∷ 0 ∷ 0 ∷ 0 ∷ 0 ∷ 0 ∷ 0 ∷ 0 ∷ 0 ∷ []

abbrev current : Current
current = record { cpu = 0; pid_tgid = 40 * 2 ^ 32 + 40; ktime_ns = 1000; task = 4096; comm = comm }

current-IsLeader : IsLeader current
current-IsLeader = record { leads = refl; ktime_ns = omega arith; comm = refl }

abbrev heap : PerCpuArray ProcExitEvent
heap = percpu_cell ProcExitEvent

abbrev empty_event : ProcExitEvent
empty_event = record { ts_ns = 0; start_time_ns = 0; tgid = 0; exit_code = 0; comm = comm }

abbrev blank : Memory
blank a = 0

reinterpret-exit_program_example :
    (sample : List ℕ) × (exit_program core
        (struct other_task)
        heap
        current
        (start_and_exit (struct other_task) 4096 900 139 blank)
        (λ c. empty_event)
      ≡ some (heap.store (λ c. empty_event) 0 0 (event_of current 900 139), some sample))
    × (reinterpret (sample ++ (7 ∷ [])) ≡ event_of current 900 139)
reinterpret-exit_program_example =
    reinterpret-exit_program core heap other_task other_task-DeclaresExit current current-IsLeader
      900 139 blank (λ c. empty_event) empty_event (7 ∷ []) (omega arith) (omega arith) refl

-- An event whose bytes count up from 1, at address 64.
abbrev counting : Memory
counting a = a - 63

reinterpret-read_member_example :
    (read_member proc_exit_event "ts_ns" 64 counting ≡ some (of_bytes 8 (bytes_at 40 64 counting)))
    × (read_member proc_exit_event "start_time_ns" 64 counting
        ≡ some (of_bytes 8 (drop 8 (bytes_at 40 64 counting))))
    × (read_member proc_exit_event "tgid" 64 counting
        ≡ some (of_bytes 4 (drop 16 (bytes_at 40 64 counting))))
    × (read_member proc_exit_event "exit_code" 64 counting
        ≡ some (of_bytes 4 (drop 20 (bytes_at 40 64 counting))))
    × ((s : Slot) × (find_in "comm" proc_exit_event ≡ some s)
        × (bytes_at (size_of s.type) (64 + s.start / 8) counting
            ≡ take 16 (drop 24 (bytes_at 40 64 counting))))
    × (size_of proc_exit_event ≡ 40)
unfolding reinterpret
reinterpret-read_member_example = reinterpret-read_member 64 counting

-- The kernel switches from task 100 to task 200.
abbrev acct : PerCpuHash CpuAcct zero_acct
acct = percpu_hash CpuAcct zero_acct 65536

trace_sched_switch-switch_record_example :
    trace_sched_switch acct 0 5000 (bytes_at 64 4096 (switch_record 4096 100 200 blank)) no_slots
    ≡ switch_in acct 0 5000 200 (switch_out acct 0 5000 100 no_slots)
trace_sched_switch-switch_record_example =
    trace_sched_switch-switch_record acct 0 5000 4096 100 200 blank no_slots (omega arith)
      (omega arith)

-- Registers, as the System V ABI for x86-64 assigns them.
abbrev or_zero : Option ℕ → ℕ
or_zero none = 0
or_zero (some n) = n

some-or_zero : (o : Option ℕ) (n : ℕ) → o ≡ some n → o ≡ some (or_zero o)
some-or_zero none n e = absurd (ground (arith, e))
some-or_zero (some k) n e = refl

register_declared :
    (x : String) (off : ℕ)
    → find x (members_of pt_regs) 0 ≡ some (slot off 64 (int unsigned w64) false)
    → Declares (members_of pt_regs) x 8
unfolding size_of
register_declared x off e = record {
  slot = slot off 64 (int unsigned w64) false;
  found = e;
  addressable = refl;
  size = refl;
}

abbrev register : String → ℕ → Memory → ℕ
register x ctx m = or_zero (read_member pt_regs x ctx m)

register_lem :
    (x : String) (ctx : ℕ) (m : Memory)
    → Declares (members_of pt_regs) x 8
    → read_member pt_regs x ctx m ≡ some (register x ctx m)
register_lem x ctx m d =
    some-or_zero (read_member pt_regs x ctx m) (load 8 (ctx + d.slot.start / 8) m)
      (read_member_lem (members_of pt_regs) x 8 d ctx m)

si_found : find "si" (members_of pt_regs) 0 ≡ some (slot 832 64 (int unsigned w64) false)
unfolding find
si_found = refl

ax_found : find "ax" (members_of pt_regs) 0 ≡ some (slot 640 64 (int unsigned w64) false)
unfolding find
ax_found = refl

abbrev regs : ProbeRegs
regs = record {
  parm2 = register "si";
  rc = register "ax";
  parm2_si = λ ctx m. register_lem "si" ctx m (register_declared "si" 832 si_found);
  rc_ax = λ ctx m. register_lem "ax" ctx m (register_declared "ax" 640 ax_found);
}

abbrev stats : PerCpuHash TcpStats zero_stats
stats = percpu_hash TcpStats zero_stats 10240

abbrev task : Task
task = record { cpu = 0; pid_tgid = 40 * 2 ^ 32 + 41 }

room : HasRoom stats task no_slots
unfolding value lookup
room = refl

-- 700 bytes received by process 40, and 700 sent, by the registers.
cleanup_rbuf_entered-sendmsg_returned_example :
    (read stats
        (cleanup_rbuf_entered regs stats task 4096
          (write_member pt_regs "si" (bits_of (pos 700) + 2 ^ 32 * 7) 4096 blank)
          no_slots)
        40
        0
      ≡ record zero_stats { bytes_rx = 700; pkts_rx = 1 })
    × (read stats
          (sendmsg_returned regs stats task 4096
            (write_member pt_regs "ax" (bits_of (pos 700) + 2 ^ 32 * 7) 4096 blank)
            no_slots)
          40
          0
        ≡ record zero_stats { bytes_tx = 700; pkts_tx = 1 })
unfolding value lookup
cleanup_rbuf_entered-sendmsg_returned_example =
    cleanup_rbuf_entered-sendmsg_returned regs stats task 4096 7 (pos 700) blank no_slots
      (omega arith) (omega arith) room 40 0

-- An entry of zeros is charged for 100 bytes sent.
blank-Holds : Holds 4096 zero_stats blank
unfolding read_member find_in load
blank-Holds = record {
  bytes_tx = refl;
  bytes_rx = refl;
  pkts_tx = refl;
  pkts_rx = refl;
  retransmits = refl;
}

charge_at-Holds_example : Holds 4096 (charge 100 0 0 zero_stats) (charge_at 100 0 0 4096 blank)
charge_at-Holds_example = charge_at-Holds 100 0 0 4096 zero_stats blank blank-Holds

-- The five counters after it.
charged : read_member tcp_stats "bytes_tx" 4096 (charge_at 100 0 0 4096 blank) ≡ some 100
unfolding read_member find_in load charge_at add_member write_member store
charged = refl
