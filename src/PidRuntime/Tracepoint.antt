-- ===== src/PidRuntime/Tracepoint.antt =====
-- The record of a sched_switch event in the kernel's memory, and the program of
-- bpf/pid_runtime.bpf.c that reads it by fixed offsets.
use ebpf_docker_anormaly_det.Prelude.{ℕ, ◌^◌, ◌<◌, ◌≡◌, ◌≢◌, ◌∙◌, arith, some, refl, sym, false}
use mathlib.Core.Option.{some-injective}
use ebpf_docker_anormaly_det.CTypes.{Members, find, members_of, size_of, holder_of, slot}
use ebpf_docker_anormaly_det.Vmlinux.Words.{pid_t}
use ebpf_docker_anormaly_det.Vmlinux.Tracepoints.{trace_event_raw_sched_switch}
use ebpf_docker_anormaly_det.Memory.{Memory}
use ebpf_docker_anormaly_det.Memory.Fields.{
  Declares, read_member, write_member, read_member-write_member, read_member-write_other,
  read_member_lem,
}
use ebpf_docker_anormaly_det.Memory.Bytes.{bytes_at, of_bytes-drop}
use ebpf_docker_anormaly_det.Kernel.{PerCpuHash}
use ebpf_docker_anormaly_det.PidRuntime.{
  CpuAcct, zero_acct, off_prev_pid, off_next_pid, probe_read_u32, switch_out, switch_in,
  trace_sched_switch,
}

-- The record's direct members.
abbrev record_members : Members
record_members = members_of trace_event_raw_sched_switch

prev_pid_declared : Declares record_members "prev_pid" 4
unfolding find size_of
prev_pid_declared = record {
  slot = slot 192 32 pid_t false;
  found = refl;
  addressable = refl;
  size = refl;
}

next_pid_declared : Declares record_members "next_pid" 4
unfolding find size_of
next_pid_declared = record {
  slot = slot 448 32 pid_t false;
  found = refl;
  addressable = refl;
  size = refl;
}

pids_apart : holder_of "prev_pid" record_members 0 ≢ holder_of "next_pid" record_members 0
unfolding holder_of
pids_apart e = omega (arith, e)

-- The offsets that the program has as constants are those of the record's declaration: from any
-- memory, it reads the pids of the record at `ctx`.
pub probe_read-read_member :
    (ctx : ℕ) (m : Memory)
    → (read_member trace_event_raw_sched_switch "prev_pid" ctx m
        ≡ some (probe_read_u32 (bytes_at 64 ctx m) off_prev_pid))
      × (read_member trace_event_raw_sched_switch "next_pid" ctx m
          ≡ some (probe_read_u32 (bytes_at 64 ctx m) off_next_pid))
unfolding probe_read_u32 prev_pid_declared next_pid_declared
probe_read-read_member ctx m = (
  rw
      (
        read_member_lem record_members "prev_pid" 4 prev_pid_declared ctx m,
        of_bytes-drop 4 24 64 ctx m (omega arith),
      )
      refl,
  rw
      (
        read_member_lem record_members "next_pid" 4 next_pid_declared ctx m,
        of_bytes-drop 4 56 64 ctx m (omega arith),
      )
      refl,
)

-- The kernel fills the record of a switch.
unfoldable pub switch_record : ℕ → ℕ → ℕ → Memory → Memory
switch_record ctx prev next m =
    write_member trace_event_raw_sched_switch "next_pid" next ctx
      (write_member trace_event_raw_sched_switch "prev_pid" prev ctx m)

-- Of a record that the kernel filled with the pids of two tasks, at any address, the program charges
-- the first as the task that stops and starts the second.
pub trace_sched_switch-switch_record :
    (acct : PerCpuHash CpuAcct zero_acct) (cpu now ctx prev next : ℕ) (mem : Memory) (m : acct.Map)
    → prev < 2 ^ 32
    → next < 2 ^ 32
    → trace_sched_switch acct cpu now (bytes_at 64 ctx (switch_record ctx prev next mem)) m
      ≡ switch_in acct cpu now next (switch_out acct cpu now prev m)
unfolding trace_sched_switch switch_record
trace_sched_switch-switch_record acct cpu now ctx prev next mem m h l =
    let one = write_member trace_event_raw_sched_switch "prev_pid" prev ctx mem in
    let two = write_member trace_event_raw_sched_switch "next_pid" next ctx one in
    let (p, n) = probe_read-read_member ctx two in
    let p' =
      read_member-write_other record_members "next_pid" "prev_pid" 4 4 next_pid_declared
        prev_pid_declared ctx next one (λ e. pids_apart (sym e))
      ∙ read_member-write_member record_members "prev_pid" 4 prev_pid_declared ctx prev mem h in
    let n' =
      read_member-write_member record_members "next_pid" 4 next_pid_declared ctx next one l in
    rw
      (
        some-injective (probe_read_u32 (bytes_at 64 ctx two) off_prev_pid) prev (sym p ∙ p'),
        some-injective (probe_read_u32 (bytes_at 64 ctx two) off_next_pid) next (sym n ∙ n'),
      )
      refl
