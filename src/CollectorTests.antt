-- ===== src/CollectorTests.antt =====
-- Runs of the readers of exit events and of system call histograms in pkg/collector, and the
-- theorems about them at concrete inputs.
use ebpf_docker_anormaly_det.Prelude.{
  nat_eq, ℕ, ◌+◌, ◌*◌, ◌≤◌, ◌^◌, ◌≡◌, refl, String, List, [], ◌∷◌, arith, eqb, if◌then◌else◌,
  string_eq, true, false, not, some, ◌==◌,
}
use text.Mathlib.TextEquality.{eq_iff}
use ebpf_docker_anormaly_det.Prelude.Table.{Table, lookup, insert}
use ebpf_docker_anormaly_det.Kernel.{PerCpuArray}
use ebpf_docker_anormaly_det.KernelModel.{percpu_cell}
use ebpf_docker_anormaly_det.ProcExit.{ProcExitEvent, Exiting, handle_all}
use ebpf_docker_anormaly_det.Collector.ProcExit.{Event, signal, status, reinterpret}
use ebpf_docker_anormaly_det.Collector.ProcExit
use ebpf_docker_anormaly_det.Prelude.Int.{ℤ}
use ebpf_docker_anormaly_det.Collector.Lifecycle.{
  Env, nothing, probes, new_syscalls, new_pidruntime, new_procexit, new_tcpstats, attach_one,
  load_then, check_resolve, check_tick, open_reader, attach_probes, IsClean, attach, perf_reader,
}
use ebpf_docker_anormaly_det.Collector.Lifecycle.Release.{new-IsClean}
use ebpf_docker_anormaly_det.Collector.ProcExit.Layout.{IsEvent}
use ebpf_docker_anormaly_det.Collector.ProcExit.Delivery.{
  IsTask, exit_event, reads, run-handle_all, Death, killed, signal-status,
}
use ebpf_docker_anormaly_det.Collector.ProcExit.Delivery
use ebpf_docker_anormaly_det.Syscalls.Counts.{
  Category, SyscallCounts, zero_counts, file_open, bucket,
}
use ebpf_docker_anormaly_det.Collector.Syscalls.{Collector, collect, sum_cpus, add_counts}
use ebpf_docker_anormaly_det.Collector.Syscalls.Poll.{totals}
use ebpf_docker_anormaly_det.Collector.Syscalls.Rows.{Grows, Owns, reported, total_of}
use ebpf_docker_anormaly_det.Collector.Syscalls.Conservation.{
  poll_all, last_total, reported-poll_all,
}

abbrev comm : List ℕ
comm = 115 ∷ 104 ∷ 0 ∷ 0 ∷ 0 ∷ 0 ∷ 0 ∷ 0 ∷ 0 ∷ 0 ∷ 0 ∷ 0 ∷ 0 ∷ 0 ∷ 0 ∷ 0 ∷ []

abbrev event : ProcExitEvent
event = record { ts_ns = 1000; start_time_ns = 900; tgid = 40; exit_code = 139; comm = comm }

event-IsEvent : IsEvent event
event-IsEvent = record {
  ts_ns = omega arith;
  start_time_ns = omega arith;
  tgid = omega arith;
  exit_code = omega arith;
  comm = refl;
}

abbrev heap : PerCpuArray ProcExitEvent
heap = percpu_cell ProcExitEvent

-- A thread group leader, one of its threads, and a process of the host.
abbrev exiting : ℕ → ℕ → ℕ → Exiting
exiting tgid tid code = record {
  cpu = 0;
  pid_tgid = tgid * 2 ^ 32 + tid;
  ktime_ns = 1000;
  start_boottime = 900;
  exit_code = code;
  comm = comm;
}

abbrev exits : List Exiting
exits = exiting 40 41 0 ∷ exiting 40 40 139 ∷ exiting 7 7 256 ∷ []

exiting-IsTask : (tgid tid code : ℕ) → IsTask (exiting tgid tid code)
exiting-IsTask tgid tid code = record {
  ktime_ns = omega arith;
  start_boottime = omega arith;
  comm = refl;
}

abbrev resolve : ℕ → String
resolve pid = if eqb pid 40 then "c1" else ""

run-handle_all_example :
    ProcExit.run resolve (reads resolve (0 ∷ []) (handle_all heap exits (λ cpu. event)))
    ≡ Delivery.reported resolve exits
run-handle_all_example =
    run-handle_all resolve heap (omega arith) (0 ∷ []) exits (λ cpu. event)
      (exiting-IsTask 40 41 0, (exiting-IsTask 40 40 139, (exiting-IsTask 7 7 256, tt)))

abbrev crash : Event
crash = exit_event resolve (exiting 40 40 139)

-- Two containers.
abbrev names : Table ℕ String
names = (0, "c1") ∷ (1, "c2") ∷ []

abbrev opens : ℕ → SyscallCounts
opens n = record zero_counts { total = n; file_open = n }

abbrev collector : Collector
collector = record { idx_to_cid = names; prev_seen = (0, opens 3) ∷ [] }

abbrev iterated : List (ℕ × List SyscallCounts)
iterated = (0, opens 4 ∷ opens 1 ∷ []) ∷ (1, opens 0 ∷ opens 0 ∷ []) ∷ []

names-Owns : Owns names "c1" 0
unfolding lookup
names-Owns = record {
  named = (λ e. ground (arith, eq_iff "c1" "", e));
  owner = refl;
  only = λ j h. ground (arith, eq_iff "c2" "c1");
}

opens_le : (n m : ℕ) → n ≤ m → (b : Category) → bucket (opens n) b ≤ bucket (opens m) b
opens_le n m h file_open = h
opens_le n m h _ = omega arith

first-Grows : Grows (total_of 0 collector.prev_seen) (total_of 0 (totals iterated))
unfolding lookup collect insert sum_cpus add_counts
first-Grows = record {
  buckets = opens_le 3 5 (omega arith);
  total_before = refl;
  total_after = refl;
}

reported-poll_all_example :
    reported "c1" file_open (poll_all (iterated ∷ []) collector).1
      + bucket (total_of 0 collector.prev_seen) file_open
    ≡ bucket (last_total 0 (total_of 0 collector.prev_seen) (iterated ∷ [])) file_open
reported-poll_all_example =
    reported-poll_all "c1" 0 file_open (iterated ∷ []) collector names-Owns (first-Grows, tt)

-- A kernel without `tcp_retransmit_skb`, and a buffer that cannot be opened.
abbrev strict : Env
strict = record {
  has_resolve = true;
  tick = ℤ.pos 5;
  memlock_ok = true;
  loads = true;
  attaches = λ name. not (name == "kprobe tcp_retransmit_skb");
  reader_ok = false;
}

new_tcpstats-strict :
    new_tcpstats strict nothing ≡ (some (attach "kprobe tcp_retransmit_skb"), nothing)
unfolding new_tcpstats check_resolve check_tick load_then attach_probes
new_tcpstats-strict = refl

new_procexit-strict : new_procexit strict nothing ≡ (some perf_reader, nothing)
unfolding new_procexit check_resolve load_then attach_one open_reader
new_procexit-strict = refl

new-IsClean_example :
    IsClean ("raw_tracepoint sys_enter" ∷ []) false (new_syscalls strict nothing)
    × IsClean ("tracepoint sched_switch" ∷ []) false (new_pidruntime strict nothing)
    × IsClean ("tracepoint sched_process_exit" ∷ []) true (new_procexit strict nothing)
    × IsClean probes false (new_tcpstats strict nothing)
new-IsClean_example = new-IsClean strict
