-- ===== src/PidRuntimeTests.antt =====
-- Runs of bpf/pid_runtime.bpf.c and of its poller on a small map, and the theorems about them at
-- concrete inputs.
use ebpf_docker_anormaly_det.Prelude.{
  nat_eq, ℕ, ◌+◌, ◌<◌, ◌^◌, ◌≡◌, refl, String, List, [], ◌∷◌, arith, add64, All,
}
use ebpf_docker_anormaly_det.Prelude.Table.{lookup, insert, contains}
use ebpf_docker_anormaly_det.Kernel.{PerCpuHash}
use ebpf_docker_anormaly_det.Kernel.Room.{EntriesAmong, read}
use ebpf_docker_anormaly_det.KernelModel.{percpu_hash, no_slots, value, create, put_slots}
use ebpf_docker_anormaly_det.PidRuntime.{CpuAcct, zero_acct, switch_in}
use ebpf_docker_anormaly_det.PidRuntime.Record.{SchedSwitch, IsRecord}
use ebpf_docker_anormaly_det.PidRuntime.Timeline.{
  Switch, Running, Tracks, Follows, slices, IsKnown, run_switches, run_switches-slices,
}
use ebpf_docker_anormaly_det.Collector.PidRuntime.{collect, sum_cpus}
use ebpf_docker_anormaly_det.Collector.PidRuntime.Conservation.{
  run_time, total_of, poll_all, Grows, last_total, run_time-poll_all,
}

abbrev acct : PerCpuHash CpuAcct zero_acct
acct = percpu_hash CpuAcct zero_acct 65536

abbrev comm : List ℕ
comm = 115 ∷ 104 ∷ 0 ∷ 0 ∷ 0 ∷ 0 ∷ 0 ∷ 0 ∷ 0 ∷ 0 ∷ 0 ∷ 0 ∷ 0 ∷ 0 ∷ 0 ∷ 0 ∷ []

-- The record of a switch from task `p` to task `n`.
abbrev record_of : ℕ → ℕ → SchedSwitch
record_of p n = record {
  ent = record { type = 314; flags = 1; preempt_count = 2; pid = p };
  prev_comm = comm;
  prev_pid = p;
  prev_prio = 120;
  prev_state = 1;
  next_comm = comm;
  next_pid = n;
  next_prio = 120;
}

record_of-IsRecord : (p n : ℕ) → p < 2 ^ 32 → n < 2 ^ 32 → IsRecord (record_of p n)
record_of-IsRecord p n h k = record {
  prev_comm = refl;
  next_comm = refl;
  prev_pid = h;
  next_pid = k;
}

abbrev switch_at : ℕ → ℕ → ℕ → ℕ → Switch
switch_at cpu now p n = record { cpu = cpu; now = now; event = record_of p n }

-- Task 100 runs on processor 0 since time 50; it makes way for task 200 and comes back.
abbrev switches : List Switch
switches =
    switch_at 0 80 100 200
    ∷ switch_at 1 85 0 300
    ∷ switch_at 0 90 200 100
    ∷ switch_at 0 95 100 0
    ∷ []

abbrev first : Running
first = record { pid = 100; since = 50 }

abbrev start : acct.Map
start = switch_in acct 0 50 100 no_slots

abbrev tasks : List ℕ
tasks = 100 ∷ 200 ∷ 300 ∷ 0 ∷ []

EntriesAmong-start : EntriesAmong acct tasks start
unfolding value lookup switch_in create put_slots insert contains
EntriesAmong-start k c s h = ground arith

known_switches : All (IsKnown acct tasks (omega arith)) switches
unfolding contains
known_switches = (
  (record_of-IsRecord 100 200 (omega arith) (omega arith), refl),
  (
    (record_of-IsRecord 0 300 (omega arith) (omega arith), refl),
    (
      (record_of-IsRecord 200 100 (omega arith) (omega arith), refl),
      ((record_of-IsRecord 100 0 (omega arith) (omega arith), refl), tt),
    ),
  ),
)

Tracks-start : Tracks acct start 0 first
unfolding value lookup switch_in create put_slots insert
Tracks-start nonzero = (record { last_start_ns = 50; runtime_ns = 0 }, refl, refl)

Follows-switches : Follows 0 first switches
Follows-switches = ground arith

start_word : (read acct start 100 0).runtime_ns < 2 ^ 64
unfolding value lookup switch_in create put_slots insert
start_word = omega arith

run_switches-slices_example :
    (read acct (run_switches acct switches start) 100 0).runtime_ns
    ≡ add64 (read acct start 100 0).runtime_ns (slices 100 0 first switches)
run_switches-slices_example =
    run_switches-slices acct tasks (omega arith) switches start 100 0 first EntriesAmong-start
      known_switches (omega arith) Tracks-start Follows-switches start_word

abbrev resolve : ℕ → String
resolve pid = "c1"

abbrev acct_of : ℕ → CpuAcct
acct_of n = record { last_start_ns = 0; runtime_ns = n }

-- Three polls, between which task 100 runs and task 7 comes and goes.
abbrev polls : List (List (ℕ × List CpuAcct))
polls =
    ((100, acct_of 30 ∷ acct_of 1 ∷ []) ∷ [])
    ∷ ((7, acct_of 5 ∷ acct_of 0 ∷ []) ∷ (100, acct_of 35 ∷ acct_of 1 ∷ []) ∷ [])
    ∷ ((100, acct_of 40 ∷ acct_of 9 ∷ []) ∷ [])
    ∷ []

abbrev second : List (ℕ × List CpuAcct)
second = (100, acct_of 35 ∷ acct_of 1 ∷ []) ∷ []

Grows-polls : Grows 100 (total_of 100 []) polls
unfolding collect lookup insert sum_cpus
Grows-polls = ground arith

run_time-poll_all_example :
    run_time 100 (poll_all resolve polls []).1 + total_of 100 []
    ≡ last_total 100 (total_of 100 []) polls
run_time-poll_all_example = run_time-poll_all resolve 100 polls [] Grows-polls
