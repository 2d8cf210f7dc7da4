-- ===== src/FeatureTests.antt =====
-- Runs of pkg/feature and of the agent's loop that feeds it, and the theorems about them at concrete inputs. Floating-point
-- numbers are natural numbers here.
use ebpf_docker_anormaly_det.Prelude.{
  none, ℕ, ◌+◌, ◌*◌, ◌/◌, ◌-◌, ◌≤◌, ◌≡◌, refl, true, false, Option, some, String, string_eq, List,
  [], ◌∷◌, arith, length, u64,
}
use ebpf_docker_anormaly_det.Prelude.Table.{lookup, keys, contains, distinct, is_some}
use ebpf_docker_anormaly_det.Feature.Types.{new_vector, Vector, Floats, Stats}
use ebpf_docker_anormaly_det.Feature.{new_accumulator, Aggregator, sample_cgroup}
use ebpf_docker_anormaly_det.Feature.Accounts.{
  proc_exits, proc_crashes, cpu_runtime_ns, exit, cpu, value, ingest, gain, value-ingest,
}
use ebpf_docker_anormaly_det.Feature.Window.{
  Step, ingests, ticks, run, reported, gains, of_container, run-conserves,
}
use ebpf_docker_anormaly_det.Feature.Tiling.{Tiles, count_ticks, run-Tiles}
use ebpf_docker_anormaly_det.Feature.Cgroup.{
  io_read, unit, reading, shown, shown-two_samples, windows, sum_shown, Rises, sum_shown-windows,
}
use ebpf_docker_anormaly_det.Syscalls.Counts.{zero_counts}
use ebpf_docker_anormaly_det.Feature.Encoder.{headers, digits, utoa, Formats, row as csv_row}
use ebpf_docker_anormaly_det.Feature.Encoder.Rows.{
  labelled, lookup-row, sessions, rows_of, sessions-file,
}
use ebpf_docker_anormaly_det.Collector.ProcExit.{Event}
use ebpf_docker_anormaly_det.Agent.Loop.{
  Message, event, cpu as cpu_message, dispatch_all, exits, by_signal, dispatch_all-exits,
}

abbrev floats : Floats
floats = record { Float = ℕ; of_u64 = λ n. n; mul = λ a b. a * b; div = λ a b. a / b }

-- A container that crashes twice and uses the processor, in two windows.
abbrev row : ℕ → ebpf_docker_anormaly_det.Collector.PidRuntime.Row
row n = record { pid = 40; container_id = "c1"; runtime_ns = n }

abbrev steps : List (Step floats)
steps =
    ingests (exit "c1" true)
    ∷ ingests (cpu (row 500 ∷ row 20 ∷ []))
    ∷ ticks 1030
    ∷ ingests (exit "c1" false)
    ∷ ingests (cpu (row 7 ∷ []))
    ∷ ticks 1060
    ∷ ingests (exit "c1" true)
    ∷ []

abbrev resolver : Option (String → String × String)
resolver = some λ cid. ("web", "nginx")

abbrev idle : Aggregator floats
idle = record { acc = ("c1", new_accumulator floats) ∷ []; window_start = some 1000 }

idle_distinct : distinct (keys idle.acc) ≡ true
unfolding distinct keys contains
idle_distinct = refl

idle_known : is_some (lookup "c1" idle.acc) ≡ true
unfolding lookup
idle_known = refl

value-ingest_example :
    u64 (value floats cpu_runtime_ns (ingest floats (cpu (row 500 ∷ row 20 ∷ [])) idle.acc) "c1")
    ≡ u64 (
        value floats cpu_runtime_ns idle.acc "c1"
        + gain floats cpu_runtime_ns "c1" (cpu (row 500 ∷ row 20 ∷ [])))
value-ingest_example =
    value-ingest floats cpu_runtime_ns (cpu (row 500 ∷ row 20 ∷ [])) idle.acc "c1"

run-conserves_example :
    u64 (
      reported floats cpu_runtime_ns "c1" (run floats resolver 30 steps idle).0
      + value floats cpu_runtime_ns (run floats resolver 30 steps idle).1.acc "c1")
    ≡ u64 (value floats cpu_runtime_ns idle.acc "c1" + gains floats cpu_runtime_ns "c1" steps)
run-conserves_example =
    run-conserves floats resolver 30 cpu_runtime_ns "c1" steps idle idle_distinct

run-Tiles_example :
    Tiles floats 1000 (of_container floats "c1" (run floats resolver 30 steps idle).0)
    × (length (of_container floats "c1" (run floats resolver 30 steps idle).0)
        ≡ count_ticks floats steps)
run-Tiles_example = run-Tiles floats resolver 30 "c1" 1000 steps idle idle_distinct idle_known refl

-- A sample with `n` bytes read from disk.
abbrev sample : ℕ → Stats floats
sample n = record {
  usage_usec = 10 * n;
  nr_periods = 4;
  nr_throttled = 1;
  current = 5000000;
  oom_kill = 0;
  some_avg10 = 0;
  rbytes = n;
  wbytes = 0;
}

shown-two_samples_example :
    shown floats io_read
      (sample_cgroup floats "web" "nginx"
        (sample 9000000)
        (sample_cgroup floats "web" "nginx" (sample 7000000) (new_accumulator floats))).v
    ≡ (reading floats io_read (sample 9000000) - reading floats io_read (sample 7000000))
      / unit io_read
shown-two_samples_example =
    shown-two_samples floats io_read "web" "nginx" (sample 7000000) (sample 9000000)
      (new_accumulator floats) (omega arith)

abbrev samples : List (ℕ × Stats floats)
samples = (1030, sample 7000000) ∷ (1060, sample 9000000) ∷ []

Rises-samples : Rises floats io_read 0 samples
Rises-samples = (omega arith, (omega arith, tt))

sum_shown-windows_example :
    (sum_shown floats io_read
            (windows floats resolver 30 "c1" "web" "nginx" samples (new_accumulator floats))
          * 1048576
        + 0
      ≤ 9000000)
    × (9000000
        ≤ sum_shown floats io_read
              (windows floats resolver 30 "c1" "web" "nginx" samples (new_accumulator floats))
            * 1048576
          + 0
          + length samples * 1048576)
sum_shown-windows_example =
    sum_shown-windows floats resolver 30 "c1" "web" "nginx" io_read samples (new_accumulator floats)
      Rises-samples

abbrev formats : Formats floats
formats = record { time = λ t. "2026-01-02T03:04:05"; is_zero = λ f. true; fixed = λ f. "1.0000" }

abbrev busy : Vector floats
busy = record (new_vector floats) { proc_exits = 407; sys = record zero_counts { file_open = 12 } }

utoa_407 : utoa 407 ≡ "407"
unfolding utoa digits
utoa_407 = refl

lookup-row_example :
    lookup "proc_exits" (labelled headers (csv_row floats formats busy)) ≡ some (utoa 407)
lookup-row_example = lookup-row floats formats proc_exits busy

sessions-file_example :
    sessions floats formats ((busy ∷ []) ∷ (busy ∷ busy ∷ []) ∷ []) none
    ≡ some (headers ∷ rows_of floats formats ((busy ∷ []) ∷ (busy ∷ busy ∷ []) ∷ []))
sessions-file_example = sessions-file floats formats (busy ∷ []) ((busy ∷ busy ∷ []) ∷ [])

-- A crash and an exit of a container, and a crash elsewhere.
abbrev died : String → ℕ → Event
died cid code = record {
  ts = 1000;
  start_time = 900;
  tgid = 40;
  exit_code = code;
  comm = [];
  container_id = cid;
}

-- Two deaths by a signal, and an exit with status 1.
abbrev messages : List Message
messages =
    event (died "c1" 139)
    ∷ cpu_message (row 5 ∷ [])
    ∷ event (died "c1" 256)
    ∷ event (died "c2" 9)
    ∷ []

crashes_c1 : exits by_signal "c1" messages ≡ 1
crashes_c1 = refl

dispatch_all-exits_example :
    (u64 (value floats proc_exits (dispatch_all floats messages idle.acc) "c1")
      ≡ u64 (value floats proc_exits idle.acc "c1" + exits (λ code. true) "c1" messages))
    × (u64 (value floats proc_crashes (dispatch_all floats messages idle.acc) "c1")
        ≡ u64 (value floats proc_crashes idle.acc "c1" + exits by_signal "c1" messages))
dispatch_all-exits_example = dispatch_all-exits floats messages idle.acc "c1"
