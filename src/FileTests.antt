-- ===== src/FileTests.antt =====
-- Runs of the parsers of files below /proc and /sys/fs/cgroup, of the round over the containers'
-- cgroups, and of the aggregator's loop until it stops, and the theorems about them at concrete inputs.
use ebpf_docker_anormaly_det.Prelude.{
  ℕ, ◌*◌, ◌/◌, ◌≡◌, refl, true, String, none, some, List, [], ◌∷◌, inl, arith, string_eq, ◌==◌,
  if◌then◌else◌, All, nat_eq, Option, ◌||◌, ◌≤◌, false,
}
use ebpf_docker_anormaly_det.Prelude.Table.{lookup, keys, distinct, contains, is_some, insert}
use ebpf_docker_anormaly_det.Feature.Encoder.{utoa, digits}
use ebpf_docker_anormaly_det.CgroupFiles.{
  scan, drop_cr, read_cpu_stat, lines_from, fields_from, parse_from, oom_lines, oom_line,
}
use ebpf_docker_anormaly_det.CgroupFiles.Fields.{is_plain, IsWord}
use ebpf_docker_anormaly_det.CgroupFiles.Files.{pair_file, periods, read_cpu_stat-pair_file}
use ebpf_docker_anormaly_det.CgroupFiles.Memory.{
  read_pressure, read_memory, read_current, read_max, read_oom_kill, trim_left, trim_right,
}
use ebpf_docker_anormaly_det.CgroupFiles.Snapshot.{Files}
use ebpf_docker_anormaly_det.Resolver.{Info}
use ebpf_docker_anormaly_det.Resolver.ProcFiles.{nth, read_start_time_ticks}
use ebpf_docker_anormaly_det.Resolver.ProcFiles.StartTime.{
  stat_line, read_start_time_ticks-stat_line,
}
use ebpf_docker_anormaly_det.Resolver.CgroupProcs.{
  procs_file, systemd_procs, read_cgroup_procs, read_cgroup_procs-procs_file,
}
use ebpf_docker_anormaly_det.Resolver.ContainerId.{
  match_lines, match_here, match_kind, behind, behind_separator, take_hex, is_hexes, is_unmatched,
  cgroup_line, match_lines-cgroup_line,
}
use ebpf_docker_anormaly_det.Feature.Types.{Floats}
use ebpf_docker_anormaly_det.Feature.{
  Aggregator, new_accumulator, tick, run_tick, finalize, ingest_exit, update_acc,
}
use ebpf_docker_anormaly_det.Feature.Accounts.{exit, ingest}
use ebpf_docker_anormaly_det.Feature.Window.{run}
use ebpf_docker_anormaly_det.Feature.Stop.{
  Loop, start, Action, call, close, receive, tick as tick_at, emit, send, finish, quit, step, steps,
}
use ebpf_docker_anormaly_det.Feature.Stop.Steps.{all_of, calls_and_ticks, steps-run, step-call}
use ebpf_docker_anormaly_det.Feature.Stop.Returns.{
  own_steps, work_of, has_returned, can_go_on, steps-returns,
}
use ebpf_docker_anormaly_det.Agent.Cgroups.{poll_cgroup, sampled, lookup-poll_cgroup}

abbrev floats : Floats
floats = record { Float = ℕ; of_u64 = λ n. n; mul = λ a b. a * b; div = λ a b. a / b }

-- No float is parsed here.
abbrev no_float : String → ℕ
no_float s = 0

abbrev counters : List (String × ℕ)
counters = ("usage_usec", 1500) ∷ ("nr_bursts", 3) ∷ ("nr_periods", 4) ∷ []

read_cpu_stat-pair_file_example : (read_cpu_stat (some (pair_file counters))).nr_periods ≡ 4
unfolding is_plain utoa digits
read_cpu_stat-pair_file_example =
    read_cpu_stat-pair_file counters
      (
        ((refl, refl), omega arith, omega arith),
        (((refl, refl), omega arith, omega arith), (((refl, refl), omega arith, omega arith), tt)),
      )
      periods

memory :
    read_memory floats no_float 0
      (some "5242880\n")
      (some "max\n")
      none
      (some "low 0\noom_kill 2\n")
    ≡ record {
      current = 5242880;
      max = 0;
      oom_kill = 2;
      pressure = read_pressure floats no_float 0 none;
    }
unfolding read_memory read_current read_max read_oom_kill trim_left trim_right parse_from lines_from
    scan drop_cr oom_lines oom_line fields_from
memory = refl

-- A process whose name is `a) b (c`.
abbrev words : List String
words =
    "S"
    ∷ "1"
    ∷ "1"
    ∷ "1"
    ∷ "0"
    ∷ "-1"
    ∷ "4194560"
    ∷ "0"
    ∷ "0"
    ∷ "0"
    ∷ "0"
    ∷ "0"
    ∷ "0"
    ∷ "0"
    ∷ "0"
    ∷ "20"
    ∷ "0"
    ∷ "1"
    ∷ "0"
    ∷ utoa 987
    ∷ []

words-IsWord : All IsWord words
unfolding is_plain utoa digits
words-IsWord = (
  (refl, refl),
  (
    (refl, refl),
    (
      (refl, refl),
      (
        (refl, refl),
        (
          (refl, refl),
          (
            (refl, refl),
            (
              (refl, refl),
              (
                (refl, refl),
                (
                  (refl, refl),
                  (
                    (refl, refl),
                    (
                      (refl, refl),
                      (
                        (refl, refl),
                        (
                          (refl, refl),
                          (
                            (refl, refl),
                            (
                              (refl, refl),
                              (
                                (refl, refl),
                                ((refl, refl), ((refl, refl), ((refl, refl), ((refl, refl), tt)))),
                              ),
                            ),
                          ),
                        ),
                      ),
                    ),
                  ),
                ),
              ),
            ),
          ),
        ),
      ),
    ),
  ),
)

read_start_time_ticks-stat_line_example :
    read_start_time_ticks (some (stat_line "40" "a) b (c" words)) ≡ some 987
unfolding is_plain nth utoa digits
read_start_time_ticks-stat_line_example =
    read_start_time_ticks-stat_line "40" "a) b (c" words 987 words-IsWord refl (omega arith)

abbrev procs : Files
procs = record {
  is_there = λ path. true;
  read = λ path. if path == systemd_procs "abc" then some (procs_file (7 ∷ 4123 ∷ [])) else none;
}

read_cgroup_procs-procs_file_example : read_cgroup_procs procs "abc" ≡ 7 ∷ 4123 ∷ []
read_cgroup_procs-procs_file_example =
    read_cgroup_procs-procs_file procs "abc" (7 ∷ 4123 ∷ []) (omega arith, (omega arith, tt))
      (inl refl)

abbrev cid : String
cid = "0123456789abcdef0123456789abcdef0123456789abcdef0123456789abcdef"

match_lines-cgroup_line_example :
    match_lines (cgroup_line "0::/system.slice/" "-" cid ".scope" ∷ []) ≡ cid
unfolding is_hexes is_unmatched match_here match_kind behind behind_separator take_hex
match_lines-cgroup_line_example =
    match_lines-cgroup_line "0::/system.slice/" cid ".scope" "-" [] refl refl refl

abbrev web : Info
web = record {
  id = "abc";
  short_id = "abc";
  name = "web";
  image = "nginx";
  state = "running";
  pid = 40;
  started_at = 0;
}

lookup-poll_cgroup_example :
    lookup "abc" (poll_cgroup floats no_float 0 "/sys/fs/cgroup" procs (("abc", web) ∷ []) [])
    ≡ sampled floats no_float 0 "/sys/fs/cgroup" procs "abc" (some web) none
unfolding distinct keys contains lookup
lookup-poll_cgroup_example =
    lookup-poll_cgroup floats no_float 0 "/sys/fs/cgroup" procs "abc" (("abc", web) ∷ []) [] refl

abbrev idle : Aggregator floats
idle = record { acc = ("abc", new_accumulator floats) ∷ []; window_start = some 1000 }

-- A tick whose vector is sent, a call, and a tick whose vector is left when the stop channel is closed.
abbrev begun : List (Action floats)
begun =
    tick_at 1030
    ∷ emit
    ∷ send
    ∷ finish
    ∷ call (exit "abc" true)
    ∷ receive
    ∷ tick_at 1060
    ∷ emit
    ∷ close
    ∷ []

abbrev or_start : Option (Loop floats) → Loop floats
or_start none = start idle
or_start (some l) = l

abbrev closed : Loop floats
closed = or_start (steps floats none 30 1 begun (start idle))

closed_reached : steps floats none 30 1 begun (start idle) ≡ some closed
unfolding steps step run_tick tick finalize ingest ingest_exit update_acc
closed_reached = refl

steps-run_example :
    all_of floats none 30 closed ≡ (run floats none 30 (calls_and_ticks begun) idle).0
steps-run_example = steps-run floats none 30 1 begun idle closed closed_reached

step-call_example :
    (is_some (steps floats none 30 1 (call (exit "abc" false) ∷ []) closed)
      || is_some (steps floats none 30 1 (emit ∷ call (exit "abc" false) ∷ []) closed))
    ≡ true
step-call_example = step-call floats none 30 1 begun idle closed closed_reached (exit "abc" false)

abbrev ended : Loop floats
ended = or_start (steps floats none 30 1 (quit ∷ []) closed)

stop_is_closed : closed.2.stop_closed ≡ true
unfolding steps step run_tick tick finalize ingest ingest_exit update_acc insert
stop_is_closed = refl

ended_reached : steps floats none 30 1 (quit ∷ []) closed ≡ some ended
unfolding steps step run_tick tick finalize ingest ingest_exit update_acc insert
ended_reached = refl

steps-returns_example :
    (own_steps {fl = floats} (quit ∷ []) ≤ work_of floats none 30 closed)
    × ((has_returned ended || can_go_on floats none 30 1 ended) ≡ true)
    × (has_returned ended ≡ true)
steps-returns_example =
    steps-returns floats none 30 1 begun idle closed closed_reached (quit ∷ []) ended stop_is_closed
      (refl, tt) ended_reached
