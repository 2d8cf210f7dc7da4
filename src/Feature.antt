-- ===== src/Feature.antt =====
-- The aggregator of feature vectors, pkg/feature/aggregator.go: accumulators for each container,
-- the ingest methods that collectors feed, and the tick of a window. The mutex makes each method
-- one step. Floating-point numbers are a parameter.
pub mod Stop
pub mod Types
pub mod Accounts
pub mod Members
pub mod Window
pub mod Cgroup
pub mod Tiling
pub mod Encoder
use ebpf_docker_anormaly_det.Prelude.{
  ℕ, ◌-◌, ◌/◌, Bool, true, false, not, ◌&&◌, String, Option, none, some, List, [], ◌∷◌, string_eq,
  ◌==◌, leb, ltb, if◌then◌else◌, add64,
}
use ebpf_docker_anormaly_det.Prelude.Table.{Table, lookup, insert}
use ebpf_docker_anormaly_det.Syscalls.Counts.{SyscallCounts, zero_counts}
use ebpf_docker_anormaly_det.Collector.Syscalls
use ebpf_docker_anormaly_det.Collector.Syscalls.{add_counts}
use ebpf_docker_anormaly_det.Collector.TcpStats
use ebpf_docker_anormaly_det.Collector.PidRuntime
use ebpf_docker_anormaly_det.Feature.Types.{Floats, Stats, Vector, new_vector}

module _ (fl : Floats) where
  -- A container's vector of the current window, and the cumulative counters of its last sample.
  pub record Accumulator : Type 0 where
    pub v : Vector fl
    pub prev_cpu_usage_usec : ℕ
    pub prev_io_read : ℕ
    pub prev_io_write : ℕ

  -- `&accumulator{}`
  abbrev pub new_accumulator : Accumulator
  new_accumulator = record {
    v = new_vector fl;
    prev_cpu_usage_usec = 0;
    prev_io_read = 0;
    prev_io_write = 0;
  }

  -- The field `acc` of the aggregator, by container id; the host's is "".
  abbrev pub Accounts : Type 0
  Accounts = Table String Accumulator

  abbrev pub or_new : Option Accumulator → Accumulator
  or_new none = new_accumulator
  or_new (some ac) = ac

  -- `accFor`, and the write through the pointer that it returns.
  unfoldable pub update_acc : String → (Accumulator → Accumulator) → Accounts → Accounts
  update_acc cid f acc = insert cid (f (or_new (lookup cid acc))) acc

  abbrev pub on_vector : (Vector fl → Vector fl) → Accumulator → Accumulator
  on_vector f ac = record ac { v = f ac.v }

  abbrev pub add_exit : Bool → Accumulator → Accumulator
  add_exit crash = on_vector λ v. record v {
    proc_exits = add64 v.proc_exits 1;
    proc_crashes = if crash then add64 v.proc_crashes 1 else v.proc_crashes;
  }

  unfoldable pub ingest_exit : String → Bool → Accounts → Accounts
  ingest_exit container_id crash = update_acc container_id (add_exit crash)

  abbrev pub add_tcp : TcpStats.Row → Accumulator → Accumulator
  add_tcp row = on_vector λ v. record v {
    tcp_bytes_tx = add64 v.tcp_bytes_tx row.stats.bytes_tx;
    tcp_bytes_rx = add64 v.tcp_bytes_rx row.stats.bytes_rx;
    tcp_retrans = add64 v.tcp_retrans row.stats.retransmits;
  }

  unfoldable pub ingest_tcp : List TcpStats.Row → Accounts → Accounts
  ingest_tcp [] acc = acc
  ingest_tcp (row ∷ rows) acc = ingest_tcp rows (update_acc row.container_id (add_tcp row) acc)

  abbrev pub add_cpu : PidRuntime.Row → Accumulator → Accumulator
  add_cpu row = on_vector λ v. record v { cpu_runtime_ns = add64 v.cpu_runtime_ns row.runtime_ns }

  unfoldable pub ingest_cpu : List PidRuntime.Row → Accounts → Accounts
  ingest_cpu [] acc = acc
  ingest_cpu (row ∷ rows) acc = ingest_cpu rows (update_acc row.container_id (add_cpu row) acc)

  abbrev pub add_syscalls : Syscalls.Row → Accumulator → Accumulator
  add_syscalls row = on_vector λ v. record v { sys = add_counts v.sys row.counts }

  unfoldable pub ingest_syscalls : List Syscalls.Row → Accounts → Accounts
  ingest_syscalls [] acc = acc
  ingest_syscalls (row ∷ rows) acc =
      ingest_syscalls rows (update_acc row.container_id (add_syscalls row) acc)

  -- The body of `IngestCgroup`: a delta whose counter went back keeps its old value.
  unfoldable pub sample_cgroup : String → String → Stats fl → Accumulator → Accumulator
  sample_cgroup name image s ac = record {
    v = record ac.v {
      name = name;
      image = image;
      cgroup_cpu_usage_ms =
          if leb ac.prev_cpu_usage_usec s.usage_usec
          then (s.usage_usec - ac.prev_cpu_usage_usec) / 1000
          else ac.v.cgroup_cpu_usage_ms;
      cgroup_cpu_throttle_pct =
          if ltb 0 s.nr_periods
          then fl.mul (fl.div (fl.of_u64 s.nr_throttled) (fl.of_u64 s.nr_periods)) (fl.of_u64 100)
          else ac.v.cgroup_cpu_throttle_pct;
      cgroup_mem_current_mb = s.current / 1024 / 1024;
      cgroup_mem_pressure = s.some_avg10;
      cgroup_oom_kills = s.oom_kill;
      cgroup_io_read_mb =
          if leb ac.prev_io_read s.rbytes
          then (s.rbytes - ac.prev_io_read) / 1024 / 1024
          else ac.v.cgroup_io_read_mb;
      cgroup_io_write_mb =
          if leb ac.prev_io_write s.wbytes
          then (s.wbytes - ac.prev_io_write) / 1024 / 1024
          else ac.v.cgroup_io_write_mb;
    };
    prev_cpu_usage_usec = s.usage_usec;
    prev_io_read = s.rbytes;
    prev_io_write = s.wbytes;
  }

  unfoldable pub ingest_cgroup : String → String → String → Stats fl → Accounts → Accounts
  ingest_cgroup cid name image s = update_acc cid (sample_cgroup name image s)

  -- The names that a window's vector gets: those of the sample, or the resolver's for a container
  -- without a name.
  unfoldable pub backfill : Option (String → String × String) → String → Vector fl → String × String
  backfill resolve_name cid v = elim resolve_name [
    | none ↦ (v.name, v.image)
    | some resolve ↦ if not (cid == "") && v.name == "" then resolve cid else (v.name, v.image)
  ]

  -- What a tick at time `end` does with one accumulator: the vector that it emits, and the
  -- accumulator after the reset.
  unfoldable pub finalize :
      Option (String → String × String) → ℕ → ℕ → String → Accumulator → Vector fl × Accumulator
  finalize resolve_name window_start end cid ac =
      let (name, image) = backfill resolve_name cid ac.v in
      (
        record ac.v {
          window_start = window_start;
          window_end = end;
          container_id = cid;
          name = name;
          image = image;
        },
        record ac { v = record (new_vector fl) { name = name; image = image } },
      )

  -- The loop over the accumulators in one tick of `Run`.
  unfoldable pub tick :
      Option (String → String × String) → ℕ → ℕ → Accounts → List (Vector fl) × Accounts
  tick resolve_name window_start end [] = ([], [])
  tick resolve_name window_start end ((cid, ac) ∷ acc) =
      let (v, ac') = finalize resolve_name window_start end cid ac in
      let (vs, acc') = tick resolve_name window_start end acc in (v ∷ vs, (cid, ac') ∷ acc')

  -- The map `acc`, and the local `windowStart` of `Run`: none before the first tick.
  pub record Aggregator : Type 0 where
    pub acc : Accounts
    pub window_start : Option ℕ

  abbrev pub start_of : Option ℕ → ℕ → ℕ → ℕ
  start_of none window end = end - window
  start_of (some t) window end = t

  -- One tick of `Run` at time `end`: the vectors that it emits, and the aggregator after it.
  unfoldable pub run_tick :
      Option (String → String × String) → ℕ → ℕ → Aggregator → List (Vector fl) × Aggregator
  run_tick resolve_name window end a =
      let (out, acc) = tick resolve_name (start_of a.window_start window end) end a.acc in
      (out, record { acc = acc; window_start = some end })
