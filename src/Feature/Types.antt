-- ===== src/Feature/Types.antt =====
-- The types of pkg/feature/aggregator.go, and of the cgroup statistics that it ingests
-- (pkg/cgroup/reader.go). A time is a number of nanoseconds.
use ebpf_docker_anormaly_det.Prelude.{ℕ, String}
use ebpf_docker_anormaly_det.Syscalls.Counts.{SyscallCounts, zero_counts}

-- `float64` and the operations on it that the aggregator uses.
pub record Floats : Type 1 where
  pub Float : Type 0
  pub of_u64 : ℕ → Float
  pub mul : Float → Float → Float
  pub div : Float → Float → Float

-- The fields of `cgroup.Stats` that the aggregator reads.
pub record Stats (fl : Floats) : Type 0 where
  pub usage_usec : ℕ
  pub nr_periods : ℕ
  pub nr_throttled : ℕ
  pub current : ℕ
  pub oom_kill : ℕ
  pub some_avg10 : fl.Float
  pub rbytes : ℕ
  pub wbytes : ℕ

-- The 22 fields `SysTotal` to `SysOther` stand together as `sys`.
pub record Vector (fl : Floats) : Type 0 where
  pub window_start : ℕ
  pub window_end : ℕ
  pub container_id : String
  pub name : String
  pub image : String
  pub proc_exits : ℕ
  pub proc_crashes : ℕ
  pub tcp_bytes_tx : ℕ
  pub tcp_bytes_rx : ℕ
  pub tcp_retrans : ℕ
  pub cpu_runtime_ns : ℕ
  pub sys : SyscallCounts
  pub cgroup_cpu_usage_ms : ℕ
  pub cgroup_cpu_throttle_pct : fl.Float
  pub cgroup_mem_current_mb : ℕ
  pub cgroup_mem_pressure : fl.Float
  pub cgroup_oom_kills : ℕ
  pub cgroup_io_read_mb : ℕ
  pub cgroup_io_write_mb : ℕ

-- `Vector{}`
abbrev pub new_vector : (fl : Floats) → Vector fl
new_vector fl = record {
  window_start = 0;
  window_end = 0;
  container_id = "";
  name = "";
  image = "";
  proc_exits = 0;
  proc_crashes = 0;
  tcp_bytes_tx = 0;
  tcp_bytes_rx = 0;
  tcp_retrans = 0;
  cpu_runtime_ns = 0;
  sys = zero_counts;
  cgroup_cpu_usage_ms = 0;
  cgroup_cpu_throttle_pct = fl.of_u64 0;
  cgroup_mem_current_mb = 0;
  cgroup_mem_pressure = fl.of_u64 0;
  cgroup_oom_kills = 0;
  cgroup_io_read_mb = 0;
  cgroup_io_write_mb = 0;
}
