-- ===== src/CgroupFiles/Snapshot.antt =====
-- `PathForContainer` and `Read` of pkg/cgroup/reader.go. The file system is a parameter: which paths are
-- there, and what their files hold. Paths are joined as they come, without a `..` or a double slash.
use Prim.Native.String.{slice, len, ◌++◌ as text_append}
use text.Mathlib.Text.{find?, starts_with}
use ebpf_docker_anormaly_det.Prelude.{
  ℕ, ◌+◌, Bool, String, Option, none, some, List, [], ◌∷◌, string_eq, eqb, if◌then◌else◌,
}
use ebpf_docker_anormaly_det.Prelude.Table.{is_some}
use ebpf_docker_anormaly_det.Feature.Encoder.{utoa}
use ebpf_docker_anormaly_det.Feature.Types.{Floats, Stats}
use ebpf_docker_anormaly_det.CgroupFiles.{lines_from, CpuStat, IoStat, read_cpu_stat, read_io_stat}
use ebpf_docker_anormaly_det.CgroupFiles.Memory.{
  trim_space, Pressure, MemoryStat, read_pressure, read_memory,
}

-- `os.Stat` without an error, and `os.ReadFile` or `os.Open`.
pub record Files : Type 0 where
  pub is_there : String → Bool
  pub read : String → Option String

-- `filepath.Join`
abbrev pub join : String → String → String
join dir name =
    if starts_with name "/" then text_append dir name else text_append dir (text_append "/" name)

-- The line `0::<path>` whose path names the container.
unfoldable pub scan_cgroup : String → String → List String → Option String
scan_cgroup root cid [] = none
scan_cgroup root cid (line ∷ rest) =
    let later = scan_cgroup root cid rest in
    elim (find? line "::") [
      | none ↦ later
      | some idx ↦
          let rel = trim_space (slice line (idx + 2) (len line)) in
          if is_some (find? rel cid) then some (join root rel) else later
    ]

-- `PathForContainer`, whose error has no value.
unfoldable pub path_for_container : Files → String → String → ℕ → Option String
path_for_container fs root cid init_pid =
    let systemd =
      join (join root "system.slice") (text_append "docker-" (text_append cid ".scope")) in
    if fs.is_there systemd
    then some systemd
    else if eqb init_pid 0
    then none
    else elim (fs.read (text_append "/proc/" (text_append (utoa init_pid) "/cgroup"))) [
      | none ↦ none
      | some raw ↦ scan_cgroup root cid (lines_from "" raw)
    ]

module _ (fl : Floats) (parse_float : String → fl.Float) (zero_float : fl.Float) where
  -- `Stats`
  pub record Snapshot : Type 0 where
    pub cpu : CpuStat
    pub cpu_pressure : Pressure fl parse_float zero_float
    pub memory : MemoryStat fl parse_float zero_float
    pub io : IoStat

  -- `Read`, whose error has no value. A file that cannot be read counts as one of zeros.
  unfoldable pub read : Files → String → Option Snapshot
  read fs cg_path =
      if fs.is_there cg_path
      then some (record {
        cpu = read_cpu_stat (fs.read (join cg_path "cpu.stat"));
        cpu_pressure =
            read_pressure fl parse_float zero_float (fs.read (join cg_path "cpu.pressure"));
        memory =
            read_memory fl parse_float zero_float (fs.read (join cg_path "memory.current"))
              (fs.read (join cg_path "memory.max")) (fs.read (join cg_path "memory.pressure"))
              (fs.read (join cg_path "memory.events"));
        io = read_io_stat (fs.read (join cg_path "io.stat"));
      })
      else none

  -- What the aggregator takes of it.
  abbrev pub stats_of : Snapshot → Stats fl
  stats_of s = record {
    usage_usec = s.cpu.usage_usec;
    nr_periods = s.cpu.nr_periods;
    nr_throttled = s.cpu.nr_throttled;
    current = s.memory.current;
    oom_kill = s.memory.oom_kill;
    some_avg10 = s.memory.pressure.some_line.avg10;
    rbytes = s.io.rbytes;
    wbytes = s.io.wbytes;
  }
