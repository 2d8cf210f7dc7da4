-- ===== src/Feature/Encoder.antt =====
-- The CSV encoder of pkg/feature/csv.go: the columns, the row of a vector, and the file over the
-- runs of the agent. Writes succeed. Times and floating-point numbers are printed by parameters.
pub mod Rows
use ebpf_docker_anormaly_det.Prelude.{
  ℕ, suc, zero, ◌+◌, ◌*◌, ◌/◌, ◌%◌, Bool, true, false, String, Option, none, some, List, [], ◌∷◌,
  ◌++◌, eqb, if◌then◌else◌, string_eq,
}
use Prim.Native.Char.{Char}
use ebpf_docker_anormaly_det.Prelude.Table.{contains}
use ebpf_docker_anormaly_det.Feature.Types.{Floats, Vector}

-- `Headers`
abbrev pub headers : List String
headers =
    "window_start" ∷ "window_end" ∷ "container_id" ∷ "name" ∷ "image" ∷ "proc_exits"
    ∷ "proc_crashes" ∷ "tcp_bytes_tx" ∷ "tcp_bytes_rx" ∷ "tcp_retrans" ∷ "cpu_runtime_ns"
    ∷ "sys_total" ∷ "sys_file_open" ∷ "sys_file_close" ∷ "sys_file_read" ∷ "sys_file_write"
    ∷ "sys_file_unlink" ∷ "sys_file_rename" ∷ "sys_file_perm" ∷ "sys_net_socket" ∷ "sys_net_connect"
    ∷ "sys_net_bind" ∷ "sys_net_listen" ∷ "sys_net_accept" ∷ "sys_net_send" ∷ "sys_net_recv"
    ∷ "sys_proc_exec" ∷ "sys_proc_fork" ∷ "sys_proc_kill" ∷ "sys_priv_escalate"
    ∷ "sys_escape_attempt" ∷ "sys_mem_layout" ∷ "sys_other" ∷ "cg_cpu_usage_ms"
    ∷ "cg_cpu_throttle_pct" ∷ "cg_mem_current_mb" ∷ "cg_mem_pressure" ∷ "cg_oom_kills"
    ∷ "cg_io_read_mb" ∷ "cg_io_write_mb" ∷ []

-- `skip` and the loop of `NumericFeatureIndices`, from index `i` on.
abbrev pub skip : List String
skip = "window_start" ∷ "window_end" ∷ "container_id" ∷ "name" ∷ "image" ∷ []

abbrev pub numeric_from : ℕ → List String → List ℕ
numeric_from i [] = []
numeric_from i (h ∷ hs) =
    let rest = numeric_from (suc i) hs in if contains h skip then rest else i ∷ rest

abbrev pub numeric_feature_indices : List ℕ
numeric_feature_indices = numeric_from 0 headers

-- `strconv.FormatUint(n, 10)`: the decimal digits. A 64-bit number has at most 20 of them.
unfoldable pub digits : ℕ → ℕ → List ℕ → List ℕ
digits zero n acc = acc
digits (suc fuel) n acc =
    let rest = digits fuel (n / 10) (n % 10 ∷ acc) in if eqb (n / 10) 0 then n % 10 ∷ acc else rest

abbrev pub digit : ℕ → Char
digit d =
    if eqb d 0
    then "0"
    else if eqb d 1
    then "1"
    else if eqb d 2
    then "2"
    else if eqb d 3
    then "3"
    else if eqb d 4
    then "4"
    else if eqb d 5
    then "5"
    else if eqb d 6
    then "6"
    else if eqb d 7
    then "7"
    else if eqb d 8
    then "8"
    else "9"

abbrev pub text_of : List ℕ → String
text_of [] = ""
text_of (d ∷ ds) = String.◌∷◌ (digit d) (text_of ds)

unfoldable pub utoa : ℕ → String
utoa n = text_of (digits 20 n [])

-- How times, and floating-point numbers by "%.4f", are printed.
pub record Formats (fl : Floats) : Type 0 where
  pub time : ℕ → String
  pub is_zero : fl.Float → Bool
  pub fixed : fl.Float → String

module _ (fl : Floats) (fmt : Formats fl) where
  abbrev pub ftoa : fl.Float → String
  ftoa f = if fmt.is_zero f then "0" else fmt.fixed f

  -- The fields of the row that `Write` builds.
  unfoldable pub row : Vector fl → List String
  row v =
      fmt.time v.window_start
      ∷ fmt.time v.window_end
      ∷ v.container_id
      ∷ v.name
      ∷ v.image
      ∷ utoa v.proc_exits
      ∷ utoa v.proc_crashes
      ∷ utoa v.tcp_bytes_tx
      ∷ utoa v.tcp_bytes_rx
      ∷ utoa v.tcp_retrans
      ∷ utoa v.cpu_runtime_ns
      ∷ utoa v.sys.total
      ∷ utoa v.sys.file_open
      ∷ utoa v.sys.file_close
      ∷ utoa v.sys.file_read
      ∷ utoa v.sys.file_write
      ∷ utoa v.sys.file_unlink
      ∷ utoa v.sys.file_rename
      ∷ utoa v.sys.file_perm
      ∷ utoa v.sys.net_socket
      ∷ utoa v.sys.net_connect
      ∷ utoa v.sys.net_bind
      ∷ utoa v.sys.net_listen
      ∷ utoa v.sys.net_accept
      ∷ utoa v.sys.net_send
      ∷ utoa v.sys.net_recv
      ∷ utoa v.sys.proc_exec
      ∷ utoa v.sys.proc_fork
      ∷ utoa v.sys.proc_kill
      ∷ utoa v.sys.priv_escalate
      ∷ utoa v.sys.escape_attempt
      ∷ utoa v.sys.mem_layout
      ∷ utoa v.sys.other
      ∷ utoa v.cgroup_cpu_usage_ms
      ∷ ftoa v.cgroup_cpu_throttle_pct
      ∷ utoa v.cgroup_mem_current_mb
      ∷ ftoa v.cgroup_mem_pressure
      ∷ utoa v.cgroup_oom_kills
      ∷ utoa v.cgroup_io_read_mb
      ∷ utoa v.cgroup_io_write_mb
      ∷ []

  -- The file's rows, or none if there is no file. `NewEncoder` writes the header into a new file.
  unfoldable pub new_encoder : Option (List (List String)) → List (List String)
  new_encoder none = headers ∷ []
  new_encoder (some rows) = rows

  -- `Write` of each vector in order.
  unfoldable pub write_all : List (Vector fl) → List (List String) → List (List String)
  write_all [] rows = rows
  write_all (v ∷ vs) rows = write_all vs (rows ++ (row v ∷ []))
