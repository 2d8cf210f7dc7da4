-- ===== src/Collector/PidRuntime.antt =====
-- The poller of CPU times, pkg/collector/pidruntime/collector.go. What the iteration of the
-- kernel's map yields is an argument. A Go map is a list of entries with one for each key, in the
-- order of the loop over it.
pub mod Conservation
use ebpf_docker_anormaly_det.Prelude.{
  ℕ, ◌-◌, String, Option, none, some, List, [], ◌∷◌, nat_eq, leb, if◌then◌else◌, add64,
}
use ebpf_docker_anormaly_det.Prelude.Table.{Table, lookup, insert, keys}
use ebpf_docker_anormaly_det.PidRuntime.{CpuAcct}
use ebpf_docker_anormaly_det.Collector.PrevSeen.{evict}

pub record Row : Type 0 where
  pub pid : ℕ
  pub container_id : String
  pub runtime_ns : ℕ

-- `sum += v.RuntimeNs`
unfoldable pub sum_cpus : ℕ → List CpuAcct → ℕ
sum_cpus sum [] = sum
sum_cpus sum (v ∷ per_cpu) = sum_cpus (add64 sum v.runtime_ns) per_cpu

-- The first loop: the totals of this poll.
unfoldable pub collect : List (ℕ × List CpuAcct) → Table ℕ ℕ → Table ℕ ℕ
collect [] current = current
collect ((key, per_cpu) ∷ rows) current = collect rows (insert key (sum_cpus 0 per_cpu) current)

abbrev pub or_zero : Option ℕ → ℕ
or_zero none = 0
or_zero (some n) = n

-- The last loop, over the entries of `current`.
unfoldable pub emit : (ℕ → String) → Table ℕ ℕ → Table ℕ ℕ → Table ℕ ℕ × List Row
emit resolve [] prev_seen = (prev_seen, [])
emit resolve ((pid, total) ∷ current) prev_seen =
    let prev = or_zero (lookup pid prev_seen) in
    let (prev_seen', rows) = emit resolve current (insert pid total prev_seen) in
    let row : Row = record { pid = pid; container_id = resolve pid; runtime_ns = total - prev } in
    (prev_seen', if leb total prev then rows else row ∷ rows)

unfoldable pub poll_once : (ℕ → String) → List (ℕ × List CpuAcct) → Table ℕ ℕ → Table ℕ ℕ × List Row
poll_once resolve iterated prev_seen =
    let current = collect iterated [] in
    emit resolve current (evict current (keys prev_seen) prev_seen)
