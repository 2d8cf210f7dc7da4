-- ===== src/Collector/PidRuntime/Conservation.antt =====
-- What the polls of pkg/collector/pidruntime/collector.go report of a task over time.
use ebpf_docker_anormaly_det.Prelude.{
  ℕ, ◌+◌, ◌-◌, ◌≤◌, ◌≡◌, refl, ◌∙◌, true, String, List, [], ◌∷◌, ◌++◌, arith, nat_eq, if◌then◌else◌,
  eqb, eqb_iff,
}
use ebpf_docker_anormaly_det.Prelude.Table.{
  Table, lookup, insert, keys, contains, distinct, is_some, contains-keys, lookup-insert,
  distinct-insert,
}
use ebpf_docker_anormaly_det.PidRuntime.{CpuAcct}
use ebpf_docker_anormaly_det.Collector.PrevSeen.{evict, lookup-evict}
use ebpf_docker_anormaly_det.Collector.PidRuntime.{Row, sum_cpus, collect, or_zero, emit, poll_once}

-- The totals of a poll, each task once.
abbrev pub totals : List (ℕ × List CpuAcct) → Table ℕ ℕ
totals iterated = collect iterated []

distinct-collect :
    (iterated : List (ℕ × List CpuAcct)) (current : Table ℕ ℕ)
    → distinct (keys current) ≡ true
    → distinct (keys (collect iterated current)) ≡ true
unfolding collect
distinct-collect [] current h = h
distinct-collect ((k, per_cpu) ∷ rows) current h =
    distinct-collect rows _ (distinct-insert k (sum_cpus 0 per_cpu) current h)

distinct-totals : (iterated : List (ℕ × List CpuAcct)) → distinct (keys (totals iterated)) ≡ true
distinct-totals iterated = distinct-collect iterated [] (unfold distinct keys in refl)

-- What the rows say of a task, and what a table of totals says of it.
abbrev pub run_time : ℕ → List Row → ℕ
run_time q [] = 0
run_time q (row ∷ rows) = (if eqb row.pid q then row.runtime_ns else 0) + run_time q rows

abbrev pub total_of : ℕ → Table ℕ ℕ → ℕ
total_of q t = or_zero (lookup q t)

emit-run_time :
    (resolve : ℕ → String) (current prev_seen : Table ℕ ℕ) (q : ℕ)
    → distinct (keys current) ≡ true
    → run_time q (emit resolve current prev_seen).1 ≡ total_of q current - total_of q prev_seen
unfolding emit distinct keys lookup contains
emit-run_time resolve [] prev_seen q d = ground arith
emit-run_time resolve ((pid, total) ∷ current) prev_seen q d =
    let later = emit-run_time resolve current (insert pid total prev_seen) q (ground arith) in
    ground
      (arith, later, lookup-insert pid q total prev_seen, contains-keys q current, eqb_iff pid q)

emit-seen :
    (resolve : ℕ → String) (current prev_seen : Table ℕ ℕ) (q : ℕ)
    → distinct (keys current) ≡ true
    → lookup q (emit resolve current prev_seen).0
      ≡ (if is_some (lookup q current) then lookup q current else lookup q prev_seen)
unfolding emit distinct keys lookup
emit-seen resolve [] prev_seen q d = refl
emit-seen resolve ((pid, total) ∷ current) prev_seen q d =
    emit-seen resolve current (insert pid total prev_seen) q (ground arith)
    ∙ ground (arith, lookup-insert pid q total prev_seen, contains-keys q current)

-- One poll reports of a task the growth of its total since the poll before, and 0 for a task whose total has not grown
-- or that is gone.
pub run_time-poll_once :
    (resolve : ℕ → String) (iterated : List (ℕ × List CpuAcct)) (prev_seen : Table ℕ ℕ) (q : ℕ)
    → run_time q (poll_once resolve iterated prev_seen).1
      ≡ total_of q (totals iterated) - total_of q prev_seen
unfolding poll_once
run_time-poll_once resolve iterated prev_seen q = ground (
  arith,
  emit-run_time resolve (totals iterated) (evict (totals iterated) (keys prev_seen) prev_seen) q
      (distinct-totals iterated),
  lookup-evict (totals iterated) prev_seen q,
)

-- After a poll exactly its totals are remembered.
pub poll_once-remembers :
    (resolve : ℕ → String) (iterated : List (ℕ × List CpuAcct)) (prev_seen : Table ℕ ℕ) (q : ℕ)
    → lookup q (poll_once resolve iterated prev_seen).0 ≡ lookup q (totals iterated)
unfolding poll_once
poll_once-remembers resolve iterated prev_seen q =
    emit-seen resolve (totals iterated) (evict (totals iterated) (keys prev_seen) prev_seen) q
      (distinct-totals iterated)
    ∙ ground (arith, lookup-evict (totals iterated) prev_seen q)

-- The polls in order: what is remembered after them, and all their rows.
unfoldable pub poll_all :
    (ℕ → String) → List (List (ℕ × List CpuAcct)) → Table ℕ ℕ → Table ℕ ℕ × List Row
poll_all resolve [] prev_seen = (prev_seen, [])
poll_all resolve (iterated ∷ later) prev_seen =
    let (seen, rows) = poll_once resolve iterated prev_seen in
    let (seen', rest) = poll_all resolve later seen in (seen', rows ++ rest)

-- The totals of `q` that the polls find do not fall, starting at `p`.
abbrev pub Grows : ℕ → ℕ → List (List (ℕ × List CpuAcct)) → Type 0
Grows q p [] = Unit
Grows q p (iterated ∷ later) =
    (p ≤ total_of q (totals iterated)) × Grows q (total_of q (totals iterated)) later

-- The total that the last poll finds.
abbrev pub last_total : ℕ → ℕ → List (List (ℕ × List CpuAcct)) → ℕ
last_total q p [] = p
last_total q p (iterated ∷ later) = last_total q (total_of q (totals iterated)) later

run_time-append : (q : ℕ) (r s : List Row) → run_time q (r ++ s) ≡ run_time q r + run_time q s
run_time-append q [] s = omega arith
run_time-append q (x ∷ r) s = omega (arith, run_time-append q r s)

-- Over any number of polls the rows of a task add up to the growth of its total, from before the
-- first poll to the last one, if the totals that the polls find do not fall.
pub run_time-poll_all :
    (resolve : ℕ → String) (q : ℕ) (its : List (List (ℕ × List CpuAcct))) (prev_seen : Table ℕ ℕ)
    → Grows q (total_of q prev_seen) its
    → run_time q (poll_all resolve its prev_seen).1 + total_of q prev_seen
      ≡ last_total q (total_of q prev_seen) its
unfolding poll_all
run_time-poll_all resolve q [] prev_seen g = omega arith
run_time-poll_all resolve q (iterated ∷ later) prev_seen g =
    let seen : total_of q (poll_once resolve iterated prev_seen).0 ≡ total_of q (totals iterated) =
      rw (poll_once-remembers resolve iterated prev_seen q) in
    let rest =
      run_time-poll_all resolve q later (poll_once resolve iterated prev_seen).0 (rw seen g.1) in
    rw run_time-append
      (omega (arith, rw seen at rest, run_time-poll_once resolve iterated prev_seen q, g.0))
