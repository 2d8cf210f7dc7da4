-- ===== src/Collector/TcpStats/Drain.antt =====
-- A poll of pkg/collector/tcpstats/collector.go against the kernel's map: what it reports and what
-- it leaves.
use ebpf_docker_anormaly_det.Prelude.{
  ℕ, ◌≡◌, refl, ◌∙◌, ap, true, false, String, Option, none, some, List, [], ◌∷◌, map, arith, nat_eq,
  if◌then◌else◌, eqb, eqb_iff, inl, inr, Bool-cases,
}
use ebpf_docker_anormaly_det.Prelude.Table.{
  Table, lookup, insert, keys, contains, distinct, lookup-insert, distinct-insert,
}
use ebpf_docker_anormaly_det.Kernel.{PerCpuHash}
use ebpf_docker_anormaly_det.Kernel.Room.{read}
use ebpf_docker_anormaly_det.TcpStats.{TcpStats, zero_stats}
use ebpf_docker_anormaly_det.Collector.TcpStats.{Row, sum_cpus, emit, drain, poll_once}

-- The rows of a thread group.
abbrev pub rows_of : ℕ → List Row → List Row
rows_of q [] = []
rows_of q (row ∷ rows) = let rest = rows_of q rows in if eqb row.tgid q then row ∷ rest else rest

abbrev rows_for : (ℕ → String) → ℕ → Option TcpStats → List Row
rows_for resolve q none = []
rows_for resolve q (some s) = record { tgid = q; container_id = resolve q; stats = s } ∷ []

rows_of-emit_absent :
    (resolve : ℕ → String) (t : Table ℕ TcpStats) (q : ℕ)
    → contains q (keys t) ≡ false
    → rows_of q (emit resolve t) ≡ []
unfolding emit contains keys
rows_of-emit_absent resolve [] q h = refl
rows_of-emit_absent resolve ((k, s) ∷ t) q h = ground (arith, rows_of-emit_absent resolve t q)

rows_of-emit :
    (resolve : ℕ → String) (t : Table ℕ TcpStats) (q : ℕ)
    → distinct (keys t) ≡ true
    → rows_of q (emit resolve t) ≡ rows_for resolve q (lookup q t)
unfolding emit distinct keys lookup
rows_of-emit resolve [] q d = refl
rows_of-emit resolve ((k, s) ∷ t) q d = elim (Bool-cases (eqb k q)) [
  | inl own ↦
      let e = (eqb_iff k q).0 own in
      rw (own, e)
        (ap {A = List Row} {B = List Row}
          (λ rest. record { tgid = q; container_id = resolve q; stats = s } ∷ rest)
          (rows_of-emit_absent resolve t q (ground (arith, e))))
  | inr foreign ↦ rw foreign (rows_of-emit resolve t q (ground arith))
]

module _ (stats : PerCpuHash TcpStats zero_stats) where
  -- The counters of a thread group over the processors `cpus`.
  abbrev pub per_cpu : List ℕ → stats.Map → ℕ → List TcpStats
  per_cpu cpus m q = map (λ c. read stats m q c) cpus

  -- What an iteration yields of the keys `ks` while nothing else changes the map.
  abbrev pub yielded : List ℕ → stats.Map → List ℕ → List (ℕ × List TcpStats)
  yielded cpus m [] = []
  yielded cpus m (k ∷ ks) = (k, per_cpu cpus m k) ∷ yielded cpus m ks

  abbrev pub snapshot : List ℕ → stats.Map → List (ℕ × List TcpStats)
  snapshot cpus m = yielded cpus m (stats.keys m)

  distinct-drain :
      (rows : List (ℕ × List TcpStats)) (t : Table ℕ TcpStats) (m : stats.Map)
      → distinct (keys t) ≡ true
      → distinct (keys (drain stats rows t m).0) ≡ true
  unfolding drain
  distinct-drain [] t m h = h
  distinct-drain ((k, v) ∷ rows) t m h =
      distinct-drain rows _ (stats.delete m k) (distinct-insert k (sum_cpus zero_stats v) t h)

  lookup-drain_table :
      (cpus : List ℕ) (n : stats.Map) (ks : List ℕ) (t : Table ℕ TcpStats) (m : stats.Map) (q : ℕ)
      → lookup q (drain stats (yielded cpus n ks) t m).0
        ≡ (if contains q ks then some (sum_cpus zero_stats (per_cpu cpus n q)) else lookup q t)
  unfolding drain contains
  lookup-drain_table cpus n [] t m q = refl
  lookup-drain_table cpus n (k ∷ ks) t m q =
      lookup-drain_table cpus n ks _ (stats.delete m k) q ∙ elim (Bool-cases (eqb k q)) [
        | inl own ↦
            let e = (eqb_iff k q).0 own in
            ground (arith, e, lookup-insert k q (sum_cpus zero_stats (per_cpu cpus n k)) t)
        | inr foreign ↦ ground (arith, lookup-insert k q (sum_cpus zero_stats (per_cpu cpus n k)) t)
      ]

  lookup-drain_map :
      (cpus : List ℕ) (n : stats.Map) (ks : List ℕ) (t : Table ℕ TcpStats) (m : stats.Map) (q d : ℕ)
      → stats.lookup (drain stats (yielded cpus n ks) t m).1 q d
        ≡ (if contains q ks then none else stats.lookup m q d)
  unfolding drain contains
  lookup-drain_map cpus n [] t m q d = refl
  lookup-drain_map cpus n (k ∷ ks) t m q d = ground (
    arith,
    lookup-drain_map cpus n ks (insert k (sum_cpus zero_stats (per_cpu cpus n k)) t)
        (stats.delete m k) q d,
    stats.lookup-delete m k q d,
  )

  module _ (resolve : ℕ → String) (cpus : List ℕ) (m : stats.Map) where
    -- While nothing else changes the map, a poll reports each thread group with an entry in exactly
    -- one row, with its container and its counters summed over the processors, and no other.
    pub rows_of-poll_once :
        (q : ℕ)
        → rows_of q (poll_once stats resolve (snapshot cpus m) m).0 ≡ (
            if contains q (stats.keys m)
            then record {
              tgid = q;
              container_id = resolve q;
              stats = sum_cpus zero_stats (per_cpu cpus m q);
            }
              ∷ []
            else [])
    unfolding poll_once
    rows_of-poll_once q =
        rows_of-emit resolve _ q
          (distinct-drain (snapshot cpus m) [] m (unfold distinct keys in refl))
        ∙ rw (lookup-drain_table cpus m (stats.keys m) [] m q)
            (elim (Bool-cases (contains q (stats.keys m))) [
              | inl there ↦ rw there
              | inr absent ↦ rw absent (unfold lookup in refl)
            ])

    -- After such a poll the map is empty: every entry that was reported is deleted.
    pub poll_once-empties :
        (q d : ℕ) → stats.lookup (poll_once stats resolve (snapshot cpus m) m).1 q d ≡ none
    unfolding poll_once
    poll_once-empties q d =
        ground (arith, lookup-drain_map cpus m (stats.keys m) [] m q d, stats.contains-keys m q d)
