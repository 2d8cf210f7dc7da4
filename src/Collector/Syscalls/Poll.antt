-- ===== src/Collector/Syscalls/Poll.antt =====
-- What a poll of pkg/collector/syscalls/collector.go reports and remembers.
use ebpf_docker_anormaly_det.Prelude.{
  ℕ, ◌≡◌, refl, ◌∙◌, true, String, List, [], ◌∷◌, arith, nat_eq, if◌then◌else◌, eqb, eqb_iff,
}
use ebpf_docker_anormaly_det.Prelude.Table.{
  Table, lookup, insert, keys, contains, distinct, is_some, lookup-insert, contains-keys,
  distinct-insert,
}
use ebpf_docker_anormaly_det.Syscalls.Counts.{SyscallCounts, zero_counts}
use ebpf_docker_anormaly_det.Collector.PrevSeen.{evict, lookup-evict}
use ebpf_docker_anormaly_det.Collector.Syscalls.{
  Row, Collector, sum_cpus, subtract, collect, or_zero, or_empty, emit, poll_once,
}

-- The totals of a poll, each index once.
abbrev pub totals : List (ℕ × List SyscallCounts) → Table ℕ SyscallCounts
totals iterated = collect iterated []

distinct-collect :
    (iterated : List (ℕ × List SyscallCounts)) (current : Table ℕ SyscallCounts)
    → distinct (keys current) ≡ true
    → distinct (keys (collect iterated current)) ≡ true
unfolding collect
distinct-collect [] current h = h
distinct-collect ((k, per_cpu) ∷ rows) current h =
    distinct-collect rows (insert k (sum_cpus zero_counts per_cpu) current)
      (distinct-insert k (sum_cpus zero_counts per_cpu) current h)

pub distinct-totals :
    (iterated : List (ℕ × List SyscallCounts)) → distinct (keys (totals iterated)) ≡ true
distinct-totals iterated = distinct-collect iterated [] (unfold distinct keys in refl)

-- The increase of an index over what was seen of it before.
abbrev pub delta : Table ℕ SyscallCounts → ℕ → SyscallCounts → SyscallCounts
delta prev_seen idx total = subtract total (or_zero (lookup idx prev_seen))

-- A row for each index whose total has grown, against the totals before the poll.
abbrev pub rows_against : Table ℕ String → Table ℕ SyscallCounts → Table ℕ SyscallCounts → List Row
rows_against idx_to_cid prev_seen [] = []
rows_against idx_to_cid prev_seen ((idx, total) ∷ current) =
    let rest = rows_against idx_to_cid prev_seen current in
    if eqb (delta prev_seen idx total).total 0
    then rest
    else record {
      container_id = or_empty (lookup idx idx_to_cid);
      counts = delta prev_seen idx total;
    }
      ∷ rest

-- The rows depend only on what was seen of the indices in the table.
rows_against_congr :
    (idx_to_cid : Table ℕ String) (a b current : Table ℕ SyscallCounts)
    → ((q : ℕ) → contains q (keys current) ≡ true → lookup q a ≡ lookup q b)
    → rows_against idx_to_cid a current ≡ rows_against idx_to_cid b current
unfolding contains keys
rows_against_congr idx_to_cid a b [] h = refl
rows_against_congr idx_to_cid a b ((idx, total) ∷ current) h = rw (
  h idx (ground (arith, eqb_iff idx idx)),
  rows_against_congr idx_to_cid a b current (λ q m. h q (ground arith)),
)

emit-rows :
    (idx_to_cid : Table ℕ String) (current prev_seen : Table ℕ SyscallCounts)
    → distinct (keys current) ≡ true
    → (emit idx_to_cid current prev_seen).1 ≡ rows_against idx_to_cid prev_seen current
unfolding emit distinct keys
emit-rows idx_to_cid [] prev_seen d = refl
emit-rows idx_to_cid ((idx, total) ∷ current) prev_seen d =
    let later = emit-rows idx_to_cid current (insert idx total prev_seen) (ground arith) in
    let same =
      rows_against_congr idx_to_cid (insert idx total prev_seen) prev_seen current
        (λ q m. ground (arith, lookup-insert idx q total prev_seen, eqb_iff idx q)) in
    rw (later, same)

emit-seen :
    (idx_to_cid : Table ℕ String) (current prev_seen : Table ℕ SyscallCounts) (q : ℕ)
    → distinct (keys current) ≡ true
    → lookup q (emit idx_to_cid current prev_seen).0
      ≡ (if is_some (lookup q current) then lookup q current else lookup q prev_seen)
unfolding emit distinct keys lookup
emit-seen idx_to_cid [] prev_seen q d = refl
emit-seen idx_to_cid ((idx, total) ∷ current) prev_seen q d =
    emit-seen idx_to_cid current (insert idx total prev_seen) q (ground arith)
    ∙ ground (arith, lookup-insert idx q total prev_seen, contains-keys q current)

-- What was seen of an index that is in the table survives the eviction.
evicted_same :
    (current prev_seen : Table ℕ SyscallCounts) (q : ℕ)
    → contains q (keys current) ≡ true
    → lookup q (evict current (keys prev_seen) prev_seen) ≡ lookup q prev_seen
evicted_same current prev_seen q h =
    ground (arith, lookup-evict current prev_seen q, contains-keys q current)

-- A poll reports, for each index of the kernel's map whose total has grown, the increase of every
-- counter over the totals of the poll before, under the container of the index.
pub poll_once-rows :
    (iterated : List (ℕ × List SyscallCounts)) (c : Collector)
    → (poll_once iterated c).1 ≡ rows_against c.idx_to_cid c.prev_seen (totals iterated)
unfolding poll_once
poll_once-rows iterated c =
    emit-rows c.idx_to_cid (totals iterated)
      (evict (totals iterated) (keys c.prev_seen) c.prev_seen) (distinct-totals iterated)
    ∙ rows_against_congr c.idx_to_cid _ c.prev_seen (totals iterated)
        (evicted_same (totals iterated) c.prev_seen)

-- After a poll the collector remembers exactly the totals of that poll: indices that are gone are
-- forgotten.
pub poll_once-prev_seen :
    (iterated : List (ℕ × List SyscallCounts)) (c : Collector) (idx : ℕ)
    → lookup idx (poll_once iterated c).0.prev_seen ≡ lookup idx (totals iterated)
unfolding poll_once
poll_once-prev_seen iterated c idx =
    emit-seen c.idx_to_cid (totals iterated)
      (evict (totals iterated) (keys c.prev_seen) c.prev_seen) idx (distinct-totals iterated)
    ∙ ground (arith, lookup-evict (totals iterated) c.prev_seen idx)
