-- ===== src/Collector/Syscalls/Conservation.antt =====
-- What the polls of pkg/collector/syscalls/collector.go report of a container over time.
use ebpf_docker_anormaly_det.Prelude.{
  ℕ, ◌+◌, ◌-◌, ◌≡◌, refl, String, List, [], ◌∷◌, ◌++◌, arith, nat_eq, string_eq, inl, inr,
  Bool-cases,
}
use ebpf_docker_anormaly_det.Prelude.Table.{keys, contains, contains-keys}
use ebpf_docker_anormaly_det.Syscalls.Counts.{
  Category, SyscallCounts, zero_counts, bucket, file_open,
}
use ebpf_docker_anormaly_det.Collector.Syscalls.{Row, Collector, poll_once}
use ebpf_docker_anormaly_det.Collector.Syscalls.Poll.{
  totals, distinct-totals, poll_once-rows, poll_once-prev_seen,
}
use ebpf_docker_anormaly_det.Collector.Syscalls.Rows.{
  Grows, Owns, reported, total_of, reported_absent, reported_present,
}

-- The polls in order: the collector after them, and all their rows.
unfoldable pub poll_all : List (List (ℕ × List SyscallCounts)) → Collector → Collector × List Row
poll_all [] c = (c, [])
poll_all (iterated ∷ later) c =
    let (c', rows) = poll_once iterated c in
    let (c'', rest) = poll_all later c' in (c'', rows ++ rest)

-- The counters of `idx` that the polls find grow from poll to poll, starting at `p`.
abbrev pub GrowsThrough : ℕ → SyscallCounts → List (List (ℕ × List SyscallCounts)) → Type 0
GrowsThrough idx p [] = Unit
GrowsThrough idx p (iterated ∷ later) =
    Grows p (total_of idx (totals iterated))
    × GrowsThrough idx (total_of idx (totals iterated)) later

-- The counters that the last poll finds.
abbrev pub last_total : ℕ → SyscallCounts → List (List (ℕ × List SyscallCounts)) → SyscallCounts
last_total idx p [] = p
last_total idx p (iterated ∷ later) = last_total idx (total_of idx (totals iterated)) later

reported-append :
    (cid : String) (b : Category) (r s : List Row)
    → reported cid b (r ++ s) ≡ reported cid b r + reported cid b s
reported-append cid b [] s = omega arith
reported-append cid b (x ∷ r) s = omega (arith, reported-append cid b r s)

bucket_zero : (b : Category) → bucket zero_counts b ≡ 0
bucket_zero file_open = refl
bucket_zero _ = refl

idx_to_cid-poll_once :
    (iterated : List (ℕ × List SyscallCounts)) (c : Collector)
    → (poll_once iterated c).0.idx_to_cid ≡ c.idx_to_cid
unfolding poll_once
idx_to_cid-poll_once iterated c = refl

-- One poll reports of a container exactly the growth of its counters since the poll before, if the
-- container alone owns its index, its counters do not fall, and its totals are the sums of the
-- groups.
pub reported-poll_once :
    (cid : String) (idx : ℕ) (b : Category) (iterated : List (ℕ × List SyscallCounts))
    (c : Collector)
    → Owns c.idx_to_cid cid idx
    → Grows (total_of idx c.prev_seen) (total_of idx (totals iterated))
    → reported cid b (poll_once iterated c).1
      ≡ bucket (total_of idx (totals iterated)) b - bucket (total_of idx c.prev_seen) b
reported-poll_once cid idx b iterated c owns g =
    rw poll_once-rows (elim (Bool-cases (contains idx (keys (totals iterated)))) [
      | inl there ↦
          reported_present owns b c.prev_seen (totals iterated) (distinct-totals iterated) there g
      | inr gone ↦
          let missing : total_of idx (totals iterated) ≡ zero_counts =
            ground (arith, contains-keys idx (totals iterated)) in
          rw (reported_absent owns b c.prev_seen (totals iterated) gone, missing, bucket_zero b)
            (omega arith)
    ])

-- If a container alone owns its index, its counters do not fall from poll to poll, and its totals
-- are the sums of the groups, then
-- over any number of polls the rows of the container add up to the growth of its counters from
-- before the first poll to the last one: what was seen before and what is reported make up what
-- the kernel has counted. Rows that are left out lose nothing.
pub reported-poll_all :
    (cid : String) (idx : ℕ) (b : Category) (its : List (List (ℕ × List SyscallCounts)))
    (c : Collector)
    → Owns c.idx_to_cid cid idx
    → GrowsThrough idx (total_of idx c.prev_seen) its
    → reported cid b (poll_all its c).1 + bucket (total_of idx c.prev_seen) b
      ≡ bucket (last_total idx (total_of idx c.prev_seen) its) b
unfolding poll_all
reported-poll_all cid idx b [] c owns g = omega arith
reported-poll_all cid idx b (iterated ∷ later) c owns g =
    let c' = (poll_once iterated c).0 in
    let seen : total_of idx c'.prev_seen ≡ total_of idx (totals iterated) =
      rw (poll_once-prev_seen iterated c idx) in
    let rest =
      reported-poll_all cid idx b later c' (rw (idx_to_cid-poll_once iterated c) owns)
        (rw seen g.1) in
    rw reported-append (
      omega
        (arith, rw seen at rest, reported-poll_once cid idx b iterated c owns g.0, g.0.buckets b))
