-- ===== src/Collector/PrevSeen.antt =====
-- The bookkeeping that pkg/collector/syscalls/collector.go and pkg/collector/pidruntime/collector.go
-- share: keys that are gone from the kernel's map are evicted from the totals seen before.
use ebpf_docker_anormaly_det.Prelude.{
  ℕ, ◌≡◌, refl, not, ◌&&◌, none, some, List, [], ◌∷◌, arith, nat_eq, if◌then◌else◌, inl, inr,
  Option-cases,
}
use ebpf_docker_anormaly_det.Prelude.Table.{
  Table, lookup, erase, keys, contains, is_some, lookup-erase, contains-keys,
}

module _ {V : Type 0} where
  -- The loop over the keys of `prevSeen`.
  unfoldable pub evict : Table ℕ V → List ℕ → Table ℕ V → Table ℕ V
  evict current [] prev_seen = prev_seen
  evict current (k ∷ ks) prev_seen =
      evict current ks
        (elim (lookup k current) [ some total ↦ prev_seen | none ↦ erase k prev_seen ])

  lookup-evict_keys :
      (current : Table ℕ V) (ks : List ℕ) (prev_seen : Table ℕ V) (q : ℕ)
      → lookup q (evict current ks prev_seen)
        ≡ (if contains q ks && not (is_some (lookup q current)) then none else lookup q prev_seen)
  unfolding evict contains
  lookup-evict_keys current [] prev_seen q = refl
  lookup-evict_keys current (k ∷ ks) prev_seen q = elim (Option-cases (lookup k current)) [
    | inl gone ↦
        ground
          (arith, lookup-evict_keys current ks (erase k prev_seen) q, lookup-erase k q prev_seen)
    | inr (t, there) ↦ ground (arith, lookup-evict_keys current ks prev_seen q)
  ]

  -- After the loop the keys that are still there keep their value, and the others are gone.
  pub lookup-evict :
      (current prev_seen : Table ℕ V) (q : ℕ)
      → lookup q (evict current (keys prev_seen) prev_seen)
        ≡ (if is_some (lookup q current) then lookup q prev_seen else none)
  lookup-evict current prev_seen q =
      ground
        (arith, lookup-evict_keys current (keys prev_seen) prev_seen q, contains-keys q prev_seen)
