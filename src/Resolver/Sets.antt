-- ===== src/Resolver/Sets.antt =====
-- What `Refresh` of pkg/container/resolver.go builds: the set of pids, and the cache without
-- containers that are gone.
use ebpf_docker_anormaly_det.Prelude.{
  ℕ, ◌≡◌, ◌≢◌, ◌⊎◌, refl, sym, true, ◌&&◌, ◌||◌, String, Option, some, List, [], ◌∷◌, arith, ◌==◌,
  nat_eq, string_eq, if◌then◌else◌, inl, inr, Option-cases, Bool-cases,
}
use text.Mathlib.TextEquality.{eq_iff}
use ebpf_docker_anormaly_det.Prelude.Table.{
  Table, lookup, insert, is_some, lookup-insert, keys, contains, contains-keys,
}
use ebpf_docker_anormaly_det.Resolver.{
  Upid, upid_eq, Info, Summary, Detail, Resolver, enumerate, add_pids, collect_pids, drop_gone,
  refresh, resolve_fast,
}

drop_gone-known :
    (next : Table String Info) (cache : Table Upid String) (u : Upid) (cid : String)
    → lookup u (drop_gone next cache) ≡ some cid
    → (cid == "" || is_some (lookup cid next)) ≡ true
unfolding drop_gone lookup
drop_gone-known next [] u cid h = cc
drop_gone-known next ((v, c) ∷ cache) u cid h =
    ground (arith, drop_gone-known next cache u cid, eq_iff c "")

lookup-add_pids :
    (cid : String) (pids : List ℕ) (t : Table ℕ String) (p : ℕ)
    → lookup p (add_pids cid pids t) ≡ (if contains p pids then some cid else lookup p t)
unfolding add_pids contains
lookup-add_pids cid [] t p = refl
lookup-add_pids cid (q ∷ pids) t p =
    ground (arith, lookup-add_pids cid pids (insert q cid t) p, lookup-insert q p cid t)

lookup-collect_pids :
    (procs : String → List ℕ) (cids : List String) (t : Table ℕ String) (p : ℕ) (c : String)
    → lookup p (collect_pids procs cids t) ≡ some c
    → ((contains c cids && contains p (procs c)) ≡ true) ⊎ (lookup p t ≡ some c)
unfolding collect_pids contains
lookup-collect_pids procs [] t p c h = inr h
lookup-collect_pids procs (cid ∷ cids) t p c h =
    elim (lookup-collect_pids procs cids (add_pids cid (procs cid) t) p c h) [
      | inl listed ↦ inl (ground (arith, listed))
      | inr added ↦ elim (Bool-cases (contains p (procs cid))) [
        | inl mine ↦
            let e : cid ≡ c = ground (arith, added, lookup-add_pids cid (procs cid) t p) in
            inl (rw (sym e) (ground (arith, mine, eq_iff cid cid)))
        | inr away ↦ inr (ground (arith, added, lookup-add_pids cid (procs cid) t p))
      ]
    ]

module _ (summaries : List Summary) (inspect : String → Option Detail) (procs : String → List ℕ)
    (r : Resolver) where
  -- After a refresh every positive entry of the cache is for a container of the new enumeration.
  pub refresh-cache :
      (u : Upid) (cid : String)
      → cid ≢ ""
      → lookup u (refresh (some summaries) inspect procs r).1.upid_cache ≡ some cid
      → is_some (lookup cid (refresh (some summaries) inspect procs r).1.containers) ≡ true
  unfolding refresh
  refresh-cache u cid ne h = elim (Bool-cases (cid == "")) [
    | inl empty ↦ absurd (ne ((eq_iff cid "").0 empty))
    | inr named ↦
        ground (arith, named, drop_gone-known (enumerate inspect summaries []) r.upid_cache u cid h)
  ]

  -- After a refresh the fast lookup names only containers of the new enumeration, and only for
  -- pids that the container's cgroup lists.
  pub resolve_fast-refresh :
      (pid : ℕ) (cid : String)
      → cid ≢ ""
      → resolve_fast pid (refresh (some summaries) inspect procs r).1 ≡ cid
      → (is_some (lookup cid (refresh (some summaries) inspect procs r).1.containers) ≡ true)
        × (contains pid (procs cid) ≡ true)
  unfolding refresh resolve_fast
  resolve_fast-refresh pid cid ne h =
      let next = enumerate inspect summaries [] in
      elim (Option-cases (lookup pid (collect_pids procs (keys next) []))) [
        | inl e ↦ absurd (ne (ground arith))
        | inr (c, e) ↦
            let same : c ≡ cid = ground arith in
            elim (lookup-collect_pids procs (keys next) [] pid c e) [
              | inl listed ↦ rw (sym same) (ground (arith, contains-keys c next), ground arith)
              | inr empty ↦ absurd (unfold lookup in ground arith)
            ]
      ]
