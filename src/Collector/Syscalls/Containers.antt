-- ===== src/Collector/Syscalls/Containers.antt =====
-- The upkeep of `cgid_map`, `UpdateContainers` of pkg/collector/syscalls/collector.go. What the
-- iteration of the map yields, while entries are deleted, is any function of the map: an entry may come
-- several times, and the iteration may end before all have come.
pub mod Failure
use ebpf_docker_anormaly_det.Prelude.{
  ℕ, ◌≡◌, refl, ◌∙◌, Bool, true, false, not, ◌&&◌, ◌||◌, String, Option, none, some, List, [], ◌∷◌,
  arith, nat_eq, if◌then◌else◌, inl, inr, sym, ap, All, Option-cases, Bool-cases, eqb, eqb_iff,
}
use ebpf_docker_anormaly_det.Prelude.Table.{
  Table, lookup, insert, is_some, lookup-insert, keys, distinct, contains,
}
use ebpf_docker_anormaly_det.Kernel.{Hash}

-- `ContainerMapping`
pub record Mapping : Type 0 where
  pub cgroup_id : ℕ
  pub index : ℕ
  pub cid : String

-- Whether a list of entries has a key with a value that is gone.
abbrev stale : Table ℕ String → ℕ → List (ℕ × ℕ) → Bool
stale new_idx k [] = false
stale new_idx k ((key, val) ∷ rest) =
    (eqb key k && not (is_some (lookup val new_idx))) || stale new_idx k rest

-- What the mappings say of a cgroup and of an index; the last one counts.
abbrev pub assigned : ℕ → List Mapping → Option ℕ → Option ℕ
assigned k [] before = before
assigned k (m ∷ ms) before = assigned k ms (if eqb m.cgroup_id k then some m.index else before)

abbrev pub named : ℕ → List Mapping → Option String → Option String
named i [] before = before
named i (m ∷ ms) before = named i ms (if eqb m.index i then some m.cid else before)

-- If what is yielded of a key is the value that the map has for it, the key is stale if it comes up at
-- all and the value is gone.
stale-found :
    (new_idx : Table ℕ String) (k : ℕ) (found : Option ℕ) (entries : List (ℕ × ℕ))
    → All (λ e. e.0 ≡ k → found ≡ some e.1) entries
    → stale new_idx k entries ≡ (
        contains k (keys entries)
        && elim found [ none ↦ false | some val ↦ not (is_some (lookup val new_idx)) ])
unfolding contains keys
stale-found new_idx k found [] h = refl
stale-found new_idx k found ((key, val) ∷ rest) (here, hs) = elim (Bool-cases (eqb key k)) [
  | inl same ↦
      let e = here ((eqb_iff key k).0 same) in
      ground (arith, stale-found new_idx k found rest hs, e, same)
  | inr differs ↦ ground (arith, stale-found new_idx k found rest hs, differs)
]

-- An index stays if the mappings name it.
abbrev pub kept : List Mapping → Option ℕ → Option ℕ
kept ms none = none
kept ms (some i) = if is_some (named i ms none) then some i else none

module _ (cgids : Hash ℕ) where
  -- `CgidMap.Put`: an error if the key is new and finds no room.
  unfoldable pub put : ℕ → ℕ → cgids.Map → Option cgids.Map
  put k v cg =
      if is_some (cgids.lookup cg k) || cgids.accepts cg k then some (cgids.update cg k v) else none

  -- The first loop: whether all puts succeeded, the map, and `newIdx`.
  unfoldable pub put_all :
      List Mapping → cgids.Map → Table ℕ String → Bool × cgids.Map × Table ℕ String
  put_all [] cg new_idx = (true, cg, new_idx)
  put_all (m ∷ ms) cg new_idx = elim (put m.cgroup_id m.index cg) [
    | none ↦ (false, cg, new_idx)
    | some cg' ↦ put_all ms cg' (insert m.index m.cid new_idx)
  ]

  -- The second loop, over the entries that the iteration yields.
  unfoldable pub remove_stale : Table ℕ String → List (ℕ × ℕ) → cgids.Map → cgids.Map
  remove_stale new_idx [] cg = cg
  remove_stale new_idx ((key, val) ∷ rest) cg =
      remove_stale new_idx rest (if is_some (lookup val new_idx) then cg else cgids.delete cg key)

  -- Whether there was no error, `cgid_map`, and the field `idxToCid`.
  unfoldable pub update_containers :
      (cgids.Map → List (ℕ × ℕ))
      → List Mapping
      → cgids.Map
      → Table ℕ String
      → Bool × cgids.Map × Table ℕ String
  update_containers iterate mappings cg idx_to_cid =
      let (ok, cg', new_idx) = put_all mappings cg [] in
      if ok
      then (true, remove_stale new_idx (iterate cg') cg', new_idx)
      else (false, cg', idx_to_cid)

  lookup-remove_stale :
      (new_idx : Table ℕ String) (entries : List (ℕ × ℕ)) (cg : cgids.Map) (k : ℕ)
      → cgids.lookup (remove_stale new_idx entries cg) k
        ≡ (if stale new_idx k entries then none else cgids.lookup cg k)
  unfolding remove_stale
  lookup-remove_stale new_idx [] cg k = refl
  lookup-remove_stale new_idx ((key, val) ∷ rest) cg k = ground (
    arith,
    lookup-remove_stale new_idx rest
        (if is_some (lookup val new_idx) then cg else cgids.delete cg key) k,
    cgids.lookup-delete cg key k,
  )

  pub lookup-put :
      (k v : ℕ) (cg cg' : cgids.Map) (q : ℕ)
      → put k v cg ≡ some cg'
      → cgids.lookup cg' q ≡ (if eqb k q then some v else cgids.lookup cg q)
  unfolding put
  lookup-put k v cg cg' q h = elim (Option-cases (cgids.lookup cg k)) [
    | inr (old, e) ↦ ground (arith, cgids.lookup-update_present cg k v old q e)
    | inl e ↦ ground (arith, cgids.lookup-update cg k v q)
  ]

  lookup-put_all :
      (ms : List Mapping) (cg : cgids.Map) (new_idx : Table ℕ String) (k : ℕ)
      → (put_all ms cg new_idx).0 ≡ true
      → cgids.lookup (put_all ms cg new_idx).1 k ≡ assigned k ms (cgids.lookup cg k)
  unfolding put_all
  lookup-put_all [] cg new_idx k h = refl
  lookup-put_all (m ∷ ms) cg new_idx k h = elim (Option-cases (put m.cgroup_id m.index cg)) [
    | inl e ↦ cc
    | inr (cg', e) ↦
        rw (put_all, e)
          (lookup-put_all ms cg' (insert m.index m.cid new_idx) k (rw (put_all, e) at h)
            ∙ rw (lookup-put m.cgroup_id m.index cg cg' k e))
  ]

  lookup-put_all_names :
      (ms : List Mapping) (cg : cgids.Map) (new_idx : Table ℕ String) (i : ℕ)
      → (put_all ms cg new_idx).0 ≡ true
      → lookup i (put_all ms cg new_idx).2 ≡ named i ms (lookup i new_idx)
  unfolding put_all
  lookup-put_all_names [] cg new_idx i h = refl
  lookup-put_all_names (m ∷ ms) cg new_idx i h = elim (Option-cases (put m.cgroup_id m.index cg)) [
    | inl e ↦ cc
    | inr (cg', e) ↦
        rw (put_all, e)
          (lookup-put_all_names ms cg' (insert m.index m.cid new_idx) i (rw (put_all, e) at h)
            ∙ rw (lookup-insert m.index i m.cid new_idx))
  ]

  -- What an iteration yields are entries of the map. Whether all of them, and how often, is left open.
  abbrev pub AreEntries : cgids.Map → List (ℕ × ℕ) → Type 0
  AreEntries cg = All (λ e. cgids.lookup cg e.0 ≡ some e.1)

  entry_of_key :
      (cg : cgids.Map) (k : ℕ) (entries : List (ℕ × ℕ))
      → AreEntries cg entries
      → All (λ e. e.0 ≡ k → cgids.lookup cg k ≡ some e.1) entries
  entry_of_key cg k [] h = tt
  entry_of_key cg k (e ∷ es) (h, hs) =
      ((λ same. ap (λ q. cgids.lookup cg q) (sym same) ∙ h), entry_of_key cg k es hs)

  module _ (iterate : cgids.Map → List (ℕ × ℕ)) (ms : List Mapping) (cg : cgids.Map)
      (idx_to_cid : Table ℕ String)
      (ok : (update_containers iterate ms cg idx_to_cid).0 ≡ true) where
    puts_succeed : (put_all ms cg []).0 ≡ true
    unfolding update_containers
    puts_succeed = elim (Bool-cases (put_all ms cg []).0) [
      | inl ok_puts ↦ ok_puts
      | inr failed_puts ↦ absurd (ground (arith, ok))
    ]

    -- After a call without errors `idxToCid` names exactly the indices of the mappings, each with
    -- the container of the last mapping that has it.
    pub update_containers-names :
        (i : ℕ) → lookup i (update_containers iterate ms cg idx_to_cid).2 ≡ named i ms none
    unfolding update_containers lookup
    update_containers-names i =
        ground (arith, puts_succeed, lookup-put_all_names ms cg [] i puts_succeed)

    -- After a call without errors, whether the iteration yields all entries of the map after the
    -- puts or only some, and each once or several times: for each cgroup that it yields,
    -- `cgid_map` holds the index of its last mapping, or else the index that it had before, if
    -- the mappings name that index, and nothing otherwise. A cgroup that it does not yield has the
    -- index of its last mapping, or else the one that it had before.
    pub update_containers-cgid_map :
        AreEntries (put_all ms cg []).1 (iterate (put_all ms cg []).1)
        → (k : ℕ)
        → cgids.lookup (update_containers iterate ms cg idx_to_cid).1 k ≡ (
            if contains k (keys (iterate (put_all ms cg []).1))
            then kept ms (assigned k ms (cgids.lookup cg k))
            else assigned k ms (cgids.lookup cg k))
    unfolding update_containers lookup
    update_containers-cgid_map it k =
        let m = (put_all ms cg []).1 in
        let names = (put_all ms cg []).2 in
        let after = lookup-remove_stale names (iterate m) m k in
        let gone =
          stale-found names k (cgids.lookup m k) (iterate m) (entry_of_key m k (iterate m) it) in
        let puts = lookup-put_all ms cg [] k puts_succeed in
        elim (Option-cases (assigned k ms (cgids.lookup cg k))) [
          | inl e ↦ ground (arith, puts_succeed, after, gone, puts)
          | inr (i, e) ↦
              ground (
                arith,
                puts_succeed,
                after,
                gone,
                puts,
                lookup-put_all_names ms cg [] i puts_succeed,
              )
        ]
