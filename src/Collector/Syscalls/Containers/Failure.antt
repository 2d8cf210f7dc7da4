-- ===== src/Collector/Syscalls/Containers/Failure.antt =====
-- `UpdateContainers` of pkg/collector/syscalls/collector.go when `cgid_map` is full.
use ebpf_docker_anormaly_det.Prelude.{
  ℕ, ◌≡◌, refl, ◌∙◌, true, false, String, Option, none, some, List, [], ◌∷◌, inl, inr, Option-cases,
  nat_eq,
}
use ebpf_docker_anormaly_det.Prelude.Table.{Table, insert}
use ebpf_docker_anormaly_det.Kernel.{Hash}
use ebpf_docker_anormaly_det.Collector.Syscalls.Containers.{
  Mapping, assigned, put, put_all, update_containers, lookup-put,
}

module _ (cgids : Hash ℕ) where
  -- The mappings before the first that finds no room.
  unfoldable pub accepted : List Mapping → cgids.Map → List Mapping
  accepted [] cg = []
  accepted (m ∷ ms) cg = elim (put cgids m.cgroup_id m.index cg) [
    | none ↦ []
    | some cg' ↦ m ∷ accepted ms cg'
  ]

  -- The first mapping that finds no room, with the map that it finds.
  unfoldable pub refused : List Mapping → cgids.Map → Option (Mapping × cgids.Map)
  refused [] cg = none
  refused (m ∷ ms) cg = elim (put cgids m.cgroup_id m.index cg) [
    | none ↦ some (m, cg)
    | some cg' ↦ refused ms cg'
  ]

  lookup-accepted :
      (ms : List Mapping) (cg : cgids.Map) (names : Table ℕ String) (k : ℕ)
      → cgids.lookup (put_all cgids ms cg names).1 k
        ≡ assigned k (accepted ms cg) (cgids.lookup cg k)
  unfolding put_all accepted
  lookup-accepted [] cg names k = refl
  lookup-accepted (m ∷ ms) cg names k = elim (Option-cases (put cgids m.cgroup_id m.index cg)) [
    | inl e ↦ rw (put_all, accepted, e) refl
    | inr (cg', e) ↦
        rw (put_all, accepted, e)
          (lookup-accepted ms cg' (insert m.index m.cid names) k
            ∙ rw (lookup-put cgids m.cgroup_id m.index cg cg' k e) refl)
  ]

  ok-refused :
      (ms : List Mapping) (cg : cgids.Map) (names : Table ℕ String)
      → (put_all cgids ms cg names).0 ≡ elim (refused ms cg) [ none ↦ true | some m ↦ false ]
  unfolding put_all refused
  ok-refused [] cg names = refl
  ok-refused (m ∷ ms) cg names = elim (Option-cases (put cgids m.cgroup_id m.index cg)) [
    | inl e ↦ rw (put_all, refused, e) refl
    | inr (cg', e) ↦ rw (put_all, refused, e) (ok-refused ms cg' (insert m.index m.cid names))
  ]

-- When a mapping finds no room in `cgid_map`, the call returns an error: the mappings before it are in
-- the map, and those from it on are not, no entry is removed, be it stale or not, and `idxToCid` is
-- as it was before.
pub update_containers-refused :
    (cgids : Hash ℕ) (iterate : cgids.Map → List (ℕ × ℕ)) (ms : List Mapping) (cg full : cgids.Map)
    (idx_to_cid : Table ℕ String) (m : Mapping) (k : ℕ)
    → refused cgids ms cg ≡ some (m, full)
    → ((update_containers cgids iterate ms cg idx_to_cid).0 ≡ false)
      × (cgids.lookup (update_containers cgids iterate ms cg idx_to_cid).1 k
          ≡ assigned k (accepted cgids ms cg) (cgids.lookup cg k))
      × ((update_containers cgids iterate ms cg idx_to_cid).2 ≡ idx_to_cid)
unfolding update_containers
update_containers-refused cgids iterate ms cg full idx_to_cid m k h =
    let failed : (put_all cgids ms cg []).0 ≡ false = ok-refused cgids ms cg [] ∙ rw h refl in
    (rw failed refl, rw failed (lookup-accepted cgids ms cg [] k), rw failed refl)
