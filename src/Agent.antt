-- ===== src/Agent.antt =====
-- The index of each container, `updateMappings` of cmd/agent/main.go. The path of a container's
-- cgroup and its id are one function, which has no value where either is an error.
pub mod Cgroups
pub mod Assignment
pub mod Ownership
pub mod Loop
use ebpf_docker_anormaly_det.Prelude.{
  ℕ, ◌+◌, Bool, true, false, String, Option, none, some, List, [], ◌∷◌, string_eq, u32,
}
use ebpf_docker_anormaly_det.Prelude.Table.{Table, lookup, insert}
use ebpf_docker_anormaly_det.Kernel.{Hash}
use ebpf_docker_anormaly_det.Collector.Syscalls.Containers.{Mapping, update_containers}

-- The variables `nextIdx` and `idxByCid`.
pub record Indices : Type 0 where
  pub next_idx : ℕ
  pub idx_by_cid : Table String ℕ

-- The index of a container, a new one if it has none.
unfoldable pub index_of : String → Indices → Option ℕ → ℕ × Indices
index_of cid st (some idx) = (idx, st)
index_of cid st none = (
  st.next_idx,
  record { next_idx = u32 (st.next_idx + 1); idx_by_cid = insert cid st.next_idx st.idx_by_cid },
)

-- The loop over the containers.
unfoldable pub assign : (String → Option ℕ) → List String → Indices → List Mapping × Indices
assign cgroup_id [] st = ([], st)
assign cgroup_id (cid ∷ cids) st = elim (cgroup_id cid) [
  | none ↦ assign cgroup_id cids st
  | some cgid ↦
      let (idx, st') = index_of cid st (lookup cid st.idx_by_cid) in
      let (mappings, st'') = assign cgroup_id cids st' in
      (record { cgroup_id = cgid; index = idx; cid = cid } ∷ mappings, st'')
]

module _ (cgids : Hash ℕ) where
  -- `UpdateContainers` is called only if there are mappings.
  unfoldable pub apply :
      (cgids.Map → List (ℕ × ℕ))
      → List Mapping
      → cgids.Map
      → Table ℕ String
      → cgids.Map × Table ℕ String
  apply iterate [] cg idx_to_cid = (cg, idx_to_cid)
  apply iterate (m ∷ ms) cg idx_to_cid =
      let (ok, cg', idx_to_cid') = update_containers cgids iterate (m ∷ ms) cg idx_to_cid in
      (cg', idx_to_cid')

  unfoldable pub update_mappings :
      (String → Option ℕ)
      → (cgids.Map → List (ℕ × ℕ))
      → List String
      → Indices
      → cgids.Map
      → Table ℕ String
      → Indices × cgids.Map × Table ℕ String
  update_mappings cgroup_id iterate cids st cg idx_to_cid =
      let (mappings, st') = assign cgroup_id cids st in
      let (cg', idx_to_cid') = apply iterate mappings cg idx_to_cid in (st', cg', idx_to_cid')
