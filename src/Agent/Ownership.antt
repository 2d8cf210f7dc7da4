-- ===== src/Agent/Ownership.antt =====
-- After `updateMappings` of cmd/agent/main.go every index that the poller of histograms names
-- belongs to one container.
use ebpf_docker_anormaly_det.Prelude.{
  ℕ, ◌+◌, ◌<◌, ◌^◌, ◌≡◌, ◌≢◌, refl, sym, ◌∙◌, ap, true, String, Option, none, some, List, [], ◌∷◌,
  arith, string_eq, nat_eq, inl, inr, Option-cases, length,
}
use ebpf_docker_anormaly_det.Prelude.Table.{Table, lookup}
use ebpf_docker_anormaly_det.Kernel.{Hash}
use ebpf_docker_anormaly_det.Collector.Syscalls.Containers.{
  Mapping, update_containers, named, update_containers-names,
}
use ebpf_docker_anormaly_det.Collector.Syscalls.Rows.{Owns}
use ebpf_docker_anormaly_det.Agent.{Indices, assign, apply, update_mappings}
use ebpf_docker_anormaly_det.Agent.Assignment.{
  IsAssigned, InForce, names, assign-IsAssigned, assign-InForce, named-InForce, named-names,
  names-InForce,
}

-- What the mappings name, if they are in force, is owned.
module _ (st : Indices) (w : IsAssigned st) (ms : List Mapping) (force : InForce st ms)
    (idx_to_cid : Table ℕ String) (same : (i : ℕ) → lookup i idx_to_cid ≡ named i ms none) where
  owner_of : (i : ℕ) (c : String) → lookup i idx_to_cid ≡ some c → lookup c st.idx_by_cid ≡ some i
  owner_of i c h =
      named-InForce st ms none i c force (λ d e. absurd (ground (arith, e))) (sym (same i) ∙ h)

  named-Owns :
      (cid : String) (idx : ℕ) → cid ≢ "" → names cid idx ms ≡ true → Owns idx_to_cid cid idx
  named-Owns cid idx ne h =
      let mine = names-InForce st ms cid idx force h in
      record {
        named = ne;
        owner = elim (Option-cases (lookup idx idx_to_cid)) [
          | inl e ↦ absurd (ground (arith, same idx, named-names ms cid idx h))
          | inr (c, e) ↦ e ∙ ap some (w.injective c cid idx (owner_of idx c e) mine)
        ];
        only = λ j k. ground (arith, owner_of j cid k, mine);
      }

module _ (cgids : Hash ℕ) (cgroup_id : String → Option ℕ) (iterate : cgids.Map → List (ℕ × ℕ)) where
  apply-names :
      (ms : List Mapping) (cg : cgids.Map) (idx_to_cid : Table ℕ String) (cid : String) (i : ℕ)
      → names cid i ms ≡ true
      → (apply cgids iterate ms cg idx_to_cid).1
        ≡ (update_containers cgids iterate ms cg idx_to_cid).2
  unfolding apply
  apply-names [] cg idx_to_cid cid i h = cc
  apply-names (m ∷ ms) cg idx_to_cid cid i h = refl

  -- If the puts succeed and the indices have not run out, then after `updateMappings` every
  -- container with a name and a mapping is the owner of its index for the poller of histograms:
  -- the index stands for this container and no other index does.
  pub update_mappings-Owns :
      (cids : List String) (st : Indices) (cg : cgids.Map) (idx_to_cid : Table ℕ String)
      → IsAssigned st
      → st.next_idx + length cids < 2 ^ 32
      → (update_containers cgids iterate (assign cgroup_id cids st).0 cg idx_to_cid).0 ≡ true
      → (cid : String) (idx : ℕ) → cid ≢ ""
      → names cid idx (assign cgroup_id cids st).0 ≡ true
      → Owns (update_mappings cgids cgroup_id iterate cids st cg idx_to_cid).2 cid idx
  unfolding update_mappings
  update_mappings-Owns cids st cg idx_to_cid w room ok cid idx ne h =
      let ms = (assign cgroup_id cids st).0 in
      named-Owns (assign cgroup_id cids st).1 (assign-IsAssigned cgroup_id cids st w room) ms
        (assign-InForce cgroup_id cids st w room) _
        (λ i.
          rw (apply-names ms cg idx_to_cid cid idx h)
            (update_containers-names cgids iterate ms cg idx_to_cid ok i))
        cid idx ne h
