-- ===== src/AgentTests.antt =====
-- Runs of `updateMappings` of cmd/agent/main.go and of `UpdateContainers`, and the theorems about
-- them at concrete inputs.
use ebpf_docker_anormaly_det.Prelude.{
  ℕ, ◌≡◌, ◌≢◌, refl, true, false, String, Option, none, some, List, [], ◌∷◌, arith, string_eq,
  nat_eq, ◌==◌, if◌then◌else◌,
}
use text.Mathlib.TextEquality.{eq_iff}
use ebpf_docker_anormaly_det.Prelude.Table.{lookup, insert, keys, distinct, contains, erase}
use ebpf_docker_anormaly_det.Kernel.{Hash}
use ebpf_docker_anormaly_det.KernelModel.{hash, update}
use ebpf_docker_anormaly_det.Collector.Syscalls.Containers.{
  Mapping, put, put_all, remove_stale, update_containers, assigned, kept, AreEntries,
  update_containers-cgid_map,
}
use ebpf_docker_anormaly_det.Collector.Syscalls.Containers.Failure.{
  accepted, refused, update_containers-refused,
}
use ebpf_docker_anormaly_det.Collector.Syscalls.Rows.{Owns}
use ebpf_docker_anormaly_det.Agent.{Indices, index_of, assign, apply, update_mappings}
use ebpf_docker_anormaly_det.Agent.Assignment.{IsAssigned, assign-Keeps}
use ebpf_docker_anormaly_det.Agent.Ownership.{update_mappings-Owns}

abbrev cgids : Hash ℕ
cgids = hash ℕ 1024

-- Container "a" has index 0 and cgroup 501; cgroup 9 belonged to a container that is gone.
abbrev before : Indices
before = record { next_idx = 2; idx_by_cid = ("a", 0) ∷ ("gone", 1) ∷ [] }

abbrev cg : cgids.Map
cg = (501, 0) ∷ (9, 1) ∷ []

abbrev cgroup_id : String → Option ℕ
cgroup_id cid = if cid == "a" then some 501 else if cid == "b" then some 777 else none

abbrev running : List String
running = "a" ∷ "b" ∷ "starting" ∷ []

abbrev entries : cgids.Map → List (ℕ × ℕ)
entries m = m

before-IsAssigned : IsAssigned before
unfolding lookup
before-IsAssigned = record {
  below = λ c i h. ground arith;
  injective =
      λ c d i h k. ground (arith, eq_iff "a" c, eq_iff "a" d, eq_iff "gone" c, eq_iff "gone" d);
}

abbrev mappings : List Mapping
mappings = (assign cgroup_id running before).0

puts_succeed : (update_containers cgids entries mappings cg []).0 ≡ true
unfolding update_containers put_all put assign index_of lookup insert update
puts_succeed = refl

b_mapped : ebpf_docker_anormaly_det.Agent.Assignment.names "b" 2 mappings ≡ true
unfolding assign index_of lookup insert
b_mapped = refl

b_named : ◌≢◌ {A = String} "b" ""
b_named = λ e. ground (arith, eq_iff "b" "", e)

update_mappings-Owns_example :
    Owns (update_mappings cgids cgroup_id entries running before cg []).2 "b" 2
update_mappings-Owns_example =
    update_mappings-Owns cgids cgroup_id entries running before cg [] before-IsAssigned
      (omega arith) puts_succeed "b" 2 b_named b_mapped

-- The entry of the container that is gone is removed.
removed : cgids.lookup (update_containers cgids entries mappings cg []).1 9 ≡ none
unfolding update_containers put_all put remove_stale assign index_of lookup insert update erase
removed = refl

entries_there :
    AreEntries cgids (put_all cgids mappings cg []).1 (entries (put_all cgids mappings cg []).1)
unfolding put_all put assign index_of lookup insert update distinct keys contains
entries_there = (refl, (refl, (refl, tt)))

update_containers-cgid_map_example :
    cgids.lookup (update_containers cgids entries mappings cg []).1 9 ≡ (
      if contains 9 (keys (entries (put_all cgids mappings cg []).1))
      then kept mappings (assigned 9 mappings (cgids.lookup cg 9))
      else assigned 9 mappings (cgids.lookup cg 9))
update_containers-cgid_map_example =
    update_containers-cgid_map cgids entries mappings cg [] puts_succeed entries_there 9

-- A map with room for one entry, which it has, and two mappings.
abbrev small : Hash ℕ
small = hash ℕ 1

abbrev full : small.Map
full = (501, 0) ∷ []

abbrev again : List Mapping
again =
    record { cgroup_id = 501; index = 5; cid = "a" }
    ∷ record { cgroup_id = 777; index = 6; cid = "b" }
    ∷ []

update_containers-refused_example :
    ((update_containers small entries again full []).0 ≡ false)
    × (small.lookup (update_containers small entries again full []).1 501
        ≡ assigned 501 (accepted small again full) (small.lookup full 501))
    × ((update_containers small entries again full []).2 ≡ [])
unfolding refused put lookup insert update
update_containers-refused_example =
    update_containers-refused small entries again full ((501, 5) ∷ []) []
      (record { cgroup_id = 777; index = 6; cid = "b" }) 501 refl
