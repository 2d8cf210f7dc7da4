-- ===== src/Kernel/Room.antt =====
-- When an entry finds room in a per-processor map: while the keys in use are no more than the map
-- has entries.
use ebpf_docker_anormaly_det.Prelude.{
  ℕ, ◌≤◌, ◌≡◌, true, false, none, some, List, arith, inl, inr, Option-cases, length, nat_eq,
}
use ebpf_docker_anormaly_det.Prelude.Table.{contains}
use ebpf_docker_anormaly_det.Prelude.Pigeonhole.{Covers, length-lt-cover}
use ebpf_docker_anormaly_det.Kernel.{PerCpuHash}

module _ {V : Type 0} {zeroed : V} (map : PerCpuHash V zeroed) where
  -- The keys that have an entry are among `ids`.
  abbrev pub EntriesAmong : List ℕ → map.Map → Type 0
  EntriesAmong ids m = (k c : ℕ) (s : V) → map.lookup m k c ≡ some s → contains k ids ≡ true

  -- What a reader takes the value of a missing entry for.
  abbrev pub read : map.Map → ℕ → ℕ → V
  read m k c = elim (map.lookup m k c) [ some v ↦ v | none ↦ zeroed ]

  module _ (ids : List ℕ) (m : map.Map) (among : EntriesAmong ids m) where
    Covers-keys : Covers ids (map.keys m)
    Covers-keys k h = elim (Option-cases (map.lookup m k 0)) [
      | inl e ↦ ground (arith, map.contains-keys m k 0)
      | inr (s, e) ↦ among k 0 s e
    ]

    -- A missing key among `ids` is accepted if `ids` is no longer than the map's capacity.
    pub accepts_missing :
        (id c : ℕ)
        → length ids ≤ map.max_entries
        → contains id ids ≡ true
        → map.lookup m id c ≡ none
        → map.accepts m id ≡ true
    accepts_missing id c fits member absent =
        let missing : contains id (map.keys m) ≡ false = ground (arith, map.contains-keys m id c) in
        let short =
          length-lt-cover ids (map.keys m) id (map.keys_distinct m) Covers-keys missing member in
        map.accepts_room m id (omega arith)
