-- ===== src/Agent/Cgroups.antt =====
-- `pollCgroup` of cmd/agent/main.go: a round over the containers that the resolver knows.
use ebpf_docker_anormaly_det.Prelude.{
  ◌≡◌, ◌∙◌, refl, sym, ap, true, not, ◌&&◌, String, Option, none, some, [], ◌∷◌, arith, string_eq,
  ◌==◌, if◌then◌else◌, ◌>>=◌, Bool-cases, Option-cases, inl, inr,
}
use ebpf_docker_anormaly_det.Prelude.Table.{
  Table, lookup, keys, distinct, contains, contains-keys, lookup-insert,
}
use ebpf_docker_anormaly_det.Resolver.{Info}
use ebpf_docker_anormaly_det.CgroupFiles.Snapshot.{
  Files, Snapshot, path_for_container, read, stats_of,
}
use ebpf_docker_anormaly_det.Feature.Types.{Floats}
use ebpf_docker_anormaly_det.Feature.{
  Accumulator, Accounts, or_new, update_acc, sample_cgroup, ingest_cgroup,
}

-- A key before others that differ from it.
apart_keys :
    {V : Type 0} (k : String) (rest : Table String V)
    → (not (contains k (keys rest)) && distinct (keys rest)) ≡ true
    → (lookup k rest ≡ none) × (distinct (keys rest) ≡ true)
apart_keys k rest h = elim (Option-cases (lookup k rest)) [
  | inl e ↦ (e, ground (arith, h))
  | inr (v, e) ↦ absurd (ground (arith, h, contains-keys k rest, e))
]

module _ (fl : Floats) (parse_float : String → fl.Float) (zero_float : fl.Float) (root : String)
    (fs : Files) where
  -- The two calls, each of which skips the container on an error.
  unfoldable pub snapshot : String → Info → Option (Snapshot fl parse_float zero_float)
  snapshot cid c = do
    path ← path_for_container fs root cid c.pid
    read fl parse_float zero_float fs path

  -- One container.
  abbrev pub ingest_snapshot :
      String → Info → Option (Snapshot fl parse_float zero_float) → Accounts fl → Accounts fl
  ingest_snapshot cid c none acc = acc
  ingest_snapshot cid c (some s) acc =
      ingest_cgroup fl cid c.name c.image (stats_of fl parse_float zero_float s) acc

  unfoldable pub poll_cgroup : Table String Info → Accounts fl → Accounts fl
  poll_cgroup [] acc = acc
  poll_cgroup ((cid, c) ∷ rest) acc = poll_cgroup rest (ingest_snapshot cid c (snapshot cid c) acc)

  -- What a round makes of a container's accumulator.
  abbrev pub sampled_from :
      Info
      → Option (Snapshot fl parse_float zero_float)
      → Option (Accumulator fl)
      → Option (Accumulator fl)
  sampled_from c none before = before
  sampled_from c (some s) before =
      some
        (sample_cgroup fl c.name c.image (stats_of fl parse_float zero_float s) (or_new fl before))

  abbrev pub sampled : String → Option Info → Option (Accumulator fl) → Option (Accumulator fl)
  sampled cid none before = before
  sampled cid (some c) before = sampled_from c (snapshot cid c) before

  lookup-ingest_snapshot :
      (cid k : String) (c : Info) (s : Option (Snapshot fl parse_float zero_float))
      (acc : Accounts fl)
      → lookup cid (ingest_snapshot k c s acc)
        ≡ (if k == cid then sampled_from c s (lookup k acc) else lookup cid acc)
  unfolding ingest_cgroup update_acc
  lookup-ingest_snapshot cid k c none acc = ground (arith, string_eq.same_iff k cid)
  lookup-ingest_snapshot cid k c (some s) acc = lookup-insert k cid _ acc

  -- In a round over containers with different ids, a container that the resolver knows, and whose cgroup
  -- is found and there, is sampled exactly once, with its name and image; every other container
  -- keeps its accumulator: an error of one container does not touch the others.
  pub lookup-poll_cgroup :
      (cid : String) (cs : Table String Info) (acc : Accounts fl)
      → distinct (keys cs) ≡ true
      → lookup cid (poll_cgroup cs acc) ≡ sampled cid (lookup cid cs) (lookup cid acc)
  unfolding poll_cgroup distinct keys lookup
  lookup-poll_cgroup cid [] acc h = refl
  lookup-poll_cgroup cid ((k, c) ∷ rest) acc h =
      let acc' = ingest_snapshot k c (snapshot k c) acc in
      let (absent, later) = apart_keys k rest h in
      let first = lookup-ingest_snapshot cid k c (snapshot k c) acc in
      let others = lookup-poll_cgroup cid rest acc' later in
      elim (Bool-cases (k == cid)) [
        | inl same ↦
            let e = (string_eq.same_iff k cid).0 same in
            let gone : lookup cid rest ≡ none = ap (λ x. lookup x rest) (sym e) ∙ absent in
            rw (poll_cgroup, same, others, gone, first, same)
              (ap (λ x. sampled_from c (snapshot x c) (lookup x acc)) e)
        | inr different ↦ rw (poll_cgroup, different, others, first, different) refl
      ]
