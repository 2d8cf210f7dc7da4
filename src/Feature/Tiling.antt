-- ===== src/Feature/Tiling.antt =====
-- The windows of a container in pkg/feature/aggregator.go follow one another without gaps.
use ebpf_docker_anormaly_det.Prelude.{
  ℕ, suc, ◌≡◌, refl, ap, true, String, Option, some, List, [], ◌∷◌, arith, string_eq, inl, inr,
  Option-cases, length,
}
use ebpf_docker_anormaly_det.Prelude.Table.{lookup, keys, distinct, is_some, lookup-insert}
use ebpf_docker_anormaly_det.Collector.Syscalls
use ebpf_docker_anormaly_det.Collector.TcpStats
use ebpf_docker_anormaly_det.Collector.PidRuntime
use ebpf_docker_anormaly_det.Feature.Types.{Floats, Vector}
use ebpf_docker_anormaly_det.Feature.{
  Accumulator, Accounts, or_new, finalize, tick, update_acc, ingest_exit, ingest_tcp, ingest_cpu,
  ingest_syscalls, ingest_cgroup, Aggregator, start_of, run_tick,
}
use ebpf_docker_anormaly_det.Feature.Members.{distinct-ingest}
use ebpf_docker_anormaly_det.Feature.Accounts.{Ingest, ingest, exit, tcp, cpu, syscalls, cgroup}
use ebpf_docker_anormaly_det.Feature.Window.{
  Step, ingests, ticks, of_container, run, of_container-tick, of_container-append, keys-tick,
  lookup-tick,
}

module _ (fl : Floats) where
  -- Each vector's window starts where the one before ended, the first at `t`.
  abbrev pub Tiles : ℕ → List (Vector fl) → Type 0
  Tiles t [] = Unit
  Tiles t (v ∷ vs) = (v.window_start ≡ t) × Tiles v.window_end vs

  abbrev pub count_ticks : List (Step fl) → ℕ
  count_ticks [] = 0
  count_ticks (ingests op ∷ steps) = count_ticks steps
  count_ticks (ticks end ∷ steps) = suc (count_ticks steps)

  known-update_acc :
      (c : String) (f : Accumulator fl → Accumulator fl) (acc : Accounts fl) (cid : String)
      → is_some (lookup cid acc) ≡ true
      → is_some (lookup cid (update_acc fl c f acc)) ≡ true
  unfolding update_acc
  known-update_acc c f acc cid h =
      ground (arith, lookup-insert c cid (f (or_new fl (lookup c acc))) acc)

  known-tcp :
      (rows : List TcpStats.Row) (acc : Accounts fl) (cid : String)
      → is_some (lookup cid acc) ≡ true
      → is_some (lookup cid (ingest_tcp fl rows acc)) ≡ true
  unfolding ingest_tcp
  known-tcp [] acc cid h = h
  known-tcp (row ∷ rows) acc cid h =
      known-tcp rows _ cid (known-update_acc row.container_id _ acc cid h)

  known-cpu :
      (rows : List PidRuntime.Row) (acc : Accounts fl) (cid : String)
      → is_some (lookup cid acc) ≡ true
      → is_some (lookup cid (ingest_cpu fl rows acc)) ≡ true
  unfolding ingest_cpu
  known-cpu [] acc cid h = h
  known-cpu (row ∷ rows) acc cid h =
      known-cpu rows _ cid (known-update_acc row.container_id _ acc cid h)

  known-syscalls :
      (rows : List Syscalls.Row) (acc : Accounts fl) (cid : String)
      → is_some (lookup cid acc) ≡ true
      → is_some (lookup cid (ingest_syscalls fl rows acc)) ≡ true
  unfolding ingest_syscalls
  known-syscalls [] acc cid h = h
  known-syscalls (row ∷ rows) acc cid h =
      known-syscalls rows _ cid (known-update_acc row.container_id _ acc cid h)

  known-ingest :
      (op : Ingest fl) (acc : Accounts fl) (cid : String)
      → is_some (lookup cid acc) ≡ true
      → is_some (lookup cid (ingest fl op acc)) ≡ true
  unfolding ingest ingest_exit ingest_cgroup
  known-ingest (exit c crash) acc cid h = known-update_acc c _ acc cid h
  known-ingest (tcp rows) acc cid h = known-tcp rows acc cid h
  known-ingest (cpu rows) acc cid h = known-cpu rows acc cid h
  known-ingest (syscalls rows) acc cid h = known-syscalls rows acc cid h
  known-ingest (cgroup c name image s) acc cid h = known-update_acc c _ acc cid h

  module _ (resolve_name : Option (String → String × String)) (window : ℕ) where
    known-tick :
        (start end : ℕ) (acc : Accounts fl) (cid : String)
        → is_some (lookup cid acc) ≡ true
        → is_some (lookup cid (tick fl resolve_name start end acc).1) ≡ true
    known-tick start end acc cid h =
        ground (arith, lookup-tick fl resolve_name window start end acc cid)

    -- Once a container is known, every tick emits exactly one vector for it, and its windows follow
    -- one another: each starts where the one before ended, the first at the last tick before.
    pub run-Tiles :
        (cid : String) (t : ℕ) (steps : List (Step fl)) (a : Aggregator fl)
        → distinct (keys a.acc) ≡ true
        → is_some (lookup cid a.acc) ≡ true
        → a.window_start ≡ some t
        → Tiles t (of_container fl cid (run fl resolve_name window steps a).0)
          × (length (of_container fl cid (run fl resolve_name window steps a).0)
              ≡ count_ticks steps)
    unfolding run run_tick finalize
    run-Tiles cid t [] a d there started = (tt, refl)
    run-Tiles cid t (ingests op ∷ steps) a d there started =
        run-Tiles cid t steps (record a { acc = ingest fl op a.acc })
          (distinct-ingest fl op a.acc d) (known-ingest op a.acc cid there) started
    run-Tiles cid t (ticks end ∷ steps) a d there started =
        let start = start_of fl a.window_start window end in
        let out = tick fl resolve_name start end a.acc in
        let rest =
          run-Tiles cid end steps (record { acc = out.1; window_start = some end })
            (rw (keys-tick fl resolve_name window start end a.acc) d)
            (known-tick start end a.acc cid there) refl in
        elim (Option-cases (lookup cid a.acc)) [
          | inl e ↦ ground arith
          | inr (ac, e) ↦
              rw
                (
                  of_container-append fl cid out.0 _,
                  of_container-tick fl resolve_name window start end a.acc cid d,
                  e,
                )
                ((ap (λ o. start_of fl o window end) started, rest.0), ap suc rest.1)
        ]
