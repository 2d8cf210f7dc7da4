-- ===== src/Feature/Window.antt =====
-- The windows of pkg/feature/aggregator.go: what `Run` emits while the ingest methods run.
use ebpf_docker_anormaly_det.Prelude.{
  ℕ, ◌+◌, ◌≡◌, refl, sym, ap, true, false, String, Option, none, some, List, [], ◌∷◌, ◌++◌, arith,
  string_eq, ◌==◌, if◌then◌else◌, inl, inr, Option-cases, u64,
}
use text.Mathlib.TextEquality.{eq_iff}
use ebpf_docker_anormaly_det.Prelude.Table.{lookup, keys, distinct, contains}
use ebpf_docker_anormaly_det.Syscalls.Counts.{file_open}
use ebpf_docker_anormaly_det.Feature.Types.{Floats, Vector, new_vector}
use ebpf_docker_anormaly_det.Feature.{
  Accumulator, Accounts, finalize, tick, Aggregator, start_of, run_tick,
}
use ebpf_docker_anormaly_det.Feature.Members.{distinct-ingest}
use ebpf_docker_anormaly_det.Feature.Accounts.{
  Counter, Ingest, get, gain, ingest, value, value-ingest, sys,
}

-- The steps that the mutex puts in an order.
pub data Step (fl : Floats) : Type 0 where
  ingests : Ingest fl → Step fl
  ticks : ℕ → Step fl

module _ (fl : Floats) where
  abbrev pub of_container : String → List (Vector fl) → List (Vector fl)
  of_container cid [] = []
  of_container cid (v ∷ vs) =
      let rest = of_container cid vs in if v.container_id == cid then v ∷ rest else rest

  -- What the vectors of a list say of a counter, in sum.
  abbrev pub sum_of : Counter → List (Vector fl) → ℕ
  sum_of k [] = 0
  sum_of k (v ∷ vs) = get fl k v + sum_of k vs

  -- What the calls among the steps report of a counter of a container.
  abbrev pub gains : Counter → String → List (Step fl) → ℕ
  gains k cid [] = 0
  gains k cid (ingests op ∷ steps) = gain fl k cid op + gains k cid steps
  gains k cid (ticks end ∷ steps) = gains k cid steps

  pub of_container-append :
      (cid : String) (r s : List (Vector fl))
      → of_container cid (r ++ s) ≡ of_container cid r ++ of_container cid s
  of_container-append cid [] s = refl
  of_container-append cid (v ∷ r) s = ground (arith, of_container-append cid r s)

  sum_of-append :
      (k : Counter) (r s : List (Vector fl)) → sum_of k (r ++ s) ≡ sum_of k r + sum_of k s
  sum_of-append k [] s = omega arith
  sum_of-append k (v ∷ r) s = omega (arith, sum_of-append k r s)

  -- What a list of vectors says of a counter of a container, in sum.
  abbrev pub reported : Counter → String → List (Vector fl) → ℕ
  reported k cid vs = sum_of k (of_container cid vs)

  reported-append :
      (k : Counter) (cid : String) (r s : List (Vector fl))
      → reported k cid (r ++ s) ≡ reported k cid r + reported k cid s
  reported-append k cid r s =
      rw (of_container-append cid r s) (sum_of-append k (of_container cid r) (of_container cid s))

  module _ (resolve_name : Option (String → String × String)) (window : ℕ) where
    -- The steps in order: all vectors that they emit, and the aggregator after them.
    unfoldable pub run : List (Step fl) → Aggregator fl → List (Vector fl) × Aggregator fl
    run [] a = ([], a)
    run (ingests op ∷ steps) a = run steps (record a { acc = ingest fl op a.acc })
    run (ticks end ∷ steps) a =
        let (out, a') = run_tick fl resolve_name window end a in
        let (rest, a'') = run steps a' in (out ++ rest, a'')

    abbrev pub emitted : ℕ → ℕ → String → Option (Accumulator fl) → List (Vector fl)
    emitted start end cid none = []
    emitted start end cid (some ac) = (finalize fl resolve_name start end cid ac).0 ∷ []

    of_container-absent :
        (start end : ℕ) (acc : Accounts fl) (cid : String)
        → contains cid (keys acc) ≡ false
        → of_container cid (tick fl resolve_name start end acc).0 ≡ []
    unfolding tick contains keys finalize
    of_container-absent start end [] cid h = refl
    of_container-absent start end ((c, ac) ∷ acc) cid h =
        ground (arith, of_container-absent start end acc cid)

    pub of_container-tick :
        (start end : ℕ) (acc : Accounts fl) (cid : String)
        → distinct (keys acc) ≡ true
        → of_container cid (tick fl resolve_name start end acc).0
          ≡ emitted start end cid (lookup cid acc)
    unfolding tick contains distinct keys finalize lookup
    of_container-tick start end [] cid h = refl
    of_container-tick start end ((c, ac) ∷ acc) cid h = ground (
      arith,
      eq_iff c cid,
      of_container-absent start end acc cid,
      of_container-tick start end acc cid,
    )

    pub lookup-tick :
        (start end : ℕ) (acc : Accounts fl) (cid : String)
        → lookup cid (tick fl resolve_name start end acc).1 ≡ elim (lookup cid acc) [
          | none ↦ none
          | some ac ↦ some (finalize fl resolve_name start end cid ac).1
        ]
    unfolding tick lookup
    lookup-tick start end [] cid = refl
    lookup-tick start end ((c, ac) ∷ acc) cid =
        ground (arith, eq_iff c cid, lookup-tick start end acc cid)

    pub keys-tick :
        (start end : ℕ) (acc : Accounts fl) → keys (tick fl resolve_name start end acc).1 ≡ keys acc
    unfolding tick keys
    keys-tick start end [] = refl
    keys-tick start end ((c, ac) ∷ acc) = ap (λ ks. c ∷ ks) (keys-tick start end acc)

    get-fresh :
        (k : Counter) (name image : String)
        → get fl k (record (new_vector fl) { name = name; image = image }) ≡ 0
    get-fresh (sys file_open) name image = refl
    get-fresh (sys _) name image = refl
    get-fresh _ name image = refl

    get-finalize :
        (k : Counter) (start end : ℕ) (cid : String) (ac : Accumulator fl)
        → get fl k (finalize fl resolve_name start end cid ac).0 ≡ get fl k ac.v
    unfolding finalize
    get-finalize (sys b) start end cid ac = refl
    get-finalize _ start end cid ac = refl

    get-finalize_reset :
        (k : Counter) (start end : ℕ) (cid : String) (ac : Accumulator fl)
        → get fl k (finalize fl resolve_name start end cid ac).1.v ≡ 0
    unfolding finalize
    get-finalize_reset k start end cid ac = get-fresh k _ _

    -- A tick emits the value of each counter of each container, and leaves it at 0.
    sum_of-tick :
        (k : Counter) (start end : ℕ) (acc : Accounts fl) (cid : String)
        → distinct (keys acc) ≡ true
        → sum_of k (of_container cid (tick fl resolve_name start end acc).0) ≡ value fl k acc cid
    sum_of-tick k start end acc cid h =
        rw (of_container-tick start end acc cid h) (elim (Option-cases (lookup cid acc)) [
          | inl e ↦ rw (e) (sym (get-fresh k "" ""))
          | inr (ac, e) ↦ rw (e) (omega (arith, get-finalize k start end cid ac))
        ])

    value-tick :
        (k : Counter) (start end : ℕ) (acc : Accounts fl) (cid : String)
        → value fl k (tick fl resolve_name start end acc).1 cid ≡ 0
    value-tick k start end acc cid =
        rw (lookup-tick start end acc cid) (elim (Option-cases (lookup cid acc)) [
          | inl e ↦ rw (e) (get-fresh k "" "")
          | inr (ac, e) ↦ rw (e) (get-finalize_reset k start end cid ac)
        ])

    -- Over any sequence of ingest calls and ticks, what the emitted vectors of a container say of a
    -- counter, and what its accumulator still holds, add up to what the accumulator held at the
    -- start and what the calls reported, modulo 2 ^ 64: each report is in exactly one window.
    -- There is one accumulator for each container at the start.
    pub run-conserves :
        (k : Counter) (cid : String) (steps : List (Step fl)) (a : Aggregator fl)
        → distinct (keys a.acc) ≡ true
        → u64 (reported k cid (run steps a).0 + value fl k (run steps a).1.acc cid)
          ≡ u64 (value fl k a.acc cid + gains k cid steps)
    unfolding run run_tick
    run-conserves k cid [] a h = omega arith
    run-conserves k cid (ingests op ∷ steps) a h = omega (
      arith,
      run-conserves k cid steps (record a { acc = ingest fl op a.acc })
          (distinct-ingest fl op a.acc h),
      value-ingest fl k op a.acc cid,
    )
    run-conserves k cid (ticks end ∷ steps) a h =
        let start = start_of fl a.window_start window end in
        let acc' = (tick fl resolve_name start end a.acc).1 in
        let rest =
          run-conserves k cid steps (record { acc = acc'; window_start = some end })
            (rw (keys-tick start end a.acc) h) in
        rw (reported-append k cid (tick fl resolve_name start end a.acc).0 _) (
          omega
            (arith, rest, sum_of-tick k start end a.acc cid h, value-tick k start end a.acc cid))
