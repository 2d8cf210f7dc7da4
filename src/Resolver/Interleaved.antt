-- ===== src/Resolver/Interleaved.antt =====
-- `Resolve` of pkg/container/resolver.go in its two lock sections: it takes the mutex once to look the
-- process up, and again to store what it has read in between, so that other queries and refreshes come
-- between the two.
use ebpf_docker_anormaly_det.Prelude.{
  ℕ, ◌≡◌, refl, Bool, false, not, String, Option, none, some, List, [], ◌∷◌, ◌||◌, ◌==◌, string_eq,
  inl, inr, Option-cases, Bool-cases, All, if◌then◌else◌,
}
use ebpf_docker_anormaly_det.Prelude.Table.{lookup, insert}
use ebpf_docker_anormaly_det.Resolver.{
  Upid, upid_eq, Summary, Detail, Resolver, refresh, resolve_upid, resolve,
}
use ebpf_docker_anormaly_det.Resolver.Cache.{
  IsRight, insert-IsRight, refresh-IsRight, lookup-IsRight,
}

-- What a query has after its first section: a pid without a start time, an answer, or the start time of
-- a process that the cache does not have.
pub data Found : Type 0 where
  unknown : Found
  cached : String → Found
  missing : ℕ → Found

unfoldable pub key_of : ℕ → ℕ → Upid
key_of pid start = record { pid = pid; start_time = start }

unfoldable pub look_up : (ℕ → Option ℕ) → ℕ → Resolver → Found
unfolding key_of
look_up start_time pid r = elim (start_time pid) [
  | none ↦ unknown
  | some start ↦ elim (lookup (key_of pid start) r.upid_cache) [
    | some cid ↦ cached cid
    | none ↦ missing start
  ]
]

-- The second section.
unfoldable pub store : ℕ → ℕ → String → Resolver → Resolver
unfolding key_of
store pid start cid r = record r { upid_cache = insert (key_of pid start) cid r.upid_cache }

-- A query with nothing between its sections.
pub resolve-sections :
    (start_time : ℕ → Option ℕ) (cgroup_cid : ℕ → String) (pid : ℕ) (r : Resolver)
    → resolve start_time cgroup_cid pid r ≡ elim (look_up start_time pid r) [
      | unknown ↦ ("", false, r)
      | cached cid ↦ (cid, not (cid == ""), r)
      | missing start ↦
          (cgroup_cid pid, not (cgroup_cid pid == ""), store pid start (cgroup_cid pid) r)
    ]
unfolding resolve resolve_upid look_up store key_of
resolve-sections start_time cgroup_cid pid r = elim (Option-cases (start_time pid)) [
  | inl e ↦ rw (resolve, look_up, e) refl
  | inr (start, e) ↦
      let u : Upid = record { pid = pid; start_time = start } in
      elim (Option-cases (lookup u r.upid_cache)) [
        | inl f ↦ rw (resolve, look_up, e, f) refl
        | inr (cid, f) ↦ rw (resolve, look_up, e, f) refl
      ]
]

-- The sections of all goroutines, with what the system says at their times. `ends` is the second section
-- of a query that has not found its process.
pub data Section : Type 0 where
  begins : (ℕ → Option ℕ) → ℕ → Section
  ends : (ℕ → String) → Upid → Section
  refreshes : Option (List Summary) → (String → Option Detail) → (String → List ℕ) → Section

abbrev pub is_pending : Upid → List Upid → Bool
is_pending u [] = false
is_pending u (v ∷ vs) = let rest = is_pending u vs in v == u || rest

abbrev drop_one : Upid → List Upid → List Upid
drop_one u [] = []
drop_one u (v ∷ vs) = let rest = drop_one u vs in if v == u then vs else v ∷ rest

-- The process that has a pid at the time of a query, and an answer with the process asked for.
abbrev pub asked : (ℕ → Option ℕ) → ℕ → Option Upid
asked start_time pid = elim (start_time pid) [
  | none ↦ none
  | some start ↦ some (record { pid = pid; start_time = start })
]

abbrev pub Answer : Type 0
Answer = Option Upid × String

-- The answers in order, and the resolver after them, from a list of the processes for which a query
-- waits for its second section.
unfoldable pub run : List Section → List Upid → Resolver → List Answer × Resolver
run [] pending r = ([], r)
run (begins start_time pid ∷ later) pending r = elim (look_up start_time pid r) [
  | unknown ↦
      let (answers, rest) = run later pending r in ((asked start_time pid, "") ∷ answers, rest)
  | cached cid ↦
      let (answers, rest) = run later pending r in ((asked start_time pid, cid) ∷ answers, rest)
  | missing start ↦ run later (record { pid = pid; start_time = start } ∷ pending) r
]
run (ends cgroup_cid u ∷ later) pending r =
    let cid = cgroup_cid u.pid in
    let (answers, rest) = run later (drop_one u pending) (store u.pid u.start_time cid r) in
    let skipped = run later pending r in
    if is_pending u pending then ((some u, cid) ∷ answers, rest) else skipped
run (refreshes summaries inspect procs ∷ later) pending r =
    run later pending (refresh summaries inspect procs r).1

module _ (container_of : Upid → String) where
  -- What the files of a process say when a second section reads them.
  abbrev pub IsSound : Section → Type 0
  IsSound (ends cgroup_cid u) = cgroup_cid u.pid ≡ container_of u
  IsSound _ = Unit

  abbrev pub IsRightAnswer : Answer → Type 0
  IsRightAnswer (none, cid) = cid ≡ ""
  IsRightAnswer (some u, cid) = cid ≡ container_of u

  -- However the sections of any number of queries and refreshes interleave, with pids reused in between:
  -- every answer is the container of the process that had the pid when the query began, or "" for
  -- a pid without a start time, and the cache holds right answers only, provided that a process that
  -- was missing in the cache still runs when its files are read, and that they always say its
  -- container.
  pub run-IsRightAnswer :
      (sections : List Section) (pending : List Upid) (r : Resolver)
      → IsRight container_of r.upid_cache
      → All IsSound sections
      → All IsRightAnswer (run sections pending r).0
        × IsRight container_of (run sections pending r).1.upid_cache
  unfolding run look_up store key_of
  run-IsRightAnswer [] pending r w s = (tt, w)
  run-IsRightAnswer (begins start_time pid ∷ later) pending r w (_, s) =
      elim (Option-cases (start_time pid)) [
        | inl e ↦
            let (answers, cache) = run-IsRightAnswer later pending r w s in
            rw (run, look_up, e) ((rw (asked, e) refl, answers), cache)
        | inr (start, e) ↦
            let u : Upid = record { pid = pid; start_time = start } in
            elim (Option-cases (lookup u r.upid_cache)) [
              | inl f ↦ rw (run, look_up, e, f) (run-IsRightAnswer later (u ∷ pending) r w s)
              | inr (cid, f) ↦
                  let (answers, cache) = run-IsRightAnswer later pending r w s in
                  rw (run, look_up, e, f)
                    (
                      (rw (asked, e) (lookup-IsRight container_of u cid r.upid_cache w f), answers),
                      cache,
                    )
            ]
      ]
  run-IsRightAnswer (ends cgroup_cid u ∷ later) pending r w (sound, s) =
      elim (Bool-cases (is_pending u pending)) [
        | inl e ↦
            let cid = cgroup_cid u.pid in
            let (answers, cache) =
              run-IsRightAnswer later (drop_one u pending) (store u.pid u.start_time cid r)
                (insert-IsRight container_of u cid r.upid_cache sound w) s in
            rw (run, e) ((sound, answers), cache)
        | inr e ↦ rw (run, e) (run-IsRightAnswer later pending r w s)
      ]
  run-IsRightAnswer (refreshes summaries inspect procs ∷ later) pending r w (_, s) =
      run-IsRightAnswer later pending (refresh summaries inspect procs r).1
        (refresh-IsRight container_of summaries inspect procs r w) s
