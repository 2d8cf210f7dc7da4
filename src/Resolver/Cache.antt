-- ===== src/Resolver/Cache.antt =====
-- The answers of `Resolve` in pkg/container/resolver.go over time, while pids are reused and the
-- cache is refreshed.
use ebpf_docker_anormaly_det.Prelude.{
  ℕ, ◌≡◌, refl, String, Option, none, some, List, [], ◌∷◌, arith, ◌==◌, nat_eq, string_eq, inl, inr,
  Option-cases, Bool-cases, All,
}
use ebpf_docker_anormaly_det.Prelude.Table.{Table, lookup, insert}
use ebpf_docker_anormaly_det.Resolver.{
  Upid, upid_eq, Info, Summary, Detail, Resolver, drop_gone, refresh, resolve_upid, resolve,
  same_upid_iff,
}

-- A call of one of the two methods, with what the system says at its time.
pub data Call : Type 0 where
  resolves : (ℕ → Option ℕ) → (ℕ → String) → ℕ → Call
  refreshes : Option (List Summary) → (String → Option Detail) → (String → List ℕ) → Call

-- The calls in order: the answers to the queries, and the resolver after them.
unfoldable pub run : List Call → Resolver → List String × Resolver
run [] r = ([], r)
run (resolves start_time cgroup_cid pid ∷ calls) r =
    let (cid, found, r') = resolve start_time cgroup_cid pid r in
    let (answers, r'') = run calls r' in (cid ∷ answers, r'')
run (refreshes summaries inspect procs ∷ calls) r = run calls (refresh summaries inspect procs r).1

-- The container of each process over its whole life, "" for none.
module _ (container_of : Upid → String) where
  -- Every cached answer is right.
  abbrev pub IsRight : Table Upid String → Type 0
  IsRight cache = All (λ e. e.1 ≡ container_of e.0) cache

  -- What the files of a process say of its container is right at the time of a query.
  abbrev pub IsSound : Call → Type 0
  IsSound (resolves start_time cgroup_cid pid) =
      (start : ℕ)
      → start_time pid ≡ some start
      → cgroup_cid pid ≡ container_of (record { pid = pid; start_time = start })
  IsSound (refreshes summaries inspect procs) = Unit

  -- The right answers; a process whose start time cannot be read counts as none.
  abbrev pub answer : Option ℕ → ℕ → String
  answer none pid = ""
  answer (some start) pid = container_of (record { pid = pid; start_time = start })

  abbrev pub answers : List Call → List String
  answers [] = []
  answers (resolves start_time cgroup_cid pid ∷ calls) = answer (start_time pid) pid ∷ answers calls
  answers (refreshes summaries inspect procs ∷ calls) = answers calls

  pub insert-IsRight :
      (u : Upid) (cid : String) (cache : Table Upid String)
      → cid ≡ container_of u
      → IsRight cache
      → IsRight (insert u cid cache)
  unfolding insert
  insert-IsRight u cid [] e w = (e, tt)
  insert-IsRight u cid ((v, c) ∷ cache) e w = elim (Bool-cases (v == u)) [
    | inl same ↦ rw same (e, w.1)
    | inr differs ↦ rw differs (w.0, insert-IsRight u cid cache e w.1)
  ]

  drop_gone-IsRight :
      (next : Table String Info) (cache : Table Upid String)
      → IsRight cache
      → IsRight (drop_gone next cache)
  unfolding drop_gone
  drop_gone-IsRight next [] w = tt
  drop_gone-IsRight next ((u, cid) ∷ cache) w = elim (Bool-cases (cid == "")) [
    | inl negative ↦ rw negative (w.0, drop_gone-IsRight next cache w.1)
    | inr positive ↦ elim (Option-cases (lookup cid next)) [
      | inl e ↦ rw (positive, e) (drop_gone-IsRight next cache w.1)
      | inr (info, e) ↦ rw (positive, e) (w.0, drop_gone-IsRight next cache w.1)
    ]
  ]

  pub refresh-IsRight :
      (summaries : Option (List Summary)) (inspect : String → Option Detail)
      (procs : String → List ℕ) (r : Resolver)
      → IsRight r.upid_cache
      → IsRight (refresh summaries inspect procs r).1.upid_cache
  unfolding refresh
  refresh-IsRight none inspect procs r w = w
  refresh-IsRight (some summaries) inspect procs r w = drop_gone-IsRight _ r.upid_cache w

  pub lookup-IsRight :
      (u : Upid) (cid : String) (cache : Table Upid String)
      → IsRight cache
      → lookup u cache ≡ some cid
      → cid ≡ container_of u
  unfolding lookup
  lookup-IsRight u cid [] w h = cc
  lookup-IsRight u cid ((v, c) ∷ cache) w h = elim (Bool-cases (v == u)) [
    | inl same ↦ ground (arith, w.0, same_upid_iff v u)
    | inr differs ↦ lookup-IsRight u cid cache w.1 (rw differs at h)
  ]

  module _ (start_time : ℕ → Option ℕ) (cgroup_cid : ℕ → String) (pid : ℕ) (r : Resolver)
      (w : IsRight r.upid_cache) (sound : IsSound (resolves start_time cgroup_cid pid)) where
    resolve-answer : (resolve start_time cgroup_cid pid r).0 ≡ answer (start_time pid) pid
    unfolding resolve resolve_upid
    resolve-answer = elim (Option-cases (start_time pid)) [
      | inl e ↦ ground arith
      | inr (start, e) ↦
          let u : Upid = record { pid = pid; start_time = start } in
          elim (Option-cases (lookup u r.upid_cache)) [
            | inl missing ↦ rw (resolve, e, missing, answer) (sound start e)
            | inr (cid, found) ↦
                rw (resolve, e, found, answer) (lookup-IsRight u cid r.upid_cache w found)
          ]
    ]

    resolve-IsRight : IsRight (resolve start_time cgroup_cid pid r).2.upid_cache
    unfolding resolve resolve_upid
    resolve-IsRight = elim (Option-cases (start_time pid)) [
      | inl e ↦ rw (resolve, e) w
      | inr (start, e) ↦
          let u : Upid = record { pid = pid; start_time = start } in
          elim (Option-cases (lookup u r.upid_cache)) [
            | inl missing ↦
                rw (resolve, e, missing)
                  (insert-IsRight u (cgroup_cid pid) r.upid_cache (sound start e) w)
            | inr (cid, found) ↦ rw (resolve, e, found) w
          ]
    ]

  -- Over any sequence of queries and refreshes, with pids reused in between, every answer is the
  -- container of the process that has the pid at the time of the query, or "" if its start time
  -- cannot be read, provided that what the files of a process say of its container never changes.
  pub run-answers :
      (calls : List Call) (r : Resolver)
      → IsRight r.upid_cache
      → All IsSound calls
      → (run calls r).0 ≡ answers calls
  unfolding run
  run-answers [] r w sound = refl
  run-answers (resolves start_time cgroup_cid pid ∷ calls) r w sound = rw (
    resolve-answer start_time cgroup_cid pid r w sound.0,
    run-answers calls (resolve start_time cgroup_cid pid r).2
        (resolve-IsRight start_time cgroup_cid pid r w sound.0) sound.1,
  )
  run-answers (refreshes summaries inspect procs ∷ calls) r w sound =
      run-answers calls _ (refresh-IsRight summaries inspect procs r w) sound.1
