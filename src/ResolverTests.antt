-- ===== src/ResolverTests.antt =====
-- Runs of pkg/container/resolver.go, and the theorems about it at concrete inputs.
use ebpf_docker_anormaly_det.Prelude.{
  ℕ, ◌≡◌, ◌≢◌, refl, String, Option, none, some, List, [], ◌∷◌, arith, All, string_eq, nat_eq, ◌==◌,
  eqb, if◌then◌else◌,
}
use text.Mathlib.TextEquality.{eq_iff}
use ebpf_docker_anormaly_det.Prelude.Table.{lookup, insert, keys}
use ebpf_docker_anormaly_det.Resolver.{
  Upid, upid_eq, Summary, Detail, Resolver, new_resolver, enumerate, add_pids, collect_pids,
  drop_gone, refresh, resolve_fast,
}
use ebpf_docker_anormaly_det.Resolver.Interleaved
use ebpf_docker_anormaly_det.Resolver.Cache.{
  IsRight, Call, resolves, refreshes, run, IsSound, run-answers,
}

-- Pid 40 is a process of container "c1" that started at tick 7, and then one of the host that
-- started at tick 9.
abbrev container_of : Upid → String
container_of u = if eqb u.start_time 7 then "c1" else ""

abbrev early : ℕ → Option ℕ
early pid = some 7

abbrev late : ℕ → Option ℕ
late pid = some 9

abbrev listing : List Summary
listing =
    record { id = "c1"; names = "/web" ∷ []; image = "nginx" }
    ∷ record { id = "c2"; names = []; image = "redis" }
    ∷ []

abbrev inspect : String → Option Detail
inspect cid =
    if cid == "c1" then some (record { status = "running"; pid = 40; started_at = 5 }) else none

abbrev procs : String → List ℕ
procs cid = 40 ∷ 41 ∷ []

abbrev calls : List Call
calls =
    resolves early (λ pid. "c1") 40
    ∷ resolves early (λ pid. "c1") 40
    ∷ refreshes (some listing) inspect procs
    ∷ resolves late (λ pid. "") 40
    ∷ []

calls-IsSound : All (IsSound container_of) calls
calls-IsSound =
    (λ start e. ground arith, (λ start e. ground arith, (tt, (λ start e. ground arith, tt))))

run-answers_example : (run calls new_resolver).0 ≡ "c1" ∷ "c1" ∷ "" ∷ []
run-answers_example = run-answers container_of calls new_resolver tt calls-IsSound

-- Two queries of the process that both miss, and a refresh between their second sections.
abbrev first : Upid
first = record { pid = 40; start_time = 7 }

abbrev sections : List Interleaved.Section
sections =
    Interleaved.begins early 40
    ∷ Interleaved.begins early 40
    ∷ Interleaved.ends (λ pid. "c1") first
    ∷ Interleaved.refreshes (some listing) inspect procs
    ∷ Interleaved.begins early 40
    ∷ Interleaved.ends (λ pid. "c1") first
    ∷ []

sections-answers :
    (Interleaved.run sections [] new_resolver).0
    ≡ (some first, "c1") ∷ (some first, "c1") ∷ (some first, "c1") ∷ []
unfolding Interleaved.run Interleaved.look_up Interleaved.store Interleaved.key_of refresh enumerate
    collect_pids add_pids drop_gone lookup insert keys
sections-answers = refl

run-IsRightAnswer_example :
    All (Interleaved.IsRightAnswer container_of) (Interleaved.run sections [] new_resolver).0
    × IsRight container_of (Interleaved.run sections [] new_resolver).1.upid_cache
run-IsRightAnswer_example =
    Interleaved.run-IsRightAnswer container_of sections [] new_resolver tt
      (tt, (tt, (refl, (tt, (tt, (refl, tt))))))

-- A process of the host that moves into a container.
abbrev moving : Upid
moving = record { pid = 50; start_time = 7 }

abbrev cached : Resolver
cached = record new_resolver { upid_cache = (moving, "") ∷ [] }

abbrev full : Resolver
full = record new_resolver {
  upid_cache = (record { pid = 40; start_time = 7 }, "c1") ∷ (moving, "gone") ∷ [];
}

name_c1 : ◌≢◌ {A = String} "c1" ""
name_c1 = λ e. ground (arith, eq_iff "c1" "", e)

kept_c1 :
    lookup
      (record { pid = 40; start_time = 7 })
      (refresh (some listing) inspect procs full).1.upid_cache
    ≡ some "c1"
unfolding refresh enumerate drop_gone lookup insert
kept_c1 = refl

-- The entry of a container that is gone is dropped.
dropped : lookup moving (refresh (some listing) inspect procs full).1.upid_cache ≡ none
unfolding refresh enumerate drop_gone lookup insert
dropped = refl

fast_c1 : resolve_fast 41 (refresh (some listing) inspect procs full).1 ≡ "c1"
unfolding refresh enumerate collect_pids add_pids lookup insert keys resolve_fast
fast_c1 = refl
