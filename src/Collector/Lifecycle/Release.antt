-- ===== src/Collector/Lifecycle/Release.antt =====
-- About what is open after `New` of a collector of pkg/collector, whichever of its calls fails.
use ebpf_docker_anormaly_det.Prelude.{
  sym, ◌∙◌, ◌≡◌, refl, Bool, true, false, not, String, none, some, List, [], ◌∷◌, ◌++◌,
  if◌then◌else◌,
}
use mathlib.Core.List.{append-nil, append_assoc}
use ebpf_docker_anormaly_det.Prelude.Int.{le_zero}
use ebpf_docker_anormaly_det.Collector.Lifecycle.{
  Held, nothing, no_resolve, tick_not_positive, memlock, load, perf_reader, attach, Env,
  open_objects, close_objects, add_link, close_links, cleanup, Outcome, load_then, check_resolve,
  check_tick, attach_one, ready, open_reader, attach_probes, probes, new_syscalls, new_pidruntime,
  new_procexit, new_tcpstats, IsClean,
}

module _ (links : List String) (reader : Bool) where
  if-IsClean :
      (b : Bool) (x y : Outcome)
      → IsClean links reader x
      → IsClean links reader y
      → IsClean links reader (if b then x else y)
  if-IsClean true x y h k = h
  if-IsClean false x y h k = k

  module _ (env : Env) where
    check_resolve-IsClean :
        (x : Outcome)
        → IsClean links reader x
        → IsClean links reader (check_resolve env (some no_resolve, nothing) x)
    unfolding check_resolve
    check_resolve-IsClean x h = if-IsClean (not env.has_resolve) (some no_resolve, nothing) x refl h

    check_tick-IsClean :
        (x : Outcome)
        → IsClean links reader x
        → IsClean links reader (check_tick env (some tick_not_positive, nothing) x)
    unfolding check_tick
    check_tick-IsClean x h =
        if-IsClean (le_zero env.tick) (some tick_not_positive, nothing) x refl h

    load_then-IsClean :
        (next : Held → Outcome)
        → IsClean links reader (next (open_objects nothing))
        → IsClean links reader (load_then env next nothing)
    unfolding load_then
    load_then-IsClean next h =
        let loaded = next (open_objects nothing) in
        if-IsClean (not env.memlock_ok) (some memlock, nothing)
          (if not env.loads then (some load, nothing) else loaded) refl
          (if-IsClean (not env.loads) (some load, nothing) loaded refl h)

    attach_one-IsClean :
        (name : String) (next : Held → Outcome)
        → IsClean links reader (next (add_link name (open_objects nothing)))
        → IsClean links reader (attach_one env name next (open_objects nothing))
    unfolding attach_one
    attach_one-IsClean name next h =
        if-IsClean (env.attaches name) (next (add_link name (open_objects nothing)))
          (some (attach name), close_objects (open_objects nothing)) h refl

    attach_probes-IsClean :
        (ps : List String) (done : List String)
        → (done ++ ps) ≡ links
        → reader ≡ false
        → IsClean links reader
            (attach_probes env ps (record { objects = true; links = done; reader = false }))
    unfolding attach_probes
    attach_probes-IsClean [] done e f = rw (sym (append-nil done) ∙ e, f) refl
    attach_probes-IsClean (p ∷ ps) done e f =
        let h : Held = record { objects = true; links = done; reader = false } in
        if-IsClean (env.attaches p) (attach_probes env ps (add_link p h))
          (some (attach p), cleanup h)
          (attach_probes-IsClean ps (done ++ (p ∷ [])) (append_assoc done (p ∷ []) ps ∙ e) f) refl

open_reader-IsClean :
    (env : Env)
    → IsClean
        ("tracepoint sched_process_exit" ∷ [])
        true
        (open_reader env (add_link "tracepoint sched_process_exit" (open_objects nothing)))
unfolding open_reader
open_reader-IsClean env =
    let h : Held = add_link "tracepoint sched_process_exit" (open_objects nothing) in
    if-IsClean ("tracepoint sched_process_exit" ∷ []) true env.reader_ok
      (none, record h { reader = true }) (some perf_reader, close_objects (close_links h)) refl refl

-- Whatever fails of the calls of `New`, in each of the four collectors: after an error nothing of the
-- kernel is open, no object, no link and no reader, and after a success exactly the objects, the
-- links of all its probes in their order and, for procexit, the reader.
pub new-IsClean :
    (env : Env)
    → IsClean ("raw_tracepoint sys_enter" ∷ []) false (new_syscalls env nothing)
      × IsClean ("tracepoint sched_switch" ∷ []) false (new_pidruntime env nothing)
      × IsClean ("tracepoint sched_process_exit" ∷ []) true (new_procexit env nothing)
      × IsClean probes false (new_tcpstats env nothing)
unfolding new_syscalls new_pidruntime new_procexit new_tcpstats
new-IsClean env =
    let sys : List String = "raw_tracepoint sys_enter" ∷ [] in
    let run : List String = "tracepoint sched_switch" ∷ [] in
    let end : List String = "tracepoint sched_process_exit" ∷ [] in
    (
      check_tick-IsClean sys false env _ (
          load_then-IsClean sys false env (attach_one env "raw_tracepoint sys_enter" ready)
            (attach_one-IsClean sys false env "raw_tracepoint sys_enter" ready refl)),
      check_resolve-IsClean run false env _ (
          check_tick-IsClean run false env _ (
            load_then-IsClean run false env (attach_one env "tracepoint sched_switch" ready)
              (attach_one-IsClean run false env "tracepoint sched_switch" ready refl))),
      check_resolve-IsClean end true env _ (
          load_then-IsClean end true env
            (attach_one env "tracepoint sched_process_exit" (open_reader env))
            (attach_one-IsClean end true env "tracepoint sched_process_exit" (open_reader env)
              (open_reader-IsClean env))),
      check_resolve-IsClean probes false env _ (
          check_tick-IsClean probes false env _ (
            load_then-IsClean probes false env (attach_probes env probes)
              (attach_probes-IsClean probes false env probes [] refl refl))),
    )
