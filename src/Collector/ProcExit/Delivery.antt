-- ===== src/Collector/ProcExit/Delivery.antt =====
-- Exit events on their way from bpf/proc_exit.bpf.c through the perf buffer to the channel of
-- pkg/collector/procexit/collector.go.
use ebpf_docker_anormaly_det.Prelude.{
  ℕ, ◌+◌, ◌*◌, ◌<◌, ◌^◌, ◌≡◌, refl, Bool, false, not, ◌&&◌, String, none, some, List, [], ◌∷◌, ◌++◌,
  arith, if◌then◌else◌, ◌==◌, string_eq, eqb, inl, inr, Option-cases, Bool-cases, length, All, u32,
}
use ebpf_docker_anormaly_det.Kernel.{PerCpuArray}
use ebpf_docker_anormaly_det.ProcExit.{
  ProcExitEvent, Exiting, tgid_of, tid_of, event_bytes, handle_proc_exit, handle_all,
}
use ebpf_docker_anormaly_det.Collector.ProcExit.{
  Event, signal, status, Read, sample, trim_null, to_event, run,
}
use ebpf_docker_anormaly_det.Collector.ProcExit.Layout.{
  IsEvent, length-event_bytes, reinterpret-event_bytes,
}

-- An exiting task with words and a name of the kernel's sizes.
pub record IsTask (t : Exiting) : Type 0 where
  pub ktime_ns : t.ktime_ns < 2 ^ 64
  pub start_boottime : t.start_boottime < 2 ^ 64
  pub comm : length t.comm ≡ 16

module _ (resolve_pid : ℕ → String) where
  -- The event that user space is to see of a task's exit.
  abbrev pub exit_event : Exiting → Event
  exit_event t = record {
    ts = t.ktime_ns;
    start_time = t.start_boottime;
    tgid = tgid_of t;
    exit_code = u32 t.exit_code;
    comm = trim_null t.comm;
    container_id = resolve_pid (tgid_of t);
  }

  -- The exits that are reported: those of thread group leaders that the resolver finds in a
  -- container.
  abbrev pub reported : List Exiting → List Event
  reported [] = []
  reported (t ∷ ts) =
      let rest = reported ts in
      if eqb (tgid_of t) (tid_of t) && not (resolve_pid (tgid_of t) == "")
      then exit_event t ∷ rest
      else rest

  -- A read of the perf buffer for each sample, with `pad` behind the event and nothing lost, while the collector
  -- is not stopped.
  abbrev pub reads : List ℕ → List (List ℕ) → List (Read × Bool)
  reads pad [] = []
  reads pad (s ∷ ss) = (sample 0 (s ++ pad), false) ∷ reads pad ss

  module _ (heap : PerCpuArray ProcExitEvent) (sized : 0 < heap.max_entries) (pad : List ℕ) where
    -- The scratch event after the program has filled it.
    abbrev filled : Exiting → ProcExitEvent
    filled t = record {
      ts_ns = t.ktime_ns;
      start_time_ns = t.start_boottime;
      tgid = tgid_of t;
      exit_code = u32 t.exit_code;
      comm = t.comm;
    }

    filled-IsEvent : (t : Exiting) → IsTask t → IsEvent (filled t)
    filled-IsEvent t w = record {
      ts_ns = w.ktime_ns;
      start_time_ns = w.start_boottime;
      tgid = omega arith;
      exit_code = omega arith;
      comm = w.comm;
    }

    sample_sent :
        (t : Exiting) (m : heap.Map)
        → (handle_proc_exit heap t m).1
          ≡ (if eqb (tgid_of t) (tid_of t) then some (event_bytes (filled t)) else none)
    unfolding handle_proc_exit
    sample_sent t m = elim (Option-cases (heap.lookup m 0 t.cpu)) [
      | inl e ↦ ground (arith, heap.lookup_below m 0 t.cpu)
      | inr (e, found) ↦ ground arith
    ]

    to_event-sample :
        (t : Exiting)
        → IsTask t
        → to_event resolve_pid (event_bytes (filled t) ++ pad) ≡ exit_event t
    unfolding to_event
    to_event-sample t w = rw (reinterpret-event_bytes (filled t) (filled-IsEvent t w) pad)

    run-sample :
        (t : Exiting) (rs : List (Read × Bool))
        → IsTask t
        → run resolve_pid ((sample 0 (event_bytes (filled t) ++ pad), false) ∷ rs) ≡ (
            if resolve_pid (tgid_of t) == ""
            then run resolve_pid rs
            else exit_event t ∷ run resolve_pid rs)
    unfolding run
    run-sample t rs w =
        rw (to_event-sample t w)
          (ground (arith, length-event_bytes (filled t) (filled-IsEvent t w) pad))

    -- From the exits in the kernel to the channel in user space, while no sample is lost, the
    -- collector is not stopped and the fields have the kernel's sizes: the events are those of the
    -- reported exits, in order and with their fields, and no others.
    pub run-handle_all :
        (ts : List Exiting) (m : heap.Map)
        → All IsTask ts
        → run resolve_pid (reads pad (handle_all heap ts m)) ≡ reported ts
    unfolding handle_all
    run-handle_all [] m w = unfold run in refl
    run-handle_all (t ∷ ts) m w =
        let m' = (handle_proc_exit heap t m).0 in
        let later = run-handle_all ts m' w.1 in
        elim (Bool-cases (eqb (tgid_of t) (tid_of t))) [
          | inl leader ↦
              ground (
                arith,
                sample_sent t m,
                run-sample t (reads pad (handle_all heap ts m')) w.0,
                later,
              )
          | inr thread ↦ ground (arith, sample_sent t m, later)
        ]

-- How a process ends: by exit with a status, or by a signal, with or without a core dump.
pub data Death : Type 0 where
  exited : ℕ → Death
  killed : ℕ → Bool → Death

-- The status is a byte, and the signal has seven bits.
abbrev pub IsDeath : Death → Type 0
IsDeath (exited code) = code < 256
IsDeath (killed sig core) = sig < 128

-- The field `exit_code` of the kernel's task_struct.
abbrev pub wait_status : Death → ℕ
wait_status (exited code) = code * 256
wait_status (killed sig core) = sig + (if core then 128 else 0)

abbrev pub signal_of : Death → ℕ
signal_of (exited code) = 0
signal_of (killed sig core) = sig

abbrev pub status_of : Death → ℕ
status_of (exited code) = code
status_of (killed sig core) = 0

-- Whatever way a process ends, `Signal` and `Status` of its event tell the signal and the status
-- with which it ended, each 0 if there is none.
pub signal-status :
    (e : Event) (d : Death)
    → IsDeath d
    → e.exit_code ≡ wait_status d
    → (signal e ≡ signal_of d) × (status e ≡ status_of d)
unfolding signal status
signal-status e (exited code) w h = ground arith
signal-status e (killed sig core) w h = ground arith
