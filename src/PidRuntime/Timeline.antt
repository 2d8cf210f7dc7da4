-- ===== src/PidRuntime/Timeline.antt =====
-- The CPU time that bpf/pid_runtime.bpf.c accounts against the time line of a processor: the task
-- that runs on it and since when.
use ebpf_docker_anormaly_det.Prelude.{
  ℕ, ◌+◌, ◌-◌, ◌≤◌, ◌<◌, ◌^◌, ◌≡◌, refl, ◌≢◌, true, not, ◌&&◌, some, List, [], ◌∷◌, arith,
  if◌then◌else◌, ◌==◌, nat_eq, eqb, inl, inr, Bool-cases, add64, length, All,
}
use ebpf_docker_anormaly_det.Prelude.Table.{contains}
use ebpf_docker_anormaly_det.Kernel.{PerCpuHash}
use ebpf_docker_anormaly_det.Kernel.Room.{EntriesAmong, read}
use ebpf_docker_anormaly_det.PidRuntime.{
  CpuAcct, zero_acct, stop, switch_out, switch_in, trace_sched_switch,
}
use ebpf_docker_anormaly_det.PidRuntime.Record.{
  SchedSwitch, IsRecord, encode, probe_read-prev_pid, probe_read-next_pid,
}
use ebpf_docker_anormaly_det.PidRuntime.Slots.{
  lookup-switch_out, switch_out-EntriesAmong, lookup-switch_in, switch_in-EntriesAmong,
}

-- A context switch: the processor, bpf_ktime_get_ns(), and the event's record.
pub record Switch : Type 0 where
  pub cpu : ℕ
  pub now : ℕ
  pub event : SchedSwitch

-- The task `pid` runs since time `since`.
pub record Running : Type 0 where
  pub pid : ℕ
  pub since : ℕ

-- The running task after a switch, seen from processor `d`.
abbrev pub handed : ℕ → Switch → Running → Running
handed d e r = if eqb e.cpu d then record { pid = e.event.next_pid; since = e.now } else r

-- The switches of processor `d` hand it from task to task, in order of time.
abbrev pub Follows : ℕ → Running → List Switch → Type 0
Follows d r [] = Unit
Follows d r (e ∷ es) =
    ((eqb e.cpu d ≡ true) → (e.event.prev_pid ≡ r.pid) × (r.since ≤ e.now))
    × Follows d (handed d e r) es

-- The time that task `q` has run on processor `d` in slices that ended.
abbrev pub slices : ℕ → ℕ → Running → List Switch → ℕ
slices q d r [] = 0
slices q d r (e ∷ es) =
    (if eqb e.cpu d && eqb r.pid q then e.now - r.since else 0) + slices q d (handed d e r) es

module _ (acct : PerCpuHash CpuAcct zero_acct) where
  -- The entry of the running task bears the time since which it runs; the idle task has none.
  abbrev pub Tracks : acct.Map → ℕ → Running → Type 0
  Tracks m d r =
      r.pid ≢ 0 → (p : CpuAcct) × (acct.lookup m r.pid d ≡ some p) × (p.last_start_ns ≡ r.since)

  unfoldable pub switch_step : Switch → acct.Map → acct.Map
  switch_step e m = trace_sched_switch acct e.cpu e.now (encode e.event) m

  unfoldable pub run_switches : List Switch → acct.Map → acct.Map
  run_switches [] m = m
  run_switches (e ∷ es) m = run_switches es (switch_step e m)

  switch_step_lem :
      (e : Switch) (m : acct.Map)
      → IsRecord e.event
      → switch_step e m
        ≡ switch_in acct e.cpu e.now e.event.next_pid
            (switch_out acct e.cpu e.now e.event.prev_pid m)
  unfolding switch_step trace_sched_switch
  switch_step_lem e m w = rw (probe_read-prev_pid e.event w, probe_read-next_pid e.event w)

  module _ (ids : List ℕ) (fits : length ids ≤ acct.max_entries) where
    -- The record is one of the kernel's, and the incoming task is among `ids`.
    abbrev pub IsKnown : Switch → Type 0
    IsKnown e = IsRecord e.event × (contains e.event.next_pid ids ≡ true)

    module _ (e : Switch) (m : acct.Map) (among : EntriesAmong acct ids m) (known : IsKnown e) where
      step-EntriesAmong : EntriesAmong acct ids (switch_step e m)
      step-EntriesAmong = rw (switch_step_lem e m known.0) (
          switch_in-EntriesAmong acct ids fits e.cpu e.now e.event.next_pid _
            (switch_out-EntriesAmong acct ids e.cpu e.now e.event.prev_pid m among) known.1)

      lookup-step :
          (q d : ℕ)
          → let m' = switch_out acct e.cpu e.now e.event.prev_pid m in
            acct.lookup (switch_step e m) q d ≡ (
              if (e.event.next_pid == q) && not (eqb e.event.next_pid 0)
              then some (
                  if e.cpu == d
                  then record (read acct m' q d) { last_start_ns = e.now }
                  else read acct m' q d)
              else acct.lookup m' q d)
      lookup-step q d = rw (switch_step_lem e m known.0) (
          lookup-switch_in acct ids fits e.cpu e.now e.event.next_pid _
            (switch_out-EntriesAmong acct ids e.cpu e.now e.event.prev_pid m among) known.1 q d)

      step-Tracks : (d : ℕ) (r : Running) → Tracks m d r → Tracks (switch_step e m) d (handed d e r)
      step-Tracks d r t = elim (Bool-cases (eqb e.cpu d)) [
        | inl here ↦ rw here (λ nonzero. (
          record (read acct (switch_out acct e.cpu e.now e.event.prev_pid m) e.event.next_pid d) {
            last_start_ns = e.now;
          },
          ground (arith, lookup-step e.event.next_pid d),
          refl,
        ))
        | inr away ↦ rw away (λ nonzero.
            let (p, found, stamp) = t nonzero in
            (
              p,
              ground (
                arith,
                lookup-step r.pid d,
                lookup-switch_out acct e.cpu e.now e.event.prev_pid m r.pid d,
              ),
              stamp,
            ))
      ]

      module _ (q d : ℕ) where
        runtime_in :
            (read acct (switch_step e m) q d).runtime_ns
            ≡ (read acct (switch_out acct e.cpu e.now e.event.prev_pid m) q d).runtime_ns
        runtime_in = ground (arith, lookup-step q d)

        -- One switch charges the task that ran on the processor, and no other.
        runtime-step :
            (r : Running)
            → q ≢ 0
            → Tracks m d r
            → ((eqb e.cpu d ≡ true) → (e.event.prev_pid ≡ r.pid) × (r.since ≤ e.now))
            → (read acct (switch_step e m) q d).runtime_ns ≡ (
                if eqb e.cpu d && eqb r.pid q
                then add64 (read acct m q d).runtime_ns (e.now - r.since)
                else (read acct m q d).runtime_ns)
        unfolding stop
        runtime-step r nonzero tracks follows = elim (Bool-cases (eqb e.cpu d && eqb r.pid q)) [
          | inl both ↦
              let (prev, order) = follows (ground arith) in
              let (p, found, stamp) = tracks (ground arith) in
              ground (arith, runtime_in, lookup-switch_out acct e.cpu e.now e.event.prev_pid m q d)
          | inr other ↦ elim (Bool-cases (eqb e.cpu d)) [
            | inl here ↦
                let (prev, order) = follows here in
                ground
                  (arith, runtime_in, lookup-switch_out acct e.cpu e.now e.event.prev_pid m q d)
            | inr away ↦
                ground
                  (arith, runtime_in, lookup-switch_out acct e.cpu e.now e.event.prev_pid m q d)
          ]
        ]

    -- If the tasks are no more than the map has entries, and the switches of the processor hand it
    -- from task to task in order of time, then from a time at which the entry of the running task bears its switch-in time, the run time
    -- of every task on the processor grows by exactly the lengths of its finished slices there,
    -- modulo 2 ^ 64, whatever happens on other processors.
    pub run_switches-slices :
        (es : List Switch) (m : acct.Map) (q d : ℕ) (r : Running)
        → EntriesAmong acct ids m
        → All IsKnown es
        → q ≢ 0
        → Tracks m d r
        → Follows d r es
        → (read acct m q d).runtime_ns < 2 ^ 64
        → (read acct (run_switches es m) q d).runtime_ns
          ≡ add64 (read acct m q d).runtime_ns (slices q d r es)
    unfolding run_switches
    run_switches-slices [] m q d r among known nonzero tracks follows w = omega arith
    run_switches-slices (e ∷ es) m q d r among known nonzero tracks follows w =
        let one = runtime-step e m among known.0 q d r nonzero tracks follows.0 in
        let rest =
          run_switches-slices es (switch_step e m) q d (handed d e r)
            (step-EntriesAmong e m among known.0) known.1 nonzero
            (step-Tracks e m among known.0 d r tracks) follows.1 (ground (arith, one)) in
        ground (arith, one, rest)
