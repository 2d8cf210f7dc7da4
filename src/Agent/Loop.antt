-- ===== src/Agent/Loop.antt =====
-- The loop of `main` in cmd/agent/main.go, which feeds the aggregator, and the names that it looks
-- up for the aggregator.
use Prim.Native.String.{slice, len, ◌++◌ as text_append}
use ebpf_docker_anormaly_det.Prelude.{
  ℕ, ◌+◌, ◌%◌, ◌^◌, refl, ◌≡◌, Bool, true, not, ◌&&◌, String, none, some, List, [], ◌∷◌, arith,
  string_eq, ◌==◌, leb, eqb, if◌then◌else◌, u64,
}
use ebpf_docker_anormaly_det.Collector.ProcExit.{Event, signal}
use ebpf_docker_anormaly_det.Collector.Syscalls
use ebpf_docker_anormaly_det.Collector.TcpStats
use ebpf_docker_anormaly_det.Collector.PidRuntime
use ebpf_docker_anormaly_det.Resolver.{Resolver, container_by_id}
use ebpf_docker_anormaly_det.Feature.Types.{Floats}
use ebpf_docker_anormaly_det.Feature.{
  Accounts, ingest_exit, ingest_tcp, ingest_cpu, ingest_syscalls,
}
use ebpf_docker_anormaly_det.Feature.Accounts.{
  proc_exits, proc_crashes, value, value-exit, value-ingest, gain, ingest, tcp as tcp_call,
  cpu as cpu_call, syscalls as syscalls_call,
}

-- What the `select` receives, but for the signal to stop and the vectors to write.
pub data Message : Type 0 where
  event : Event → Message
  tcp : List TcpStats.Row → Message
  cpu : List PidRuntime.Row → Message
  histograms : List Syscalls.Row → Message

-- `agg.ResolveName`
unfoldable pub resolve_name : Resolver → String → String × String
resolve_name r cid = elim (container_by_id cid r) [
  | some c ↦ (c.name, c.image)
  | none ↦ if leb 12 (len cid) then (text_append "cid:" (slice cid 0 12), "") else ("unknown", "")
]

-- The exits of a container among the messages for which a test on the exit code holds.
abbrev pub exits : (ℕ → Bool) → String → List Message → ℕ
exits test cid [] = 0
exits test cid (event ev ∷ ms) =
    (if (ev.container_id == cid) && test ev.exit_code then 1 else 0) + exits test cid ms
exits test cid (_ ∷ ms) = exits test cid ms

exits-cons :
    (test : ℕ → Bool) (cid : String) (m : Message) (ms : List Message)
    → exits test cid (m ∷ ms) ≡ exits test cid (m ∷ []) + exits test cid ms
exits-cons test cid (event ev) ms = omega arith
exits-cons test cid (tcp rows) ms = omega arith
exits-cons test cid (cpu rows) ms = omega arith
exits-cons test cid (histograms rows) ms = omega arith

-- In the word that the kernel keeps, the low seven bits are the signal that ended a process.
abbrev pub by_signal : ℕ → Bool
by_signal code = not (eqb (code % 2 ^ 7) 0)

module _ (fl : Floats) where
  -- One round of the loop.
  unfoldable pub dispatch : Message → Accounts fl → Accounts fl
  dispatch (event ev) acc = ingest_exit fl ev.container_id (not (eqb (signal ev) 0)) acc
  dispatch (tcp rows) acc = ingest_tcp fl rows acc
  dispatch (cpu rows) acc = ingest_cpu fl rows acc
  dispatch (histograms rows) acc = ingest_syscalls fl rows acc

  unfoldable pub dispatch_all : List Message → Accounts fl → Accounts fl
  dispatch_all [] acc = acc
  dispatch_all (m ∷ ms) acc = dispatch_all ms (dispatch m acc)

  no_exits_tcp :
      (cid : String) (rows : List TcpStats.Row)
      → (gain fl proc_exits cid (tcp_call rows) ≡ 0)
        × (gain fl proc_crashes cid (tcp_call rows) ≡ 0)
  no_exits_tcp cid [] = (refl, refl)
  no_exits_tcp cid (row ∷ rows) =
      let (e, c) = no_exits_tcp cid rows in (ground (arith, e), ground (arith, c))

  no_exits_cpu :
      (cid : String) (rows : List PidRuntime.Row)
      → (gain fl proc_exits cid (cpu_call rows) ≡ 0)
        × (gain fl proc_crashes cid (cpu_call rows) ≡ 0)
  no_exits_cpu cid [] = (refl, refl)
  no_exits_cpu cid (row ∷ rows) =
      let (e, c) = no_exits_cpu cid rows in (ground (arith, e), ground (arith, c))

  no_exits_calls :
      (cid : String) (rows : List Syscalls.Row)
      → (gain fl proc_exits cid (syscalls_call rows) ≡ 0)
        × (gain fl proc_crashes cid (syscalls_call rows) ≡ 0)
  no_exits_calls cid [] = (refl, refl)
  no_exits_calls cid (row ∷ rows) =
      let (e, c) = no_exits_calls cid rows in (ground (arith, e), ground (arith, c))

  -- What a message adds to the counters of exits.
  value-dispatch :
      (m : Message) (acc : Accounts fl) (cid : String)
      → (u64 (value fl proc_exits (dispatch m acc) cid)
          ≡ u64 (value fl proc_exits acc cid + exits (λ code. true) cid (m ∷ [])))
        × (u64 (value fl proc_crashes (dispatch m acc) cid)
            ≡ u64 (value fl proc_crashes acc cid + exits by_signal cid (m ∷ [])))
  unfolding dispatch ingest signal
  value-dispatch (event ev) acc cid =
      let crash = not (eqb (signal ev) 0) in
      (
        ground (arith, value-exit fl proc_exits ev.container_id crash acc cid),
        ground (arith, value-exit fl proc_crashes ev.container_id crash acc cid),
      )
  value-dispatch (tcp rows) acc cid =
      let (e, c) = no_exits_tcp cid rows in
      (
        omega (arith, value-ingest fl proc_exits (tcp_call rows) acc cid, e),
        omega (arith, value-ingest fl proc_crashes (tcp_call rows) acc cid, c),
      )
  value-dispatch (cpu rows) acc cid =
      let (e, c) = no_exits_cpu cid rows in
      (
        omega (arith, value-ingest fl proc_exits (cpu_call rows) acc cid, e),
        omega (arith, value-ingest fl proc_crashes (cpu_call rows) acc cid, c),
      )
  value-dispatch (histograms rows) acc cid =
      let (e, c) = no_exits_calls cid rows in
      (
        omega (arith, value-ingest fl proc_exits (syscalls_call rows) acc cid, e),
        omega (arith, value-ingest fl proc_crashes (syscalls_call rows) acc cid, c),
      )

  -- Whatever messages the loop receives, in whatever order: the exits of each container are raised by
  -- the number of its exit events, and its crashes by the number of those whose exit code has a bit
  -- among the low seven, the number of the signal that ended the process; all modulo 2 ^ 64.
  pub dispatch_all-exits :
      (ms : List Message) (acc : Accounts fl) (cid : String)
      → (u64 (value fl proc_exits (dispatch_all ms acc) cid)
          ≡ u64 (value fl proc_exits acc cid + exits (λ code. true) cid ms))
        × (u64 (value fl proc_crashes (dispatch_all ms acc) cid)
            ≡ u64 (value fl proc_crashes acc cid + exits by_signal cid ms))
  unfolding dispatch_all
  dispatch_all-exits [] acc cid = (omega arith, omega arith)
  dispatch_all-exits (m ∷ ms) acc cid =
      let (e, c) = value-dispatch m acc cid in
      let (es, cs) = dispatch_all-exits ms (dispatch m acc) cid in
      (
        omega (arith, e, es, exits-cons (λ code. true) cid m ms),
        omega (arith, c, cs, exits-cons by_signal cid m ms),
      )
