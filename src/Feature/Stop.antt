-- ===== src/Feature/Stop.antt =====
-- `Run` of pkg/feature/aggregator.go among the goroutines around it: the callers of the ingest methods,
-- which wait for the mutex, the consumer of the channel of vectors, and `Stop`.
pub mod Steps
pub mod Returns
use ebpf_docker_anormaly_det.Prelude.{
  ℕ, ◌+◌, Bool, true, false, String, Option, none, some, List, [], ◌∷◌, ◌++◌, ltb, if◌then◌else◌,
  length,
}
use ebpf_docker_anormaly_det.Feature.Types.{Floats, Vector}
use ebpf_docker_anormaly_det.Feature.{Aggregator, run_tick}
use ebpf_docker_anormaly_det.Feature.Accounts.{Ingest, ingest}

-- Where `Run` is: before its `select`, between lock and unlock in the case of a tick, in the loop with
-- the vectors still to send, or at its end, with the vectors that it leaves unsent.
pub data Control (fl : Floats) : Type 0 where
  waiting : Control fl
  collecting : ℕ → Control fl
  sending : List (Vector fl) → Control fl
  returned : List (Vector fl) → Control fl

-- What the goroutines share: whether `Run` holds `mu`, whether `stopCh` is closed, the fields that
-- `mu` guards, and what the consumer has received.
pub record Shared (fl : Floats) : Type 0 where
  pub mutex : Bool
  pub stop_closed : Bool
  pub agg : Aggregator fl
  pub received : List (Vector fl)

-- `Run`, the buffer of `out`, and the rest.
abbrev pub Loop : Floats → Type 0
Loop fl = Control fl × List (Vector fl) × Shared fl

-- Before `Run` has begun.
abbrev pub start : {fl : Floats} → Aggregator fl → Loop fl
start a = (waiting, [], record { mutex = false; stop_closed = false; agg = a; received = [] })

-- One step of one of them. An ingest method locks and unlocks with nothing in between that waits, so a
-- call is one step. `hand_over` is a send to a consumer that waits.
pub data Action (fl : Floats) : Type 0 where
  call : Ingest fl → Action fl
  close receive : Action fl
  tick : ℕ → Action fl
  emit send hand_over finish quit : Action fl

module _ (fl : Floats) (resolve_name : Option (String → String × String))
    (window capacity : ℕ) where
  -- The state after a step, if it can be taken.
  unfoldable pub step : Action fl → Loop fl → Option (Loop fl)
  step (call op) (c, q, s) =
      if s.mutex
      then none
      else some (c, q, record s { agg = record s.agg { acc = ingest fl op s.agg.acc } })
  step close (c, q, s) =
      if s.stop_closed then none else some (c, q, record s { stop_closed = true })
  step receive (c, v ∷ q, s) = some (c, q, record s { received = s.received ++ (v ∷ []) })
  step (tick end) (waiting, q, s) =
      if s.mutex then none else some (collecting end, q, record s { mutex = true })
  step emit (collecting end, q, s) =
      let (out, a) = run_tick fl resolve_name window end s.agg in
      some (sending out, q, record s { mutex = false; agg = a })
  step send (sending (v ∷ vs), q, s) =
      if ltb (length q) capacity then some (sending vs, q ++ (v ∷ []), s) else none
  step hand_over (sending (v ∷ vs), [], s) =
      some (sending vs, [], record s { received = s.received ++ (v ∷ []) })
  step finish (sending [], q, s) = some (waiting, q, s)
  step quit (waiting, q, s) = if s.stop_closed then some (returned [], q, s) else none
  step quit (sending (v ∷ vs), q, s) =
      if s.stop_closed then some (returned (v ∷ vs), q, s) else none
  step _ _ = none

  unfoldable pub steps : List (Action fl) → Loop fl → Option (Loop fl)
  steps [] l = some l
  steps (a ∷ later) l = elim (step a l) [ none ↦ none | some l' ↦ steps later l' ]
