-- ===== src/Feature/Stop/Steps.antt =====
-- About `Run` of pkg/feature/aggregator.go in all interleavings with the goroutines around it.
use mathlib.Core.List.{append-nil, append_assoc}
use mathlib.Core.Option.{some-injective, none-ne-some}
use mathlib.Core.Bool.{true≢false}
use ebpf_docker_anormaly_det.Prelude.{
  ℕ, ◌≡◌, ◌∙◌, sym, refl, ap, Bool, true, false, ◌||◌, String, Option, none, some, List, [], ◌∷◌,
  ◌++◌, if◌then◌else◌, length, Option-cases, inl, inr, ltb,
}
use ebpf_docker_anormaly_det.Prelude.Table.{is_some}
use ebpf_docker_anormaly_det.Feature.Types.{Floats, Vector}
use ebpf_docker_anormaly_det.Feature.{Aggregator, run_tick}
use ebpf_docker_anormaly_det.Feature.Accounts.{Ingest}
use ebpf_docker_anormaly_det.Feature.Window.{Step, ingests, ticks, run}
use ebpf_docker_anormaly_det.Feature.Stop.{
  Control, waiting, collecting, sending, returned, Loop, start, Action, call, close, receive, tick,
  emit, send, hand_over, finish, quit, step, steps,
}

-- Whether `Run` holds the mutex at a place: exactly while it collects the vectors of a tick.
abbrev pub holds_mutex : {fl : Floats} → Control fl → Bool
holds_mutex (collecting end) = true
holds_mutex _ = false

abbrev pub IsGuarded : {fl : Floats} → Loop fl → Type 0
IsGuarded (c, q, s) = s.mutex ≡ holds_mutex c

-- What a step that was taken says.
pub taken {ℓ} : {A : Type ℓ} (x y : A) → some x ≡ some y → y ≡ x
taken x y h = sym (some-injective x y h)

pub taken_unless {ℓ} :
    {A : Type ℓ} (b : Bool) (x y : A)
    → (if b then none else some x) ≡ some y
    → (b ≡ false) × (y ≡ x)
taken_unless true x y h = absurd (none-ne-some _ h)
taken_unless false x y h = (refl, taken x y h)

pub taken_when {ℓ} :
    {A : Type ℓ} (b : Bool) (x y : A) → (if b then some x else none) ≡ some y → (b ≡ true) × (y ≡ x)
taken_when true x y h = (refl, taken x y h)
taken_when false x y h = absurd (none-ne-some _ h)

-- The calls and ticks among the steps.
abbrev pub calls_and_ticks : {fl : Floats} → List (Action fl) → List (Step fl)
calls_and_ticks [] = []
calls_and_ticks (call op ∷ later) = ingests op ∷ calls_and_ticks later
calls_and_ticks (tick end ∷ later) = ticks end ∷ calls_and_ticks later
calls_and_ticks (_ ∷ later) = calls_and_ticks later

module _ (fl : Floats) (resolve_name : Option (String → String × String)) (window : ℕ) where
  -- What `Run` has collected, or is about to collect, and has not sent.
  abbrev pub unsent : Control fl → Aggregator fl → List (Vector fl)
  unsent waiting a = []
  unsent (collecting end) a = (run_tick fl resolve_name window end a).0
  unsent (sending vs) a = vs
  unsent (returned vs) a = vs

  -- The aggregator as it is after a tick that has begun.
  abbrev pub settled : Control fl → Aggregator fl → Aggregator fl
  settled (collecting end) a = (run_tick fl resolve_name window end a).1
  settled _ a = a

  abbrev pub all_of : Loop fl → List (Vector fl)
  all_of (c, q, s) = s.received ++ (q ++ unsent c s.agg)

  abbrev pub settled_of : Loop fl → Aggregator fl
  settled_of (c, q, s) = settled c s.agg

  abbrev pub Advances : List (Step fl) → Loop fl → Loop fl → Type 0
  Advances e l l' =
      (all_of l' ≡ all_of l ++ (run fl resolve_name window e (settled_of l)).0)
      × (settled_of l' ≡ (run fl resolve_name window e (settled_of l)).1)
      × IsGuarded l'

  run-cons :
      (x : Action fl) (later : List (Action fl)) (a : Aggregator fl)
      → (run fl resolve_name window (calls_and_ticks (x ∷ later)) a).0
        ≡ (run fl resolve_name window (calls_and_ticks (x ∷ [])) a).0
          ++ (run fl resolve_name window
              (calls_and_ticks later)
              (run fl resolve_name window (calls_and_ticks (x ∷ [])) a).1).0
  unfolding run
  run-cons (call op) later a = refl
  run-cons (tick end) later a = rw (append-nil (run_tick fl resolve_name window end a).0) refl
  run-cons close later a = refl
  run-cons receive later a = refl
  run-cons emit later a = refl
  run-cons send later a = refl
  run-cons hand_over later a = refl
  run-cons finish later a = refl
  run-cons quit later a = refl

  module _ (capacity : ℕ) where
    pub step-Advances :
        (a : Action fl) (l l' : Loop fl)
        → IsGuarded l
        → step fl resolve_name window capacity a l ≡ some l'
        → Advances (calls_and_ticks (a ∷ [])) l l'
    unfolding step run
    step-Advances (call op) (waiting, q, s) l' g h =
        rw (taken_unless s.mutex _ l' h).1 (sym (append-nil _), refl, g)
    step-Advances (call op) (collecting end, q, s) l' g h =
        absurd (true≢false (sym g ∙ (taken_unless s.mutex _ l' h).0))
    step-Advances (call op) (sending vs, q, s) l' g h =
        rw (taken_unless s.mutex _ l' h).1 (sym (append-nil _), refl, g)
    step-Advances (call op) (returned vs, q, s) l' g h =
        rw (taken_unless s.mutex _ l' h).1 (sym (append-nil _), refl, g)
    step-Advances close (c, q, s) l' g h =
        rw (taken_unless s.stop_closed _ l' h).1 (sym (append-nil _), refl, g)
    step-Advances receive (c, v ∷ q, s) l' g h =
        rw (taken _ l' h)
          (append_assoc s.received (v ∷ []) (q ++ unsent c s.agg) ∙ sym (append-nil _), refl, g)
    step-Advances (tick end) (waiting, q, s) l' g h =
        let out = (run_tick fl resolve_name window end s.agg).0 in
        let sent : s.received ++ (q ++ out) ≡ s.received ++ (q ++ []) ++ (out ++ []) =
          rw (append-nil q, append-nil out) (sym (append_assoc s.received q out)) in
        rw (taken_unless s.mutex _ l' h).1 (sent, refl, refl)
    step-Advances emit (collecting end, q, s) l' g h =
        rw (taken _ l' h) (sym (append-nil _), refl, refl)
    step-Advances send (sending (v ∷ vs), q, s) l' g h =
        rw (taken_when (ltb (length q) capacity) _ l' h).1
          (ap (λ r. s.received ++ r) (append_assoc q (v ∷ []) vs) ∙ sym (append-nil _), refl, g)
    step-Advances hand_over (sending (v ∷ vs), [], s) l' g h =
        rw (taken _ l' h) (append_assoc s.received (v ∷ []) vs ∙ sym (append-nil _), refl, g)
    step-Advances finish (sending [], q, s) l' g h = rw (taken _ l' h) (sym (append-nil _), refl, g)
    step-Advances quit (waiting, q, s) l' g h =
        rw (taken_when s.stop_closed _ l' h).1 (sym (append-nil _), refl, g)
    step-Advances quit (sending (v ∷ vs), q, s) l' g h =
        rw (taken_when s.stop_closed _ l' h).1 (sym (append-nil _), refl, g)
    step-Advances _ _ l' g h = absurd (none-ne-some _ h)

    pub steps-Advances :
        (xs : List (Action fl)) (l l' : Loop fl)
        → IsGuarded l
        → steps fl resolve_name window capacity xs l ≡ some l'
        → (all_of l'
            ≡ all_of l ++ (run fl resolve_name window (calls_and_ticks xs) (settled_of l)).0)
          × IsGuarded l'
    unfolding steps run
    steps-Advances [] l l' g h = rw (taken l l' h) (sym (append-nil (all_of l)), g)
    steps-Advances (x ∷ xs) l l' g h =
        elim (Option-cases (step fl resolve_name window capacity x l)) [
          | inl e ↦ absurd (none-ne-some l' (rw (steps, e) at h))
          | inr (m, e) ↦
              let (all, agg, guard) = step-Advances x l m g e in
              let (rest, guard') = steps-Advances xs m l' guard (rw (steps, e) at h) in
              (
                rest
                    ∙ rw (all, agg)
                        (append_assoc (all_of l) _ _
                          ∙ ap (λ vs. all_of l ++ vs) (sym (run-cons x xs (settled_of l)))),
                guard',
              )
        ]

    call_is_free :
        (op : Ingest fl) (l : Loop fl)
        → IsGuarded l
        → (is_some (steps fl resolve_name window capacity (call op ∷ []) l)
            || is_some (steps fl resolve_name window capacity (emit ∷ call op ∷ []) l))
          ≡ true
    unfolding steps step
    call_is_free op (waiting, q, s) g = rw g refl
    call_is_free op (collecting end, q, s) g = rw g refl
    call_is_free op (sending vs, q, s) g = rw g refl
    call_is_free op (returned vs, q, s) g = rw g refl

    module _ (before : List (Action fl)) (a : Aggregator fl) (l : Loop fl)
        (reached : steps fl resolve_name window capacity before (start a) ≡ some l) where
      -- In every interleaving of the calls of the ingest methods, the ticks, the consumer and `Stop`,
      -- for a channel of any capacity: what the consumer has received, what the channel holds, and what
      -- `Run` has still to send or has left unsent at its return, are in this order exactly the
      -- vectors of all ticks, as if each tick were one step between the calls. So a vector is lost only if
      -- `Run` has returned, and then only the last ones are.
      pub steps-run : all_of l ≡ (run fl resolve_name window (calls_and_ticks before) a).0
      steps-run = (steps-Advances before (start a) l refl reached).0

      -- In every state that is reached, whatever the channel holds and whether anyone receives from it, a
      -- call of an ingest method finds the mutex free, or finds it free after one step that `Run`
      -- can take: no call waits for the consumer.
      pub step-call :
          (op : Ingest fl)
          → (is_some (steps fl resolve_name window capacity (call op ∷ []) l)
              || is_some (steps fl resolve_name window capacity (emit ∷ call op ∷ []) l))
            ≡ true
      step-call op = call_is_free op l (steps-Advances before (start a) l refl reached).1
