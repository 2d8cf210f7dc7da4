-- ===== src/Feature/Stop/Returns.antt =====
-- The end of `Run` of pkg/feature/aggregator.go once `Stop` has closed its channel.
use mathlib.Core.Option.{none-ne-some}
use mathlib.Core.Bool.{true≢false}
use ebpf_docker_anormaly_det.Prelude.{
  ℕ, ◌+◌, ◌≤◌, ◌≡◌, ◌∙◌, sym, refl, Bool, true, false, not, ◌||◌, Bool-cases, String, Option, some,
  List, [], ◌∷◌, arith, length, Option-cases, inl, inr, ltb, All,
}
use ebpf_docker_anormaly_det.Prelude.Table.{is_some}
use ebpf_docker_anormaly_det.Feature.Types.{Floats}
use ebpf_docker_anormaly_det.Feature.{Aggregator, run_tick}
use ebpf_docker_anormaly_det.Feature.Stop.{
  Control, waiting, collecting, sending, returned, Loop, start, Action, call, close, receive, tick,
  emit, send, hand_over, finish, quit, step, steps,
}
use ebpf_docker_anormaly_det.Feature.Stop.Steps.{
  IsGuarded, taken, taken_unless, taken_when, step-Advances, steps-Advances,
}

abbrev pub is_tick : {fl : Floats} → Action fl → Bool
is_tick (tick end) = true
is_tick _ = false

-- The steps that `Run` takes itself.
abbrev own : {fl : Floats} → Action fl → ℕ
own emit = 1
own send = 1
own hand_over = 1
own finish = 1
own quit = 1
own _ = 0

abbrev pub own_steps : {fl : Floats} → List (Action fl) → ℕ
own_steps [] = 0
own_steps (x ∷ xs) = own x + own_steps xs

-- Whether the stop channel is chosen in one of the steps.
abbrev pub has_quit : {fl : Floats} → List (Action fl) → Bool
has_quit [] = false
has_quit (quit ∷ xs) = true
has_quit (_ ∷ xs) = has_quit xs

has_quit-cons :
    {fl : Floats} (x : Action fl) (xs : List (Action fl))
    → has_quit (x ∷ xs) ≡ (has_quit (x ∷ []) || has_quit xs)
has_quit-cons (call op) xs = refl
has_quit-cons close xs = refl
has_quit-cons receive xs = refl
has_quit-cons (tick end) xs = refl
has_quit-cons emit xs = refl
has_quit-cons send xs = refl
has_quit-cons hand_over xs = refl
has_quit-cons finish xs = refl
has_quit-cons quit xs = refl

abbrev pub has_returned : {fl : Floats} → Loop fl → Bool
has_returned (returned vs, q, s) = true
has_returned _ = false

module _ (fl : Floats) (resolve_name : Option (String → String × String)) (window : ℕ) where
  -- An upper bound for the steps of `Run` before it returns, if the stop channel is closed and no other
  -- tick is taken.
  abbrev pub work : Control fl → Aggregator fl → ℕ
  work waiting a = 1
  work (collecting end) a = 3 + length (run_tick fl resolve_name window end a).0
  work (sending vs) a = 2 + length vs
  work (returned vs) a = 0

  abbrev pub work_of : Loop fl → ℕ
  work_of (c, q, s) = work c s.agg

  module _ (capacity : ℕ) where
    step-work :
        (x : Action fl) (l l' : Loop fl)
        → IsGuarded l
        → is_tick x ≡ false
        → l.2.stop_closed ≡ true
        → step fl resolve_name window capacity x l ≡ some l'
        → (own x + work_of l' ≤ work_of l) × (l'.2.stop_closed ≡ true)
    unfolding step
    step-work (call op) (waiting, q, s) l' g n k h =
        rw (taken_unless s.mutex _ l' h).1 (omega arith, k)
    step-work (call op) (collecting end, q, s) l' g n k h =
        absurd (true≢false (sym g ∙ (taken_unless s.mutex _ l' h).0))
    step-work (call op) (sending vs, q, s) l' g n k h =
        rw (taken_unless s.mutex _ l' h).1 (omega arith, k)
    step-work (call op) (returned vs, q, s) l' g n k h =
        rw (taken_unless s.mutex _ l' h).1 (omega arith, k)
    step-work close (c, q, s) l' g n k h =
        absurd (true≢false (sym k ∙ (taken_unless s.stop_closed _ l' h).0))
    step-work receive (c, v ∷ q, s) l' g n k h = rw (taken _ l' h) (omega arith, k)
    step-work (tick end) l l' g n k h = absurd (true≢false n)
    step-work emit (collecting end, q, s) l' g n k h = rw (taken _ l' h) (omega arith, k)
    step-work send (sending (v ∷ vs), q, s) l' g n k h =
        rw (taken_when (ltb (length q) capacity) _ l' h).1 (omega arith, k)
    step-work hand_over (sending (v ∷ vs), [], s) l' g n k h = rw (taken _ l' h) (omega arith, k)
    step-work finish (sending [], q, s) l' g n k h = rw (taken _ l' h) (omega arith, k)
    step-work quit (waiting, q, s) l' g n k h =
        rw (taken_when s.stop_closed _ l' h).1 (omega arith, k)
    step-work quit (sending (v ∷ vs), q, s) l' g n k h =
        rw (taken_when s.stop_closed _ l' h).1 (omega arith, k)
    step-work _ _ l' g n k h = absurd (none-ne-some _ h)

    -- Whether `Run` has a step that needs nobody else.
    abbrev pub can_go_on : Loop fl → Bool
    can_go_on l =
        is_some (step fl resolve_name window capacity emit l)
        || is_some (step fl resolve_name window capacity finish l)
        || is_some (step fl resolve_name window capacity quit l)

    goes_on : (l : Loop fl) → l.2.stop_closed ≡ true → (has_returned l || can_go_on l) ≡ true
    unfolding step
    goes_on (waiting, q, s) k = rw k refl
    goes_on (collecting end, q, s) k = refl
    goes_on (sending [], q, s) k = refl
    goes_on (sending (v ∷ vs), q, s) k = rw k refl
    goes_on (returned vs, q, s) k = refl

    steps-work :
        (xs : List (Action fl)) (l l' : Loop fl)
        → IsGuarded l
        → All (λ x. is_tick x ≡ false) xs
        → l.2.stop_closed ≡ true
        → steps fl resolve_name window capacity xs l ≡ some l'
        → (own_steps xs + work_of l' ≤ work_of l) × (l'.2.stop_closed ≡ true)
    unfolding steps
    steps-work [] l l' g n k h = rw (taken l l' h) (omega arith, k)
    steps-work (x ∷ xs) l l' g (n, ns) k h =
        elim (Option-cases (step fl resolve_name window capacity x l)) [
          | inl e ↦ absurd (none-ne-some l' (rw (steps, e) at h))
          | inr (m, e) ↦
              let (less, closed) = step-work x l m g n k e in
              let guard = (step-Advances fl resolve_name window capacity x l m g e).2 in
              let (rest, closed') = steps-work xs m l' guard ns closed (rw (steps, e) at h) in
              (omega (arith, less, rest), closed')
        ]

    step-has_returned :
        (x : Action fl) (l l' : Loop fl)
        → (has_quit (x ∷ []) || has_returned l) ≡ true
        → step fl resolve_name window capacity x l ≡ some l'
        → has_returned l' ≡ true
    unfolding step
    step-has_returned (call op) (returned vs, q, s) l' r h = rw (taken_unless s.mutex _ l' h).1 refl
    step-has_returned close (returned vs, q, s) l' r h =
        rw (taken_unless s.stop_closed _ l' h).1 refl
    step-has_returned receive (returned vs, v ∷ q, s) l' r h = rw (taken _ l' h) refl
    step-has_returned quit (waiting, q, s) l' r h = rw (taken_when s.stop_closed _ l' h).1 refl
    step-has_returned quit (sending (v ∷ vs), q, s) l' r h =
        rw (taken_when s.stop_closed _ l' h).1 refl
    step-has_returned _ _ l' r h = ground (arith, r, h)

    steps-has_returned :
        (xs : List (Action fl)) (l l' : Loop fl)
        → (has_quit xs || has_returned l) ≡ true
        → steps fl resolve_name window capacity xs l ≡ some l'
        → has_returned l' ≡ true
    unfolding steps
    steps-has_returned [] l l' r h = rw (taken l l' h) r
    steps-has_returned (x ∷ xs) l l' r h =
        elim (Option-cases (step fl resolve_name window capacity x l)) [
          | inl e ↦ absurd (none-ne-some l' (rw (steps, e) at h))
          | inr (m, e) ↦
              let later = has_quit-cons x xs in
              let quits : (has_quit xs || has_returned m) ≡ true =
                elim (Bool-cases (has_quit (x ∷ []) || has_returned l)) [
                  | inl now ↦ ground (arith, step-has_returned x l m now e)
                  | inr not_yet ↦ ground (arith, later, r, not_yet)
                ] in
              steps-has_returned xs m l' quits (rw (steps, e) at h)
        ]

    module _ (before : List (Action fl)) (a : Aggregator fl) (l : Loop fl)
        (reached : steps fl resolve_name window capacity before (start a) ≡ some l) where
      -- Once the stop channel is closed, and while `Run` takes no other tick, whatever the callers,
      -- the consumer and `Run` do in whatever order: `Run` takes no more steps than the vectors
      -- that it has still to collect or to send and three; in every state it has returned or has
      -- a step that needs neither a consumer nor room in the channel; and it has returned as soon
      -- as one of its two `select` statements has chosen the stop channel.
      pub steps-returns :
          (after : List (Action fl)) (l' : Loop fl)
          → l.2.stop_closed ≡ true
          → All (λ x. is_tick x ≡ false) after
          → steps fl resolve_name window capacity after l ≡ some l'
          → (own_steps after ≤ work_of l)
            × ((has_returned l' || can_go_on l') ≡ true)
            × ((not (has_quit after) || has_returned l') ≡ true)
      steps-returns after l' closed no_tick h =
          let guard =
            (steps-Advances fl resolve_name window capacity before (start a) l refl reached).1 in
          let (less, closed') = steps-work after l l' guard no_tick closed h in
          let quits : (not (has_quit after) || has_returned l') ≡ true =
            elim (Bool-cases (has_quit after)) [
              | inl chosen ↦
                  let r : (has_quit after || has_returned l) ≡ true = rw chosen refl in
                  ground (arith, steps-has_returned after l l' r h)
              | inr other ↦ rw other refl
            ] in
          (omega (arith, less), goes_on l' closed', quits)
