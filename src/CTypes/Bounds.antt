-- ===== src/CTypes/Bounds.antt =====
-- Where a member that a name finds stands: inside the type, and aligned for its own type.
use ebpf_docker_anormaly_det.Prelude.{
  ℕ, ◌+◌, ◌*◌, ◌/◌, ◌≤◌, ◌≡◌, arith, Bool, true, false, String, ◌==◌, string_eq, if◌then◌else◌,
  Option, none, some,
}
use mathlib.Core.Path.{subst}
use Prim.Native.Nat.{max}
use native.Mathlib.Nat.{le-max_left, le-max_right}
use ebpf_docker_anormaly_det.CTypes.{
  CType, Member, Members, int, pointer, enum, array, struct, union, field, bits, done, ◌⨾◌,
  align_of, align_all, round_up, bits_start, size_of, stop_of, end_of, largest, Slot, slot, shift,
  or_else, and_then, find_member, find, find_union, find_in,
}
use ebpf_docker_anormaly_det.CTypes.Alignment.{le-round_up}

-- A property of the slot that a search yields, if it yields one.
abbrev pub Holds : (Slot → Type 0) → Option Slot → Type 0
Holds P none = Unit {0}
Holds P (some s) = P s

pub holds_at : (P : Slot → Type 0) (o : Option Slot) (s : Slot) → Holds P o → o ≡ some s → P s
holds_at P o s h e = subst (Holds P) e h

pub if-Holds :
    (P : Slot → Type 0) (o p : Option Slot) (b : Bool)
    → Holds P o
    → Holds P p
    → Holds P (if b then o else p)
if-Holds P o p true h k = h
if-Holds P o p false h k = k

pub or_else-Holds :
    (P : Slot → Type 0) (o p : Option Slot) → Holds P o → Holds P p → Holds P (or_else o p)
or_else-Holds P none p h k = k
or_else-Holds P (some s) p h k = h

pub shift-Holds :
    (P Q : Slot → Type 0) (o : Option Slot) (n : ℕ)
    → ((s : Slot) → P s → Q (slot (n + s.start) s.width s.type s.packed))
    → Holds P o
    → Holds Q (shift n o)
shift-Holds P Q none n f h = tt
shift-Holds P Q (some s) n f h = f s h

pub both-Holds :
    (P Q : Slot → Type 0) (o : Option Slot) → Holds P o → Holds Q o → Holds (λ s. P s × Q s) o
both-Holds P Q none h k = tt
both-Holds P Q (some s) h k = (h, k)

pub and_then-Holds :
    (P Q : Slot → Type 0) (o : Option Slot) (f : Slot → Option Slot)
    → ((s : Slot) → P s → Holds Q (f s))
    → Holds P o
    → Holds Q (and_then o f)
and_then-Holds P Q none f g h = tt
and_then-Holds P Q (some s) f g h = g s h

pub weaken-Holds :
    (P Q : Slot → Type 0) (o : Option Slot) → ((s : Slot) → P s → Q s) → Holds P o → Holds Q o
weaken-Holds P Q none f h = tt
weaken-Holds P Q (some s) f h = f s h

-- The bits of a slot lie between two positions.
abbrev pub IsWithin : ℕ → ℕ → Slot → Type 0
IsWithin lo hi s = (lo ≤ s.start) × (s.start + s.width ≤ hi)

le-bits_start : (pos unit w : ℕ) → pos ≤ bits_start pos unit w
unfolding bits_start
le-bits_start pos unit w = ground (arith, le-round_up pos unit)

pub le-stop_of : (m : Member) (pos : ℕ) → pos ≤ stop_of m pos
unfolding stop_of
le-stop_of (field x t) pos = omega (arith, le-round_up pos (8 * align_of t))
le-stop_of (bits x t w) pos = omega (arith, le-bits_start pos (8 * size_of t) w)

pub le-end_of : (ms : Members) (pos : ℕ) → pos ≤ end_of ms pos
unfolding end_of
le-end_of done pos = omega arith
le-end_of (m ⨾ ms) pos = omega (arith, le-stop_of m pos, le-end_of ms (stop_of m pos))

pub widen-IsWithin :
    (lo hi lo' hi' : ℕ) (o : Option Slot)
    → lo' ≤ lo
    → hi ≤ hi'
    → Holds (IsWithin lo hi) o
    → Holds (IsWithin lo' hi') o
widen-IsWithin lo hi lo' hi' o h k =
    weaken-Holds (IsWithin lo hi) (IsWithin lo' hi') o λ s w. (omega arith, omega arith)

-- The slot of a member and, for an anonymous one, the slots inside it, which start at 0 there.
pub shift-IsWithin :
    (n size : ℕ) (o : Option Slot)
    → Holds (IsWithin 0 size) o
    → Holds (IsWithin n (n + size)) (shift n o)
shift-IsWithin n size o =
    shift-Holds (IsWithin 0 size) (IsWithin n (n + size)) o n λ s w. (omega arith, omega arith)

mutual
  unfolding find_member stop_of size_of

  pub find_member-IsWithin :
      (x : String) (m : Member) (pos : ℕ)
      → Holds (IsWithin pos (stop_of m pos)) (find_member x m pos)
  find_member-IsWithin x (field y t) pos =
      let start = round_up pos (8 * align_of t) in
      let le : pos ≤ start = le-round_up pos (8 * align_of t) in
      let Q = IsWithin pos (start + 8 * size_of t) in
      let inside =
        widen-IsWithin start (start + 8 * size_of t) pos (start + 8 * size_of t)
          (shift start (find_in x t)) le (omega arith)
          (shift-IsWithin start (8 * size_of t) (find_in x t) (find_in-IsWithin x t)) in
      if-Holds Q (some (slot start (8 * size_of t) t false))
        (if y == "" then shift start (find_in x t) else none) (y == x) (le, omega arith)
        (if-Holds Q (shift start (find_in x t)) none (y == "") inside tt)
  find_member-IsWithin x (bits y t w) pos =
      let start = bits_start pos (8 * size_of t) w in
      if-Holds (IsWithin pos (start + w)) (some (slot start w t true)) none (y == x)
        (le-bits_start pos (8 * size_of t) w, omega arith) tt

  pub find-IsWithin :
      (x : String) (ms : Members) (pos : ℕ) → Holds (IsWithin pos (end_of ms pos)) (find x ms pos)
  find-IsWithin x done pos = tt
  find-IsWithin x (m ⨾ ms) pos =
      let next = stop_of m pos in
      or_else-Holds (IsWithin pos (end_of ms next)) (find_member x m pos) (find x ms next)
        (widen-IsWithin pos next pos (end_of ms next) (find_member x m pos) (omega arith)
          (le-end_of ms next) (find_member-IsWithin x m pos))
        (widen-IsWithin next (end_of ms next) pos (end_of ms next) (find x ms next)
          (le-stop_of m pos) (omega arith) (find-IsWithin x ms next))

  find_union-IsWithin :
      (x : String) (ms : Members) → Holds (IsWithin 0 (largest ms)) (find_union x ms)
  find_union-IsWithin x done = tt
  find_union-IsWithin x (m ⨾ ms) =
      let most = max (stop_of m 0) (largest ms) in
      or_else-Holds (IsWithin 0 most) (find_member x m 0) (find_union x ms)
        (widen-IsWithin 0 (stop_of m 0) 0 most (find_member x m 0) (omega arith)
          (le-max_left (stop_of m 0) (largest ms)) (find_member-IsWithin x m 0))
        (widen-IsWithin 0 (largest ms) 0 most (find_union x ms) (omega arith)
          (le-max_right (stop_of m 0) (largest ms)) (find_union-IsWithin x ms))

  pub find_in-IsWithin : (x : String) (t : CType) → Holds (IsWithin 0 (8 * size_of t)) (find_in x t)
  find_in-IsWithin x (int s w) = tt
  find_in-IsWithin x pointer = tt
  find_in-IsWithin x (enum vs) = tt
  find_in-IsWithin x (array t n) = tt
  find_in-IsWithin x (struct ms) =
      widen-IsWithin 0 (end_of ms 0) 0 (8 * round_up ((end_of ms 0 + 7) / 8) (align_all ms))
        (find x ms 0) (omega arith)
        (omega (arith, le-round_up ((end_of ms 0 + 7) / 8) (align_all ms))) (find-IsWithin x ms 0)
  find_in-IsWithin x (union ms) =
      widen-IsWithin 0 (largest ms) 0 (8 * round_up ((largest ms + 7) / 8) (align_all ms))
        (find_union x ms) (omega arith)
        (omega (arith, le-round_up ((largest ms + 7) / 8) (align_all ms)))
        (find_union-IsWithin x ms)
