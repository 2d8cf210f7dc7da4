-- ===== src/CTypes/Access.antt =====
-- A member that is no bit-field can be read with accesses of its own type: it stands at a multiple of
-- its alignment, in the type around it and in memory, and is as wide as its type.
use ebpf_docker_anormaly_det.Prelude.{
  ℕ, ◌+◌, ◌*◌, ◌/◌, ◌%◌, ◌≤◌, ◌≡◌, arith, true, false, String, ◌==◌, string_eq, if◌then◌else◌,
  Option, none, some, List, [], ◌∷◌, refl, Bool-cases, inl, inr,
}
use Prim.Native.Nat.{max}
use native.Mathlib.Nat.{mod_self, zero-mod}
use ebpf_docker_anormaly_det.CTypes.{
  CType, Member, Members, int, pointer, enum, array, struct, union, field, bits, done, ◌⨾◌,
  align_of, align_member, align_all, round_up, bits_start, size_of, stop_of, Slot, slot, shift,
  whole, find_member, find, find_union, find_in, member, follow,
}
use ebpf_docker_anormaly_det.CTypes.Alignment.{
  IsAlign, one, two, four, eight, align_of-IsAlign, align_member-IsAlign, align_all-IsAlign,
  round_up-mod_bits, sum_mod, chain_mod,
}
use ebpf_docker_anormaly_det.CTypes.Bounds.{
  Holds, holds_at, if-Holds, or_else-Holds, both-Holds, widen-IsWithin, shift-IsWithin,
  and_then-Holds, shift-Holds, weaken-Holds, IsWithin, find_in-IsWithin,
}

-- What an access to the slot needs of a type around it with alignment `a`.
abbrev IsAccessible : ℕ → Slot → Type 0
IsAccessible a s =
    s.packed ≡ false
    → (s.start % (8 * align_of s.type) ≡ 0)
      × (a % align_of s.type ≡ 0)
      × (s.width ≡ 8 * size_of s.type)

-- Alignments are powers of two, so the greater of two is a multiple of both.
max-mod_left : {a b : ℕ} → IsAlign a → IsAlign b → max a b % a ≡ 0
max-mod_left one one = refl
max-mod_left one two = refl
max-mod_left one four = refl
max-mod_left one eight = refl
max-mod_left two one = refl
max-mod_left two two = refl
max-mod_left two four = refl
max-mod_left two eight = refl
max-mod_left four one = refl
max-mod_left four two = refl
max-mod_left four four = refl
max-mod_left four eight = refl
max-mod_left eight one = refl
max-mod_left eight two = refl
max-mod_left eight four = refl
max-mod_left eight eight = refl

max-mod_right : {a b : ℕ} → IsAlign a → IsAlign b → max a b % b ≡ 0
max-mod_right {a} {b} h k = let e : max a b ≡ max b a = omega arith in rw e (max-mod_left k h)

bits_mod : (a : ℕ) {c : ℕ} → IsAlign c → a % c ≡ 0 → 8 * a % (8 * c) ≡ 0
bits_mod a one e = omega arith
bits_mod a two e = omega arith
bits_mod a four e = omega arith
bits_mod a eight e = omega arith

-- Bits and bytes.
bytes_mod : (n : ℕ) {a : ℕ} → IsAlign a → n % (8 * a) ≡ 0 → (n % 8 ≡ 0) × (n / 8 % a ≡ 0)
bytes_mod n one e = (omega arith, omega arith)
bytes_mod n two e = (omega arith, omega arith)
bytes_mod n four e = (omega arith, omega arith)
bytes_mod n eight e = (omega arith, omega arith)

-- A greater alignment around the slot serves as well.
raise-IsAccessible :
    (a b : ℕ) (o : Option Slot) → b % a ≡ 0 → Holds (IsAccessible a) o → Holds (IsAccessible b) o
raise-IsAccessible a b o e =
    weaken-Holds (IsAccessible a) (IsAccessible b) o
      λ s w p. let (f, g, h) = w p in (f, chain_mod b a (align_of s.type) e g, h)

-- Inside something that stands at a multiple of its own alignment, a slot is as well aligned.
shift-IsAccessible :
    (n a : ℕ) (o : Option Slot)
    → n % (8 * a) ≡ 0
    → Holds (IsAccessible a) o
    → Holds (IsAccessible a) (shift n o)
shift-IsAccessible n a o e = shift-Holds (IsAccessible a) (IsAccessible a) o n λ s w p.
    let (f, g, h) = w p in
    let d = 8 * align_of s.type in
    let down = chain_mod n (8 * a) d e (bits_mod a (align_of-IsAlign s.type) g) in
    (sum_mod n s.start d down f, g, h)

module _ (m : Member) (ms : Members) (o : Option Slot) where
  first-IsAccessible :
      Holds (IsAccessible (align_member m)) o → Holds (IsAccessible (align_all (m ⨾ ms))) o
  unfolding align_all
  first-IsAccessible =
      raise-IsAccessible (align_member m) (max (align_member m) (align_all ms)) o
        (max-mod_left (align_member-IsAlign m) (align_all-IsAlign ms))

  later-IsAccessible :
      Holds (IsAccessible (align_all ms)) o → Holds (IsAccessible (align_all (m ⨾ ms))) o
  unfolding align_all
  later-IsAccessible =
      raise-IsAccessible (align_all ms) (max (align_member m) (align_all ms)) o
        (max-mod_right (align_member-IsAlign m) (align_all-IsAlign ms))

mutual
  unfolding find_member align_member

  find_member-IsAccessible :
      (x : String) (m : Member) (pos : ℕ)
      → Holds (IsAccessible (align_member m)) (find_member x m pos)
  find_member-IsAccessible x (field y t) pos =
      let start = round_up pos (8 * align_of t) in
      let e = round_up-mod_bits pos (align_of-IsAlign t) in
      let Q = IsAccessible (align_of t) in
      if-Holds Q (some (slot start (8 * size_of t) t false))
        (if y == "" then shift start (find_in x t) else none) (y == x)
        (λ p. (e, mod_self (align_of t), refl))
        (if-Holds Q (shift start (find_in x t)) none (y == "")
          (shift-IsAccessible start (align_of t) (find_in x t) e (find_in-IsAccessible x t)) tt)
  find_member-IsAccessible x (bits y t w) pos =
      if-Holds (IsAccessible (align_member (bits y t w)))
        (some (slot (bits_start pos (8 * size_of t) w) w t true)) none (y == x)
        (λ p. absurd (ground (arith, p))) tt

  pub find-IsAccessible :
      (x : String) (ms : Members) (pos : ℕ) → Holds (IsAccessible (align_all ms)) (find x ms pos)
  find-IsAccessible x done pos = tt
  find-IsAccessible x (m ⨾ ms) pos =
      or_else-Holds (IsAccessible (align_all (m ⨾ ms))) (find_member x m pos)
        (find x ms (stop_of m pos))
        (first-IsAccessible m ms (find_member x m pos) (find_member-IsAccessible x m pos))
        (later-IsAccessible m ms (find x ms (stop_of m pos))
          (find-IsAccessible x ms (stop_of m pos)))

  find_union-IsAccessible :
      (x : String) (ms : Members) → Holds (IsAccessible (align_all ms)) (find_union x ms)
  find_union-IsAccessible x done = tt
  find_union-IsAccessible x (m ⨾ ms) =
      or_else-Holds (IsAccessible (align_all (m ⨾ ms))) (find_member x m 0) (find_union x ms)
        (first-IsAccessible m ms (find_member x m 0) (find_member-IsAccessible x m 0))
        (later-IsAccessible m ms (find_union x ms) (find_union-IsAccessible x ms))

  pub find_in-IsAccessible :
      (x : String) (t : CType) → Holds (IsAccessible (align_of t)) (find_in x t)
  find_in-IsAccessible x (int s w) = tt
  find_in-IsAccessible x pointer = tt
  find_in-IsAccessible x (enum vs) = tt
  find_in-IsAccessible x (array t n) = tt
  find_in-IsAccessible x (struct ms) = find-IsAccessible x ms 0
  find_in-IsAccessible x (union ms) = find_union-IsAccessible x ms

-- A member of a slot lies in it and can be accessed as well.
abbrev IsInside : ℕ → ℕ → ℕ → Slot → Type 0
IsInside a lo hi s = IsWithin lo hi s × IsAccessible a s

member-IsInside :
    (a lo hi : ℕ) (r : Slot) (x : String)
    → IsInside a lo hi r
    → Holds (IsInside a lo hi) (member r x)
unfolding member
member-IsInside a lo hi r x (w, h) = elim (Bool-cases r.packed) [
  | inl e ↦ rw e tt
  | inr e ↦ rw e (
      let (start, divides, size) = h e in
      let here = shift r.start (find_in x r.type) in
      let within =
        widen-IsWithin r.start (r.start + 8 * size_of r.type) lo hi here (omega arith) (omega arith)
          (shift-IsWithin r.start (8 * size_of r.type) (find_in x r.type)
            (find_in-IsWithin x r.type)) in
      let accessible = raise-IsAccessible (align_of r.type) a here divides (
        shift-IsAccessible r.start (align_of r.type) (find_in x r.type) start
          (find_in-IsAccessible x r.type)) in
      both-Holds (IsWithin lo hi) (IsAccessible a) here within accessible)
]

follow-IsInside :
    (a lo hi : ℕ) (r : Slot) (xs : List String)
    → IsInside a lo hi r
    → Holds (IsInside a lo hi) (follow r xs)
unfolding follow
follow-IsInside a lo hi r [] h = h
follow-IsInside a lo hi r (x ∷ xs) h =
    and_then-Holds (IsInside a lo hi) (IsInside a lo hi) (member r x) (λ s. follow s xs)
      (λ s k. follow-IsInside a lo hi s xs k) (member-IsInside a lo hi r x h)

-- In an object at `base`, aligned for its type, take the member that a chain of names reaches, through
-- structures, unions and anonymous ones. If it is no bit-field, it starts at a whole byte, its
-- address is a multiple of the alignment of its own type, and its last byte lies in the object.
pub follow-access :
    (t : CType) (base : ℕ) (xs : List String) (s : Slot)
    → base % align_of t ≡ 0
    → follow (whole t) xs ≡ some s
    → s.packed ≡ false
    → (s.start % 8 ≡ 0)
      × ((base + s.start / 8) % align_of s.type ≡ 0)
      × (s.start / 8 + size_of s.type ≤ size_of t)
follow-access t base xs s e f p =
    let top : IsInside (align_of t) 0 (8 * size_of t) (whole t) =
      ((omega arith, omega arith), λ q. (zero-mod (8 * align_of t), mod_self (align_of t), refl)) in
    let k =
      holds_at (IsInside (align_of t) 0 (8 * size_of t)) (follow (whole t) xs) s
        (follow-IsInside (align_of t) 0 (8 * size_of t) (whole t) xs top) f in
    let ((lo, hi), h) = k in
    let (start, divides, size) = h p in
    let d = align_of s.type in
    let (whole_byte, byte) = bytes_mod s.start (align_of-IsAlign s.type) start in
    (
      whole_byte,
      sum_mod base (s.start / 8) d (chain_mod base (align_of t) d e divides) byte,
      omega (arith, size, lo, hi),
    )

pub find-whole_bytes :
    (x : String) (ms : Members) (pos : ℕ) (s : Slot)
    → find x ms pos ≡ some s
    → s.packed ≡ false
    → (s.start % 8 ≡ 0) × (s.width ≡ 8 * size_of s.type)
find-whole_bytes x ms pos s e p =
    let h =
      holds_at (IsAccessible (align_all ms)) (find x ms pos) s (find-IsAccessible x ms pos) e in
    let (start, divides, size) = h p in
    let (byte, rest) = bytes_mod s.start (align_of-IsAlign s.type) start in (byte, size)
