-- ===== src/CTypes.antt =====
-- C types and their layout in memory, by the System V ABI for x86-64, as a compiler gives it to the
-- structures of bpf/vmlinux.h. Positions inside a type are counted in bits, sizes and alignments in
-- bytes. A member with an empty name is an anonymous structure or union, or padding.
pub mod Alignment
pub mod Bounds
pub mod Access
pub mod Apart
pub mod Enums
use ebpf_docker_anormaly_det.Prelude.{
  ℕ, ◌+◌, ◌-◌, ◌*◌, ◌/◌, ◌%◌, Bool, true, false, ◌||◌, Option, none, some, List, [], ◌∷◌, String,
  if◌then◌else◌, eqb, ltb, ◌==◌, string_eq, suc,
}
use ebpf_docker_anormaly_det.Prelude.Table.{is_some}
use Prim.Native.Nat.{max}

pub data Sign : Type 0 where
  signed : Sign
  unsigned : Sign

pub data Width : Type 0 where
  w8 : Width
  w16 : Width
  w32 : Width
  w64 : Width

infixr 67 ◌⨾◌
-- A pointer does not keep the type it points to, an enumeration keeps its constants.
-- `field name type` is a member, `bits name type width` a bit-field.
mutual
  pub data CType : Type 0 where
    int : Sign → Width → CType
    pointer : CType
    enum : List (String × ℕ) → CType
    array : CType → ℕ → CType
    struct : Members → CType
    union : Members → CType

  pub data Member : Type 0 where
    field : String → CType → Member
    bits : String → CType → ℕ → Member

  pub data Members : Type 0 where
    done : Members
    ◌⨾◌ : Member → Members → Members

abbrev pub members_of : CType → Members
members_of (struct ms) = ms
members_of (union ms) = ms
members_of _ = done

unfoldable pub width_bytes : Width → ℕ
width_bytes w8 = 1
width_bytes w16 = 2
width_bytes w32 = 4
width_bytes w64 = 8

-- An unnamed bit-field does not affect the alignment of the structure around it.
unfoldable mutual
  unfolding width_bytes

  pub align_of : CType → ℕ
  align_of (int s w) = width_bytes w
  align_of pointer = 8
  align_of (enum vs) = 4
  align_of (array t n) = align_of t
  align_of (struct ms) = align_all ms
  align_of (union ms) = align_all ms

  pub align_member : Member → ℕ
  align_member (field x t) = align_of t
  align_member (bits x t w) = let a = align_of t in if x == "" then 1 else a

  pub align_all : Members → ℕ
  align_all done = 1
  align_all (m ⨾ ms) = max (align_member m) (align_all ms)

-- The least multiple of `a` from `x` on.
unfoldable pub round_up : ℕ → ℕ → ℕ
round_up x a = if eqb (x % a) 0 then x else x + (a - x % a)

-- A bit-field goes to the next unit of its type when it does not fit into what is left of this one,
-- and when its width is zero.
unfoldable pub bits_start : ℕ → ℕ → ℕ → ℕ
unfolding round_up
bits_start pos unit w = if eqb w 0 || ltb unit (pos % unit + w) then round_up pos unit else pos

unfoldable mutual
  unfolding width_bytes align_of round_up bits_start

  pub size_of : CType → ℕ
  size_of (int s w) = width_bytes w
  size_of pointer = 8
  size_of (enum vs) = 4
  size_of (array t n) = n * size_of t
  size_of (struct ms) = round_up ((end_of ms 0 + 7) / 8) (align_all ms)
  size_of (union ms) = round_up ((largest ms + 7) / 8) (align_all ms)

  -- The position behind a member that follows position `pos`.
  pub stop_of : Member → ℕ → ℕ
  stop_of (field x t) pos = round_up pos (8 * align_of t) + 8 * size_of t
  stop_of (bits x t w) pos = bits_start pos (8 * size_of t) w + w

  pub end_of : Members → ℕ → ℕ
  end_of done pos = pos
  end_of (m ⨾ ms) pos = end_of ms (stop_of m pos)

  pub largest : Members → ℕ
  largest done = 0
  largest (m ⨾ ms) = max (stop_of m 0) (largest ms)

-- Where a member stands: its first bit, its width in bits, its type, and whether it is a bit-field.
pub record Slot : Type 0 where
  pub start : ℕ
  pub width : ℕ
  pub type : CType
  pub packed : Bool

abbrev pub slot : ℕ → ℕ → CType → Bool → Slot
slot start width type packed = record { start = start; width = width; type = type; packed = packed }

abbrev pub shift : ℕ → Option Slot → Option Slot
shift n none = none
shift n (some s) = some (slot (n + s.start) s.width s.type s.packed)

abbrev pub or_else : Option Slot → Option Slot → Option Slot
or_else none later = later
or_else (some s) later = some s

-- Where the member of a name stands. The members of an anonymous structure or union are found as
-- members of the type around it.
unfoldable mutual
  unfolding round_up align_of bits_start size_of

  pub find_member : String → Member → ℕ → Option Slot
  find_member x (field y t) pos =
      let start = round_up pos (8 * align_of t) in
      let inside = find_in x t in
      if y == x
      then some (slot start (8 * size_of t) t false)
      else (if y == "" then shift start inside else none)
  find_member x (bits y t w) pos =
      if y == x then some (slot (bits_start pos (8 * size_of t) w) w t true) else none

  pub find : String → Members → ℕ → Option Slot
  find x done pos = none
  find x (m ⨾ ms) pos = or_else (find_member x m pos) (find x ms (stop_of m pos))

  pub find_union : String → Members → Option Slot
  find_union x done = none
  find_union x (m ⨾ ms) = or_else (find_member x m 0) (find_union x ms)

  pub find_in : String → CType → Option Slot
  find_in x (int s w) = none
  find_in x pointer = none
  find_in x (enum vs) = none
  find_in x (array t n) = none
  find_in x (struct ms) = find x ms 0
  find_in x (union ms) = find_union x ms

-- A chain of names, as in `task->se.avg.load_sum`. Nothing is inside a bit-field.
abbrev pub whole : CType → Slot
whole t = slot 0 (8 * size_of t) t false

unfoldable pub member : Slot → String → Option Slot
unfolding find_in
member s x = if s.packed then none else shift s.start (find_in x s.type)

abbrev pub and_then : Option Slot → (Slot → Option Slot) → Option Slot
and_then none f = none
and_then (some s) f = f s

unfoldable pub follow : Slot → List String → Option Slot
unfolding member
follow s [] = some s
follow s (x ∷ xs) = and_then (member s x) λ r. follow r xs

-- Which of the direct members holds the member of a name.
unfoldable pub holder_of : String → Members → ℕ → ℕ
unfolding find
holder_of x done pos = 0
holder_of x (m ⨾ ms) pos =
    let later = holder_of x ms (stop_of m pos) in
    if is_some (find_member x m pos) then 0 else suc later
