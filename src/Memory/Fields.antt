-- ===== src/Memory/Fields.antt =====
-- Members of C structures in memory.
use ebpf_docker_anormaly_det.Prelude.{
  ℕ, ◌+◌, ◌/◌, ◌^◌, ◌≤◌, ◌<◌, ◌≡◌, ◌≢◌, ◌⊎◌, inl, inr, arith, false, String, Option, none, some,
  refl, if◌then◌else◌,
}
use ebpf_docker_anormaly_det.CTypes.{
  CType, Members, struct, size_of, Slot, find, find_in, holder_of,
}
use ebpf_docker_anormaly_det.CTypes.Access.{find-whole_bytes}
use ebpf_docker_anormaly_det.CTypes.Apart.{find-IsApart}
use ebpf_docker_anormaly_det.Memory.{Memory, load, store, load-store, load-store_apart}

-- `base->x`, for a member that is no bit-field.
abbrev read_slot : ℕ → Memory → Option Slot → Option ℕ
read_slot base m none = none
read_slot base m (some s) =
    if s.packed then none else some (load (size_of s.type) (base + s.start / 8) m)

unfoldable pub read_member : CType → String → ℕ → Memory → Option ℕ
read_member t x base m = read_slot base m (find_in x t)

-- `base->x = v`
abbrev write_slot : ℕ → ℕ → Memory → Option Slot → Memory
write_slot v base m none = m
write_slot v base m (some s) =
    if s.packed then m else store (size_of s.type) (base + s.start / 8) v m

unfoldable pub write_member : CType → String → ℕ → ℕ → Memory → Memory
write_member t x v base m = write_slot v base m (find_in x t)

-- The structure has a member of that name, no bit-field, of so many bytes.
pub record Declares (ms : Members) (x : String) (bytes : ℕ) : Type 0 where
  pub slot : Slot
  pub found : find x ms 0 ≡ some slot
  pub addressable : slot.packed ≡ false
  pub size : size_of slot.type ≡ bytes

module _ (ms : Members) (x : String) (n : ℕ) (d : Declares ms x n) (base : ℕ) (m : Memory) where
  pub read_member_lem : read_member (struct ms) x base m ≡ some (load n (base + d.slot.start / 8) m)
  unfolding read_member find_in
  read_member_lem = rw (d.found, read_slot, d.addressable, d.size) refl

  pub write_member_lem :
      (v : ℕ) → write_member (struct ms) x v base m ≡ store n (base + d.slot.start / 8) v m
  unfolding write_member find_in
  write_member_lem v = rw (d.found, write_slot, d.addressable, d.size) refl

-- A member that was written is read back, if its bytes can hold the value.
pub read_member-write_member :
    (ms : Members) (x : String) (n : ℕ) (d : Declares ms x n) (base v : ℕ) (m : Memory)
    → v < 256 ^ n
    → read_member (struct ms) x base (write_member (struct ms) x v base m) ≡ some v
read_member-write_member ms x n d base v m h =
    rw
      (
        write_member_lem ms x n d base m v,
        read_member_lem ms x n d base (store n (base + d.slot.start / 8) v m),
        load-store n (base + d.slot.start / 8) v m h,
      )
      refl

-- The bytes of two members of different direct members of a structure.
members_apart :
    (ms : Members) (x y : String) (n k : ℕ) (d : Declares ms x n) (e : Declares ms y k)
    → holder_of x ms 0 ≢ holder_of y ms 0
    → (d.slot.start / 8 + n ≤ e.slot.start / 8) ⊎ (e.slot.start / 8 + k ≤ d.slot.start / 8)
members_apart ms x y n k d e ne =
    let (byte_x, wide_x) = find-whole_bytes x ms 0 d.slot d.found d.addressable in
    let (byte_y, wide_y) = find-whole_bytes y ms 0 e.slot e.found e.addressable in
    elim (find-IsApart x y ms 0 d.slot e.slot d.found e.found ne) [
      | inl h ↦ inl (omega (arith, h, byte_x, wide_x, byte_y, d.size))
      | inr h ↦ inr (omega (arith, h, byte_x, wide_y, byte_y, e.size))
    ]

-- A write to one member leaves the other members as they are, except the alternatives of an anonymous
-- union that both are in.
pub read_member-write_other :
    (ms : Members) (x y : String) (n k : ℕ) (d : Declares ms x n) (e : Declares ms y k) (base v : ℕ)
    (m : Memory)
    → holder_of x ms 0 ≢ holder_of y ms 0
    → read_member (struct ms) y base (write_member (struct ms) x v base m)
      ≡ read_member (struct ms) y base m
read_member-write_other ms x y n k d e base v m ne =
    let off = d.slot.start / 8 in
    let there = e.slot.start / 8 in
    let apart : (base + off + n ≤ base + there) ⊎ (base + there + k ≤ base + off) =
      elim (members_apart ms x y n k d e ne) [
        | inl h ↦ inl (omega (arith, h))
        | inr h ↦ inr (omega (arith, h))
      ] in
    rw
      (
        write_member_lem ms x n d base m v,
        read_member_lem ms y k e base (store n (base + off) v m),
        read_member_lem ms y k e base m,
        load-store_apart k (base + there) n (base + off) v m apart,
      )
      refl
