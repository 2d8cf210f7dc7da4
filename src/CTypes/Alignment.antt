-- ===== src/CTypes/Alignment.antt =====
-- Alignment: what the compiler relies on when it reads a member with one aligned access.
use ebpf_docker_anormaly_det.Prelude.{
  ℕ, ◌+◌, ◌*◌, ◌/◌, ◌%◌, ◌≤◌, ◌≡◌, arith, Bool, true, false, ◌==◌, string_eq, if◌then◌else◌, suc,
  zero, refl, sym, ◌∙◌,
}
use Prim.Native.Nat.{max}
use native.Mathlib.Nat.{add-mod, zero-mod, zero-mul, suc-mul, mod-mod_of_dvd, dvd_of_mod-eq-zero}
use ebpf_docker_anormaly_det.CTypes.{
  CType, Member, Members, int, pointer, enum, array, struct, union, field, bits, done, ◌⨾◌, w8, w16,
  w32, w64, width_bytes, align_of, align_member, align_all, round_up, size_of, end_of, largest,
}

-- The alignments of the ABI.
pub data IsAlign : ℕ → Type 0 where
  one : IsAlign 1
  two : IsAlign 2
  four : IsAlign 4
  eight : IsAlign 8

max-IsAlign : {a b : ℕ} → IsAlign a → IsAlign b → IsAlign (max a b)
max-IsAlign one one = one
max-IsAlign one two = two
max-IsAlign one four = four
max-IsAlign one eight = eight
max-IsAlign two one = two
max-IsAlign two two = two
max-IsAlign two four = four
max-IsAlign two eight = eight
max-IsAlign four one = four
max-IsAlign four two = four
max-IsAlign four four = four
max-IsAlign four eight = eight
max-IsAlign eight one = eight
max-IsAlign eight two = eight
max-IsAlign eight four = eight
max-IsAlign eight eight = eight

choose : {a : ℕ} (b : Bool) → IsAlign a → IsAlign (if b then 1 else a)
choose true h = one
choose false h = h

mutual
  unfolding align_of width_bytes

  pub align_of-IsAlign : (t : CType) → IsAlign (align_of t)
  align_of-IsAlign (int s w8) = one
  align_of-IsAlign (int s w16) = two
  align_of-IsAlign (int s w32) = four
  align_of-IsAlign (int s w64) = eight
  align_of-IsAlign pointer = eight
  align_of-IsAlign (enum vs) = four
  align_of-IsAlign (array t n) = align_of-IsAlign t
  align_of-IsAlign (struct ms) = align_all-IsAlign ms
  align_of-IsAlign (union ms) = align_all-IsAlign ms

  pub align_member-IsAlign : (m : Member) → IsAlign (align_member m)
  align_member-IsAlign (field x t) = align_of-IsAlign t
  align_member-IsAlign (bits x t w) = choose (x == "") (align_of-IsAlign t)

  pub align_all-IsAlign : (ms : Members) → IsAlign (align_all ms)
  align_all-IsAlign done = one
  align_all-IsAlign (m ⨾ ms) = max-IsAlign (align_member-IsAlign m) (align_all-IsAlign ms)

pub le-round_up : (x a : ℕ) → x ≤ round_up x a
unfolding round_up
le-round_up x a = ground arith

pub round_up-mod : (x : ℕ) {a : ℕ} → IsAlign a → round_up x a % a ≡ 0
unfolding round_up
round_up-mod x one = ground arith
round_up-mod x two = ground arith
round_up-mod x four = ground arith
round_up-mod x eight = ground arith

pub round_up-mod_bits : (x : ℕ) {a : ℕ} → IsAlign a → round_up x (8 * a) % (8 * a) ≡ 0
unfolding round_up
round_up-mod_bits x one = ground arith
round_up-mod_bits x two = ground arith
round_up-mod_bits x four = ground arith
round_up-mod_bits x eight = ground arith

-- Sums, multiples and chains of divisors.
pub sum_mod : (x y d : ℕ) → x % d ≡ 0 → y % d ≡ 0 → (x + y) % d ≡ 0
sum_mod x y d e f = rw (add-mod x y d, e, f) (zero-mod d)

pub chain_mod : (x d c : ℕ) → x % d ≡ 0 → d % c ≡ 0 → x % c ≡ 0
chain_mod x d c e f = sym (mod-mod_of_dvd c x (dvd_of_mod-eq-zero c f)) ∙ rw e (zero-mod c)

times : (n s : ℕ) {a : ℕ} → IsAlign a → s % a ≡ 0 → n * s % a ≡ 0
times zero s {a} h e = rw (zero-mul s) (zero-mod a)
times (suc n) s {a} h e = rw (suc-mul n s) (sum_mod (n * s) s a (times n s h e) e)

-- The size of every type is a multiple of its alignment, so the elements of an array are as well
-- aligned as its first.
pub size_of-align_of : (t : CType) → size_of t % align_of t ≡ 0
unfolding size_of align_of width_bytes
size_of-align_of (int s w8) = refl
size_of-align_of (int s w16) = refl
size_of-align_of (int s w32) = refl
size_of-align_of (int s w64) = refl
size_of-align_of pointer = refl
size_of-align_of (enum vs) = refl
size_of-align_of (array t n) = times n (size_of t) (align_of-IsAlign t) (size_of-align_of t)
size_of-align_of (struct ms) = round_up-mod ((end_of ms 0 + 7) / 8) (align_all-IsAlign ms)
size_of-align_of (union ms) = round_up-mod ((largest ms + 7) / 8) (align_all-IsAlign ms)
