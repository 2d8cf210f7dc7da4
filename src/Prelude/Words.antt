-- ===== src/Prelude/Words.antt =====
-- Unsigned machine words as native numbers: every operation reduces modulo the word's size.
use Prim.Native.Nat.{ℕ, ◌+◌, ◌%◌, ◌^◌}
use mathlib.Core.Path.{◌≡◌}
use native.Mathlib.Omega.{arith}

-- `__u64` and Go's `uint64` wrap at 2 ^ 64.
abbrev pub u64 : ℕ → ℕ
u64 x = x % 2 ^ 64

abbrev pub u32 : ℕ → ℕ
u32 x = x % 2 ^ 32

-- `a += b` on an unsigned 64-bit integer
abbrev pub add64 : ℕ → ℕ → ℕ
add64 a b = u64 (a + b)

pub add64-add64 : (a b c : ℕ) → add64 (add64 a b) c ≡ add64 a (b + c)
add64-add64 a b c = omega arith

pub add64-add64_right : (a b c : ℕ) → add64 a (add64 b c) ≡ add64 a (b + c)
add64-add64_right a b c = omega arith

pub add64_comm : (a b : ℕ) → add64 a b ≡ add64 b a
add64_comm a b = omega arith
