-- ===== src/Prelude/Int.antt =====
-- Signed integers over the native numbers, for C's `int`.
use Prim.Native.Nat.{ℕ, ◌-◌, ◌^◌}
use mathlib.Core.Bool.{Bool, true}
use ebpf_docker_anormaly_det.Prelude.Tests.{eqb}

-- `negsuc n` is -(n + 1).
pub data ℤ : Type 0 where
  pos : ℕ → ℤ
  negsuc : ℕ → ℤ

-- `x <= 0`
abbrev pub le_zero : ℤ → Bool
le_zero (pos n) = eqb n 0
le_zero (negsuc n) = true

-- `(__u64)x`
abbrev pub to_u64 : ℤ → ℕ
to_u64 (pos n) = n
to_u64 (negsuc n) = 2 ^ 64 - n - 1
