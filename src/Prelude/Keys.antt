-- ===== src/Prelude/Keys.antt =====
-- Equality tests on the types that serve as keys of maps: numbers and texts.
use Prim.Native.Nat.{ℕ}
use Prim.Native.String.{String}
use mathlib.Core.Path.{◌≡◌}
use mathlib.Core.Logic.{◌↔◌}
use mathlib.Core.Bool.{Bool, true}
use text.Mathlib.Text.{◌==◌ as str_eq}
use text.Mathlib.TextEquality.{eq_iff}
use ebpf_docker_anormaly_det.Prelude.Tests.{eqb, eqb_iff}

-- A type whose values can be keys: `==` on them decides equality.
pub record Key {κ} (K : Type κ) : Type κ where
  pub same : K → K → Bool
  pub same_iff : (k j : K) → (same k j ≡ true) ↔ (k ≡ j)

instance abbrev pub string_eq : Key String
string_eq = record { same = str_eq; same_iff = eq_iff }

instance abbrev pub nat_eq : Key ℕ
nat_eq = record { same = eqb; same_iff = eqb_iff }

abbrev pub ◌==◌ {κ} : {K : Type κ} ⦃key : Key K⦄ → K → K → Bool
◌==◌ {K} ⦃key⦄ k j = key.same k j

infix 50 ◌==◌
