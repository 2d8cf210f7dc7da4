-- ===== src/Prelude/Pigeonhole.antt =====
-- A list of different numbers that all stand in another list is no longer than that list.
use mathlib.Core.Bool.{true, false, not, ◌&&◌}
use mathlib.Core.List.{List, [], ◌∷◌}
use mathlib.Core.Path.{◌≡◌, refl}
use Prim.Native.Nat.{ℕ, ◌+◌, ◌≤◌, ◌<◌}
use native.Mathlib.Omega.{arith}
use ebpf_docker_anormaly_det.Prelude.Tests.{eqb, eqb_iff, if◌then◌else◌}
use ebpf_docker_anormaly_det.Prelude.Keys.{nat_eq}
use ebpf_docker_anormaly_det.Prelude.Lists.{length}
use ebpf_docker_anormaly_det.Prelude.Table.{contains, distinct}

without : ℕ → List ℕ → List ℕ
without n [] = []
without n (k ∷ ks) = let rest = without n ks in if eqb k n then rest else k ∷ rest

contains-without :
    (n j : ℕ) (ks : List ℕ) → contains j (without n ks) ≡ (not (eqb n j) && contains j ks)
unfolding contains without
contains-without n j [] = ground arith
contains-without n j (k ∷ ks) = ground (arith, contains-without n j ks)

distinct-without : (n : ℕ) (ks : List ℕ) → distinct ks ≡ true → distinct (without n ks) ≡ true
unfolding distinct without
distinct-without n [] h = refl
distinct-without n (k ∷ ks) h = ground (arith, contains-without n k ks, distinct-without n ks)

without-absent : (n : ℕ) (ks : List ℕ) → contains n ks ≡ false → without n ks ≡ ks
unfolding contains without
without-absent n [] h = refl
without-absent n (k ∷ ks) h = ground (arith, without-absent n ks)

length-without : (n : ℕ) (ks : List ℕ) → distinct ks ≡ true → length ks ≤ length (without n ks) + 1
unfolding distinct without
length-without n [] h = omega arith
length-without n (k ∷ ks) h = ground (arith, length-without n ks, without-absent n ks)

-- Every element of the first list stands in the second.
abbrev pub Covers : List ℕ → List ℕ → Type 0
Covers ks xs = (k : ℕ) → contains k xs ≡ true → contains k ks ≡ true

pub length-le-cover : (ks xs : List ℕ) → distinct xs ≡ true → Covers ks xs → length xs ≤ length ks
unfolding contains
length-le-cover [] [] d cover = omega arith
length-le-cover [] (x ∷ xs) d cover = ground (arith, cover x, eqb_iff x x)
length-le-cover (k ∷ ks) xs d cover = omega (
  arith,
  length-without k xs d,
  length-le-cover ks (without k xs) (distinct-without k xs d)
      (λ j h. ground (arith, cover j, contains-without k j xs)),
)

pub length-lt-cover :
    (ks xs : List ℕ) (k : ℕ)
    → distinct xs ≡ true
    → Covers ks xs
    → contains k xs ≡ false
    → contains k ks ≡ true
    → length xs < length ks
length-lt-cover ks xs k d cover absent present =
    length-le-cover ks (k ∷ xs) (unfold distinct in ground arith)
      (λ j h. unfold contains in ground (arith, cover j, eqb_iff k j))
