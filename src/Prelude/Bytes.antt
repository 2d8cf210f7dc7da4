-- ===== src/Prelude/Bytes.antt =====
-- Little-endian words in memory, as lists of bytes.
use Prim.Native.Nat.{ℕ, zero, suc, ◌+◌, ◌*◌, ◌/◌, ◌%◌, ◌^◌, ◌<◌}
use mathlib.Core.Path.{◌≡◌, refl}
use mathlib.Core.List.{List, [], ◌∷◌, ◌++◌}
use native.Mathlib.Omega.{arith}
use ebpf_docker_anormaly_det.Prelude.Lists.{length}

-- The lowest `n` bytes of a number.
unfoldable pub to_bytes : ℕ → ℕ → List ℕ
to_bytes zero x = []
to_bytes (suc n) x = (x % 256) ∷ to_bytes n (x / 256)

-- The number that `n` bytes hold; bytes past the end read as zero.
unfoldable pub of_bytes : ℕ → List ℕ → ℕ
of_bytes zero bs = 0
of_bytes (suc n) [] = 0
of_bytes (suc n) (b ∷ bs) = b + 256 * of_bytes n bs

unfoldable pub drop {ℓ} : {A : Type ℓ} → ℕ → List A → List A
drop zero bs = bs
drop (suc n) [] = []
drop (suc n) (b ∷ bs) = drop n bs

pub length-to_bytes : (n x : ℕ) → length (to_bytes n x) ≡ n
unfolding to_bytes
length-to_bytes zero x = refl
length-to_bytes (suc n) x = omega (arith, length-to_bytes n (x / 256))

pub drop-append {ℓ} : {A : Type ℓ} (n : ℕ) (xs ys : List A) → length xs ≡ n → drop n (xs ++ ys) ≡ ys
unfolding drop
drop-append zero [] ys h = refl
drop-append zero (x ∷ xs) ys h = absurd (omega arith)
drop-append (suc n) [] ys h = absurd (omega arith)
drop-append (suc n) (x ∷ xs) ys h = drop-append n xs ys (omega arith)

-- What `n` bytes hold after a number was written there: the number modulo 256 ^ n.
pub of_bytes-to_bytes_4 :
    (x : ℕ) (rest : List ℕ) → x < 2 ^ 32 → of_bytes 4 (to_bytes 4 x ++ rest) ≡ x
unfolding of_bytes to_bytes
of_bytes-to_bytes_4 x rest h = omega arith

pub of_bytes-to_bytes_8 :
    (x : ℕ) (rest : List ℕ) → x < 2 ^ 64 → of_bytes 8 (to_bytes 8 x ++ rest) ≡ x
unfolding of_bytes to_bytes
of_bytes-to_bytes_8 x rest h = omega arith

-- Dropping past a prefix.
pub drop_past {ℓ} :
    {A : Type ℓ} (j k : ℕ) (xs ys : List A) → length xs + k ≡ j → drop j (xs ++ ys) ≡ drop k ys
unfolding drop
drop_past j k [] ys h = let e : j ≡ k = omega arith in rw e refl
drop_past zero k (x ∷ xs) ys h = absurd (omega arith)
drop_past (suc j) k (x ∷ xs) ys h = drop_past j k xs ys (omega arith)

-- The first `n` elements.
unfoldable pub take {ℓ} : {A : Type ℓ} → ℕ → List A → List A
take zero bs = []
take (suc n) [] = []
take (suc n) (b ∷ bs) = b ∷ take n bs

pub take-append {ℓ} : {A : Type ℓ} (n : ℕ) (xs ys : List A) → length xs ≡ n → take n (xs ++ ys) ≡ xs
unfolding take
take-append zero [] ys h = refl
take-append zero (x ∷ xs) ys h = absurd (omega arith)
take-append (suc n) [] ys h = absurd (omega arith)
take-append (suc n) (x ∷ xs) ys h = rw (take-append n xs ys (omega arith))
