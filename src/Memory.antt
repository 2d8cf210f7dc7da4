-- ===== src/Memory.antt =====
-- The memory that the kernel and the BPF programs share: bytes at addresses, and little-endian words
-- of some bytes in it.
pub mod Fields
pub mod Bytes
use ebpf_docker_anormaly_det.Prelude.{
  ℕ, zero, suc, ◌+◌, ◌*◌, ◌/◌, ◌%◌, ◌^◌, ◌≤◌, ◌<◌, ◌≡◌, ◌⊎◌, inl, inr, arith, eqb, if◌then◌else◌,
  refl, ◌∙◌,
}

abbrev pub Memory : Type 0
Memory = ℕ → ℕ

-- The number that `n` bytes from an address on hold.
unfoldable pub load : ℕ → ℕ → Memory → ℕ
load zero a m = 0
load (suc n) a m = m a % 256 + 256 * load n (suc a) m

unfoldable pub store : ℕ → ℕ → ℕ → Memory → Memory
store zero a v m b = m b
store (suc n) a v m b =
    let rest = store n (suc a) (v / 256) m b in if eqb b a then v % 256 else rest

store-outside : (n a v : ℕ) (m : Memory) (b : ℕ) → (b < a) ⊎ (a + n ≤ b) → store n a v m b ≡ m b
unfolding store
store-outside zero a v m b h = refl
store-outside (suc n) a v m b (inl h) =
    ground (arith, store-outside n (suc a) (v / 256) m b (inl (omega arith)))
store-outside (suc n) a v m b (inr h) =
    ground (arith, store-outside n (suc a) (v / 256) m b (inr (omega arith)))

load-same :
    (n a : ℕ) (m m' : Memory)
    → ((b : ℕ) → a ≤ b → b < a + n → m b ≡ m' b)
    → load n a m ≡ load n a m'
unfolding load
load-same zero a m m' h = refl
load-same (suc n) a m m' h =
    let here : m a ≡ m' a = h a (omega arith) (omega arith) in
    rw (here, load-same n (suc a) m m' (λ b k l. h b (omega arith) (omega arith))) refl

-- A word that was stored is read back, and a store leaves the words beside it alone.
pub load-store : (n a v : ℕ) (m : Memory) → v < 256 ^ n → load n a (store n a v m) ≡ v
unfolding load store
load-store zero a v m h = omega arith
load-store (suc n) a v m h =
    let small : v / 256 < 256 ^ n = omega arith in
    let rest : load n (suc a) (store (suc n) a v m) ≡ v / 256 =
      load-same n (suc a) (store (suc n) a v m) (store n (suc a) (v / 256) m)
        (λ b k l. ground (arith, k))
      ∙ load-store n (suc a) (v / 256) m small in
    ground (arith, rest)

pub load-store_apart :
    (k b n a v : ℕ) (m : Memory) → (a + n ≤ b) ⊎ (b + k ≤ a) → load k b (store n a v m) ≡ load k b m
load-store_apart k b n a v m (inl h) =
    load-same k b (store n a v m) m λ c i j. store-outside n a v m c (inr (omega arith))
load-store_apart k b n a v m (inr h) =
    load-same k b (store n a v m) m λ c i j. store-outside n a v m c (inl (omega arith))
