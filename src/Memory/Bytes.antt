-- ===== src/Memory/Bytes.antt =====
-- Runs of bytes in memory, as lists.
use ebpf_docker_anormaly_det.Prelude.{
  ℕ, zero, suc, ◌+◌, ◌%◌, ◌≤◌, ◌≡◌, ◌∙◌, arith, List, [], ◌∷◌, refl, sym,
}
use ebpf_docker_anormaly_det.Prelude.Bytes.{of_bytes, drop, take}
use ebpf_docker_anormaly_det.Memory.{Memory, load}

-- The bytes that a pointer points to.
unfoldable pub bytes_at : ℕ → ℕ → Memory → List ℕ
bytes_at zero a m = []
bytes_at (suc n) a m = (m a % 256) ∷ bytes_at n (suc a) m

pub of_bytes-bytes_at : (k n a : ℕ) (m : Memory) → k ≤ n → of_bytes k (bytes_at n a m) ≡ load k a m
unfolding of_bytes bytes_at load
of_bytes-bytes_at zero n a m h = refl
of_bytes-bytes_at (suc k) zero a m h = absurd (omega arith)
of_bytes-bytes_at (suc k) (suc n) a m h = rw (of_bytes-bytes_at k n (suc a) m (omega arith)) refl

pub of_bytes-drop :
    (k off n a : ℕ) (m : Memory)
    → off + k ≤ n
    → of_bytes k (drop off (bytes_at n a m)) ≡ load k (a + off) m
unfolding drop bytes_at
of_bytes-drop k zero n a m h =
    let e : a ≡ a + 0 = omega arith in of_bytes-bytes_at k n a m (omega arith) ∙ rw (sym e) refl
of_bytes-drop k (suc off) zero a m h = absurd (omega arith)
of_bytes-drop k (suc off) (suc n) a m h =
    of_bytes-drop k off n (suc a) m (omega arith)
    ∙ (let e : suc a + off ≡ a + suc off = omega arith in rw e refl)

-- A part of a run.
pub take-bytes_at : (k n a : ℕ) (m : Memory) → k ≤ n → take k (bytes_at n a m) ≡ bytes_at k a m
unfolding take bytes_at
take-bytes_at zero n a m h = refl
take-bytes_at (suc k) zero a m h = absurd (omega arith)
take-bytes_at (suc k) (suc n) a m h = rw (take-bytes_at k n (suc a) m (omega arith)) refl

pub take-drop :
    (k off n a : ℕ) (m : Memory)
    → off + k ≤ n
    → take k (drop off (bytes_at n a m)) ≡ bytes_at k (a + off) m
unfolding drop bytes_at
take-drop k zero n a m h =
    let e : a ≡ a + 0 = omega arith in take-bytes_at k n a m (omega arith) ∙ rw (sym e) refl
take-drop k (suc off) zero a m h = absurd (omega arith)
take-drop k (suc off) (suc n) a m h =
    let e : suc a + off ≡ a + suc off = omega arith in
    take-drop k off n (suc a) m (omega arith) ∙ rw e refl
