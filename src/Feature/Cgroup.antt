-- ===== src/Feature/Cgroup.antt =====
-- The cgroup samples of pkg/feature/aggregator.go: the deltas that a window's vector gets.
use ebpf_docker_anormaly_det.Prelude.{
  ℕ, ◌+◌, ◌-◌, ◌*◌, ◌/◌, ◌≤◌, suc, ◌≡◌, refl, String, Option, List, [], ◌∷◌, arith, length, leb,
  if◌then◌else◌, string_eq,
}
use ebpf_docker_anormaly_det.Feature.Types.{Floats, Stats, Vector}
use ebpf_docker_anormaly_det.Feature.{Accumulator, sample_cgroup, finalize}

-- The cumulative counters whose growth the vector shows.
pub data Meter : Type 0 where
  cpu io_read io_write : Meter

abbrev pub unit : Meter → ℕ
unit cpu = 1000
unit _ = 1048576

module _ (fl : Floats) where
  abbrev pub reading : Meter → Stats fl → ℕ
  reading cpu s = s.usage_usec
  reading io_read s = s.rbytes
  reading io_write s = s.wbytes

  abbrev pub last_reading : Meter → Accumulator fl → ℕ
  last_reading cpu ac = ac.prev_cpu_usage_usec
  last_reading io_read ac = ac.prev_io_read
  last_reading io_write ac = ac.prev_io_write

  abbrev pub shown : Meter → Vector fl → ℕ
  shown cpu v = v.cgroup_cpu_usage_ms
  shown io_read v = v.cgroup_io_read_mb
  shown io_write v = v.cgroup_io_write_mb

  pub last_reading-sample :
      (m : Meter) (name image : String) (s : Stats fl) (ac : Accumulator fl)
      → last_reading m (sample_cgroup fl name image s ac) ≡ reading m s
  unfolding sample_cgroup
  last_reading-sample cpu name image s ac = refl
  last_reading-sample io_read name image s ac = refl
  last_reading-sample io_write name image s ac = refl

  pub shown-sample :
      (m : Meter) (name image : String) (s : Stats fl) (ac : Accumulator fl)
      → shown m (sample_cgroup fl name image s ac).v ≡ (
          if leb (last_reading m ac) (reading m s)
          then (reading m s - last_reading m ac) / unit m
          else shown m ac.v)
  unfolding sample_cgroup
  shown-sample cpu name image s ac = refl
  shown-sample io_read name image s ac = ground arith
  shown-sample io_write name image s ac = ground arith

  -- Two samples in one window: the vector shows the growth since the first of them, whatever the
  -- accumulator held, if the reading has not fallen. The growth up to the first sample is lost.
  pub shown-two_samples :
      (m : Meter) (name image : String) (s t : Stats fl) (ac : Accumulator fl)
      → reading m s ≤ reading m t
      → shown m (sample_cgroup fl name image t (sample_cgroup fl name image s ac)).v
        ≡ (reading m t - reading m s) / unit m
  shown-two_samples m name image s t ac h = ground (
    arith,
    shown-sample m name image t (sample_cgroup fl name image s ac),
    last_reading-sample m name image s ac,
  )

  abbrev pub sum_shown : Meter → List (Vector fl) → ℕ
  sum_shown m [] = 0
  sum_shown m (v ∷ vs) = shown m v + sum_shown m vs

  -- The readings rise, starting at `p`.
  abbrev pub Rises : Meter → ℕ → List (ℕ × Stats fl) → Type 0
  Rises m p [] = Unit
  Rises m p ((end, s) ∷ ws) = (p ≤ reading m s) × Rises m (reading m s) ws

  abbrev pub final_reading : Meter → ℕ → List (ℕ × Stats fl) → ℕ
  final_reading m p [] = p
  final_reading m p ((end, s) ∷ ws) = final_reading m (reading m s) ws

  module _ (resolve_name : Option (String → String × String)) (window : ℕ)
      (cid name image : String) where
    -- One window with one sample in it, which ends at `end`.
    abbrev pub window_of : ℕ × Stats fl → Accumulator fl → Vector fl × Accumulator fl
    window_of (end, s) ac =
        finalize fl resolve_name (end - window) end cid (sample_cgroup fl name image s ac)

    unfoldable pub windows : List (ℕ × Stats fl) → Accumulator fl → List (Vector fl)
    windows [] ac = []
    windows (w ∷ ws) ac = let (v, ac') = window_of w ac in v ∷ windows ws ac'

    shown-finalize :
        (m : Meter) (start end : ℕ) (ac : Accumulator fl)
        → shown m (finalize fl resolve_name start end cid ac).0 ≡ shown m ac.v
    unfolding finalize
    shown-finalize cpu start end ac = refl
    shown-finalize io_read start end ac = refl
    shown-finalize io_write start end ac = refl

    last_reading-finalize :
        (m : Meter) (start end : ℕ) (ac : Accumulator fl)
        → last_reading m (finalize fl resolve_name start end cid ac).1 ≡ last_reading m ac
    unfolding finalize
    last_reading-finalize cpu start end ac = refl
    last_reading-finalize io_read start end ac = refl
    last_reading-finalize io_write start end ac = refl

    shown-window_of :
        (m : Meter) (end : ℕ) (s : Stats fl) (ac : Accumulator fl)
        → last_reading m ac ≤ reading m s
        → shown m (window_of (end, s) ac).0 ≡ (reading m s - last_reading m ac) / unit m
    shown-window_of m end s ac h = ground (
      arith,
      shown-finalize m (end - window) end (sample_cgroup fl name image s ac),
      shown-sample m name image s ac,
    )

    last_reading-window_of :
        (m : Meter) (end : ℕ) (s : Stats fl) (ac : Accumulator fl)
        → last_reading m (window_of (end, s) ac).1 ≡ reading m s
    last_reading-window_of m end s ac = ground (
      arith,
      last_reading-finalize m (end - window) end (sample_cgroup fl name image s ac),
      last_reading-sample m name image s ac,
    )

    one_more-bounds :
        (m : Meter) (q n p r f l : ℕ)
        → p ≤ r
        → q ≡ (r - p) / unit m
        → (n * unit m + r ≤ f) × (f ≤ n * unit m + r + l * unit m)
        → ((q + n) * unit m + p ≤ f) × (f ≤ (q + n) * unit m + p + suc l * unit m)
    one_more-bounds cpu q n p r f l h e (low, high) = (omega arith, omega arith)
    one_more-bounds io_read q n p r f l h e (low, high) = (omega arith, omega arith)
    one_more-bounds io_write q n p r f l h e (low, high) = (omega arith, omega arith)

    -- With one sample in each window and readings that do not fall, the deltas of the vectors add up
    -- to the growth of the reading, short of at most one unit for each window.
    pub sum_shown-windows :
        (m : Meter) (ws : List (ℕ × Stats fl)) (ac : Accumulator fl)
        → Rises m (last_reading m ac) ws
        → (sum_shown m (windows ws ac) * unit m + last_reading m ac
            ≤ final_reading m (last_reading m ac) ws)
          × (final_reading m (last_reading m ac) ws
              ≤ sum_shown m (windows ws ac) * unit m + last_reading m ac + length ws * unit m)
    unfolding windows
    sum_shown-windows m [] ac h = (omega arith, omega arith)
    sum_shown-windows m ((end, s) ∷ ws) ac (h, hs) =
        let ac' = (window_of (end, s) ac).1 in
        let read : last_reading m ac' ≡ reading m s = last_reading-window_of m end s ac in
        let rest = sum_shown-windows m ws ac' (rw (read) hs) in
        one_more-bounds m _ _ _ _ _ (length ws) h (shown-window_of m end s ac h) (rw read at rest)
