-- ===== src/TcpStats/Traffic.antt =====
-- The counters of bpf/tcp_stats.bpf.c against the traffic of a process.
use ebpf_docker_anormaly_det.Prelude.{
  ℕ, ◌+◌, ◌<◌, ◌^◌, ◌≡◌, refl, Bool, ◌&&◌, List, [], ◌∷◌, arith, if◌then◌else◌, ◌==◌, nat_eq, eqb,
  add64,
}
use ebpf_docker_anormaly_det.Prelude.Int.{ℤ, pos, negsuc}
use ebpf_docker_anormaly_det.Kernel.{PerCpuHash}
use ebpf_docker_anormaly_det.TcpStats.{
  TcpStats, zero_stats, charge, first_charge, Task, tgid, Probe, sendmsg, cleanup_rbuf,
  retransmit_skb, bump, fire,
}

-- The bytes that an execution of a probe reports; a failed or empty call reports none.
abbrev positive : ℤ → ℕ
positive (pos n) = n
positive (negsuc n) = 0

abbrev pub tx_bytes : Probe → ℕ
tx_bytes (sendmsg sent) = positive sent
tx_bytes (cleanup_rbuf copied) = 0
tx_bytes retransmit_skb = 0

abbrev pub rx_bytes : Probe → ℕ
rx_bytes (sendmsg sent) = 0
rx_bytes (cleanup_rbuf copied) = positive copied
rx_bytes retransmit_skb = 0

abbrev pub retransmissions : Probe → ℕ
retransmissions (sendmsg sent) = 0
retransmissions (cleanup_rbuf copied) = 0
retransmissions retransmit_skb = 1

-- 1 for a call that moved data.
abbrev pub one_if : ℕ → ℕ
one_if n = if eqb n 0 then 0 else 1

-- Whether an execution is charged to process `q` on processor `d`.
abbrev pub made_by : ℕ → ℕ → Task × Probe → Bool
made_by q d e = (tgid e.0 == q) && (e.0.cpu == d)

-- The sum of a quantity over the executions of a process on a processor.
abbrev pub sum_by : ℕ → ℕ → (Probe → ℕ) → List (Task × Probe) → ℕ
sum_by q d f [] = 0
sum_by q d f (e ∷ es) = (if made_by q d e then f e.1 else 0) + sum_by q d f es

-- `t` is `s` with the traffic of the executions added.
pub record HasTraffic (q d : ℕ) (es : List (Task × Probe)) (s t : TcpStats) : Type 0 where
  pub bytes_tx : t.bytes_tx ≡ add64 s.bytes_tx (sum_by q d tx_bytes es)
  pub bytes_rx : t.bytes_rx ≡ add64 s.bytes_rx (sum_by q d rx_bytes es)
  pub pkts_tx : t.pkts_tx ≡ add64 s.pkts_tx (sum_by q d (λ p. one_if (tx_bytes p)) es)
  pub pkts_rx : t.pkts_rx ≡ add64 s.pkts_rx (sum_by q d (λ p. one_if (rx_bytes p)) es)
  pub retransmits : t.retransmits ≡ add64 s.retransmits (sum_by q d retransmissions es)

-- What the probes pass to `bump` is a 64-bit word: an `int` that is positive.
abbrev pub InRange : Task × Probe → Type 0
InRange e = (tx_bytes e.1 < 2 ^ 31) × (rx_bytes e.1 < 2 ^ 31)

pub record IsWord (s : TcpStats) : Type 0 where
  pub bytes_tx : s.bytes_tx < 2 ^ 64
  pub bytes_rx : s.bytes_rx < 2 ^ 64
  pub pkts_tx : s.pkts_tx < 2 ^ 64
  pub pkts_rx : s.pkts_rx < 2 ^ 64
  pub retransmits : s.retransmits < 2 ^ 64

-- The counters after an execution that is charged to them.
abbrev pub charged : Probe → TcpStats → TcpStats
charged p s = charge (tx_bytes p) (rx_bytes p) (retransmissions p) s

pub charge-IsWord : (tx rx re : ℕ) (s : TcpStats) → IsWord s → IsWord (charge tx rx re s)
unfolding charge
charge-IsWord tx rx re s w = ground arith

pub first_charge-eq-charge :
    (tx rx re : ℕ) → tx < 2 ^ 64 → rx < 2 ^ 64 → first_charge tx rx re ≡ charge tx rx re zero_stats
unfolding charge first_charge
first_charge-eq-charge tx rx re h k = ground arith

pub charge-none : (s : TcpStats) → charge 0 0 0 s ≡ s
unfolding charge
charge-none s = refl

pub HasTraffic-nil : (q d : ℕ) (s : TcpStats) → IsWord s → HasTraffic q d [] s s
HasTraffic-nil q d s w = ground arith

pub HasTraffic-step :
    (q d : ℕ) (e : Task × Probe) (es : List (Task × Probe)) (s t : TcpStats)
    → HasTraffic q d es (if made_by q d e then charged e.1 s else s) t
    → HasTraffic q d (e ∷ es) s t
unfolding charge
HasTraffic-step q d e es s t h = record {
  bytes_tx = ground (arith, h.bytes_tx);
  bytes_rx = ground (arith, h.bytes_rx);
  pkts_tx = ground (arith, h.pkts_tx);
  pkts_rx = ground (arith, h.pkts_rx);
  retransmits = ground (arith, h.retransmits);
}

module _ (stats : PerCpuHash TcpStats zero_stats) where
  -- An execution that moves no data does nothing; any other is one call of `bump`.
  pub fire-bump :
      (t : Task) (p : Probe) (m : stats.Map)
      → fire stats (t, p) m ≡ (
          if eqb (tx_bytes p + rx_bytes p + retransmissions p) 0
          then m
          else bump stats t.cpu (tgid t) (tx_bytes p) (rx_bytes p) (retransmissions p) m)
  unfolding fire
  fire-bump t (sendmsg sent) m = ground arith
  fire-bump t (cleanup_rbuf copied) m = ground arith
  fire-bump t retransmit_skb m = refl
