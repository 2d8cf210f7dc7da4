-- ===== src/Collector/TcpStats/Totals.antt =====
-- From the probes of bpf/tcp_stats.bpf.c to the rows of pkg/collector/tcpstats/collector.go: what
-- a poll reports of a process.
use ebpf_docker_anormaly_det.Prelude.{
  ℕ, ◌+◌, ◌≤◌, ◌<◌, ◌^◌, ◌≡◌, refl, ◌∙◌, false, String, none, List, [], ◌∷◌, arith, nat_eq, inl,
  inr, Bool-cases, u64, add64, length, All,
}
use ebpf_docker_anormaly_det.Prelude.Table.{contains}
use ebpf_docker_anormaly_det.Kernel.{PerCpuHash}
use ebpf_docker_anormaly_det.Kernel.Room.{read}
use ebpf_docker_anormaly_det.TcpStats.{TcpStats, zero_stats, Task, Probe, fire_all}
use ebpf_docker_anormaly_det.TcpStats.Traffic.{
  HasTraffic, sum_by, tx_bytes, rx_bytes, retransmissions, one_if,
}
use ebpf_docker_anormaly_det.TcpStats.Capacity.{IsKnown, fire_all-HasTraffic}
use ebpf_docker_anormaly_det.Collector.TcpStats.{Row, add_stats, sum_cpus, poll_once}
use ebpf_docker_anormaly_det.Collector.TcpStats.Drain.{
  rows_of, per_cpu, snapshot, rows_of-poll_once,
}

-- The five counters, and what an execution of a probe adds to each.
pub data Counter : Type 0 where
  bytes_tx bytes_rx pkts_tx pkts_rx retransmits : Counter

abbrev pub count_of : Counter → TcpStats → ℕ
count_of bytes_tx s = s.bytes_tx
count_of bytes_rx s = s.bytes_rx
count_of pkts_tx s = s.pkts_tx
count_of pkts_rx s = s.pkts_rx
count_of retransmits s = s.retransmits

abbrev pub amount : Counter → Probe → ℕ
amount bytes_tx p = tx_bytes p
amount bytes_rx p = rx_bytes p
amount pkts_tx p = one_if (tx_bytes p)
amount pkts_rx p = one_if (rx_bytes p)
amount retransmits p = retransmissions p

-- What the rows say of a counter, in sum.
abbrev pub reported : Counter → List Row → ℕ
reported k [] = 0
reported k (row ∷ rows) = count_of k row.stats + reported k rows

abbrev pub sum_counts : Counter → List TcpStats → ℕ
sum_counts k [] = 0
sum_counts k (v ∷ vs) = count_of k v + sum_counts k vs

count-add_stats :
    (k : Counter) (s v : TcpStats)
    → count_of k (add_stats s v) ≡ add64 (count_of k s) (count_of k v)
unfolding add_stats
count-add_stats bytes_tx s v = refl
count-add_stats bytes_rx s v = refl
count-add_stats pkts_tx s v = refl
count-add_stats pkts_rx s v = refl
count-add_stats retransmits s v = refl

count-sum_cpus :
    (k : Counter) (s : TcpStats) (vs : List TcpStats)
    → count_of k s < 2 ^ 64
    → count_of k (sum_cpus s vs) ≡ add64 (count_of k s) (sum_counts k vs)
unfolding sum_cpus
count-sum_cpus k s [] w = omega arith
count-sum_cpus k s (v ∷ vs) w = omega (
  arith,
  count-add_stats k s v,
  count-sum_cpus k (add_stats s v) vs (rw (count-add_stats k s v) (omega arith)),
)

count_zero : (k : Counter) → count_of k zero_stats ≡ 0
count_zero bytes_tx = refl
count_zero bytes_rx = refl
count_zero pkts_tx = refl
count_zero pkts_rx = refl
count_zero retransmits = refl

count-HasTraffic :
    (k : Counter) (q c : ℕ) (es : List (Task × Probe)) (t : TcpStats)
    → HasTraffic q c es zero_stats t
    → count_of k t ≡ u64 (sum_by q c (amount k) es)
count-HasTraffic bytes_tx q c es t h = omega (arith, h.bytes_tx)
count-HasTraffic bytes_rx q c es t h = omega (arith, h.bytes_rx)
count-HasTraffic pkts_tx q c es t h = omega (arith, h.pkts_tx)
count-HasTraffic pkts_rx q c es t h = omega (arith, h.pkts_rx)
count-HasTraffic retransmits q c es t h = omega (arith, h.retransmits)

module _ (stats : PerCpuHash TcpStats zero_stats) where
  absent-zero :
      (k : Counter) (cpus : List ℕ) (m : stats.Map) (q : ℕ)
      → contains q (stats.keys m) ≡ false
      → sum_counts k (per_cpu stats cpus m q) ≡ 0
  absent-zero k [] m q h = refl
  absent-zero k (c ∷ cpus) m q h =
      ground (arith, absent-zero k cpus m q, stats.contains-keys m q c, count_zero k)

  -- A poll that nothing interrupts reports of each process the sums of its counters over the
  -- processors, modulo 2 ^ 64, and nothing of a process without counters.
  pub reported-poll :
      (k : Counter) (resolve : ℕ → String) (cpus : List ℕ) (m : stats.Map) (q : ℕ)
      → reported k (rows_of q (poll_once stats resolve (snapshot stats cpus m) m).0)
        ≡ u64 (sum_counts k (per_cpu stats cpus m q))
  reported-poll k resolve cpus m q =
      rw (rows_of-poll_once stats resolve cpus m q) (elim (Bool-cases (contains q (stats.keys m))) [
        | inl there ↦ rw there (
            omega (
              arith,
              count_zero k,
              count-sum_cpus k zero_stats (per_cpu stats cpus m q)
                  (rw (count_zero k) (omega arith)),
            ))
        | inr absent ↦ rw absent (omega (arith, absent-zero k cpus m q absent))
      ])

  -- What the executions on the processors `cpus` add to a counter of a process.
  abbrev pub sum_on : List ℕ → ℕ → (Probe → ℕ) → List (Task × Probe) → ℕ
  sum_on [] q f es = 0
  sum_on (c ∷ cpus) q f es = sum_by q c f es + sum_on cpus q f es

  module _ (ids : List ℕ) (fits : length ids ≤ stats.max_entries) (m : stats.Map)
      (empty : (q c : ℕ) → stats.lookup m q c ≡ none) (es : List (Task × Probe))
      (known : All (IsKnown stats ids fits) es) where
    none_before : (q c : ℕ) → read stats m q c ≡ zero_stats
    none_before q c = rw (read, empty q c)

    counted_on :
        (k : Counter) (q c : ℕ)
        → count_of k (read stats (fire_all stats es m) q c) ≡ u64 (sum_by q c (amount k) es)
    counted_on k q c =
        let traffic =
          fire_all-HasTraffic stats ids fits es m
            (λ q' c' s h. absurd (ground (arith, empty q' c', h))) known q c
            (rw (none_before q c) (ground arith)) in
        count-HasTraffic k q c es _ (rw (none_before q c) at traffic)

    counted :
        (k : Counter) (cpus : List ℕ) (q : ℕ)
        → u64 (sum_counts k (per_cpu stats cpus (fire_all stats es m) q))
          ≡ u64 (sum_on cpus q (amount k) es)
    counted k [] q = refl
    counted k (c ∷ cpus) q = omega (arith, counted_on k q c, counted k cpus q)

    -- From the kernel to user space: from an empty map, executions of the probes by no more
    -- processes than the map has entries, and then a poll that nothing interrupts, report of each
    -- process exactly what its executions on the polled processors add up to, modulo 2 ^ 64.
    pub reported-fire_all :
        (k : Counter) (resolve : ℕ → String) (cpus : List ℕ) (q : ℕ)
        → let after = fire_all stats es m in
          reported k (rows_of q (poll_once stats resolve (snapshot stats cpus after) after).0)
          ≡ u64 (sum_on cpus q (amount k) es)
    reported-fire_all k resolve cpus q =
        reported-poll k resolve cpus (fire_all stats es m) q ∙ counted k cpus q
