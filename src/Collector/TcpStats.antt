-- ===== src/Collector/TcpStats.antt =====
-- The poller of TCP counters, pkg/collector/tcpstats/collector.go. What the iteration of the
-- kernel's map yields is an argument. A Go map is a list of entries with one for each key, in the
-- order of the loop over it.
pub mod Drain
pub mod Totals
use ebpf_docker_anormaly_det.Prelude.{ℕ, String, List, [], ◌∷◌, nat_eq, add64}
use ebpf_docker_anormaly_det.Prelude.Table.{Table, insert}
use ebpf_docker_anormaly_det.Kernel.{PerCpuHash}
use ebpf_docker_anormaly_det.TcpStats.{TcpStats, zero_stats}

-- `Stats` of the Go package: the counters of a thread group with its container.
pub record Row : Type 0 where
  pub tgid : ℕ
  pub container_id : String
  pub stats : TcpStats

-- `sum.BytesTx += v.BytesTx` and so on.
unfoldable pub add_stats : TcpStats → TcpStats → TcpStats
add_stats sum v = record {
  bytes_tx = add64 sum.bytes_tx v.bytes_tx;
  bytes_rx = add64 sum.bytes_rx v.bytes_rx;
  pkts_tx = add64 sum.pkts_tx v.pkts_tx;
  pkts_rx = add64 sum.pkts_rx v.pkts_rx;
  retransmits = add64 sum.retransmits v.retransmits;
}

unfoldable pub sum_cpus : TcpStats → List TcpStats → TcpStats
sum_cpus sum [] = sum
sum_cpus sum (v ∷ per_cpu) = sum_cpus (add_stats sum v) per_cpu

-- The last loop.
unfoldable pub emit : (ℕ → String) → Table ℕ TcpStats → List Row
emit resolve [] = []
emit resolve ((tgid, s) ∷ per_tgid) =
    record { tgid = tgid; container_id = resolve tgid; stats = s } ∷ emit resolve per_tgid

module _ (map : PerCpuHash TcpStats zero_stats) where
  -- The first loop: each entry is summed over the processors and deleted.
  unfoldable pub drain :
      List (ℕ × List TcpStats) → Table ℕ TcpStats → map.Map → Table ℕ TcpStats × map.Map
  drain [] per_tgid m = (per_tgid, m)
  drain ((key, per_cpu) ∷ rows) per_tgid m =
      drain rows (insert key (sum_cpus zero_stats per_cpu) per_tgid) (map.delete m key)

  unfoldable pub poll_once : (ℕ → String) → List (ℕ × List TcpStats) → map.Map → List Row × map.Map
  poll_once resolve iterated m =
      let (per_tgid, m') = drain iterated [] m in (emit resolve per_tgid, m')
