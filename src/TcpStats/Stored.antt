-- ===== src/TcpStats/Stored.antt =====
-- `struct tcp_stats` of bpf/tcp_stats.bpf.c in memory: the counters that `bump` changes through the
-- pointer that the lookup returned, against the model's record.
pub mod Charge
use ebpf_docker_anormaly_det.Prelude.{
  ℕ, ◌^◌, ◌<◌, ◌≡◌, ◌≢◌, ◌∙◌, arith, Option, none, some, refl, String, false, add64, eqb, Bool,
  true, if◌then◌else◌, Bool-cases, inl, inr,
}
use ebpf_docker_anormaly_det.CTypes.{Members, find, members_of, slot, size_of, struct, holder_of}
use ebpf_docker_anormaly_det.Vmlinux.Words.{__u64}
use ebpf_docker_anormaly_det.Memory.{Memory}
use ebpf_docker_anormaly_det.Memory.Fields.{
  Declares, read_member, write_member, read_member-write_member, read_member-write_other,
}
use ebpf_docker_anormaly_det.BpfObjects.Structs.{tcp_stats}
use ebpf_docker_anormaly_det.TcpStats.{TcpStats, add_tx, add_rx, add_retransmit, charge}

-- `v->x += k`
unfoldable pub add_member : String → ℕ → ℕ → Memory → Memory
add_member x k v m = elim (read_member tcp_stats x v m) [
  | none ↦ m
  | some old ↦ write_member tcp_stats x (add64 old k) v m
]

-- The three tests of `bump` on the entry at `v`, in their order.
abbrev pub add_tx_at : ℕ → ℕ → Memory → Memory
add_tx_at tx_b v m =
    if eqb tx_b 0 then m else add_member "pkts_tx" 1 v (add_member "bytes_tx" tx_b v m)

abbrev pub add_rx_at : ℕ → ℕ → Memory → Memory
add_rx_at rx_b v m =
    if eqb rx_b 0 then m else add_member "pkts_rx" 1 v (add_member "bytes_rx" rx_b v m)

abbrev pub add_retransmit_at : ℕ → ℕ → Memory → Memory
add_retransmit_at retrans v m = if eqb retrans 0 then m else add_member "retransmits" 1 v m

unfoldable pub charge_at : ℕ → ℕ → ℕ → ℕ → Memory → Memory
charge_at tx_b rx_b retrans v m =
    add_retransmit_at retrans v (add_rx_at rx_b v (add_tx_at tx_b v m))

-- The memory at `v` holds the record.
pub record Holds (v : ℕ) (s : TcpStats) (m : Memory) : Type 0 where
  pub bytes_tx : read_member tcp_stats "bytes_tx" v m ≡ some s.bytes_tx
  pub bytes_rx : read_member tcp_stats "bytes_rx" v m ≡ some s.bytes_rx
  pub pkts_tx : read_member tcp_stats "pkts_tx" v m ≡ some s.pkts_tx
  pub pkts_rx : read_member tcp_stats "pkts_rx" v m ≡ some s.pkts_rx
  pub retransmits : read_member tcp_stats "retransmits" v m ≡ some s.retransmits
