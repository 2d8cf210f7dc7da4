-- ===== src/TcpStats.antt =====
-- TCP counters for each process, bpf/tcp_stats.bpf.c: the probes at tcp_sendmsg (return),
-- tcp_cleanup_rbuf and tcp_retransmit_skb, which count in a map keyed by thread group.
pub mod Traffic
pub mod Capacity
pub mod Arguments
pub mod Stored
use ebpf_docker_anormaly_det.Prelude.{
  ℕ, zero, suc, ◌/◌, ◌^◌, Bool, Option, none, some, List, [], ◌∷◌, u32, add64, eqb, if◌then◌else◌,
}
use ebpf_docker_anormaly_det.Prelude.Int.{ℤ, le_zero, to_u64}
use ebpf_docker_anormaly_det.Kernel.{PerCpuHash}

-- `struct tcp_stats`
pub record TcpStats : Type 0 where
  pub bytes_tx : ℕ
  pub bytes_rx : ℕ
  pub pkts_tx : ℕ
  pub pkts_rx : ℕ
  pub retransmits : ℕ

abbrev pub zero_stats : TcpStats
zero_stats = record { bytes_tx = 0; bytes_rx = 0; pkts_tx = 0; pkts_rx = 0; retransmits = 0 }

-- The three tests on an entry that is there, `v->bytes_tx += tx_b` and so on.
abbrev pub add_tx : ℕ → TcpStats → TcpStats
add_tx tx_b v =
    if eqb tx_b 0
    then v
    else record v { bytes_tx = add64 v.bytes_tx tx_b; pkts_tx = add64 v.pkts_tx 1 }

abbrev pub add_rx : ℕ → TcpStats → TcpStats
add_rx rx_b v =
    if eqb rx_b 0
    then v
    else record v { bytes_rx = add64 v.bytes_rx rx_b; pkts_rx = add64 v.pkts_rx 1 }

abbrev pub add_retransmit : ℕ → TcpStats → TcpStats
add_retransmit retrans v =
    if eqb retrans 0 then v else record v { retransmits = add64 v.retransmits 1 }

-- The counters of a new entry, `newv.bytes_tx = tx_b` and so on.
abbrev pub init_tx : ℕ → TcpStats → TcpStats
init_tx tx_b v = if eqb tx_b 0 then v else record v { bytes_tx = tx_b; pkts_tx = 1 }

abbrev pub init_rx : ℕ → TcpStats → TcpStats
init_rx rx_b v = if eqb rx_b 0 then v else record v { bytes_rx = rx_b; pkts_rx = 1 }

abbrev pub init_retransmit : ℕ → TcpStats → TcpStats
init_retransmit retrans v = if eqb retrans 0 then v else record v { retransmits = 1 }

unfoldable pub charge : ℕ → ℕ → ℕ → TcpStats → TcpStats
charge tx_b rx_b retrans v = add_retransmit retrans (add_rx rx_b (add_tx tx_b v))

unfoldable pub first_charge : ℕ → ℕ → ℕ → TcpStats
first_charge tx_b rx_b retrans = init_retransmit retrans (init_rx rx_b (init_tx tx_b zero_stats))

-- What a probe reads of the current task: the processor and bpf_get_current_pid_tgid().
pub record Task : Type 0 where
  pub cpu : ℕ
  pub pid_tgid : ℕ

-- `u32 tgid = bpf_get_current_pid_tgid() >> 32`
abbrev pub tgid : Task → ℕ
tgid t = u32 (t.pid_tgid / 2 ^ 32)

-- An execution of one of the probes, with the argument that it looks at.
pub data Probe : Type 0 where
  sendmsg : ℤ → Probe
  cleanup_rbuf : ℤ → Probe
  retransmit_skb : Probe

module _ (stats : PerCpuHash TcpStats zero_stats) where
  unfoldable pub bump : ℕ → ℕ → ℕ → ℕ → ℕ → stats.Map → stats.Map
  bump cpu id tx_b rx_b retrans m = elim (stats.lookup m id cpu) [
    | some v ↦ stats.store m id cpu (charge tx_b rx_b retrans v)
    | none ↦ stats.create m id cpu (first_charge tx_b rx_b retrans)
  ]

  unfoldable pub kretprobe_tcp_sendmsg : Task → ℤ → stats.Map → stats.Map
  kretprobe_tcp_sendmsg t sent m =
      if le_zero sent then m else bump t.cpu (tgid t) (to_u64 sent) 0 0 m

  unfoldable pub kprobe_tcp_cleanup_rbuf : Task → ℤ → stats.Map → stats.Map
  kprobe_tcp_cleanup_rbuf t copied m =
      if le_zero copied then m else bump t.cpu (tgid t) 0 (to_u64 copied) 0 m

  unfoldable pub kprobe_tcp_retransmit_skb : Task → stats.Map → stats.Map
  kprobe_tcp_retransmit_skb t m = bump t.cpu (tgid t) 0 0 1 m

  unfoldable pub fire : Task × Probe → stats.Map → stats.Map
  unfolding kretprobe_tcp_sendmsg kprobe_tcp_cleanup_rbuf kprobe_tcp_retransmit_skb
  fire (t, sendmsg sent) m = kretprobe_tcp_sendmsg t sent m
  fire (t, cleanup_rbuf copied) m = kprobe_tcp_cleanup_rbuf t copied m
  fire (t, retransmit_skb) m = kprobe_tcp_retransmit_skb t m

  unfoldable pub fire_all : List (Task × Probe) → stats.Map → stats.Map
  fire_all [] m = m
  fire_all (e ∷ es) m = fire_all es (fire e m)
