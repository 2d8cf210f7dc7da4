-- ===== src/TcpStats/Stored/Charge.antt =====
-- `bump` of bpf/tcp_stats.bpf.c on the memory of an entry.
use ebpf_docker_anormaly_det.Prelude.{
  ℕ, ◌≡◌, ◌≢◌, ◌∙◌, arith, some, refl, String, false, add64, eqb, Bool-cases, inl, inr,
}
use ebpf_docker_anormaly_det.CTypes.{Members, find, members_of, slot, size_of, holder_of}
use ebpf_docker_anormaly_det.Vmlinux.Words.{__u64}
use ebpf_docker_anormaly_det.Memory.{Memory}
use ebpf_docker_anormaly_det.Memory.Fields.{
  Declares, read_member, read_member-write_member, read_member-write_other,
}
use ebpf_docker_anormaly_det.BpfObjects.Structs.{tcp_stats}
use ebpf_docker_anormaly_det.TcpStats.{TcpStats, add_tx, add_rx, add_retransmit, charge}
use ebpf_docker_anormaly_det.TcpStats.Stored.{
  Holds, add_member, add_tx_at, add_rx_at, add_retransmit_at, charge_at,
}

abbrev stats_members : Members
stats_members = members_of tcp_stats

bytes_tx_declared : Declares stats_members "bytes_tx" 8
unfolding find size_of
bytes_tx_declared = record {
  slot = slot 0 64 __u64 false;
  found = refl;
  addressable = refl;
  size = refl;
}

bytes_rx_declared : Declares stats_members "bytes_rx" 8
unfolding find size_of
bytes_rx_declared = record {
  slot = slot 64 64 __u64 false;
  found = refl;
  addressable = refl;
  size = refl;
}

pkts_tx_declared : Declares stats_members "pkts_tx" 8
unfolding find size_of
pkts_tx_declared = record {
  slot = slot 128 64 __u64 false;
  found = refl;
  addressable = refl;
  size = refl;
}

pkts_rx_declared : Declares stats_members "pkts_rx" 8
unfolding find size_of
pkts_rx_declared = record {
  slot = slot 192 64 __u64 false;
  found = refl;
  addressable = refl;
  size = refl;
}

retransmits_declared : Declares stats_members "retransmits" 8
unfolding find size_of
retransmits_declared = record {
  slot = slot 256 64 __u64 false;
  found = refl;
  addressable = refl;
  size = refl;
}

module _ (x : String) (d : Declares stats_members x 8) (k v old : ℕ) (m : Memory)
    (e : read_member tcp_stats x v m ≡ some old) where
  read_member-add_member : read_member tcp_stats x v (add_member x k v m) ≡ some (add64 old k)
  unfolding add_member
  read_member-add_member =
      rw (add_member, e)
        (read_member-write_member stats_members x 8 d v (add64 old k) m (omega arith))

  read_member-add_other :
      (y : String) (n : ℕ)
      → Declares stats_members y 8
      → holder_of x stats_members 0 ≢ holder_of y stats_members 0
      → read_member tcp_stats y v m ≡ some n
      → read_member tcp_stats y v (add_member x k v m) ≡ some n
  unfolding add_member
  read_member-add_other y n c ne h =
      rw (add_member, e)
        (read_member-write_other stats_members x y 8 8 d c v (add64 old k) m ne ∙ h)

add_bytes_tx-Holds :
    (k v : ℕ) (s : TcpStats) (m : Memory)
    → Holds v s m
    → Holds v (record s { bytes_tx = add64 s.bytes_tx k }) (add_member "bytes_tx" k v m)
unfolding holder_of
add_bytes_tx-Holds k v s m h =
    let other = read_member-add_other "bytes_tx" bytes_tx_declared k v s.bytes_tx m h.bytes_tx in
    record {
      bytes_tx = read_member-add_member "bytes_tx" bytes_tx_declared k v s.bytes_tx m h.bytes_tx;
      bytes_rx = other "bytes_rx" s.bytes_rx bytes_rx_declared (λ e. omega (arith, e)) h.bytes_rx;
      pkts_tx = other "pkts_tx" s.pkts_tx pkts_tx_declared (λ e. omega (arith, e)) h.pkts_tx;
      pkts_rx = other "pkts_rx" s.pkts_rx pkts_rx_declared (λ e. omega (arith, e)) h.pkts_rx;
      retransmits =
          other "retransmits" s.retransmits retransmits_declared (λ e. omega (arith, e))
            h.retransmits;
    }

add_bytes_rx-Holds :
    (k v : ℕ) (s : TcpStats) (m : Memory)
    → Holds v s m
    → Holds v (record s { bytes_rx = add64 s.bytes_rx k }) (add_member "bytes_rx" k v m)
unfolding holder_of
add_bytes_rx-Holds k v s m h =
    let other = read_member-add_other "bytes_rx" bytes_rx_declared k v s.bytes_rx m h.bytes_rx in
    record {
      bytes_tx = other "bytes_tx" s.bytes_tx bytes_tx_declared (λ e. omega (arith, e)) h.bytes_tx;
      bytes_rx = read_member-add_member "bytes_rx" bytes_rx_declared k v s.bytes_rx m h.bytes_rx;
      pkts_tx = other "pkts_tx" s.pkts_tx pkts_tx_declared (λ e. omega (arith, e)) h.pkts_tx;
      pkts_rx = other "pkts_rx" s.pkts_rx pkts_rx_declared (λ e. omega (arith, e)) h.pkts_rx;
      retransmits =
          other "retransmits" s.retransmits retransmits_declared (λ e. omega (arith, e))
            h.retransmits;
    }

add_pkts_tx-Holds :
    (k v : ℕ) (s : TcpStats) (m : Memory)
    → Holds v s m
    → Holds v (record s { pkts_tx = add64 s.pkts_tx k }) (add_member "pkts_tx" k v m)
unfolding holder_of
add_pkts_tx-Holds k v s m h =
    let other = read_member-add_other "pkts_tx" pkts_tx_declared k v s.pkts_tx m h.pkts_tx in
    record {
      bytes_tx = other "bytes_tx" s.bytes_tx bytes_tx_declared (λ e. omega (arith, e)) h.bytes_tx;
      bytes_rx = other "bytes_rx" s.bytes_rx bytes_rx_declared (λ e. omega (arith, e)) h.bytes_rx;
      pkts_tx = read_member-add_member "pkts_tx" pkts_tx_declared k v s.pkts_tx m h.pkts_tx;
      pkts_rx = other "pkts_rx" s.pkts_rx pkts_rx_declared (λ e. omega (arith, e)) h.pkts_rx;
      retransmits =
          other "retransmits" s.retransmits retransmits_declared (λ e. omega (arith, e))
            h.retransmits;
    }

add_pkts_rx-Holds :
    (k v : ℕ) (s : TcpStats) (m : Memory)
    → Holds v s m
    → Holds v (record s { pkts_rx = add64 s.pkts_rx k }) (add_member "pkts_rx" k v m)
unfolding holder_of
add_pkts_rx-Holds k v s m h =
    let other = read_member-add_other "pkts_rx" pkts_rx_declared k v s.pkts_rx m h.pkts_rx in
    record {
      bytes_tx = other "bytes_tx" s.bytes_tx bytes_tx_declared (λ e. omega (arith, e)) h.bytes_tx;
      bytes_rx = other "bytes_rx" s.bytes_rx bytes_rx_declared (λ e. omega (arith, e)) h.bytes_rx;
      pkts_tx = other "pkts_tx" s.pkts_tx pkts_tx_declared (λ e. omega (arith, e)) h.pkts_tx;
      pkts_rx = read_member-add_member "pkts_rx" pkts_rx_declared k v s.pkts_rx m h.pkts_rx;
      retransmits =
          other "retransmits" s.retransmits retransmits_declared (λ e. omega (arith, e))
            h.retransmits;
    }

add_retransmits-Holds :
    (k v : ℕ) (s : TcpStats) (m : Memory)
    → Holds v s m
    → Holds v (record s { retransmits = add64 s.retransmits k }) (add_member "retransmits" k v m)
unfolding holder_of
add_retransmits-Holds k v s m h =
    let other =
      read_member-add_other "retransmits" retransmits_declared k v s.retransmits m h.retransmits in
    record {
      bytes_tx = other "bytes_tx" s.bytes_tx bytes_tx_declared (λ e. omega (arith, e)) h.bytes_tx;
      bytes_rx = other "bytes_rx" s.bytes_rx bytes_rx_declared (λ e. omega (arith, e)) h.bytes_rx;
      pkts_tx = other "pkts_tx" s.pkts_tx pkts_tx_declared (λ e. omega (arith, e)) h.pkts_tx;
      pkts_rx = other "pkts_rx" s.pkts_rx pkts_rx_declared (λ e. omega (arith, e)) h.pkts_rx;
      retransmits =
          read_member-add_member "retransmits" retransmits_declared k v s.retransmits m
            h.retransmits;
    }

-- The three tests, one after the other.
add_tx_at-Holds :
    (k v : ℕ) (s : TcpStats) (m : Memory) → Holds v s m → Holds v (add_tx k s) (add_tx_at k v m)
add_tx_at-Holds k v s m h = elim (Bool-cases (eqb k 0)) [
  | inl e ↦ rw e h
  | inr e ↦ rw e (
      add_pkts_tx-Holds 1 v (record s { bytes_tx = add64 s.bytes_tx k })
        (add_member "bytes_tx" k v m) (add_bytes_tx-Holds k v s m h))
]

add_rx_at-Holds :
    (k v : ℕ) (s : TcpStats) (m : Memory) → Holds v s m → Holds v (add_rx k s) (add_rx_at k v m)
add_rx_at-Holds k v s m h = elim (Bool-cases (eqb k 0)) [
  | inl e ↦ rw e h
  | inr e ↦ rw e (
      add_pkts_rx-Holds 1 v (record s { bytes_rx = add64 s.bytes_rx k })
        (add_member "bytes_rx" k v m) (add_bytes_rx-Holds k v s m h))
]

add_retransmit_at-Holds :
    (k v : ℕ) (s : TcpStats) (m : Memory)
    → Holds v s m
    → Holds v (add_retransmit k s) (add_retransmit_at k v m)
add_retransmit_at-Holds k v s m h = elim (Bool-cases (eqb k 0)) [
  | inl e ↦ rw e h
  | inr e ↦ rw e (add_retransmits-Holds 1 v s m h)
]

-- If the bytes at an address, any one, hold the counters of the record, then after `bump` has written
-- through the pointer they hold the charged record: the model's record is a faithful view of the
-- memory that the compiler lays out for `struct tcp_stats`.
pub charge_at-Holds :
    (tx_b rx_b retrans v : ℕ) (s : TcpStats) (m : Memory)
    → Holds v s m
    → Holds v (charge tx_b rx_b retrans s) (charge_at tx_b rx_b retrans v m)
unfolding charge charge_at
charge_at-Holds tx_b rx_b retrans v s m h =
    let tx = add_tx_at-Holds tx_b v s m h in
    let rx = add_rx_at-Holds rx_b v (add_tx tx_b s) (add_tx_at tx_b v m) tx in
    add_retransmit_at-Holds retrans v (add_rx rx_b (add_tx tx_b s))
      (add_rx_at rx_b v (add_tx_at tx_b v m)) rx
