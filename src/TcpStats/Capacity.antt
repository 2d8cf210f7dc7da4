-- ===== src/TcpStats/Capacity.antt =====
-- While the processes fit into `tcp_stats_by_tgid`, bpf/tcp_stats.bpf.c loses no traffic.
use ebpf_docker_anormaly_det.Prelude.{
  ℕ, ◌≤◌, ◌<◌, ◌^◌, ◌≡◌, Bool, true, false, ◌&&◌, List, [], ◌∷◌, arith, if◌then◌else◌, ◌==◌, nat_eq,
  inl, inr, Option-cases, length, All,
}
use ebpf_docker_anormaly_det.Prelude.Table.{contains}
use ebpf_docker_anormaly_det.Kernel.{PerCpuHash}
use ebpf_docker_anormaly_det.Kernel.Room.{EntriesAmong, read, accepts_missing}
use ebpf_docker_anormaly_det.TcpStats.{
  TcpStats, zero_stats, charge, first_charge, Task, tgid, Probe, bump, fire, fire_all,
}
use ebpf_docker_anormaly_det.TcpStats.Traffic.{
  tx_bytes, rx_bytes, retransmissions, made_by, HasTraffic, InRange, IsWord, charged, charge-IsWord,
  first_charge-eq-charge, HasTraffic-nil, HasTraffic-step, fire-bump, charge-none,
}

module _ (stats : PerCpuHash TcpStats zero_stats) where
  module _ (ids : List ℕ) (fits : length ids ≤ stats.max_entries) where
    module _ (m : stats.Map) (among : EntriesAmong stats ids m) (cpu id : ℕ)
        (member : contains id ids ≡ true) (tx rx re : ℕ) where
      read-bump :
          (q d : ℕ)
          → tx < 2 ^ 64
          → rx < 2 ^ 64
          → read stats (bump stats cpu id tx rx re m) q d ≡ (
              if (id == q) && (cpu == d)
              then charge tx rx re (read stats m q d)
              else read stats m q d)
      unfolding bump
      read-bump q d h k = elim (Option-cases (stats.lookup m id cpu)) [
        | inr (v, found) ↦ ground (arith, stats.lookup-store m id cpu (charge tx rx re v) v q d)
        | inl absent ↦ ground (
          arith,
          accepts_missing stats ids m among id cpu fits member absent,
          stats.lookup-create m id cpu (first_charge tx rx re) q d,
          stats.lookup_everywhere m id cpu d,
          first_charge-eq-charge tx rx re h k,
        )
      ]

      bump-EntriesAmong : EntriesAmong stats ids (bump stats cpu id tx rx re m)
      unfolding bump
      bump-EntriesAmong k c s h = elim (Option-cases (stats.lookup m id cpu)) [
        | inr (v, found) ↦
            ground (arith, stats.lookup-store m id cpu (charge tx rx re v) v k c, among k c s)
        | inl absent ↦ ground (
          arith,
          accepts_missing stats ids m among id cpu fits member absent,
          stats.lookup-create m id cpu (first_charge tx rx re) k c,
          among k c s,
        )
      ]

    -- The process of an execution is among `ids`, and its argument is an `int`.
    abbrev pub IsKnown : Task × Probe → Type 0
    IsKnown e = (contains (tgid e.0) ids ≡ true) × InRange e

    read-fire :
        (e : Task × Probe) (m : stats.Map)
        → EntriesAmong stats ids m
        → IsKnown e
        → (q d : ℕ)
        → read stats (fire stats e m) q d
          ≡ (if made_by q d e then charged e.1 (read stats m q d) else read stats m q d)
    read-fire (t, p) m among known q d = ground (
      arith,
      fire-bump stats t p m,
      charge-none (read stats m q d),
      read-bump m among t.cpu (tgid t) known.0 (tx_bytes p) (rx_bytes p) (retransmissions p) q d,
    )

    fire-EntriesAmong :
        (e : Task × Probe) (m : stats.Map)
        → EntriesAmong stats ids m
        → IsKnown e
        → EntriesAmong stats ids (fire stats e m)
    fire-EntriesAmong (t, p) m among known k c s h = ground (
      arith,
      fire-bump stats t p m,
      among k c s,
      bump-EntriesAmong m among t.cpu (tgid t) known.0 (tx_bytes p) (rx_bytes p) (retransmissions p)
          k c s,
    )

    step-IsWord :
        (b : Bool) (p : Probe) (s : TcpStats) → IsWord s → IsWord (if b then charged p s else s)
    step-IsWord true p s w = charge-IsWord (tx_bytes p) (rx_bytes p) (retransmissions p) s w
    step-IsWord false p s w = w

    -- If the processes that the probes see are no more than `tcp_stats_by_tgid` has entries, then
    -- no traffic is lost: for each process and processor the byte, packet and retransmission
    -- counters grow by exactly what the executions report, modulo 2 ^ 64. Calls that failed or
    -- moved no data count nothing.
    pub fire_all-HasTraffic :
        (es : List (Task × Probe)) (m : stats.Map)
        → EntriesAmong stats ids m
        → All IsKnown es
        → (q d : ℕ) → IsWord (read stats m q d)
        → HasTraffic q d es (read stats m q d) (read stats (fire_all stats es m) q d)
    unfolding fire_all
    fire_all-HasTraffic [] m among known q d w = HasTraffic-nil q d (read stats m q d) w
    fire_all-HasTraffic (e ∷ es) m among known q d w =
        let step = read-fire e m among known.0 q d in
        let word : IsWord (read stats (fire stats e m) q d) =
          rw step (step-IsWord (made_by q d e) e.1 (read stats m q d) w) in
        let rest =
          fire_all-HasTraffic es (fire stats e m) (fire-EntriesAmong e m among known.0) known.1 q d
            word in
        HasTraffic-step q d e es (read stats m q d) _ (rw step at rest)
