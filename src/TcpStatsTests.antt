-- ===== src/TcpStatsTests.antt =====
-- Runs of bpf/tcp_stats.bpf.c and of its poller on a small map, and the theorems about them at
-- concrete inputs.
use ebpf_docker_anormaly_det.Prelude.{
  nat_eq, ℕ, ◌+◌, ◌*◌, ◌^◌, ◌≡◌, refl, none, some, String, List, [], ◌∷◌, arith, eqb, All,
  if◌then◌else◌,
}
use ebpf_docker_anormaly_det.Prelude.Int.{pos, negsuc}
use ebpf_docker_anormaly_det.Prelude.Table.{lookup, insert, contains}
use ebpf_docker_anormaly_det.Kernel.{PerCpuHash}
use ebpf_docker_anormaly_det.Kernel.Room.{EntriesAmong, read}
use ebpf_docker_anormaly_det.KernelModel.{percpu_hash, no_slots, value, store, create, put_slots}
use ebpf_docker_anormaly_det.TcpStats.{
  TcpStats, zero_stats, charge, first_charge, Task, Probe, sendmsg, cleanup_rbuf, retransmit_skb,
  bump, kretprobe_tcp_sendmsg, kprobe_tcp_cleanup_rbuf, kprobe_tcp_retransmit_skb, fire, fire_all,
}
use ebpf_docker_anormaly_det.TcpStats.Traffic.{HasTraffic, IsWord}
use ebpf_docker_anormaly_det.TcpStats.Capacity.{IsKnown, fire_all-HasTraffic}
use ebpf_docker_anormaly_det.Collector.TcpStats.{poll_once, sum_cpus}
use ebpf_docker_anormaly_det.Collector.TcpStats.Drain.{
  rows_of, per_cpu, snapshot, rows_of-poll_once,
}
use ebpf_docker_anormaly_det.Collector.TcpStats.Totals.{bytes_tx, reported, reported-fire_all}

abbrev stats : PerCpuHash TcpStats zero_stats
stats = percpu_hash TcpStats zero_stats 10240

-- Thread 41 of process 40 on processor 0, and process 7 on processor 1.
abbrev worker : Task
worker = record { cpu = 0; pid_tgid = 40 * 2 ^ 32 + 41 }

abbrev other : Task
other = record { cpu = 1; pid_tgid = 7 * 2 ^ 32 + 7 }

-- Two sends, one that failed, a receipt by each process, a retransmission.
abbrev probes : List (Task × Probe)
probes =
    (worker, sendmsg (pos 100))
    ∷ (worker, sendmsg (negsuc 10))
    ∷ (other, cleanup_rbuf (pos 5))
    ∷ (worker, sendmsg (pos 20))
    ∷ (worker, cleanup_rbuf (pos 9))
    ∷ (worker, retransmit_skb)
    ∷ []

abbrev after : stats.Map
after = fire_all stats probes no_slots

counts_worker :
    stats.lookup after 40 0
    ≡ some (record { bytes_tx = 120; bytes_rx = 9; pkts_tx = 2; pkts_rx = 1; retransmits = 1 })
unfolding fire_all fire kretprobe_tcp_sendmsg kprobe_tcp_cleanup_rbuf kprobe_tcp_retransmit_skb bump
    charge first_charge value store create put_slots lookup insert
counts_worker = refl

abbrev processes : List ℕ
processes = 40 ∷ 7 ∷ []

EntriesAmong-no_slots : EntriesAmong stats processes no_slots
unfolding value lookup
EntriesAmong-no_slots k c s h = ground arith

known : All (IsKnown stats processes (omega arith)) probes
unfolding contains
known = ground arith

no_traffic-IsWord : IsWord (read stats no_slots 40 0)
unfolding value lookup
no_traffic-IsWord = ground arith

fire_all-HasTraffic_example :
    HasTraffic 40 0 probes (read stats no_slots 40 0) (read stats after 40 0)
fire_all-HasTraffic_example =
    fire_all-HasTraffic stats processes (omega arith) probes no_slots EntriesAmong-no_slots known 40
      0 no_traffic-IsWord

-- Process 40 runs in a container.
abbrev resolve : ℕ → String
resolve pid = if eqb pid 40 then "c1" else ""

abbrev cpus : List ℕ
cpus = 0 ∷ 1 ∷ []

rows_of-poll_once_example :
    rows_of 40 (poll_once stats resolve (snapshot stats cpus after) after).0 ≡ (
      if contains 40 (stats.keys after)
      then record {
        tgid = 40;
        container_id = "c1";
        stats = sum_cpus zero_stats (per_cpu stats cpus after 40);
      }
        ∷ []
      else [])
rows_of-poll_once_example = rows_of-poll_once stats resolve cpus after 40

empty : (q c : ℕ) → stats.lookup no_slots q c ≡ none
unfolding value lookup
empty q c = refl

-- 100 and 20 bytes were sent.
reported-fire_all_example :
    reported bytes_tx (rows_of 40 (poll_once stats resolve (snapshot stats cpus after) after).0)
    ≡ 120
reported-fire_all_example =
    reported-fire_all stats processes (omega arith) no_slots empty probes known bytes_tx resolve
      cpus 40
