-- ===== src/Feature/Members.antt =====
-- The accumulators of pkg/feature/aggregator.go stay one for each container.
use ebpf_docker_anormaly_det.Prelude.{◌≡◌, true, List, [], ◌∷◌, string_eq}
use ebpf_docker_anormaly_det.Prelude.Table.{keys, distinct, distinct-insert}
use ebpf_docker_anormaly_det.Collector.Syscalls
use ebpf_docker_anormaly_det.Collector.TcpStats
use ebpf_docker_anormaly_det.Collector.PidRuntime
use ebpf_docker_anormaly_det.Feature.Types.{Floats}
use ebpf_docker_anormaly_det.Feature.{
  Accounts, update_acc, ingest_exit, ingest_tcp, ingest_cpu, ingest_syscalls, ingest_cgroup,
}
use ebpf_docker_anormaly_det.Feature.Accounts.{Ingest, exit, tcp, cpu, syscalls, cgroup, ingest}

module _ (fl : Floats) where
  -- The ingest methods keep one accumulator for each container, and drop none.
  distinct-tcp :
      (rows : List TcpStats.Row) (acc : Accounts fl)
      → distinct (keys acc) ≡ true
      → distinct (keys (ingest_tcp fl rows acc)) ≡ true
  unfolding ingest_tcp update_acc
  distinct-tcp [] acc h = h
  distinct-tcp (row ∷ rows) acc h = distinct-tcp rows _ (distinct-insert row.container_id _ acc h)

  distinct-cpu :
      (rows : List PidRuntime.Row) (acc : Accounts fl)
      → distinct (keys acc) ≡ true
      → distinct (keys (ingest_cpu fl rows acc)) ≡ true
  unfolding ingest_cpu update_acc
  distinct-cpu [] acc h = h
  distinct-cpu (row ∷ rows) acc h = distinct-cpu rows _ (distinct-insert row.container_id _ acc h)

  distinct-syscalls :
      (rows : List Syscalls.Row) (acc : Accounts fl)
      → distinct (keys acc) ≡ true
      → distinct (keys (ingest_syscalls fl rows acc)) ≡ true
  unfolding ingest_syscalls update_acc
  distinct-syscalls [] acc h = h
  distinct-syscalls (row ∷ rows) acc h =
      distinct-syscalls rows _ (distinct-insert row.container_id _ acc h)

  pub distinct-ingest :
      (op : Ingest fl) (acc : Accounts fl)
      → distinct (keys acc) ≡ true
      → distinct (keys (ingest fl op acc)) ≡ true
  unfolding ingest ingest_exit ingest_cgroup update_acc
  distinct-ingest (exit c crash) acc h = distinct-insert c _ acc h
  distinct-ingest (tcp rows) acc h = distinct-tcp rows acc h
  distinct-ingest (cpu rows) acc h = distinct-cpu rows acc h
  distinct-ingest (syscalls rows) acc h = distinct-syscalls rows acc h
  distinct-ingest (cgroup c name image s) acc h = distinct-insert c _ acc h
