-- ===== src/Feature/Accounts.antt =====
-- What the ingest methods of pkg/feature/aggregator.go do to a container's counters.
use ebpf_docker_anormaly_det.Prelude.{
  ℕ, ◌+◌, ◌≡◌, refl, Bool, String, List, [], ◌∷◌, arith, string_eq, ◌==◌, if◌then◌else◌, inl, inr,
  Bool-cases, u64, ◌+◌,
}
use text.Mathlib.TextEquality.{eq_iff}
use ebpf_docker_anormaly_det.Prelude.Table.{lookup, lookup-insert}
use ebpf_docker_anormaly_det.Syscalls.Counts.{Category, bucket}
use ebpf_docker_anormaly_det.Collector.Syscalls
use ebpf_docker_anormaly_det.Collector.Syscalls.{add_counts}
use ebpf_docker_anormaly_det.Collector.Syscalls.Fields.{bucket-add_counts, total-add_counts}
use ebpf_docker_anormaly_det.Collector.TcpStats
use ebpf_docker_anormaly_det.Collector.PidRuntime
use ebpf_docker_anormaly_det.Feature.Types.{Floats, Stats, Vector}
use ebpf_docker_anormaly_det.Feature.{
  Accumulator, Accounts, or_new, update_acc, ingest_exit, add_exit, add_tcp, ingest_tcp, add_cpu,
  ingest_cpu, add_syscalls, ingest_syscalls, sample_cgroup, ingest_cgroup,
}

-- The counters that accumulate over a window.
pub data Counter : Type 0 where
  proc_exits proc_crashes tcp_bytes_tx tcp_bytes_rx tcp_retrans cpu_runtime_ns sys_total : Counter
  sys : Category → Counter

-- A call of one of the ingest methods.
pub data Ingest (fl : Floats) : Type 0 where
  exit : String → Bool → Ingest fl
  tcp : List TcpStats.Row → Ingest fl
  cpu : List PidRuntime.Row → Ingest fl
  syscalls : List Syscalls.Row → Ingest fl
  cgroup : String → String → String → Stats fl → Ingest fl

abbrev tcp_amount : Counter → TcpStats.Row → ℕ
tcp_amount tcp_bytes_tx row = row.stats.bytes_tx
tcp_amount tcp_bytes_rx row = row.stats.bytes_rx
tcp_amount tcp_retrans row = row.stats.retransmits
tcp_amount _ row = 0

abbrev cpu_amount : Counter → PidRuntime.Row → ℕ
cpu_amount cpu_runtime_ns row = row.runtime_ns
cpu_amount _ row = 0

abbrev syscalls_amount : Counter → Syscalls.Row → ℕ
syscalls_amount sys_total row = row.counts.total
syscalls_amount (sys b) row = bucket row.counts b
syscalls_amount _ row = 0

abbrev exit_amount : Counter → Bool → ℕ
exit_amount proc_exits crash = 1
exit_amount proc_crashes crash = if crash then 1 else 0
exit_amount _ crash = 0

-- The sum of an amount over the rows of a container.
abbrev sum_tcp : Counter → String → List TcpStats.Row → ℕ
sum_tcp k cid [] = 0
sum_tcp k cid (row ∷ rows) =
    (if row.container_id == cid then tcp_amount k row else 0) + sum_tcp k cid rows

abbrev sum_cpu : Counter → String → List PidRuntime.Row → ℕ
sum_cpu k cid [] = 0
sum_cpu k cid (row ∷ rows) =
    (if row.container_id == cid then cpu_amount k row else 0) + sum_cpu k cid rows

abbrev sum_syscalls : Counter → String → List Syscalls.Row → ℕ
sum_syscalls k cid [] = 0
sum_syscalls k cid (row ∷ rows) =
    (if row.container_id == cid then syscalls_amount k row else 0) + sum_syscalls k cid rows

module _ (fl : Floats) where
  abbrev pub get : Counter → Vector fl → ℕ
  get proc_exits v = v.proc_exits
  get proc_crashes v = v.proc_crashes
  get tcp_bytes_tx v = v.tcp_bytes_tx
  get tcp_bytes_rx v = v.tcp_bytes_rx
  get tcp_retrans v = v.tcp_retrans
  get cpu_runtime_ns v = v.cpu_runtime_ns
  get sys_total v = v.sys.total
  get (sys b) v = bucket v.sys b

  -- What a call reports of a counter of container `cid`.
  abbrev pub gain : Counter → String → Ingest fl → ℕ
  gain k cid (exit c crash) = if c == cid then exit_amount k crash else 0
  gain k cid (tcp rows) = sum_tcp k cid rows
  gain k cid (cpu rows) = sum_cpu k cid rows
  gain k cid (syscalls rows) = sum_syscalls k cid rows
  gain k cid (cgroup c name image s) = 0

  unfoldable pub ingest : Ingest fl → Accounts fl → Accounts fl
  ingest (exit c crash) acc = ingest_exit fl c crash acc
  ingest (tcp rows) acc = ingest_tcp fl rows acc
  ingest (cpu rows) acc = ingest_cpu fl rows acc
  ingest (syscalls rows) acc = ingest_syscalls fl rows acc
  ingest (cgroup c name image s) acc = ingest_cgroup fl c name image s acc

  -- The accumulator of a container, new if there is none.
  abbrev pub account : Accounts fl → String → Accumulator fl
  account acc cid = or_new fl (lookup cid acc)

  pub account-update_acc :
      (cid : String) (f : Accumulator fl → Accumulator fl) (acc : Accounts fl) (q : String)
      → account (update_acc fl cid f acc) q
        ≡ (if cid == q then f (account acc q) else account acc q)
  unfolding update_acc
  account-update_acc cid f acc q = elim (Bool-cases (cid == q)) [
    | inl same ↦ let e = (eq_iff cid q).0 same in rw (lookup-insert, same, e)
    | inr differs ↦ rw (lookup-insert, differs)
  ]

  -- The value of a counter of a container.
  abbrev pub value : Counter → Accounts fl → String → ℕ
  value k acc cid = get k (account acc cid).v

  pub value-exit :
      (k : Counter) (c : String) (crash : Bool) (acc : Accounts fl) (cid : String)
      → u64 (value k (ingest_exit fl c crash acc) cid)
        ≡ u64 (value k acc cid + (if c == cid then exit_amount k crash else 0))
  unfolding ingest_exit
  value-exit proc_exits c crash acc cid =
      ground (arith, account-update_acc c (add_exit fl crash) acc cid)
  value-exit proc_crashes c crash acc cid =
      ground (arith, account-update_acc c (add_exit fl crash) acc cid)
  value-exit _ c crash acc cid = ground (arith, account-update_acc c (add_exit fl crash) acc cid)

  value-add_tcp :
      (k : Counter) (row : TcpStats.Row) (acc : Accounts fl) (cid : String)
      → u64 (value k (update_acc fl row.container_id (add_tcp fl row) acc) cid)
        ≡ u64 (value k acc cid + (if row.container_id == cid then tcp_amount k row else 0))
  value-add_tcp tcp_bytes_tx row acc cid =
      ground (arith, account-update_acc row.container_id (add_tcp fl row) acc cid)
  value-add_tcp tcp_bytes_rx row acc cid =
      ground (arith, account-update_acc row.container_id (add_tcp fl row) acc cid)
  value-add_tcp tcp_retrans row acc cid =
      ground (arith, account-update_acc row.container_id (add_tcp fl row) acc cid)
  value-add_tcp _ row acc cid =
      ground (arith, account-update_acc row.container_id (add_tcp fl row) acc cid)

  value-tcp :
      (k : Counter) (rows : List TcpStats.Row) (acc : Accounts fl) (cid : String)
      → u64 (value k (ingest_tcp fl rows acc) cid) ≡ u64 (value k acc cid + sum_tcp k cid rows)
  unfolding ingest_tcp
  value-tcp k [] acc cid = omega arith
  value-tcp k (row ∷ rows) acc cid = ground (
    arith,
    value-tcp k rows (update_acc fl row.container_id (add_tcp fl row) acc) cid,
    value-add_tcp k row acc cid,
  )

  value-add_cpu :
      (k : Counter) (row : PidRuntime.Row) (acc : Accounts fl) (cid : String)
      → u64 (value k (update_acc fl row.container_id (add_cpu fl row) acc) cid)
        ≡ u64 (value k acc cid + (if row.container_id == cid then cpu_amount k row else 0))
  value-add_cpu cpu_runtime_ns row acc cid =
      ground (arith, account-update_acc row.container_id (add_cpu fl row) acc cid)
  value-add_cpu _ row acc cid =
      ground (arith, account-update_acc row.container_id (add_cpu fl row) acc cid)

  value-cpu :
      (k : Counter) (rows : List PidRuntime.Row) (acc : Accounts fl) (cid : String)
      → u64 (value k (ingest_cpu fl rows acc) cid) ≡ u64 (value k acc cid + sum_cpu k cid rows)
  unfolding ingest_cpu
  value-cpu k [] acc cid = omega arith
  value-cpu k (row ∷ rows) acc cid = ground (
    arith,
    value-cpu k rows (update_acc fl row.container_id (add_cpu fl row) acc) cid,
    value-add_cpu k row acc cid,
  )

  value-add_syscalls :
      (k : Counter) (row : Syscalls.Row) (acc : Accounts fl) (cid : String)
      → u64 (value k (update_acc fl row.container_id (add_syscalls fl row) acc) cid)
        ≡ u64 (value k acc cid + (if row.container_id == cid then syscalls_amount k row else 0))
  value-add_syscalls sys_total row acc cid = ground (
    arith,
    total-add_counts (account acc cid).v.sys row.counts,
    account-update_acc row.container_id (add_syscalls fl row) acc cid,
  )
  value-add_syscalls (sys b) row acc cid = ground (
    arith,
    bucket-add_counts (account acc cid).v.sys row.counts b,
    account-update_acc row.container_id (add_syscalls fl row) acc cid,
  )
  value-add_syscalls _ row acc cid =
      ground (arith, account-update_acc row.container_id (add_syscalls fl row) acc cid)

  value-syscalls :
      (k : Counter) (rows : List Syscalls.Row) (acc : Accounts fl) (cid : String)
      → u64 (value k (ingest_syscalls fl rows acc) cid)
        ≡ u64 (value k acc cid + sum_syscalls k cid rows)
  unfolding ingest_syscalls
  value-syscalls k [] acc cid = omega arith
  value-syscalls k (row ∷ rows) acc cid = ground (
    arith,
    value-syscalls k rows (update_acc fl row.container_id (add_syscalls fl row) acc) cid,
    value-add_syscalls k row acc cid,
  )

  get-sample_cgroup :
      (k : Counter) (name image : String) (s : Stats fl) (ac : Accumulator fl)
      → get k (sample_cgroup fl name image s ac).v ≡ get k ac.v
  unfolding sample_cgroup
  get-sample_cgroup proc_exits name image s ac = refl
  get-sample_cgroup proc_crashes name image s ac = refl
  get-sample_cgroup tcp_bytes_tx name image s ac = refl
  get-sample_cgroup tcp_bytes_rx name image s ac = refl
  get-sample_cgroup tcp_retrans name image s ac = refl
  get-sample_cgroup cpu_runtime_ns name image s ac = refl
  get-sample_cgroup sys_total name image s ac = refl
  get-sample_cgroup (sys b) name image s ac = refl

  value-cgroup :
      (k : Counter) (c name image : String) (s : Stats fl) (acc : Accounts fl) (cid : String)
      → value k (ingest_cgroup fl c name image s acc) cid ≡ value k acc cid
  unfolding ingest_cgroup
  value-cgroup k c name image s acc cid =
      rw (account-update_acc c (sample_cgroup fl name image s) acc cid)
        (elim (Bool-cases (c == cid)) [
          | inl same ↦ rw (same) (get-sample_cgroup k name image s (account acc cid))
          | inr differs ↦ rw (differs)
        ])

  -- Every ingest call adds to each counter of each container what it reports of it, modulo 2 ^ 64,
  -- and to no other.
  pub value-ingest :
      (k : Counter) (op : Ingest fl) (acc : Accounts fl) (cid : String)
      → u64 (value k (ingest op acc) cid) ≡ u64 (value k acc cid + gain k cid op)
  unfolding ingest
  value-ingest k (exit c crash) acc cid = value-exit k c crash acc cid
  value-ingest k (tcp rows) acc cid = value-tcp k rows acc cid
  value-ingest k (cpu rows) acc cid = value-cpu k rows acc cid
  value-ingest k (syscalls rows) acc cid = value-syscalls k rows acc cid
  value-ingest k (cgroup c name image s) acc cid =
      ground (arith, value-cgroup k c name image s acc cid)
