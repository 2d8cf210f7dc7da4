-- ===== src/Collector/Syscalls.antt =====
-- The poller of system call histograms, pkg/collector/syscalls/collector.go. What the iteration of
-- the kernel's map yields is an argument. A Go map is a list of entries with one for each key, in
-- the order of the loop over it.
pub mod Fields
pub mod Poll
pub mod Rows
pub mod Conservation
pub mod Containers
use ebpf_docker_anormaly_det.Prelude.{
  ℕ, ◌-◌, Bool, true, false, String, Option, none, some, List, [], ◌∷◌, ◌++◌, nat_eq, eqb, leb,
  if◌then◌else◌, add64,
}
use ebpf_docker_anormaly_det.Prelude.Table.{Table, lookup, insert, keys}
use ebpf_docker_anormaly_det.Collector.PrevSeen.{evict}
use ebpf_docker_anormaly_det.Syscalls.Counts.{SyscallCounts, zero_counts}

-- The deltas of one poll: `Counts` has the fields of `syscall_counts`.
abbrev pub Counts : Type 0
Counts = SyscallCounts

pub record Row : Type 0 where
  pub container_id : String
  pub counts : Counts

-- The fields of `Collector` that a poll uses.
pub record Collector : Type 0 where
  pub idx_to_cid : Table ℕ String
  pub prev_seen : Table ℕ SyscallCounts

-- `sum.Total += v.Total` and so on.
unfoldable pub add_counts : SyscallCounts → SyscallCounts → SyscallCounts
add_counts sum v = record {
  total = add64 sum.total v.total;
  file_open = add64 sum.file_open v.file_open;
  file_close = add64 sum.file_close v.file_close;
  file_read = add64 sum.file_read v.file_read;
  file_write = add64 sum.file_write v.file_write;
  file_unlink = add64 sum.file_unlink v.file_unlink;
  file_rename = add64 sum.file_rename v.file_rename;
  file_perm = add64 sum.file_perm v.file_perm;
  net_socket = add64 sum.net_socket v.net_socket;
  net_connect = add64 sum.net_connect v.net_connect;
  net_bind = add64 sum.net_bind v.net_bind;
  net_listen = add64 sum.net_listen v.net_listen;
  net_accept = add64 sum.net_accept v.net_accept;
  net_send = add64 sum.net_send v.net_send;
  net_recv = add64 sum.net_recv v.net_recv;
  proc_exec = add64 sum.proc_exec v.proc_exec;
  proc_fork = add64 sum.proc_fork v.proc_fork;
  proc_kill = add64 sum.proc_kill v.proc_kill;
  priv_escalate = add64 sum.priv_escalate v.priv_escalate;
  escape_attempt = add64 sum.escape_attempt v.escape_attempt;
  mem_layout = add64 sum.mem_layout v.mem_layout;
  other = add64 sum.other v.other;
}

unfoldable pub sum_cpus : SyscallCounts → List SyscallCounts → SyscallCounts
sum_cpus sum [] = sum
sum_cpus sum (v ∷ per_cpu) = sum_cpus (add_counts sum v) per_cpu

abbrev pub safe : ℕ → ℕ → ℕ
safe a b = if leb b a then a - b else 0

unfoldable pub subtract : SyscallCounts → SyscallCounts → Counts
subtract total prev = record {
  total = safe total.total prev.total;
  file_open = safe total.file_open prev.file_open;
  file_close = safe total.file_close prev.file_close;
  file_read = safe total.file_read prev.file_read;
  file_write = safe total.file_write prev.file_write;
  file_unlink = safe total.file_unlink prev.file_unlink;
  file_rename = safe total.file_rename prev.file_rename;
  file_perm = safe total.file_perm prev.file_perm;
  net_socket = safe total.net_socket prev.net_socket;
  net_connect = safe total.net_connect prev.net_connect;
  net_bind = safe total.net_bind prev.net_bind;
  net_listen = safe total.net_listen prev.net_listen;
  net_accept = safe total.net_accept prev.net_accept;
  net_send = safe total.net_send prev.net_send;
  net_recv = safe total.net_recv prev.net_recv;
  proc_exec = safe total.proc_exec prev.proc_exec;
  proc_fork = safe total.proc_fork prev.proc_fork;
  proc_kill = safe total.proc_kill prev.proc_kill;
  priv_escalate = safe total.priv_escalate prev.priv_escalate;
  escape_attempt = safe total.escape_attempt prev.escape_attempt;
  mem_layout = safe total.mem_layout prev.mem_layout;
  other = safe total.other prev.other;
}

-- The first loop: the totals of this poll.
unfoldable pub collect :
    List (ℕ × List SyscallCounts) → Table ℕ SyscallCounts → Table ℕ SyscallCounts
collect [] current = current
collect ((key, per_cpu) ∷ rows) current =
    collect rows (insert key (sum_cpus zero_counts per_cpu) current)

-- The value of a missing key.
abbrev pub or_zero : Option SyscallCounts → SyscallCounts
or_zero none = zero_counts
or_zero (some c) = c

abbrev pub or_empty : Option String → String
or_empty none = ""
or_empty (some cid) = cid

-- The last loop, over the entries of `current`.
unfoldable pub emit :
    Table ℕ String
    → Table ℕ SyscallCounts
    → Table ℕ SyscallCounts
    → Table ℕ SyscallCounts × List Row
emit idx_to_cid [] prev_seen = (prev_seen, [])
emit idx_to_cid ((idx, total) ∷ current) prev_seen =
    let delta = subtract total (or_zero (lookup idx prev_seen)) in
    let (prev_seen', rows) = emit idx_to_cid current (insert idx total prev_seen) in
    let row : Row = record { container_id = or_empty (lookup idx idx_to_cid); counts = delta } in
    (prev_seen', if eqb delta.total 0 then rows else row ∷ rows)

unfoldable pub poll_once : List (ℕ × List SyscallCounts) → Collector → Collector × List Row
poll_once iterated c =
    let current = collect iterated [] in
    let (prev_seen, rows) =
      emit c.idx_to_cid current (evict current (keys c.prev_seen) c.prev_seen) in
    (record c { prev_seen = prev_seen }, rows)
