-- ===== src/Syscalls.antt =====
-- The system call histogram, bpf/syscall_trace.bpf.c: the program at raw_tracepoint/sys_enter.
-- It looks the container up by the cgroup of the current task, and counts the call in the
-- container's histogram of the current processor.
pub mod Numbers
pub mod Counts
pub mod Classify
pub mod Tally
pub mod Histogram
pub mod Capacity
pub mod Attribution
use ebpf_docker_anormaly_det.Prelude.{ℕ, Option, none, some, List, [], ◌∷◌, u32, add64}
use ebpf_docker_anormaly_det.Kernel.{Hash, PerCpuHash}
use ebpf_docker_anormaly_det.Syscalls.Counts.{SyscallCounts, zero_counts, classify, bump}

-- What the program reads of its environment: the processor, the result of
-- bpf_get_current_cgroup_id(), and `ctx->args[1]`, the number of the call.
pub record SysEnter : Type 0 where
  pub cpu : ℕ
  pub cgid : ℕ
  pub call : ℕ

-- `c->total++` and the `switch`.
unfoldable pub tally : ℕ → SyscallCounts → SyscallCounts
tally call c = bump (classify (u32 call)) (record c { total = add64 c.total 1 })

module _ (cgids : Hash ℕ) (hist : PerCpuHash SyscallCounts zero_counts) where
  -- From the second lookup on: `c` points to the counters of container `idx`, or is null.
  unfoldable pub count_call : SysEnter → ℕ → Option SyscallCounts → hist.Map → hist.Map
  count_call e idx none m = m
  count_call e idx (some c) m = hist.store m idx e.cpu (tally e.call c)

  -- The counters of container `idx`, created if they are missing.
  unfoldable pub count_in : SysEnter → ℕ → hist.Map → hist.Map
  unfolding count_call
  count_in e idx m = elim (hist.lookup m idx e.cpu) [
    | some c ↦ count_call e idx (some c) m
    | none ↦
        let m' = hist.create m idx e.cpu zero_counts in
        count_call e idx (hist.lookup m' idx e.cpu) m'
  ]

  unfoldable pub trace_sys_enter : cgids.Map → SysEnter → hist.Map → hist.Map
  trace_sys_enter cg e m = elim (cgids.lookup cg e.cgid) [ none ↦ m | some idx ↦ count_in e idx m ]

  -- The calls of a time in which user space leaves `cgid_map` alone, in order.
  unfoldable pub trace_all : cgids.Map → List SysEnter → hist.Map → hist.Map
  trace_all cg [] m = m
  trace_all cg (e ∷ es) m = trace_all cg es (trace_sys_enter cg e m)
