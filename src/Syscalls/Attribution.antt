-- ===== src/Syscalls/Attribution.antt =====
-- What bpf/syscall_trace.bpf.c leaves alone, and what every histogram satisfies.
use ebpf_docker_anormaly_det.Prelude.{
  ℕ, ◌≡◌, refl, Bool, true, false, none, some, List, [], ◌∷◌, arith, if◌then◌else◌, nat_eq, inl,
  inr, Option-cases, Bool-cases,
}
use ebpf_docker_anormaly_det.Kernel.{Hash, PerCpuHash}
use ebpf_docker_anormaly_det.Syscalls.Counts.{SyscallCounts, zero_counts}
use ebpf_docker_anormaly_det.Syscalls.Tally.{IsBalanced, tally-IsBalanced}
use ebpf_docker_anormaly_det.Syscalls.{SysEnter, count_in, trace_sys_enter, trace_all}
use ebpf_docker_anormaly_det.Syscalls.Histogram.{count_in_found, count_in_new, count_in_full}

module _ (cgids : Hash ℕ) (hist : PerCpuHash SyscallCounts zero_counts) where
  -- Every histogram in the map has a total that is the sum of its groups, modulo 2 ^ 64.
  abbrev pub AllBalanced : hist.Map → Type 0
  AllBalanced m = (q d : ℕ) (s : SyscallCounts) → hist.lookup m q d ≡ some s → IsBalanced s

  IsBalanced-zero : IsBalanced zero_counts
  IsBalanced-zero = omega arith

  count_in-AllBalanced :
      (e : SysEnter) (idx : ℕ) (m : hist.Map)
      → AllBalanced m
      → AllBalanced (count_in cgids hist e idx m)
  count_in-AllBalanced e idx m b q d s h = elim (Option-cases (hist.lookup m idx e.cpu)) [
    | inr (c, found) ↦ ground (
      arith,
      count_in_found cgids hist e idx m c q d,
      b q d s,
      tally-IsBalanced e.call c (b idx e.cpu c found),
    )
    | inl absent ↦ elim (Bool-cases (hist.accepts m idx)) [
      | inl room ↦ ground (
        arith,
        count_in_new cgids hist e idx m q d,
        b q d s,
        IsBalanced-zero,
        tally-IsBalanced e.call zero_counts IsBalanced-zero,
      )
      | inr full ↦ ground (arith, count_in_full cgids hist e idx m q d, b q d s)
    ]
  ]

  trace-AllBalanced :
      (cg : cgids.Map) (e : SysEnter) (m : hist.Map)
      → AllBalanced m
      → AllBalanced (trace_sys_enter cgids hist cg e m)
  unfolding trace_sys_enter
  trace-AllBalanced cg e m b q d s h = elim (Option-cases (cgids.lookup cg e.cgid)) [
    | inl host ↦ ground (arith, b q d s)
    | inr (idx, e') ↦ ground (arith, count_in-AllBalanced e idx m b q d s)
  ]

  -- From a map in which every histogram has a total that is the sum of its 21 groups, modulo
  -- 2 ^ 64, every histogram keeps such a total, whatever the calls and however full the map gets.
  pub trace_all-IsBalanced :
      (cg : cgids.Map) (es : List SysEnter) (m : hist.Map)
      → AllBalanced m
      → (q d : ℕ) (s : SyscallCounts) → hist.lookup (trace_all cgids hist cg es m) q d ≡ some s
      → IsBalanced s
  unfolding trace_all
  trace_all-IsBalanced cg [] m b = b
  trace_all-IsBalanced cg (e ∷ es) m b =
      trace_all-IsBalanced cg es (trace_sys_enter cgids hist cg e m) (trace-AllBalanced cg e m b)

  -- Whether a call is made by a task of the host: its cgroup is no container's.
  abbrev pub is_host : cgids.Map → SysEnter → Bool
  is_host cg e = elim (cgids.lookup cg e.cgid) [ none ↦ true | some idx ↦ false ]

  abbrev pub containers_only : cgids.Map → List SysEnter → List SysEnter
  containers_only cg [] = []
  containers_only cg (e ∷ es) =
      let rest = containers_only cg es in if is_host cg e then rest else e ∷ rest

  trace-host :
      (cg : cgids.Map) (e : SysEnter) (m : hist.Map)
      → is_host cg e ≡ true
      → trace_sys_enter cgids hist cg e m ≡ m
  unfolding trace_sys_enter
  trace-host cg e m h = ground arith

  -- The calls of host tasks leave no trace: the map is the same as if they had not been made.
  pub trace_all-containers_only :
      (cg : cgids.Map) (es : List SysEnter) (m : hist.Map)
      → trace_all cgids hist cg es m ≡ trace_all cgids hist cg (containers_only cg es) m
  unfolding trace_all
  trace_all-containers_only cg [] m = refl
  trace_all-containers_only cg (e ∷ es) m = elim (Bool-cases (is_host cg e)) [
    | inl host ↦ rw (host, trace-host cg e m host) (trace_all-containers_only cg es m)
    | inr inside ↦ rw inside (trace_all-containers_only cg es (trace_sys_enter cgids hist cg e m))
  ]
