-- ===== src/Syscalls/Histogram.antt =====
-- The histogram of bpf/syscall_trace.bpf.c against a count of the calls.
use ebpf_docker_anormaly_det.Prelude.{
  ℕ, suc, ◌≡◌, ◌∙◌, Bool, true, false, ◌&&◌, none, some, List, [], ◌∷◌, arith, if◌then◌else◌, ◌==◌,
  nat_eq, inl, inr, Option-cases, Bool-cases, add64,
}
use ebpf_docker_anormaly_det.Kernel.{Hash, PerCpuHash}
use ebpf_docker_anormaly_det.Syscalls.Counts.{Category, SyscallCounts, zero_counts, bucket}
use ebpf_docker_anormaly_det.Syscalls.Tally.{
  counted_in, bucket-tally, total-tally, IsWord, tally-IsWord,
}
use ebpf_docker_anormaly_det.Syscalls.{SysEnter, tally, count_in, trace_sys_enter, trace_all}

-- How many of the calls satisfy a test.
abbrev pub hits : (SysEnter → Bool) → List SysEnter → ℕ
hits p [] = 0
hits p (e ∷ es) = if p e then suc (hits p es) else hits p es

module _ (cgids : Hash ℕ) (hist : PerCpuHash SyscallCounts zero_counts) where
  -- Whether a call is made in container `q` on processor `d`.
  abbrev pub made_in : cgids.Map → ℕ → ℕ → SysEnter → Bool
  made_in cg q d e = elim (cgids.lookup cg e.cgid) [
    | none ↦ false
    | some idx ↦ (idx == q) && (e.cpu == d)
  ]

  module _ (e : SysEnter) (idx : ℕ) (m : hist.Map) where
    pub count_in_found :
        (c : SyscallCounts) (q d : ℕ)
        → hist.lookup m idx e.cpu ≡ some c
        → hist.lookup (count_in cgids hist e idx m) q d
          ≡ (if (idx == q) && (e.cpu == d) then some (tally e.call c) else hist.lookup m q d)
    unfolding count_in
    count_in_found c q d found =
        rw (found, count_in) (hist.lookup-store m idx e.cpu (tally e.call c) c q d found)

    pub count_in_new :
        (q d : ℕ)
        → hist.lookup m idx e.cpu ≡ none
        → hist.accepts m idx ≡ true
        → hist.lookup (count_in cgids hist e idx m) q d ≡ (
            if idx == q
            then some (if e.cpu == d then tally e.call zero_counts else zero_counts)
            else hist.lookup m q d)
    unfolding count_in
    count_in_new q d absent room =
        let m' = hist.create m idx e.cpu zero_counts in
        let made : hist.lookup m' idx e.cpu ≡ some zero_counts =
          ground (arith, hist.lookup-create m idx e.cpu zero_counts idx e.cpu) in
        rw (absent, count_in, made)
          (ground (
            arith,
            hist.lookup-create m idx e.cpu zero_counts q d,
            hist.lookup-store m' idx e.cpu (tally e.call zero_counts) zero_counts q d,
          ))

    pub count_in_full :
        (q d : ℕ)
        → hist.lookup m idx e.cpu ≡ none
        → hist.accepts m idx ≡ false
        → hist.lookup (count_in cgids hist e idx m) q d ≡ hist.lookup m q d
    unfolding count_in
    count_in_full q d absent full =
        let m' = hist.create m idx e.cpu zero_counts in
        let missing : hist.lookup m' idx e.cpu ≡ none =
          hist.lookup-create_full m idx e.cpu zero_counts idx e.cpu full ∙ absent in
        rw (absent, count_in, missing) (hist.lookup-create_full m idx e.cpu zero_counts q d full)

    -- What one call does to counters that are there.
    pub count_in_known :
        (q d : ℕ) {s : SyscallCounts}
        → hist.lookup m q d ≡ some s
        → hist.lookup (count_in cgids hist e idx m) q d
          ≡ some (if (idx == q) && (e.cpu == d) then tally e.call s else s)
    count_in_known q d {s} known = elim (Option-cases (hist.lookup m idx e.cpu)) [
      | inr (c, found) ↦ ground (arith, count_in_found c q d)
      | inl absent ↦ elim (Bool-cases (hist.accepts m idx)) [
        | inr full ↦ ground (arith, count_in_full q d, hist.lookup_everywhere m idx e.cpu d)
        | inl room ↦ ground (arith, count_in_new q d, hist.lookup_everywhere m idx e.cpu d)
      ]
    ]

  -- What one event does to counters that are there.
  pub trace_known :
      (cg : cgids.Map) (e : SysEnter) (m : hist.Map) (q d : ℕ) {s : SyscallCounts}
      → hist.lookup m q d ≡ some s
      → hist.lookup (trace_sys_enter cgids hist cg e m) q d
        ≡ some (if made_in cg q d e then tally e.call s else s)
  unfolding trace_sys_enter
  trace_known cg e m q d {s} known = elim (Option-cases (cgids.lookup cg e.cgid)) [
    | inl host ↦ ground arith
    | inr (idx, e') ↦ ground (arith, count_in_known e idx m q d {s = s})
  ]

  -- `t` is `s` after the calls of container `q` on processor `d`: every counter has grown by the
  -- number of the calls that it counts.
  pub record IsHistogram (cg : cgids.Map) (q d : ℕ) (es : List SysEnter) (s t : SyscallCounts)
      : Type 0 where
    pub total : t.total ≡ add64 s.total (hits (made_in cg q d) es)
    pub buckets :
        (c : Category)
        → bucket t c ≡ add64 (bucket s c) (hits (λ e. made_in cg q d e && counted_in c e.call) es)

  pub IsHistogram-step :
      (cg : cgids.Map) (q d : ℕ) (e : SysEnter) (es : List SysEnter) (s : SyscallCounts)
      {t : SyscallCounts}
      → IsHistogram cg q d es (if made_in cg q d e then tally e.call s else s) t
      → IsHistogram cg q d (e ∷ es) s t
  IsHistogram-step cg q d e es s h = elim (Bool-cases (made_in cg q d e)) [
    | inl made ↦ record {
      total = ground (arith, h.total, total-tally e.call s);
      buckets = λ c. ground (arith, h.buckets c, bucket-tally e.call c s);
    }
    | inr not ↦ record {
      total = ground (arith, h.total);
      buckets = λ c. ground (arith, h.buckets c);
    }
  ]

  pub step-IsWord :
      (b : Bool) (call : ℕ) {s : SyscallCounts} → IsWord s → IsWord (if b then tally call s else s)
  step-IsWord true call w = tally-IsWord call w
  step-IsWord false call w = w

  -- Once a container has counters on a processor, every later event is counted there exactly: the
  -- total and each group grow by the number of the container's calls on that processor, modulo
  -- 2 ^ 64, whatever happens on other processors and in other containers.
  pub trace_all-IsHistogram :
      (cg : cgids.Map) (es : List SysEnter) (m : hist.Map) (q d : ℕ) (s : SyscallCounts)
      → hist.lookup m q d ≡ some s
      → IsWord s
      → (t : SyscallCounts) × (hist.lookup (trace_all cgids hist cg es m) q d ≡ some t)
        × IsHistogram cg q d es s t
  unfolding trace_all
  trace_all-IsHistogram cg [] m q d s known w = (
    s,
    known,
    record { total = ground (arith, w.total); buckets = λ c. ground (arith, w.buckets c) },
  )
  trace_all-IsHistogram cg (e ∷ es) m q d s known w =
      let (t, run, h) =
        trace_all-IsHistogram cg es (trace_sys_enter cgids hist cg e m) q d
          (if made_in cg q d e then tally e.call s else s) (trace_known cg e m q d known)
          (step-IsWord (made_in cg q d e) e.call w) in
      (t, run, IsHistogram-step cg q d e es s h)
