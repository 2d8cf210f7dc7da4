-- ===== src/Syscalls/Capacity.antt =====
-- With no more containers than `syscalls_by_cgid` has entries, bpf/syscall_trace.bpf.c loses no
-- call.
use ebpf_docker_anormaly_det.Prelude.{
  ℕ, ◌≤◌, ◌≡◌, true, ◌&&◌, some, List, [], ◌∷◌, arith, if◌then◌else◌, ◌==◌, nat_eq, inl, inr,
  Option-cases, length,
}
use ebpf_docker_anormaly_det.Prelude.Table.{contains}
use ebpf_docker_anormaly_det.Kernel.{Hash, PerCpuHash}
use ebpf_docker_anormaly_det.Kernel.Room.{EntriesAmong, read, accepts_missing}
use ebpf_docker_anormaly_det.Syscalls.Counts.{SyscallCounts, zero_counts}
use ebpf_docker_anormaly_det.Syscalls.Tally.{IsWord}
use ebpf_docker_anormaly_det.Syscalls.{SysEnter, tally, count_in, trace_sys_enter, trace_all}
use ebpf_docker_anormaly_det.Syscalls.Histogram.{
  made_in, count_in_found, count_in_new, IsHistogram, IsHistogram-step, step-IsWord,
}

module _ (cgids : Hash ℕ) (hist : PerCpuHash SyscallCounts zero_counts) where
  -- The container indices in `cgid_map` are among `ids`.
  abbrev pub IndicesAmong : List ℕ → cgids.Map → Type 0
  IndicesAmong ids cg = (g idx : ℕ) → cgids.lookup cg g ≡ some idx → contains idx ids ≡ true

  module _ (ids : List ℕ) (fits : length ids ≤ hist.max_entries) (m : hist.Map)
      (among : EntriesAmong hist ids m) where
    module _ (e : SysEnter) (idx : ℕ) (member : contains idx ids ≡ true) where
      pub read-count_in :
          (q d : ℕ)
          → read hist (count_in cgids hist e idx m) q d ≡ (
              if (idx == q) && (e.cpu == d)
              then tally e.call (read hist m q d)
              else read hist m q d)
      read-count_in q d = elim (Option-cases (hist.lookup m idx e.cpu)) [
        | inr (c, found) ↦ ground (arith, count_in_found cgids hist e idx m c q d)
        | inl absent ↦ ground (
          arith,
          accepts_missing hist ids m among idx e.cpu fits member absent,
          count_in_new cgids hist e idx m q d,
          hist.lookup_everywhere m idx e.cpu d,
        )
      ]

      pub count_in-EntriesAmong : EntriesAmong hist ids (count_in cgids hist e idx m)
      count_in-EntriesAmong k c s h = elim (Option-cases (hist.lookup m idx e.cpu)) [
        | inr (c', found) ↦ ground (arith, count_in_found cgids hist e idx m c' k c, among k c s)
        | inl absent ↦ ground (
          arith,
          accepts_missing hist ids m among idx e.cpu fits member absent,
          count_in_new cgids hist e idx m k c,
          among k c s,
        )
      ]

  module _ (ids : List ℕ) (fits : length ids ≤ hist.max_entries) (cg : cgids.Map)
      (known : IndicesAmong ids cg) where
    read_trace :
        (e : SysEnter) (m : hist.Map)
        → EntriesAmong hist ids m
        → (q d : ℕ)
        → read hist (trace_sys_enter cgids hist cg e m) q d ≡ (
            if made_in cgids hist cg q d e then tally e.call (read hist m q d) else read hist m q d)
    unfolding trace_sys_enter
    read_trace e m among q d = elim (Option-cases (cgids.lookup cg e.cgid)) [
      | inl host ↦ ground arith
      | inr (idx, e') ↦
          ground (arith, read-count_in ids fits m among e idx (known e.cgid idx e') q d)
    ]

    trace-EntriesAmong :
        (e : SysEnter) (m : hist.Map)
        → EntriesAmong hist ids m
        → EntriesAmong hist ids (trace_sys_enter cgids hist cg e m)
    unfolding trace_sys_enter
    trace-EntriesAmong e m among k c s h = elim (Option-cases (cgids.lookup cg e.cgid)) [
      | inl host ↦ ground (arith, among k c s)
      | inr (idx, e') ↦
          ground (arith, count_in-EntriesAmong ids fits m among e idx (known e.cgid idx e') k c s)
    ]

    -- If the container indices are no more than `syscalls_by_cgid` has entries, then from any map
    -- of such containers, with or without entries, every call is counted exactly: for each
    -- container and processor the total and each group grow by the number of its calls, modulo
    -- 2 ^ 64.
    pub trace_all-lossless :
        (es : List SysEnter) (m : hist.Map)
        → EntriesAmong hist ids m
        → (q d : ℕ) → IsWord (read hist m q d)
        → IsHistogram cgids hist cg q d es
            (read hist m q d)
            (read hist (trace_all cgids hist cg es m) q d)
    unfolding trace_all
    trace_all-lossless [] m among q d w = record {
      total = ground (arith, w.total);
      buckets = λ c. ground (arith, w.buckets c);
    }
    trace_all-lossless (e ∷ es) m among q d w =
        let m' = trace_sys_enter cgids hist cg e m in
        let step = read_trace e m among q d in
        let word : IsWord (read hist m' q d) =
          rw step (step-IsWord cgids hist (made_in cgids hist cg q d e) e.call w) in
        let rest = trace_all-lossless es m' (trace-EntriesAmong e m among) q d word in
        IsHistogram-step cgids hist cg q d e es (read hist m q d) (rw step at rest)
