-- ===== src/ExitCount.antt =====
-- The count of exits, bpf/test.bpf.c: a program at sched_process_exit that counts on each processor
-- and keeps the last exit of each thread group.
use ebpf_docker_anormaly_det.Prelude.{
  ℕ, ◌+◌, ◌/◌, ◌^◌, ◌<◌, ◌≡◌, Option, none, some, List, [], ◌∷◌, arith, u32, add64, eqb_iff, ◌==◌,
  nat_eq, if◌then◌else◌, inl, inr, Option-cases,
}
use ebpf_docker_anormaly_det.Kernel.{Hash, PerCpuArray}

-- `struct exit_stat`
pub record ExitStat : Type 0 where
  pub ts_ns : ℕ
  pub tgid : ℕ
  pub pad : ℕ
  pub comm : List ℕ

-- What the program reads: the processor, bpf_get_current_pid_tgid(), bpf_ktime_get_ns() and
-- bpf_get_current_comm().
pub record Exit : Type 0 where
  pub cpu : ℕ
  pub pid_tgid : ℕ
  pub ktime_ns : ℕ
  pub comm : List ℕ

-- `u32 tgid = id >> 32`
abbrev pub group : Exit → ℕ
group e = u32 (e.pid_tgid / 2 ^ 32)

abbrev pub stat_of : Exit → ExitStat
stat_of e = record { ts_ns = e.ktime_ns; tgid = group e; pad = 0; comm = e.comm }

module _ (count : PerCpuArray ℕ) (last : Hash ExitStat) where
  -- `__sync_fetch_and_add(cnt, 1)`
  unfoldable pub add_one : ℕ → Option ℕ → count.Map → count.Map
  add_one cpu none m = m
  add_one cpu (some cnt) m = count.store m 0 cpu (add64 cnt 1)

  unfoldable pub count_sched_process_exit : Exit → count.Map × last.Map → count.Map × last.Map
  count_sched_process_exit e (m, l) =
      (add_one e.cpu (count.lookup m 0 e.cpu) m, last.update l (group e) (stat_of e))

  unfoldable pub count_exits : List Exit → count.Map × last.Map → count.Map × last.Map
  count_exits [] s = s
  count_exits (e ∷ es) s = count_exits es (count_sched_process_exit e s)

  abbrev pub exits_on : ℕ → List Exit → ℕ
  exits_on c [] = 0
  exits_on c (e ∷ es) = (if e.cpu == c then 1 else 0) + exits_on c es

  lookup-add_one :
      (m : count.Map) (cpu c n : ℕ)
      → 0 < count.max_entries
      → count.lookup m 0 c ≡ some n
      → count.lookup (add_one cpu (count.lookup m 0 cpu) m) 0 c
        ≡ some (if cpu == c then add64 n 1 else n)
  unfolding add_one
  lookup-add_one m cpu c n sized h = elim (Option-cases (count.lookup m 0 cpu)) [
    | inl e ↦ ground (arith, count.lookup_below m 0 cpu)
    | inr (k, e) ↦ ground (arith, count.lookup-store m 0 cpu (add64 k 1) k 0 c, eqb_iff cpu c)
  ]

  -- The counter of each processor grows by the number of exits on it, modulo 2 ^ 64.
  pub count_exits-count :
      (es : List Exit) (m : count.Map) (l : last.Map) (c n : ℕ)
      → 0 < count.max_entries
      → n < 2 ^ 64
      → count.lookup m 0 c ≡ some n
      → count.lookup (count_exits es (m, l)).0 0 c ≡ some (add64 n (exits_on c es))
  unfolding count_exits count_sched_process_exit
  count_exits-count [] m l c n sized w h = ground arith
  count_exits-count (e ∷ es) m l c n sized w h =
      let one = lookup-add_one m e.cpu c n sized h in
      ground (
        arith,
        count_exits-count es (add_one e.cpu (count.lookup m 0 e.cpu) m)
            (last.update l (group e) (stat_of e)) c (if e.cpu == c then add64 n 1 else n) sized,
        one,
      )
