-- ===== src/ProcExit.antt =====
-- Process exits, bpf/proc_exit.bpf.c: the program at the tracepoint sched_process_exit, which sends
-- an event for each exiting thread group leader, and the event's layout in memory.
pub mod Task
pub mod Struct
use ebpf_docker_anormaly_det.Prelude.{
  ℕ, ◌/◌, ◌^◌, Option, none, some, List, [], ◌∷◌, ◌++◌, u32, eqb, if◌then◌else◌,
}
use ebpf_docker_anormaly_det.Prelude.Bytes.{to_bytes}
use ebpf_docker_anormaly_det.Kernel.{PerCpuArray}

-- `struct proc_exit_event`
pub record ProcExitEvent : Type 0 where
  pub ts_ns : ℕ
  pub start_time_ns : ℕ
  pub tgid : ℕ
  pub exit_code : ℕ
  pub comm : List ℕ

-- What the program reads of the exiting task: the processor, bpf_get_current_pid_tgid(),
-- bpf_ktime_get_ns(), two fields of its task_struct, and bpf_get_current_comm().
pub record Exiting : Type 0 where
  pub cpu : ℕ
  pub pid_tgid : ℕ
  pub ktime_ns : ℕ
  pub start_boottime : ℕ
  pub exit_code : ℕ
  pub comm : List ℕ

-- `id >> 32` and the low half of `id`
abbrev pub tgid_of : Exiting → ℕ
tgid_of t = u32 (t.pid_tgid / 2 ^ 32)

abbrev pub tid_of : Exiting → ℕ
tid_of t = u32 t.pid_tgid

-- The bytes of the event, as bpf_perf_event_output copies them.
unfoldable pub event_bytes : ProcExitEvent → List ℕ
event_bytes e =
    to_bytes 8 e.ts_ns
    ++ (to_bytes 8 e.start_time_ns ++ (to_bytes 4 e.tgid ++ (to_bytes 4 e.exit_code ++ e.comm)))

module _ (heap : PerCpuArray ProcExitEvent) where
  -- The program fills the processor's scratch event, of which nothing is left as it was, and
  -- sends it: the new scratch map, and the sample for the perf buffer.
  fill : Exiting → heap.Map → Option ProcExitEvent → heap.Map × Option (List ℕ)
  fill t m none = (m, none)
  fill t m (some e) =
      let e' = record e {
        ts_ns = t.ktime_ns;
        tgid = tgid_of t;
        start_time_ns = t.start_boottime;
        exit_code = u32 t.exit_code;
        comm = t.comm;
      } in
      (heap.store m 0 t.cpu e', some (event_bytes e'))

  unfoldable pub handle_proc_exit : Exiting → heap.Map → heap.Map × Option (List ℕ)
  unfolding fill
  handle_proc_exit t m =
      if eqb (tgid_of t) (tid_of t) then fill t m (heap.lookup m 0 t.cpu) else (m, none)

  -- The samples of a run of exits, in order.
  unfoldable pub handle_all : List Exiting → heap.Map → List (List ℕ)
  handle_all [] m = []
  handle_all (t ∷ ts) m =
      let (m', sample) = handle_proc_exit t m in
      elim sample [ none ↦ handle_all ts m' | some bytes ↦ bytes ∷ handle_all ts m' ]
