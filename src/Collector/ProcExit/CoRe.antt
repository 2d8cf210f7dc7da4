-- ===== src/Collector/ProcExit/CoRe.antt =====
-- The exit event from the kernel's task_struct to the Go reader: bpf/proc_exit.bpf.c and
-- pkg/collector/procexit/collector.go, on any kernel whose task_struct has the two members.
use ebpf_docker_anormaly_det.Prelude.{
  ℕ, ◌/◌, ◌^◌, ◌<◌, ◌≡◌, arith, some, List, ◌++◌, length, u32, refl,
}
use ebpf_docker_anormaly_det.CTypes.{Members, struct}
use ebpf_docker_anormaly_det.Memory.{Memory}
use ebpf_docker_anormaly_det.CoRe.{CoreRead}
use ebpf_docker_anormaly_det.Kernel.{PerCpuArray}
use ebpf_docker_anormaly_det.ProcExit.{ProcExitEvent, event_bytes}
use ebpf_docker_anormaly_det.ProcExit.Task.{
  Current, DeclaresExit, start_and_exit, exit_program, read_task_lem, event_of,
  handle_proc_exit-leader,
}
use ebpf_docker_anormaly_det.Collector.ProcExit.{reinterpret}
use ebpf_docker_anormaly_det.Collector.ProcExit.Layout.{IsEvent, reinterpret-event_bytes}

-- What the helpers return fits into the event, and the task leads its thread group.
pub record IsLeader (c : Current) : Type 0 where
  pub leads : u32 (c.pid_tgid / 2 ^ 32) ≡ u32 c.pid_tgid
  pub ktime_ns : c.ktime_ns < 2 ^ 64
  pub comm : length c.comm ≡ 16

-- The kernel sets the start time of a task, a thread group's leader, and then its exit code. On any
-- kernel whose task_struct declares the two members with eight and four bytes, whatever their
-- places in it, the program sends a sample, and the Go reader finds in it that start time and exit
-- code, with the process id, time and name that the helpers gave, whatever bytes stand behind it.
pub reinterpret-exit_program :
    (core : CoreRead) (heap : PerCpuArray ProcExitEvent) (ms : Members) (k : DeclaresExit ms)
    (c : Current) (w : IsLeader c) (start code : ℕ) (mem : Memory) (m : heap.Map)
    (old : ProcExitEvent) (pad : List ℕ)
    → start < 2 ^ 64
    → code < 2 ^ 32
    → heap.lookup m 0 c.cpu ≡ some old
    → (sample : List ℕ) × (exit_program core
          (struct ms)
          heap
          c
          (start_and_exit (struct ms) c.task start code mem)
          m
        ≡ some (heap.store m 0 c.cpu (event_of c start code), some sample))
      × (reinterpret (sample ++ pad) ≡ event_of c start code)
unfolding exit_program
reinterpret-exit_program core heap ms k c w start code mem m old pad h l found =
    let is_event : IsEvent (event_of c start code) = record {
      ts_ns = w.ktime_ns;
      start_time_ns = h;
      tgid = omega arith;
      exit_code = l;
      comm = w.comm;
    } in
    (
      event_bytes (event_of c start code),
      rw
          (
            read_task_lem core ms k c start code mem h l,
            handle_proc_exit-leader heap c start code m old w.leads l found,
          )
          refl,
      reinterpret-event_bytes (event_of c start code) is_event pad,
    )
