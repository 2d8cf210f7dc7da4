-- ===== src/ProcExit/Task.antt =====
-- The exiting task in the kernel's memory: what bpf/proc_exit.bpf.c reads of its task_struct, and the
-- event that comes of it, on kernels with other layouts than that of bpf/vmlinux.h.
use ebpf_docker_anormaly_det.Prelude.{
  ℕ, ◌^◌, ◌<◌, ◌≡◌, ◌≢◌, arith, Option, some, List, u32, eqb, true, false, refl, ◌/◌, ◌%◌, ◌>>=◌,
  ◌∙◌,
}
use ebpf_docker_anormaly_det.CTypes.{
  CType, Members, struct, find_in, holder_of, slot, size_of, int, signed, w32,
}
use ebpf_docker_anormaly_det.Vmlinux.Words.{u64}
use ebpf_docker_anormaly_det.Vmlinux.Task.{task_struct}
use ebpf_docker_anormaly_det.Memory.{Memory}
use ebpf_docker_anormaly_det.Memory.Fields.{
  Declares, write_member, read_member-write_member, read_member-write_other,
}
use ebpf_docker_anormaly_det.CoRe.{CoreRead, read-declared}
use ebpf_docker_anormaly_det.Kernel.{PerCpuArray}
use ebpf_docker_anormaly_det.ProcExit.{ProcExitEvent, Exiting, handle_proc_exit, event_bytes, fill}

-- The processor, what the helpers return, and the address of the task's task_struct.
pub record Current : Type 0 where
  pub cpu : ℕ
  pub pid_tgid : ℕ
  pub ktime_ns : ℕ
  pub task : ℕ
  pub comm : List ℕ

abbrev pub exiting : Current → ℕ → ℕ → Exiting
exiting c start code = record {
  cpu = c.cpu;
  pid_tgid = c.pid_tgid;
  ktime_ns = c.ktime_ns;
  start_boottime = start;
  exit_code = code;
  comm = c.comm;
}

module _ (core : CoreRead) (target : CType) where
  -- `BPF_CORE_READ(task, start_boottime)` and `BPF_CORE_READ(task, exit_code)`
  unfoldable pub read_task : Current → Memory → Option Exiting
  read_task c mem = do
    start ← core.read task_struct target "start_boottime" c.task mem
    code ← core.read task_struct target "exit_code" c.task mem
    some (exiting c start code)

module _ (core : CoreRead) (target : CType) (heap : PerCpuArray ProcExitEvent) where
  -- A run of the program, with the reads that it makes of the task.
  unfoldable pub exit_program : Current → Memory → heap.Map → Option (heap.Map × Option (List ℕ))
  unfolding read_task
  exit_program c mem m = do t ← read_task core target c mem; some (handle_proc_exit heap t m)

-- What bpf/vmlinux.h declares of the two members.
local_start : find_in "start_boottime" task_struct ≡ some (slot 27712 64 u64 false)
unfolding find_in
local_start = refl

local_code : find_in "exit_code" task_struct ≡ some (slot 24416 32 (int signed w32) false)
unfolding find_in
local_code = refl

-- The kernel sets the time at which a task starts, and its exit code when it exits.
unfoldable pub start_and_exit : CType → ℕ → ℕ → ℕ → Memory → Memory
start_and_exit target task start code mem =
    write_member target "exit_code" code task (write_member target "start_boottime" start task mem)

-- The members that the program needs of the kernel's own task_struct, in whatever order and with
-- whatever else around them, no two of them alternatives of one union.
pub record DeclaresExit (ms : Members) : Type 0 where
  pub start_boottime : Declares ms "start_boottime" 8
  pub exit_code : Declares ms "exit_code" 4
  pub apart : holder_of "exit_code" ms 0 ≢ holder_of "start_boottime" ms 0

module _ (core : CoreRead) (ms : Members) (k : DeclaresExit ms) (c : Current) (start code : ℕ)
    (mem : Memory) where
  abbrev after : Memory
  after = start_and_exit (struct ms) c.task start code mem

  abbrev started : Memory
  started = write_member (struct ms) "start_boottime" start c.task mem

  read_start :
      start < 2 ^ 64 → core.read task_struct (struct ms) "start_boottime" c.task after ≡ some start
  unfolding size_of start_and_exit
  read_start h =
      read-declared core task_struct (slot 27712 64 u64 false) ms "start_boottime" 8 c.task after
        local_start refl refl k.start_boottime
      ∙ read_member-write_other ms "exit_code" "start_boottime" 4 8 k.exit_code k.start_boottime
          c.task code started k.apart
      ∙ read_member-write_member ms "start_boottime" 8 k.start_boottime c.task start mem h

  read_code : code < 2 ^ 32 → core.read task_struct (struct ms) "exit_code" c.task after ≡ some code
  unfolding size_of start_and_exit
  read_code h =
      read-declared core task_struct (slot 24416 32 (int signed w32) false) ms "exit_code" 4 c.task
        after local_code refl refl k.exit_code
      ∙ read_member-write_member ms "exit_code" 4 k.exit_code c.task code started h

  pub read_task_lem :
      start < 2 ^ 64
      → code < 2 ^ 32
      → read_task core (struct ms) c after ≡ some (exiting c start code)
  unfolding read_task
  read_task_lem h l = rw (read_start h, read_code l) refl

-- The event that the program makes of them.
abbrev pub event_of : Current → ℕ → ℕ → ProcExitEvent
event_of c start code = record {
  ts_ns = c.ktime_ns;
  start_time_ns = start;
  tgid = u32 (c.pid_tgid / 2 ^ 32);
  exit_code = code;
  comm = c.comm;
}

pub handle_proc_exit-leader :
    (heap : PerCpuArray ProcExitEvent) (c : Current) (start code : ℕ) (m : heap.Map)
    (old : ProcExitEvent)
    → u32 (c.pid_tgid / 2 ^ 32) ≡ u32 c.pid_tgid
    → code < 2 ^ 32
    → heap.lookup m 0 c.cpu ≡ some old
    → handle_proc_exit heap (exiting c start code) m
      ≡ (heap.store m 0 c.cpu (event_of c start code), some (event_bytes (event_of c start code)))
unfolding handle_proc_exit fill
handle_proc_exit-leader heap c start code m old leads small found =
    let same : eqb (u32 (c.pid_tgid / 2 ^ 32)) (u32 c.pid_tgid) ≡ true = ground (arith, leads) in
    let code_fits : code % 2 ^ 32 ≡ code = omega arith in rw (same, found, fill, code_fits) refl
