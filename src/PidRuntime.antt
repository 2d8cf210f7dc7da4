-- ===== src/PidRuntime.antt =====
-- CPU time for each task, bpf/pid_runtime.bpf.c: the program at the tracepoint sched_switch, which
-- reads two fields of the event's record by their offsets.
pub mod Record
pub mod Slots
pub mod Timeline
pub mod Tracepoint
use ebpf_docker_anormaly_det.Prelude.{
  ℕ, ◌-◌, Bool, Option, none, some, List, [], ◌∷◌, add64, eqb, leb, if◌then◌else◌,
}
use ebpf_docker_anormaly_det.Prelude.Bytes.{of_bytes, drop}
use ebpf_docker_anormaly_det.Kernel.{PerCpuHash}

-- `struct cpu_acct`
pub record CpuAcct : Type 0 where
  pub last_start_ns : ℕ
  pub runtime_ns : ℕ

abbrev pub zero_acct : CpuAcct
zero_acct = record { last_start_ns = 0; runtime_ns = 0 }

abbrev pub off_prev_pid : ℕ
off_prev_pid = 24

abbrev pub off_next_pid : ℕ
off_next_pid = 56

-- bpf_probe_read_kernel of four bytes into a variable that was zero.
unfoldable pub probe_read_u32 : List ℕ → ℕ → ℕ
probe_read_u32 ctx off = of_bytes 4 (drop off ctx)

-- The outgoing task is charged for the time since its last switch-in.
unfoldable pub stop : ℕ → CpuAcct → CpuAcct
stop now p = record {
  last_start_ns = 0;
  runtime_ns =
      if leb p.last_start_ns now then add64 p.runtime_ns (now - p.last_start_ns) else p.runtime_ns;
}

module _ (acct : PerCpuHash CpuAcct zero_acct) where
  unfoldable pub switch_out : ℕ → ℕ → ℕ → acct.Map → acct.Map
  switch_out cpu now prev_pid m = if eqb prev_pid 0 then m else elim (acct.lookup m prev_pid cpu) [
    | some p ↦ acct.store m prev_pid cpu (stop now p)
    | none ↦ m
  ]

  unfoldable pub switch_in : ℕ → ℕ → ℕ → acct.Map → acct.Map
  switch_in cpu now next_pid m = if eqb next_pid 0 then m else elim (acct.lookup m next_pid cpu) [
    | some n ↦ acct.store m next_pid cpu (record n { last_start_ns = now })
    | none ↦ acct.create m next_pid cpu (record { last_start_ns = now; runtime_ns = 0 })
  ]

  -- On processor `cpu` at time `now`, with the bytes of the event's record at `ctx`.
  unfoldable pub trace_sched_switch : ℕ → ℕ → List ℕ → acct.Map → acct.Map
  trace_sched_switch cpu now ctx m =
      let prev_pid = probe_read_u32 ctx off_prev_pid in
      let next_pid = probe_read_u32 ctx off_next_pid in
      switch_in cpu now next_pid (switch_out cpu now prev_pid m)
