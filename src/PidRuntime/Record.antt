-- ===== src/PidRuntime/Record.antt =====
-- The record of a sched_switch event, `struct trace_event_raw_sched_switch` of bpf/vmlinux.h, and
-- the offsets at which bpf/pid_runtime.bpf.c reads it.
use ebpf_docker_anormaly_det.Prelude.{ℕ, ◌<◌, ◌^◌, ◌≡◌, List, ◌++◌, arith, length, length-append}
use mathlib.Core.List.{append_assoc}
use ebpf_docker_anormaly_det.Prelude.Bytes.{
  to_bytes, length-to_bytes, drop-append, of_bytes-to_bytes_4,
}
use ebpf_docker_anormaly_det.PidRuntime.{off_prev_pid, off_next_pid, probe_read_u32}

-- `struct trace_entry`, the header that all events share.
pub record TraceEntry : Type 0 where
  pub type : ℕ
  pub flags : ℕ
  pub preempt_count : ℕ
  pub pid : ℕ

-- Signed fields stand as their bit patterns.
pub record SchedSwitch : Type 0 where
  pub ent : TraceEntry
  pub prev_comm : List ℕ
  pub prev_pid : ℕ
  pub prev_prio : ℕ
  pub prev_state : ℕ
  pub next_comm : List ℕ
  pub next_pid : ℕ
  pub next_prio : ℕ

-- The fields in memory. Each stands at a multiple of its size, so there is no padding.
abbrev pub entry_bytes : TraceEntry → List ℕ
entry_bytes e =
    to_bytes 2 e.type ++ (to_bytes 1 e.flags ++ (to_bytes 1 e.preempt_count ++ to_bytes 4 e.pid))

abbrev tail_bytes : SchedSwitch → List ℕ
tail_bytes r = to_bytes 4 r.next_pid ++ to_bytes 4 r.next_prio

abbrev middle_bytes : SchedSwitch → List ℕ
middle_bytes r =
    to_bytes 4 r.prev_prio ++ (to_bytes 8 r.prev_state ++ (r.next_comm ++ tail_bytes r))

unfoldable pub encode : SchedSwitch → List ℕ
encode r = entry_bytes r.ent ++ (r.prev_comm ++ (to_bytes 4 r.prev_pid ++ middle_bytes r))

-- The character arrays have their sizes and the pids are 32-bit patterns.
pub record IsRecord (r : SchedSwitch) : Type 0 where
  pub prev_comm : length r.prev_comm ≡ 16
  pub next_comm : length r.next_comm ≡ 16
  pub prev_pid : r.prev_pid < 2 ^ 32
  pub next_pid : r.next_pid < 2 ^ 32

length-entry_bytes : (e : TraceEntry) → length (entry_bytes e) ≡ 8
length-entry_bytes e = simp (length-append, length-to_bytes)

-- A word that stands behind `off` bytes is what a read at `off` yields.
read_behind :
    (off : ℕ) (before : List ℕ) (x : ℕ) (rest : List ℕ)
    → length before ≡ off
    → x < 2 ^ 32
    → probe_read_u32 (before ++ (to_bytes 4 x ++ rest)) off ≡ x
unfolding probe_read_u32
read_behind off before x rest h lt =
    rw (drop-append off before (to_bytes 4 x ++ rest) h) (of_bytes-to_bytes_4 x rest lt)

-- What stands before each of the two fields.
abbrev before_prev : SchedSwitch → List ℕ
before_prev r = entry_bytes r.ent ++ r.prev_comm

abbrev before_next : SchedSwitch → List ℕ
before_next r =
    before_prev r
    ++ (to_bytes 4 r.prev_pid
        ++ (to_bytes 4 r.prev_prio ++ (to_bytes 8 r.prev_state ++ r.next_comm)))

encode_at_prev :
    (r : SchedSwitch) → encode r ≡ before_prev r ++ (to_bytes 4 r.prev_pid ++ middle_bytes r)
unfolding encode
encode_at_prev r = simp append_assoc

encode_at_next : (r : SchedSwitch) → encode r ≡ before_next r ++ tail_bytes r
unfolding encode
encode_at_next r = simp append_assoc

module _ (r : SchedSwitch) (w : IsRecord r) where
  -- At OFF_PREV_PID the program finds the pid of the outgoing task.
  pub probe_read-prev_pid : probe_read_u32 (encode r) off_prev_pid ≡ r.prev_pid
  probe_read-prev_pid = rw (encode_at_prev r) (
      read_behind off_prev_pid (before_prev r) r.prev_pid (middle_bytes r)
        (rw length-append (omega (arith, length-entry_bytes r.ent, w.prev_comm))) w.prev_pid)

  -- At OFF_NEXT_PID the program finds the pid of the incoming task.
  pub probe_read-next_pid : probe_read_u32 (encode r) off_next_pid ≡ r.next_pid
  probe_read-next_pid = rw (encode_at_next r) (
      read_behind off_next_pid (before_next r) r.next_pid (to_bytes 4 r.next_prio)
        (simp (length-append, length-to_bytes) (omega (arith, w.prev_comm, w.next_comm)))
        w.next_pid)
