-- ===== src/Vmlinux/Tracepoints.antt =====
-- Of bpf/vmlinux.h: the records of the scheduler tracepoints.
use ebpf_docker_anormaly_det.CTypes.{
  CType, array, done, field, int, signed, struct, unsigned, w16, w32, w64, w8, ◌⨾◌,
}
use ebpf_docker_anormaly_det.Vmlinux.Words.{pid_t}

abbrev pub trace_entry : CType
trace_entry = struct (
    field "type" (int unsigned w16)
    ⨾ field "flags" (int unsigned w8)
    ⨾ field "preempt_count" (int unsigned w8)
    ⨾ field "pid" (int signed w32)
    ⨾ done)

abbrev pub trace_event_raw_sched_switch : CType
trace_event_raw_sched_switch = struct (
    field "ent" trace_entry
    ⨾ field "prev_comm" (array (int signed w8) 16)
    ⨾ field "prev_pid" pid_t
    ⨾ field "prev_prio" (int signed w32)
    ⨾ field "prev_state" (int signed w64)
    ⨾ field "next_comm" (array (int signed w8) 16)
    ⨾ field "next_pid" pid_t
    ⨾ field "next_prio" (int signed w32)
    ⨾ field "__data" (array (int signed w8) 0)
    ⨾ done)

abbrev pub trace_event_raw_sched_process_template : CType
trace_event_raw_sched_process_template = struct (
    field "ent" trace_entry
    ⨾ field "comm" (array (int signed w8) 16)
    ⨾ field "pid" pid_t
    ⨾ field "prio" (int signed w32)
    ⨾ field "__data" (array (int signed w8) 0)
    ⨾ done)
