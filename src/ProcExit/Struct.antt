-- ===== src/ProcExit/Struct.antt =====
-- `struct proc_exit_event` of bpf/proc_exit.bpf.c, as a C type.
use ebpf_docker_anormaly_det.CTypes.{CType, struct, field, array, int, signed, w8, done, ◌⨾◌}
use ebpf_docker_anormaly_det.Vmlinux.Words.{__u32, __u64}

abbrev pub proc_exit_event : CType
proc_exit_event = struct (
    field "ts_ns" __u64
    ⨾ field "start_time_ns" __u64
    ⨾ field "tgid" __u32
    ⨾ field "exit_code" __u32
    ⨾ field "comm" (array (int signed w8) 16)
    ⨾ done)
