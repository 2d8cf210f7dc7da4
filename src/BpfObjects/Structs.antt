-- ===== src/BpfObjects/Structs.antt =====
-- The structures that the BPF programs declare themselves, as C types.
use ebpf_docker_anormaly_det.CTypes.{CType, struct, field, array, int, signed, w8, done, ◌⨾◌}
use ebpf_docker_anormaly_det.Vmlinux.Words.{__u32, __u64}

-- bpf/syscall_trace.bpf.c
abbrev pub syscall_counts : CType
syscall_counts = struct (
    field "total" __u64
    ⨾ field "file_open" __u64
    ⨾ field "file_close" __u64
    ⨾ field "file_read" __u64
    ⨾ field "file_write" __u64
    ⨾ field "file_unlink" __u64
    ⨾ field "file_rename" __u64
    ⨾ field "file_perm" __u64
    ⨾ field "net_socket" __u64
    ⨾ field "net_connect" __u64
    ⨾ field "net_bind" __u64
    ⨾ field "net_listen" __u64
    ⨾ field "net_accept" __u64
    ⨾ field "net_send" __u64
    ⨾ field "net_recv" __u64
    ⨾ field "proc_exec" __u64
    ⨾ field "proc_fork" __u64
    ⨾ field "proc_kill" __u64
    ⨾ field "priv_escalate" __u64
    ⨾ field "escape_attempt" __u64
    ⨾ field "mem_layout" __u64
    ⨾ field "other" __u64
    ⨾ done)

-- bpf/syscall_trace.bpf.c
abbrev pub bpf_raw_tp_args : CType
bpf_raw_tp_args = struct (field "args" (array __u64 8) ⨾ done)

-- bpf/tcp_stats.bpf.c
abbrev pub tcp_stats : CType
tcp_stats = struct (
    field "bytes_tx" __u64
    ⨾ field "bytes_rx" __u64
    ⨾ field "pkts_tx" __u64
    ⨾ field "pkts_rx" __u64
    ⨾ field "retransmits" __u64
    ⨾ done)

-- bpf/pid_runtime.bpf.c
abbrev pub cpu_acct : CType
cpu_acct = struct (field "last_start_ns" __u64 ⨾ field "runtime_ns" __u64 ⨾ done)

-- bpf/test.bpf.c
abbrev pub exit_stat : CType
exit_stat = struct (
    field "ts_ns" __u64
    ⨾ field "tgid" __u32
    ⨾ field "pad" __u32
    ⨾ field "comm" (array (int signed w8) 16)
    ⨾ done)
