-- ===== src/Vmlinux/Limits.antt =====
-- Of bpf/vmlinux.h: a task's credentials, memory policy and I/O counts.
use ebpf_docker_anormaly_det.CTypes.{
  CType, array, done, field, int, pointer, signed, struct, union, unsigned, w32, w64, ◌⨾◌,
}
use ebpf_docker_anormaly_det.Vmlinux.Words.{__u32, bool, u32, u64, uid_t}
use ebpf_docker_anormaly_det.Vmlinux.Locks.{atomic_t, hlist_node, raw_spinlock}
use ebpf_docker_anormaly_det.Vmlinux.Accounting.{cpumask}

abbrev pub kuid_t : CType
kuid_t = struct (field "val" uid_t ⨾ done)

abbrev pub seccomp : CType
seccomp =
    struct (
      field "mode" (int signed w32) ⨾ field "filter_count" atomic_t ⨾ field "filter" pointer ⨾ done)

abbrev pub syscall_user_dispatch : CType
syscall_user_dispatch = struct (
    field "selector" pointer
    ⨾ field "offset" (int unsigned w64)
    ⨾ field "len" (int unsigned w64)
    ⨾ field "on_dispatch" bool
    ⨾ done)

abbrev pub spinlock : CType
spinlock = struct (field "" (union (field "rlock" raw_spinlock ⨾ done)) ⨾ done)

abbrev pub spinlock_t : CType
spinlock_t = spinlock

abbrev pub wake_q_node : CType
wake_q_node = struct (field "next" pointer ⨾ done)

abbrev pub task_io_accounting : CType
task_io_accounting = struct (
    field "rchar" u64
    ⨾ field "wchar" u64
    ⨾ field "syscr" u64
    ⨾ field "syscw" u64
    ⨾ field "read_bytes" u64
    ⨾ field "write_bytes" u64
    ⨾ field "cancelled_write_bytes" u64
    ⨾ done)

abbrev pub nodemask_t : CType
nodemask_t = struct (field "bits" (array (int unsigned w64) 16) ⨾ done)

abbrev pub seqcount : CType
seqcount = struct (field "sequence" (int unsigned w32) ⨾ done)

abbrev pub seqcount_t : CType
seqcount_t = seqcount

abbrev pub seqcount_spinlock : CType
seqcount_spinlock = struct (field "seqcount" seqcount_t ⨾ done)

abbrev pub seqcount_spinlock_t : CType
seqcount_spinlock_t = seqcount_spinlock

abbrev pub arch_tlbflush_unmap_batch : CType
arch_tlbflush_unmap_batch = struct (field "cpumask" cpumask ⨾ done)

abbrev pub tlbflush_unmap_batch : CType
tlbflush_unmap_batch = struct (
    field "arch" arch_tlbflush_unmap_batch
    ⨾ field "flush_required" bool
    ⨾ field "writable" bool
    ⨾ done)

abbrev pub page_frag : CType
page_frag = struct (field "page" pointer ⨾ field "offset" __u32 ⨾ field "size" __u32 ⨾ done)

abbrev pub latency_record : CType
latency_record = struct (
    field "backtrace" (array (int unsigned w64) 12)
    ⨾ field "count" (int unsigned w32)
    ⨾ field "time" (int unsigned w64)
    ⨾ field "max" (int unsigned w64)
    ⨾ done)

abbrev pub kmap_ctrl : CType
kmap_ctrl = struct done

abbrev pub timer_list : CType
timer_list = struct (
    field "entry" hlist_node
    ⨾ field "expires" (int unsigned w64)
    ⨾ field "function" pointer
    ⨾ field "flags" u32
    ⨾ field "kabi_reserved1" (int unsigned w64)
    ⨾ field "kabi_reserved2" (int unsigned w64)
    ⨾ field "kabi_reserved3" (int unsigned w64)
    ⨾ done)

abbrev pub llist_head : CType
llist_head = struct (field "first" pointer ⨾ done)
