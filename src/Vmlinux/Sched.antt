-- ===== src/Vmlinux/Sched.antt =====
-- Of bpf/vmlinux.h: a task's entities in the run queues.
use ebpf_docker_anormaly_det.CTypes.{
  CType, array, bits, done, field, int, pointer, signed, struct, union, unsigned, w16, w32, w64,
  ◌⨾◌,
}
use ebpf_docker_anormaly_det.Vmlinux.Words.{bool, s32, s64, u16, u32, u64, u8}
use ebpf_docker_anormaly_det.Vmlinux.Locks.{atomic_long_t, atomic_t, list_head, rb_node}

abbrev pub thread_info : CType
thread_info = struct (
    field "flags" (int unsigned w64)
    ⨾ field "syscall_work" (int unsigned w64)
    ⨾ field "status" u32
    ⨾ field "cpu" u32
    ⨾ field "kabi_reserved1" (int unsigned w64)
    ⨾ field "kabi_reserved2" (int unsigned w64)
    ⨾ done)

abbrev pub llist_node : CType
llist_node = struct (field "next" pointer ⨾ done)

abbrev pub __call_single_node : CType
__call_single_node = struct (
    field "llist" llist_node
    ⨾ field "" (union (field "u_flags" (int unsigned w32) ⨾ field "a_flags" atomic_t ⨾ done))
    ⨾ field "src" u16
    ⨾ field "dst" u16
    ⨾ done)

abbrev pub load_weight : CType
load_weight = struct (field "weight" (int unsigned w64) ⨾ field "inv_weight" u32 ⨾ done)

abbrev pub util_est : CType
util_est = struct (field "enqueued" (int unsigned w32) ⨾ field "ewma" (int unsigned w32) ⨾ done)

abbrev pub sched_avg : CType
sched_avg = struct (
    field "last_update_time" u64
    ⨾ field "load_sum" u64
    ⨾ field "runnable_sum" u64
    ⨾ field "util_sum" u32
    ⨾ field "period_contrib" u32
    ⨾ field "load_avg" (int unsigned w64)
    ⨾ field "runnable_avg" (int unsigned w64)
    ⨾ field "util_avg" (int unsigned w64)
    ⨾ field "util_est" util_est
    ⨾ done)

abbrev pub sched_entity : CType
sched_entity = struct (
    field "load" load_weight
    ⨾ field "run_node" rb_node
    ⨾ field "deadline" u64
    ⨾ field "min_vruntime" u64
    ⨾ field "group_node" list_head
    ⨾ field "on_rq" (int unsigned w32)
    ⨾ field "exec_start" u64
    ⨾ field "sum_exec_runtime" u64
    ⨾ field "prev_sum_exec_runtime" u64
    ⨾ field "vruntime" u64
    ⨾ field "vlag" s64
    ⨾ field "slice" u64
    ⨾ field "nr_migrations" u64
    ⨾ field "depth" (int signed w32)
    ⨾ field "parent" pointer
    ⨾ field "cfs_rq" pointer
    ⨾ field "my_q" pointer
    ⨾ field "runnable_weight" (int unsigned w64)
    ⨾ bits "" (int signed w64) 64
    ⨾ bits "" (int signed w64) 64
    ⨾ field "avg" sched_avg
    ⨾ field "kabi_reserved1" (int unsigned w64)
    ⨾ field "kabi_reserved2" (int unsigned w64)
    ⨾ field "kabi_reserved3" (int unsigned w64)
    ⨾ field "kabi_reserved4" (int unsigned w64)
    ⨾ bits "" (int signed w64) 64
    ⨾ bits "" (int signed w64) 64
    ⨾ bits "" (int signed w64) 64
    ⨾ bits "" (int signed w64) 64
    ⨾ done)

abbrev pub sched_avg_bt : CType
sched_avg_bt = struct (
    field "last_update_time" u64
    ⨾ field "load_sum" u64
    ⨾ field "util_sum" u32
    ⨾ field "period_contrib" u32
    ⨾ field "load_avg" (int unsigned w64)
    ⨾ field "util_avg" (int unsigned w64)
    ⨾ done)

abbrev pub sched_bt_entity : CType
sched_bt_entity = struct (
    field "load" load_weight
    ⨾ field "run_node" rb_node
    ⨾ field "group_node" list_head
    ⨾ field "on_rq" (int unsigned w32)
    ⨾ field "exec_start" u64
    ⨾ field "sum_exec_runtime" u64
    ⨾ field "vruntime" u64
    ⨾ field "prev_sum_exec_runtime" u64
    ⨾ field "depth" (int signed w32)
    ⨾ field "parent" pointer
    ⨾ field "bt_rq" pointer
    ⨾ field "bt_my_q" pointer
    ⨾ field "bt_avg" sched_avg_bt
    ⨾ done)

abbrev pub sched_rt_entity : CType
sched_rt_entity = struct (
    field "run_list" list_head
    ⨾ field "timeout" (int unsigned w64)
    ⨾ field "watchdog_stamp" (int unsigned w64)
    ⨾ field "time_slice" (int unsigned w32)
    ⨾ field "on_rq" (int unsigned w16)
    ⨾ field "on_list" (int unsigned w16)
    ⨾ field "back" pointer
    ⨾ field "parent" pointer
    ⨾ field "rt_rq" pointer
    ⨾ field "my_q" pointer
    ⨾ field "kabi_reserved1" (int unsigned w64)
    ⨾ field "kabi_reserved2" (int unsigned w64)
    ⨾ done)

abbrev pub ktime_t : CType
ktime_t = s64

abbrev pub timerqueue_node : CType
timerqueue_node = struct (field "node" rb_node ⨾ field "expires" ktime_t ⨾ done)

abbrev pub hrtimer : CType
hrtimer = struct (
    field "node" timerqueue_node
    ⨾ field "_softexpires" ktime_t
    ⨾ field "function" pointer
    ⨾ field "base" pointer
    ⨾ field "state" u8
    ⨾ field "is_rel" u8
    ⨾ field "is_soft" u8
    ⨾ field "is_hard" u8
    ⨾ field "kabi_reserved1" (int unsigned w64)
    ⨾ done)

abbrev pub sched_dl_entity : CType
sched_dl_entity = struct (
    field "rb_node" rb_node
    ⨾ field "dl_runtime" u64
    ⨾ field "dl_deadline" u64
    ⨾ field "dl_period" u64
    ⨾ field "dl_bw" u64
    ⨾ field "dl_density" u64
    ⨾ field "runtime" s64
    ⨾ field "deadline" u64
    ⨾ field "flags" (int unsigned w32)
    ⨾ bits "dl_throttled" (int unsigned w32) 1
    ⨾ bits "dl_yielded" (int unsigned w32) 1
    ⨾ bits "dl_non_contending" (int unsigned w32) 1
    ⨾ bits "dl_overrun" (int unsigned w32) 1
    ⨾ field "dl_timer" hrtimer
    ⨾ field "inactive_timer" hrtimer
    ⨾ field "pi_se" pointer
    ⨾ field "kabi_reserved1" (int unsigned w64)
    ⨾ field "kabi_reserved2" (int unsigned w64)
    ⨾ field "kabi_reserved3" (int unsigned w64)
    ⨾ field "kabi_reserved4" (int unsigned w64)
    ⨾ done)

abbrev pub scx_dsq_list_node : CType
scx_dsq_list_node = struct (field "node" list_head ⨾ field "flags" u32 ⨾ field "priv" u32 ⨾ done)

abbrev pub sched_ext_entity : CType
sched_ext_entity = struct (
    field "dsq" pointer
    ⨾ field "dsq_list" scx_dsq_list_node
    ⨾ field "dsq_priq" rb_node
    ⨾ field "dsq_seq" u32
    ⨾ field "dsq_flags" u32
    ⨾ field "flags" u32
    ⨾ field "weight" u32
    ⨾ field "sticky_cpu" s32
    ⨾ field "holding_cpu" s32
    ⨾ field "kf_mask" u32
    ⨾ field "kf_tasks" (array pointer 2)
    ⨾ field "ops_state" atomic_long_t
    ⨾ field "runnable_node" list_head
    ⨾ field "runnable_at" (int unsigned w64)
    ⨾ field "core_sched_at" u64
    ⨾ field "ddsp_dsq_id" u64
    ⨾ field "ddsp_enq_flags" u64
    ⨾ field "slice" u64
    ⨾ field "dsq_vtime" u64
    ⨾ field "disallow" bool
    ⨾ field "cgrp_moving_from" pointer
    ⨾ field "tasks_node" list_head
    ⨾ done)
