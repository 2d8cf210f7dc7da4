-- ===== src/Vmlinux/Task.antt =====
-- Of bpf/vmlinux.h: `struct task_struct`.
use ebpf_docker_anormaly_det.CTypes.{
  CType, Members, array, bits, done, field, int, pointer, signed, struct, unsigned, w16, w32, w64,
  ◌⨾◌,
}
use ebpf_docker_anormaly_det.Vmlinux.Words.{__u64, gfp_t, u32, u64}
use ebpf_docker_anormaly_det.Vmlinux.Locks.{atomic_t, callback_head, list_head, mutex, refcount_t}
use ebpf_docker_anormaly_det.Vmlinux.Limits.{
  kmap_ctrl, latency_record, llist_head, page_frag, timer_list, tlbflush_unmap_batch,
}
use ebpf_docker_anormaly_det.Vmlinux.Fpu.{thread_struct}
use ebpf_docker_anormaly_det.Vmlinux.TaskState.{task_struct_first, task_struct_second}

abbrev pub task_struct_third : Members → Members
task_struct_third rest =
    field "futex_state" (int unsigned w32)
    ⨾ field "perf_event_ctxp" pointer
    ⨾ field "perf_event_mutex" mutex
    ⨾ field "perf_event_list" list_head
    ⨾ field "mempolicy" pointer
    ⨾ field "il_prev" (int signed w16)
    ⨾ field "pref_node_fork" (int signed w16)
    ⨾ field "numa_scan_seq" (int signed w32)
    ⨾ field "numa_scan_period" (int unsigned w32)
    ⨾ field "numa_scan_period_max" (int unsigned w32)
    ⨾ field "numa_preferred_nid" (int signed w32)
    ⨾ field "numa_migrate_retry" (int unsigned w64)
    ⨾ field "node_stamp" u64
    ⨾ field "last_task_numa_placement" u64
    ⨾ field "last_sum_exec_runtime" u64
    ⨾ field "numa_work" callback_head
    ⨾ field "numa_group" pointer
    ⨾ field "numa_faults" pointer
    ⨾ field "total_numa_faults" (int unsigned w64)
    ⨾ field "numa_faults_locality" (array (int unsigned w64) 3)
    ⨾ field "numa_pages_migrated" (int unsigned w64)
    ⨾ field "rseq" pointer
    ⨾ field "rseq_len" u32
    ⨾ field "rseq_sig" u32
    ⨾ field "rseq_event_mask" (int unsigned w64)
    ⨾ field "mm_cid" (int signed w32)
    ⨾ field "last_mm_cid" (int signed w32)
    ⨾ field "migrate_from_cpu" (int signed w32)
    ⨾ field "mm_cid_active" (int signed w32)
    ⨾ field "cid_work" callback_head
    ⨾ field "tlb_ubc" tlbflush_unmap_batch
    ⨾ field "splice_pipe" pointer
    ⨾ field "task_frag" page_frag
    ⨾ field "delays" pointer
    ⨾ field "nr_dirtied" (int signed w32)
    ⨾ field "nr_dirtied_pause" (int signed w32)
    ⨾ field "dirty_paused_when" (int unsigned w64)
    ⨾ field "latency_record_count" (int signed w32)
    ⨾ field "latency_record" (array latency_record 32)
    ⨾ field "timer_slack_ns" u64
    ⨾ field "default_timer_slack_ns" u64
    ⨾ field "kunit_test" pointer
    ⨾ field "curr_ret_stack" (int signed w32)
    ⨾ field "curr_ret_depth" (int signed w32)
    ⨾ field "ret_stack" pointer
    ⨾ field "ftrace_timestamp" (int unsigned w64)
    ⨾ field "trace_overrun" atomic_t
    ⨾ field "tracing_graph_pause" atomic_t
    ⨾ field "trace_recursion" (int unsigned w64)
    ⨾ field "memcg_in_oom" pointer
    ⨾ field "memcg_oom_gfp_mask" gfp_t
    ⨾ field "memcg_oom_order" (int signed w32)
    ⨾ field "memcg_nr_pages_over_high" (int unsigned w32)
    ⨾ field "active_memcg" pointer
    ⨾ field "throttle_disk" pointer
    ⨾ field "utask" pointer
    ⨾ field "sequential_io" (int unsigned w32)
    ⨾ field "sequential_io_avg" (int unsigned w32)
    ⨾ field "kmap_ctrl" kmap_ctrl
    ⨾ field "rcu" callback_head
    ⨾ field "rcu_users" refcount_t
    ⨾ field "pagefault_disabled" (int signed w32)
    ⨾ field "oom_reaper_list" pointer
    ⨾ field "oom_reaper_timer" timer_list
    ⨾ field "stack_vm_area" pointer
    ⨾ field "stack_refcount" refcount_t
    ⨾ field "patch_state" (int signed w32)
    ⨾ field "security" pointer
    ⨾ field "bpf_storage" pointer
    ⨾ field "bpf_ctx" pointer
    ⨾ field "mce_vaddr" pointer
    ⨾ field "mce_kflags" __u64
    ⨾ field "mce_addr" u64
    ⨾ bits "mce_ripv" __u64 1
    ⨾ bits "mce_whole_page" __u64 1
    ⨾ bits "__mce_reserved" __u64 62
    ⨾ field "mce_kill_me" callback_head
    ⨾ field "mce_count" (int signed w32)
    ⨾ field "kretprobe_instances" llist_head
    ⨾ field "rethooks" llist_head
    ⨾ field "l1d_flush_kill" callback_head
    ⨾ field "mem_reclaimed" (int unsigned w32)
    ⨾ field "kabi_reserved1" (int unsigned w64)
    ⨾ field "kabi_reserved2" (int unsigned w64)
    ⨾ field "kabi_reserved3" (int unsigned w64)
    ⨾ field "kabi_reserved4" (int unsigned w64)
    ⨾ field "kabi_reserved5" (int unsigned w64)
    ⨾ field "kabi_reserved6" (int unsigned w64)
    ⨾ field "kabi_reserved7" (int unsigned w64)
    ⨾ field "kabi_reserved8" (int unsigned w64)
    ⨾ field "thread" thread_struct
    ⨾ rest

abbrev pub task_struct : CType
task_struct = struct (task_struct_first (task_struct_second (task_struct_third done)))
