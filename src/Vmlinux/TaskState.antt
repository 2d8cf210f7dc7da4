-- ===== src/Vmlinux/TaskState.antt =====
-- Of bpf/vmlinux.h: the first two parts of `struct task_struct`.
use ebpf_docker_anormaly_det.CTypes.{
  Members, array, bits, field, int, pointer, signed, unsigned, w16, w32, w64, w8, ◌⨾◌,
}
use ebpf_docker_anormaly_det.Vmlinux.Words.{pid_t, size_t, u32, u64}
use ebpf_docker_anormaly_det.Vmlinux.Locks.{
  hlist_head, hlist_node, list_head, mutex, raw_spinlock_t, rb_node, refcount_t,
}
use ebpf_docker_anormaly_det.Vmlinux.Sched.{
  __call_single_node, sched_bt_entity, sched_dl_entity, sched_entity, sched_ext_entity,
  sched_rt_entity, thread_info,
}
use ebpf_docker_anormaly_det.Vmlinux.Accounting.{
  cpumask_t, plist_node, posix_cputimers, posix_cputimers_work, prev_cputime, rb_root_cached,
  rcu_special, restart_block, sched_info, sched_statistics, sigpending, sigset_t, sysv_sem,
  sysv_shm,
}
use ebpf_docker_anormaly_det.Vmlinux.Limits.{
  kuid_t, nodemask_t, seccomp, seqcount_spinlock_t, spinlock_t, syscall_user_dispatch,
  task_io_accounting, wake_q_node,
}

abbrev pub task_struct_first : Members → Members
task_struct_first rest =
    field "thread_info" thread_info
    ⨾ field "__state" (int unsigned w32)
    ⨾ field "saved_state" (int unsigned w32)
    ⨾ field "stack" pointer
    ⨾ field "usage" refcount_t
    ⨾ field "flags" (int unsigned w32)
    ⨾ field "nflags" (int unsigned w32)
    ⨾ field "ptrace" (int unsigned w32)
    ⨾ field "on_cpu" (int signed w32)
    ⨾ field "wake_entry" __call_single_node
    ⨾ field "wakee_flips" (int unsigned w32)
    ⨾ field "wakee_flip_decay_ts" (int unsigned w64)
    ⨾ field "last_wakee" pointer
    ⨾ field "recent_used_cpu" (int signed w32)
    ⨾ field "wake_cpu" (int signed w32)
    ⨾ field "ht_sensi_type" (int signed w32)
    ⨾ field "par_moni_info" pointer
    ⨾ field "my_moni_info" pointer
    ⨾ field "on_rq" (int signed w32)
    ⨾ field "prio" (int signed w32)
    ⨾ field "static_prio" (int signed w32)
    ⨾ field "normal_prio" (int signed w32)
    ⨾ field "rt_priority" (int unsigned w32)
    ⨾ bits "" (int signed w64) 64
    ⨾ bits "" (int signed w64) 64
    ⨾ field "se" sched_entity
    ⨾ field "bt" sched_bt_entity
    ⨾ field "rt" sched_rt_entity
    ⨾ field "dl" sched_dl_entity
    ⨾ field "scx" sched_ext_entity
    ⨾ field "sched_class" pointer
    ⨾ field "core_node" rb_node
    ⨾ field "core_cookie" (int unsigned w64)
    ⨾ field "core_occupation" (int unsigned w32)
    ⨾ field "sched_task_group" pointer
    ⨾ bits "" (int signed w64) 64
    ⨾ bits "" (int signed w64) 64
    ⨾ bits "" (int signed w64) 64
    ⨾ bits "" (int signed w64) 64
    ⨾ bits "" (int signed w64) 64
    ⨾ field "stats" sched_statistics
    ⨾ field "preempt_notifiers" hlist_head
    ⨾ field "btrace_seq" (int unsigned w32)
    ⨾ field "policy" (int unsigned w32)
    ⨾ field "nr_cpus_allowed" (int signed w32)
    ⨾ field "cpus_ptr" pointer
    ⨾ field "user_cpus_ptr" pointer
    ⨾ field "cpus_mask" cpumask_t
    ⨾ field "migration_pending" pointer
    ⨾ field "migration_disabled" (int unsigned w16)
    ⨾ field "migration_flags" (int unsigned w16)
    ⨾ field "trc_reader_nesting" (int signed w32)
    ⨾ field "trc_ipi_to_cpu" (int signed w32)
    ⨾ field "trc_reader_special" rcu_special
    ⨾ field "trc_holdout_list" list_head
    ⨾ field "trc_blkd_node" list_head
    ⨾ field "trc_blkd_cpu" (int signed w32)
    ⨾ field "sched_info" sched_info
    ⨾ field "tasks" list_head
    ⨾ field "pushable_tasks" plist_node
    ⨾ field "pushable_dl_tasks" rb_node
    ⨾ field "mm" pointer
    ⨾ field "active_mm" pointer
    ⨾ field "exit_state" (int signed w32)
    ⨾ field "exit_code" (int signed w32)
    ⨾ field "exit_signal" (int signed w32)
    ⨾ field "pdeath_signal" (int signed w32)
    ⨾ field "jobctl" (int unsigned w64)
    ⨾ field "personality" (int unsigned w32)
    ⨾ bits "sched_reset_on_fork" (int unsigned w32) 1
    ⨾ bits "sched_contributes_to_load" (int unsigned w32) 1
    ⨾ bits "sched_migrated" (int unsigned w32) 1
    ⨾ bits "sched_task_hot" (int unsigned w32) 1
    ⨾ bits "" (int signed w64) 28
    ⨾ bits "sched_remote_wakeup" (int unsigned w32) 1
    ⨾ bits "in_execve" (int unsigned w32) 1
    ⨾ bits "in_iowait" (int unsigned w32) 1
    ⨾ bits "io_pending_bt" (int unsigned w32) 1
    ⨾ bits "in_iowait_bt" (int unsigned w32) 1
    ⨾ bits "restore_sigmask" (int unsigned w32) 1
    ⨾ bits "in_user_fault" (int unsigned w32) 1
    ⨾ bits "in_lru_fault" (int unsigned w32) 1
    ⨾ bits "no_cgroup_migration" (int unsigned w32) 1
    ⨾ bits "frozen" (int unsigned w32) 1
    ⨾ bits "use_memdelay" (int unsigned w32) 1
    ⨾ bits "in_memstall" (int unsigned w32) 1
    ⨾ bits "in_eventfd" (int unsigned w32) 1
    ⨾ bits "pasid_activated" (int unsigned w32) 1
    ⨾ bits "reported_split_lock" (int unsigned w32) 1
    ⨾ bits "in_thrashing" (int unsigned w32) 1
    ⨾ field "atomic_flags" (int unsigned w64)
    ⨾ field "restart_block" restart_block
    ⨾ field "pid" pid_t
    ⨾ rest

abbrev pub task_struct_second : Members → Members
task_struct_second rest =
    field "tgid" pid_t
    ⨾ field "stack_canary" (int unsigned w64)
    ⨾ field "real_parent" pointer
    ⨾ field "parent" pointer
    ⨾ field "children" list_head
    ⨾ field "sibling" list_head
    ⨾ field "group_leader" pointer
    ⨾ field "ptraced" list_head
    ⨾ field "ptrace_entry" list_head
    ⨾ field "thread_pid" pointer
    ⨾ field "pid_links" (array hlist_node 4)
    ⨾ field "thread_group" list_head
    ⨾ field "thread_node" list_head
    ⨾ field "vfork_done" pointer
    ⨾ field "set_child_tid" pointer
    ⨾ field "clear_child_tid" pointer
    ⨾ field "worker_private" pointer
    ⨾ field "utime" u64
    ⨾ field "stime" u64
    ⨾ field "gtime" u64
    ⨾ field "prev_cputime" prev_cputime
    ⨾ field "nvcsw" (int unsigned w64)
    ⨾ field "nivcsw" (int unsigned w64)
    ⨾ field "start_time" u64
    ⨾ field "start_boottime" u64
    ⨾ field "min_flt" (int unsigned w64)
    ⨾ field "maj_flt" (int unsigned w64)
    ⨾ field "posix_cputimers" posix_cputimers
    ⨾ field "posix_cputimers_work" posix_cputimers_work
    ⨾ field "ptracer_cred" pointer
    ⨾ field "real_cred" pointer
    ⨾ field "cred" pointer
    ⨾ field "cached_requested_key" pointer
    ⨾ field "comm" (array (int signed w8) 16)
    ⨾ field "nameidata" pointer
    ⨾ field "sysvsem" sysv_sem
    ⨾ field "sysvshm" sysv_shm
    ⨾ field "last_switch_count" (int unsigned w64)
    ⨾ field "last_switch_time" (int unsigned w64)
    ⨾ field "fs" pointer
    ⨾ field "files" pointer
    ⨾ field "io_uring" pointer
    ⨾ field "nsproxy" pointer
    ⨾ field "signal" pointer
    ⨾ field "sighand" pointer
    ⨾ field "blocked" sigset_t
    ⨾ field "real_blocked" sigset_t
    ⨾ field "saved_sigmask" sigset_t
    ⨾ field "pending" sigpending
    ⨾ field "sas_ss_sp" (int unsigned w64)
    ⨾ field "sas_ss_size" size_t
    ⨾ field "sas_ss_flags" (int unsigned w32)
    ⨾ field "task_works" pointer
    ⨾ field "audit_context" pointer
    ⨾ field "loginuid" kuid_t
    ⨾ field "sessionid" (int unsigned w32)
    ⨾ field "seccomp" seccomp
    ⨾ field "syscall_dispatch" syscall_user_dispatch
    ⨾ field "parent_exec_id" u64
    ⨾ field "self_exec_id" u64
    ⨾ field "alloc_lock" spinlock_t
    ⨾ field "pi_lock" raw_spinlock_t
    ⨾ field "wake_q" wake_q_node
    ⨾ field "pi_waiters" rb_root_cached
    ⨾ field "pi_top_task" pointer
    ⨾ field "pi_blocked_on" pointer
    ⨾ field "blocker" (int unsigned w64)
    ⨾ field "journal_info" pointer
    ⨾ field "bio_list" pointer
    ⨾ field "plug" pointer
    ⨾ field "reclaim_state" pointer
    ⨾ field "io_context" pointer
    ⨾ field "capture_control" pointer
    ⨾ field "ptrace_message" (int unsigned w64)
    ⨾ field "last_siginfo" pointer
    ⨾ field "ioac" task_io_accounting
    ⨾ field "psi_flags" (int unsigned w32)
    ⨾ field "acct_rss_mem1" u64
    ⨾ field "acct_vm_mem1" u64
    ⨾ field "acct_timexpd" u64
    ⨾ field "mems_allowed" nodemask_t
    ⨾ field "mems_allowed_seq" seqcount_spinlock_t
    ⨾ field "cpuset_mem_spread_rotor" (int signed w32)
    ⨾ field "cpuset_slab_spread_rotor" (int signed w32)
    ⨾ field "cgroups" pointer
    ⨾ field "cg_list" list_head
    ⨾ field "closid" u32
    ⨾ field "rmid" u32
    ⨾ field "robust_list" pointer
    ⨾ field "compat_robust_list" pointer
    ⨾ field "pi_state_list" list_head
    ⨾ field "pi_state_cache" pointer
    ⨾ field "futex_exit_mutex" mutex
    ⨾ rest
