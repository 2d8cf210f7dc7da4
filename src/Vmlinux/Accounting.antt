-- ===== src/Vmlinux/Accounting.antt =====
-- Of bpf/vmlinux.h: a task's statistics, timers and signals.
use ebpf_docker_anormaly_det.Prelude.{[], ◌∷◌}
use ebpf_docker_anormaly_det.CTypes.{
  CType, array, bits, done, enum, field, int, pointer, signed, struct, union, unsigned, w32, w64,
  ◌⨾◌,
}
use ebpf_docker_anormaly_det.Vmlinux.Words.{clockid_t, s64, u32, u64, u8}
use ebpf_docker_anormaly_det.Vmlinux.Locks.{callback_head, list_head, mutex, raw_spinlock_t}

abbrev pub sched_statistics : CType
sched_statistics = struct (
    field "wait_start" u64
    ⨾ field "wait_max" u64
    ⨾ field "wait_count" u64
    ⨾ field "wait_sum" u64
    ⨾ field "wait_avg" u64
    ⨾ field "iowait_count" u64
    ⨾ field "iowait_sum" u64
    ⨾ field "sleep_start" u64
    ⨾ field "sleep_max" u64
    ⨾ field "sum_sleep_runtime" s64
    ⨾ field "sleep_avg" u64
    ⨾ field "block_start" u64
    ⨾ field "block_max" u64
    ⨾ field "block_avg" u64
    ⨾ field "sum_block_runtime" s64
    ⨾ field "exec_max" s64
    ⨾ field "slice_max" u64
    ⨾ field "slice_avg" u64
    ⨾ field "wakeup_start" u64
    ⨾ field "running_avg" u64
    ⨾ field "nr_migrations_cold" u64
    ⨾ field "nr_failed_migrations_affine" u64
    ⨾ field "nr_failed_migrations_running" u64
    ⨾ field "nr_failed_migrations_hot" u64
    ⨾ field "nr_forced_migrations" u64
    ⨾ field "nr_wakeups" u64
    ⨾ field "nr_wakeups_sync" u64
    ⨾ field "nr_wakeups_migrate" u64
    ⨾ field "nr_wakeups_local" u64
    ⨾ field "nr_wakeups_remote" u64
    ⨾ field "nr_wakeups_affine" u64
    ⨾ field "nr_wakeups_affine_attempts" u64
    ⨾ field "nr_wakeups_passive" u64
    ⨾ field "nr_wakeups_idle" u64
    ⨾ field "core_forceidle_sum" u64
    ⨾ field "kabi_reserved1" (int unsigned w64)
    ⨾ field "kabi_reserved2" (int unsigned w64)
    ⨾ field "kabi_reserved3" (int unsigned w64)
    ⨾ field "kabi_reserved4" (int unsigned w64)
    ⨾ field "kabi_reserved5" (int unsigned w64)
    ⨾ field "kabi_reserved6" (int unsigned w64)
    ⨾ field "kabi_reserved7" (int unsigned w64)
    ⨾ field "kabi_reserved8" (int unsigned w64)
    ⨾ field "kabi_reserved9" (int unsigned w64)
    ⨾ field "kabi_reserved10" (int unsigned w64)
    ⨾ field "kabi_reserved11" (int unsigned w64)
    ⨾ bits "" (int signed w64) 64
    ⨾ bits "" (int signed w64) 64
    ⨾ done)

abbrev pub cpumask : CType
cpumask = struct (field "bits" (array (int unsigned w64) 128) ⨾ done)

abbrev pub cpumask_t : CType
cpumask_t = cpumask

abbrev pub rcu_special : CType
rcu_special = union (
    field "b" (
      struct
        (field "blocked" u8 ⨾ field "need_qs" u8 ⨾ field "exp_hint" u8 ⨾ field "need_mb" u8 ⨾ done))
    ⨾ field "s" u32
    ⨾ done)

abbrev pub sched_info : CType
sched_info = struct (
    field "pcount" (int unsigned w64)
    ⨾ field "run_delay" (int unsigned w64)
    ⨾ field "last_arrival" (int unsigned w64)
    ⨾ field "last_queued" (int unsigned w64)
    ⨾ field "task_switch" (int unsigned w64)
    ⨾ field "kernel_exec_start" (int unsigned w64)
    ⨾ field "utime" (int unsigned w64)
    ⨾ field "kabi_reserved1" (int unsigned w64)
    ⨾ field "kabi_reserved2" (int unsigned w64)
    ⨾ field "kabi_reserved3" (int unsigned w64)
    ⨾ field "kabi_reserved4" (int unsigned w64)
    ⨾ field "kabi_reserved5" (int unsigned w64)
    ⨾ done)

abbrev pub plist_node : CType
plist_node = struct (
    field "prio" (int signed w32)
    ⨾ field "prio_list" list_head
    ⨾ field "node_list" list_head
    ⨾ done)

abbrev pub timespec_type : CType
timespec_type = enum (("TT_NONE", 0) ∷ ("TT_NATIVE", 1) ∷ ("TT_COMPAT", 2) ∷ [])

abbrev pub restart_block : CType
restart_block = struct (
    field "arch_data" (int unsigned w64)
    ⨾ field "fn" pointer
    ⨾ field "" (
        union (
          field "futex" (
            struct (
              field "uaddr" pointer
              ⨾ field "val" u32
              ⨾ field "flags" u32
              ⨾ field "bitset" u32
              ⨾ field "time" u64
              ⨾ field "uaddr2" pointer
              ⨾ done))
          ⨾ field "nanosleep" (
              struct (
                field "clockid" clockid_t
                ⨾ field "type" timespec_type
                ⨾ field "" (union (field "rmtp" pointer ⨾ field "compat_rmtp" pointer ⨾ done))
                ⨾ field "expires" u64
                ⨾ done))
          ⨾ field "poll" (
              struct (
                field "ufds" pointer
                ⨾ field "nfds" (int signed w32)
                ⨾ field "has_timeout" (int signed w32)
                ⨾ field "tv_sec" (int unsigned w64)
                ⨾ field "tv_nsec" (int unsigned w64)
                ⨾ done))
          ⨾ done))
    ⨾ done)

abbrev pub prev_cputime : CType
prev_cputime = struct (field "utime" u64 ⨾ field "stime" u64 ⨾ field "lock" raw_spinlock_t ⨾ done)

abbrev pub rb_root : CType
rb_root = struct (field "rb_node" pointer ⨾ done)

abbrev pub rb_root_cached : CType
rb_root_cached = struct (field "rb_root" rb_root ⨾ field "rb_leftmost" pointer ⨾ done)

abbrev pub timerqueue_head : CType
timerqueue_head = struct (field "rb_root" rb_root_cached ⨾ done)

abbrev pub posix_cputimer_base : CType
posix_cputimer_base = struct (field "nextevt" u64 ⨾ field "tqhead" timerqueue_head ⨾ done)

abbrev pub posix_cputimers : CType
posix_cputimers = struct (
    field "bases" (array posix_cputimer_base 3)
    ⨾ field "timers_active" (int unsigned w32)
    ⨾ field "expiry_active" (int unsigned w32)
    ⨾ done)

abbrev pub posix_cputimers_work : CType
posix_cputimers_work =
    struct (
      field "work" callback_head
      ⨾ field "mutex" mutex
      ⨾ field "scheduled" (int unsigned w32)
      ⨾ done)

abbrev pub sysv_sem : CType
sysv_sem = struct (field "undo_list" pointer ⨾ done)

abbrev pub sysv_shm : CType
sysv_shm = struct (field "shm_clist" list_head ⨾ done)

abbrev pub sigset_t : CType
sigset_t = struct (field "sig" (array (int unsigned w64) 1) ⨾ done)

abbrev pub sigpending : CType
sigpending = struct (field "list" list_head ⨾ field "signal" sigset_t ⨾ done)
