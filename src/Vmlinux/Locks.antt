-- ===== src/Vmlinux/Locks.antt =====
-- Of bpf/vmlinux.h: counters, lists, locks and trees.
use ebpf_docker_anormaly_det.CTypes.{
  CType, array, done, field, int, pointer, signed, struct, union, unsigned, w32, w64, ◌⨾◌,
}
use ebpf_docker_anormaly_det.Vmlinux.Words.{s64, u16, u8}

abbrev pub atomic_t : CType
atomic_t = struct (field "counter" (int signed w32) ⨾ done)

abbrev pub atomic64_t : CType
atomic64_t = struct (field "counter" s64 ⨾ done)

abbrev pub list_head : CType
list_head = struct (field "next" pointer ⨾ field "prev" pointer ⨾ done)

abbrev pub hlist_head : CType
hlist_head = struct (field "first" pointer ⨾ done)

abbrev pub hlist_node : CType
hlist_node = struct (field "next" pointer ⨾ field "pprev" pointer ⨾ done)

abbrev pub callback_head : CType
callback_head = struct (field "next" pointer ⨾ field "func" pointer ⨾ done)

abbrev pub qspinlock : CType
qspinlock = struct (
    field "" (
      union (
        field "val" atomic_t
        ⨾ field "" (struct (field "locked" u8 ⨾ field "pending" u8 ⨾ done))
        ⨾ field "" (struct (field "locked_pending" u16 ⨾ field "tail" u16 ⨾ done))
        ⨾ done))
    ⨾ done)

abbrev pub arch_spinlock_t : CType
arch_spinlock_t = qspinlock

abbrev pub qrwlock : CType
qrwlock = struct (
    field "" (
      union (
        field "cnts" atomic_t
        ⨾ field "" (struct (field "wlocked" u8 ⨾ field "__lstate" (array u8 3) ⨾ done))
        ⨾ done))
    ⨾ field "wait_lock" arch_spinlock_t
    ⨾ done)

abbrev pub arch_rwlock_t : CType
arch_rwlock_t = qrwlock

abbrev pub raw_spinlock : CType
raw_spinlock = struct (field "raw_lock" arch_spinlock_t ⨾ done)

abbrev pub raw_spinlock_t : CType
raw_spinlock_t = raw_spinlock

abbrev pub refcount_struct : CType
refcount_struct = struct (field "refs" atomic_t ⨾ done)

abbrev pub refcount_t : CType
refcount_t = refcount_struct

abbrev pub atomic_long_t : CType
atomic_long_t = atomic64_t

abbrev pub optimistic_spin_queue : CType
optimistic_spin_queue = struct (field "tail" atomic_t ⨾ done)

abbrev pub mutex : CType
mutex = struct (
    field "owner" atomic_long_t
    ⨾ field "wait_lock" raw_spinlock_t
    ⨾ field "osq" optimistic_spin_queue
    ⨾ field "wait_list" list_head
    ⨾ done)

abbrev pub rb_node : CType
rb_node = struct (
    field "__rb_parent_color" (int unsigned w64)
    ⨾ field "rb_right" pointer
    ⨾ field "rb_left" pointer
    ⨾ done)
