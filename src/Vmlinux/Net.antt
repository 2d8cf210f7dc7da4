-- ===== src/Vmlinux/Net.antt =====
-- Of bpf/vmlinux.h: lists, locks and addresses of the network stack.
use ebpf_docker_anormaly_det.CTypes.{
  CType, array, done, field, int, pointer, struct, union, unsigned, w32, ◌⨾◌,
}
use ebpf_docker_anormaly_det.Vmlinux.Words.{__u16, __u32, __u64, __u8, u64}
use ebpf_docker_anormaly_det.Vmlinux.Locks.{arch_rwlock_t, list_head}
use ebpf_docker_anormaly_det.Vmlinux.Limits.{spinlock_t}

abbrev pub wait_queue_head : CType
wait_queue_head = struct (field "lock" spinlock_t ⨾ field "head" list_head ⨾ done)

abbrev pub wait_queue_head_t : CType
wait_queue_head_t = wait_queue_head

abbrev pub rwlock_t : CType
rwlock_t = struct (field "raw_lock" arch_rwlock_t ⨾ done)

abbrev pub hlist_nulls_node : CType
hlist_nulls_node = struct (field "next" pointer ⨾ field "pprev" pointer ⨾ done)

abbrev pub __be16 : CType
__be16 = __u16

abbrev pub __be32 : CType
__be32 = __u32

abbrev pub __wsum : CType
__wsum = __u32

abbrev pub sk_buff_data_t : CType
sk_buff_data_t = int unsigned w32

abbrev pub netdev_features_t : CType
netdev_features_t = u64

abbrev pub possible_net_t : CType
possible_net_t = struct (field "net" pointer ⨾ done)

abbrev pub in6_addr : CType
in6_addr = struct (
    field "in6_u" (
      union (
        field "u6_addr8" (array __u8 16)
        ⨾ field "u6_addr16" (array __be16 8)
        ⨾ field "u6_addr32" (array __be32 4)
        ⨾ done))
    ⨾ done)

abbrev pub sk_buff_list : CType
sk_buff_list = struct (field "next" pointer ⨾ field "prev" pointer ⨾ done)

abbrev pub sk_buff_head : CType
sk_buff_head = struct (
    field "" (
      union (
        field "" (struct (field "next" pointer ⨾ field "prev" pointer ⨾ done))
        ⨾ field "list" sk_buff_list
        ⨾ done))
    ⨾ field "qlen" __u32
    ⨾ field "lock" spinlock_t
    ⨾ done)

abbrev pub __addrpair : CType
__addrpair = __u64

abbrev pub __portpair : CType
__portpair = __u32
