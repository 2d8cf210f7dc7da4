-- ===== src/Vmlinux/Sock.antt =====
-- Of bpf/vmlinux.h: sockets.
use ebpf_docker_anormaly_det.CTypes.{
  CType, array, bits, done, field, int, pointer, signed, struct, union, unsigned, w16, w32, w64, w8,
  ◌⨾◌,
}
use ebpf_docker_anormaly_det.Vmlinux.Words.{
  __s32, __u16, __u32, bool, gfp_t, pid_t, u16, u32, u64, u8,
}
use ebpf_docker_anormaly_det.Vmlinux.Locks.{
  atomic64_t, atomic_t, callback_head, hlist_node, refcount_t,
}
use ebpf_docker_anormaly_det.Vmlinux.Sched.{ktime_t}
use ebpf_docker_anormaly_det.Vmlinux.Accounting.{rb_root}
use ebpf_docker_anormaly_det.Vmlinux.Limits.{kuid_t, page_frag, spinlock_t, timer_list}
use ebpf_docker_anormaly_det.Vmlinux.Net.{
  __addrpair, __be16, __be32, __portpair, hlist_nulls_node, in6_addr, netdev_features_t,
  possible_net_t, rwlock_t, sk_buff_head, wait_queue_head_t,
}

abbrev pub sock_common : CType
sock_common = struct (
    field "" (
      union (
        field "skc_addrpair" __addrpair
        ⨾ field "" (struct (field "skc_daddr" __be32 ⨾ field "skc_rcv_saddr" __be32 ⨾ done))
        ⨾ done))
    ⨾ field ""
        (union (field "skc_hash" (int unsigned w32) ⨾ field "skc_u16hashes" (array __u16 2) ⨾ done))
    ⨾ field "" (
        union (
          field "skc_portpair" __portpair
          ⨾ field "" (struct (field "skc_dport" __be16 ⨾ field "skc_num" __u16 ⨾ done))
          ⨾ done))
    ⨾ field "skc_family" (int unsigned w16)
    ⨾ field "skc_state" (int unsigned w8)
    ⨾ bits "skc_reuse" (int unsigned w8) 4
    ⨾ bits "skc_reuseport" (int unsigned w8) 1
    ⨾ bits "skc_ipv6only" (int unsigned w8) 1
    ⨾ bits "skc_net_refcnt" (int unsigned w8) 1
    ⨾ field "skc_bound_dev_if" (int signed w32)
    ⨾ field ""
        (union (field "skc_bind_node" hlist_node ⨾ field "skc_portaddr_node" hlist_node ⨾ done))
    ⨾ field "skc_prot" pointer
    ⨾ field "skc_net" possible_net_t
    ⨾ field "skc_v6_daddr" in6_addr
    ⨾ field "skc_v6_rcv_saddr" in6_addr
    ⨾ field "skc_cookie" atomic64_t
    ⨾ field "" (
        union (
          field "skc_flags" (int unsigned w64)
          ⨾ field "skc_listener" pointer
          ⨾ field "skc_tw_dr" pointer
          ⨾ done))
    ⨾ field "skc_dontcopy_begin" (array (int signed w32) 0)
    ⨾ field ""
        (union (field "skc_node" hlist_node ⨾ field "skc_nulls_node" hlist_nulls_node ⨾ done))
    ⨾ field "skc_tx_queue_mapping" (int unsigned w16)
    ⨾ field "skc_rx_queue_mapping" (int unsigned w16)
    ⨾ field "" (
        union (
          field "skc_incoming_cpu" (int signed w32)
          ⨾ field "skc_rcv_wnd" u32
          ⨾ field "skc_tw_rcv_nxt" u32
          ⨾ done))
    ⨾ field "skc_refcnt" refcount_t
    ⨾ field "skc_dontcopy_end" (array (int signed w32) 0)
    ⨾ field "" (
        union (
          field "skc_rxhash" u32
          ⨾ field "skc_window_clamp" u32
          ⨾ field "skc_tw_snd_nxt" u32
          ⨾ done))
    ⨾ done)

abbrev pub socket_lock_t : CType
socket_lock_t = struct (
    field "slock" spinlock_t ⨾ field "owned" (int signed w32) ⨾ field "wq" wait_queue_head_t ⨾ done)

abbrev pub sock_cgroup_data : CType
sock_cgroup_data =
    struct (
      field "cgroup" pointer
      ⨾ field "classid" u32
      ⨾ field "prioidx" u16
      ⨾ field "cs" pointer
      ⨾ done)

abbrev pub netns_tracker : CType
netns_tracker = struct done

abbrev pub tvpc_info : CType
tvpc_info = struct (
    field "vpcid" u32
    ⨾ field "vmip" __be32
    ⨾ field "vip" __be32
    ⨾ field "sport" __be16
    ⨾ field "vport" __be16
    ⨾ done)

abbrev pub sock : CType
sock = struct (
    field "__sk_common" sock_common
    ⨾ field "sk_rx_dst" pointer
    ⨾ field "sk_rx_dst_ifindex" (int signed w32)
    ⨾ field "sk_rx_dst_cookie" u32
    ⨾ field "sk_lock" socket_lock_t
    ⨾ field "sk_drops" atomic_t
    ⨾ field "sk_rcvlowat" (int signed w32)
    ⨾ field "sk_error_queue" sk_buff_head
    ⨾ field "sk_receive_queue" sk_buff_head
    ⨾ field "sk_backlog" (
        struct (
          field "rmem_alloc" atomic_t
          ⨾ field "len" (int signed w32)
          ⨾ field "head" pointer
          ⨾ field "tail" pointer
          ⨾ done))
    ⨾ field "sk_forward_alloc" (int signed w32)
    ⨾ field "sk_reserved_mem" u32
    ⨾ field "sk_ll_usec" (int unsigned w32)
    ⨾ field "sk_napi_id" (int unsigned w32)
    ⨾ field "sk_rcvbuf" (int signed w32)
    ⨾ field "sk_disconnects" (int signed w32)
    ⨾ field "sk_filter" pointer
    ⨾ field "" (union (field "sk_wq" pointer ⨾ field "sk_wq_raw" pointer ⨾ done))
    ⨾ field "sk_policy" (array pointer 2)
    ⨾ field "sk_dst_cache" pointer
    ⨾ field "sk_omem_alloc" atomic_t
    ⨾ field "sk_sndbuf" (int signed w32)
    ⨾ field "sk_wmem_queued" (int signed w32)
    ⨾ field "sk_wmem_alloc" refcount_t
    ⨾ field "sk_tsq_flags" (int unsigned w64)
    ⨾ field "" (union (field "sk_send_head" pointer ⨾ field "tcp_rtx_queue" rb_root ⨾ done))
    ⨾ field "sk_write_queue" sk_buff_head
    ⨾ field "sk_peek_off" __s32
    ⨾ field "sk_write_pending" (int signed w32)
    ⨾ field "sk_dst_pending_confirm" __u32
    ⨾ field "sk_pacing_status" u32
    ⨾ field "sk_sndtimeo" (int signed w64)
    ⨾ field "sk_timer" timer_list
    ⨾ field "sk_priority" __u32
    ⨾ field "sk_mark" __u32
    ⨾ field "sk_pacing_rate" (int unsigned w64)
    ⨾ field "sk_max_pacing_rate" (int unsigned w64)
    ⨾ field "sk_frag" page_frag
    ⨾ field "sk_route_caps" netdev_features_t
    ⨾ field "sk_gso_type" (int signed w32)
    ⨾ field "sk_gso_max_size" (int unsigned w32)
    ⨾ field "sk_allocation" gfp_t
    ⨾ field "sk_txhash" __u32
    ⨾ bits "sk_gso_disabled" u8 1
    ⨾ bits "sk_kern_sock" u8 1
    ⨾ bits "sk_no_check_tx" u8 1
    ⨾ bits "sk_no_check_rx" u8 1
    ⨾ bits "sk_userlocks" u8 4
    ⨾ field "sk_pacing_shift" u8
    ⨾ field "sk_type" u16
    ⨾ field "sk_protocol" u16
    ⨾ field "sk_gso_max_segs" u16
    ⨾ field "sk_lingertime" (int unsigned w64)
    ⨾ field "sk_prot_creator" pointer
    ⨾ field "sk_callback_lock" rwlock_t
    ⨾ field "sk_err" (int signed w32)
    ⨾ field "sk_err_soft" (int signed w32)
    ⨾ field "sk_ack_backlog" u32
    ⨾ field "sk_max_ack_backlog" u32
    ⨾ field "sk_uid" kuid_t
    ⨾ field "sk_txrehash" u8
    ⨾ field "sk_prefer_busy_poll" u8
    ⨾ field "sk_busy_poll_budget" u16
    ⨾ field "sk_peer_lock" spinlock_t
    ⨾ field "sk_bind_phc" (int signed w32)
    ⨾ field "sk_peer_pid" pointer
    ⨾ field "sk_peer_cred" pointer
    ⨾ field "sk_rcvtimeo" (int signed w64)
    ⨾ field "sk_stamp" ktime_t
    ⨾ field "sk_tskey" atomic_t
    ⨾ field "sk_zckey" atomic_t
    ⨾ field "sk_tsflags" u32
    ⨾ field "sk_shutdown" u8
    ⨾ field "sk_clockid" u8
    ⨾ bits "sk_txtime_deadline_mode" u8 1
    ⨾ bits "sk_txtime_report_errors" u8 1
    ⨾ bits "sk_txtime_unused" u8 6
    ⨾ field "sk_use_task_frag" bool
    ⨾ field "sk_socket" pointer
    ⨾ field "sk_user_data" pointer
    ⨾ field "sk_security" pointer
    ⨾ field "sk_cgrp_data" sock_cgroup_data
    ⨾ field "sk_memcg" pointer
    ⨾ field "sk_state_change" pointer
    ⨾ field "sk_data_ready" pointer
    ⨾ field "sk_write_space" pointer
    ⨾ field "sk_error_report" pointer
    ⨾ field "sk_backlog_rcv" pointer
    ⨾ field "sk_validate_xmit_skb" pointer
    ⨾ field "sk_destruct" pointer
    ⨾ field "sk_reuseport_cb" pointer
    ⨾ field "sk_bpf_storage" pointer
    ⨾ field "sk_rcu" callback_head
    ⨾ field "ns_tracker" netns_tracker
    ⨾ field "sk_bind2_node" hlist_node
    ⨾ field "pid" pid_t
    ⨾ field "in_dev" u64
    ⨾ field "indev_ifindex" (int signed w32)
    ⨾ field "sk_tvpc_info" tvpc_info
    ⨾ field "kabi_reserved1" (int unsigned w64)
    ⨾ field "kabi_reserved2" (int unsigned w64)
    ⨾ field "kabi_reserved3" (int unsigned w64)
    ⨾ field "kabi_reserved4" (int unsigned w64)
    ⨾ field "kabi_reserved5" (int unsigned w64)
    ⨾ field "kabi_reserved6" (int unsigned w64)
    ⨾ done)
