-- ===== src/Vmlinux/SkBuff.antt =====
-- Of bpf/vmlinux.h: `struct sk_buff`.
use ebpf_docker_anormaly_det.CTypes.{
  CType, Members, array, bits, done, field, int, pointer, signed, struct, union, unsigned, w32, w64,
  w8, ◌⨾◌,
}
use ebpf_docker_anormaly_det.Vmlinux.Words.{__u16, __u32, __u8, u16, u32, u64}
use ebpf_docker_anormaly_det.Vmlinux.Locks.{list_head, rb_node, refcount_t}
use ebpf_docker_anormaly_det.Vmlinux.Sched.{ktime_t, llist_node}
use ebpf_docker_anormaly_det.Vmlinux.Net.{__be16, __wsum, sk_buff_data_t}

abbrev pub sk_buff_first : Members → Members
sk_buff_first rest =
    field "" (
      union (
        field "" (
          struct (
            field "next" pointer
            ⨾ field "prev" pointer
            ⨾ field "" (union (field "dev" pointer ⨾ field "dev_scratch" (int unsigned w64) ⨾ done))
            ⨾ field "in_dev" u64
            ⨾ field "indev_ifindex" (int signed w32)
            ⨾ done))
        ⨾ field "rbnode" rb_node
        ⨾ field "list" list_head
        ⨾ field "ll_node" llist_node
        ⨾ done))
    ⨾ field "sk" pointer
    ⨾ field "" (union (field "tstamp" ktime_t ⨾ field "skb_mstamp_ns" u64 ⨾ done))
    ⨾ field "cb" (array (int signed w8) 48)
    ⨾ field "physical_flag" (int unsigned w64)
    ⨾ field "" (
        union (
          field ""
            (struct (field "_skb_refdst" (int unsigned w64) ⨾ field "destructor" pointer ⨾ done))
          ⨾ field "tcp_tsorted_anchor" list_head
          ⨾ field "_sk_redir" (int unsigned w64)
          ⨾ done))
    ⨾ field "_nfct" (int unsigned w64)
    ⨾ field "len" (int unsigned w32)
    ⨾ field "data_len" (int unsigned w32)
    ⨾ field "mac_len" __u16
    ⨾ field "hdr_len" __u16
    ⨾ field "queue_mapping" __u16
    ⨾ field "__cloned_offset" (array __u8 0)
    ⨾ bits "cloned" __u8 1
    ⨾ bits "nohdr" __u8 1
    ⨾ bits "fclone" __u8 2
    ⨾ bits "peeked" __u8 1
    ⨾ bits "head_frag" __u8 1
    ⨾ rest

abbrev pub sk_buff_last : Members → Members
sk_buff_last rest =
    bits "pfmemalloc" __u8 1
    ⨾ bits "pp_recycle" __u8 1
    ⨾ field "active_extensions" __u8
    ⨾ field "" (
        union (
          field "" (
            struct (
              field "__pkt_type_offset" (array __u8 0)
              ⨾ bits "pkt_type" __u8 3
              ⨾ bits "ignore_df" __u8 1
              ⨾ bits "dst_pending_confirm" __u8 1
              ⨾ bits "ip_summed" __u8 2
              ⨾ bits "ooo_okay" __u8 1
              ⨾ field "__mono_tc_offset" (array __u8 0)
              ⨾ bits "tstamp_type" __u8 1
              ⨾ bits "tc_at_ingress" __u8 1
              ⨾ bits "tc_skip_classify" __u8 1
              ⨾ bits "remcsum_offload" __u8 1
              ⨾ bits "csum_complete_sw" __u8 1
              ⨾ bits "csum_level" __u8 2
              ⨾ bits "inner_protocol_type" __u8 1
              ⨾ bits "l4_hash" __u8 1
              ⨾ bits "sw_hash" __u8 1
              ⨾ bits "wifi_acked_valid" __u8 1
              ⨾ bits "wifi_acked" __u8 1
              ⨾ bits "no_fcs" __u8 1
              ⨾ bits "encapsulation" __u8 1
              ⨾ bits "encap_hdr_csum" __u8 1
              ⨾ bits "csum_valid" __u8 1
              ⨾ bits "ndisc_nodetype" __u8 2
              ⨾ bits "ipvs_property" __u8 1
              ⨾ bits "nf_trace" __u8 1
              ⨾ bits "offload_fwd_mark" __u8 1
              ⨾ bits "offload_l3_fwd_mark" __u8 1
              ⨾ bits "redirected" __u8 1
              ⨾ bits "from_ingress" __u8 1
              ⨾ bits "nf_skip_egress" __u8 1
              ⨾ bits "decrypted" __u8 1
              ⨾ bits "slow_gro" __u8 1
              ⨾ bits "csum_not_inet" __u8 1
              ⨾ field "tc_index" __u16
              ⨾ field "alloc_cpu" u16
              ⨾ field "" (
                  union (
                    field "csum" __wsum
                    ⨾ field ""
                        (struct (field "csum_start" __u16 ⨾ field "csum_offset" __u16 ⨾ done))
                    ⨾ done))
              ⨾ field "priority" __u32
              ⨾ field "skb_iif" (int signed w32)
              ⨾ field "hash" __u32
              ⨾ field "" (
                  union (
                    field "vlan_all" u32
                    ⨾ field "" (struct (field "vlan_proto" __be16 ⨾ field "vlan_tci" __u16 ⨾ done))
                    ⨾ done))
              ⨾ field "" (
                  union (
                    field "napi_id" (int unsigned w32)
                    ⨾ field "sender_cpu" (int unsigned w32)
                    ⨾ done))
              ⨾ field "secmark" __u32
              ⨾ field "" (union (field "mark" __u32 ⨾ field "reserved_tailroom" __u32 ⨾ done))
              ⨾ field "" (union (field "inner_protocol" __be16 ⨾ field "inner_ipproto" __u8 ⨾ done))
              ⨾ field "inner_transport_header" __u16
              ⨾ field "inner_network_header" __u16
              ⨾ field "inner_mac_header" __u16
              ⨾ field "protocol" __be16
              ⨾ field "transport_header" __u16
              ⨾ field "network_header" __u16
              ⨾ field "mac_header" __u16
              ⨾ done))
          ⨾ field "headers" (
              struct (
                field "__pkt_type_offset" (array __u8 0)
                ⨾ bits "pkt_type" __u8 3
                ⨾ bits "ignore_df" __u8 1
                ⨾ bits "dst_pending_confirm" __u8 1
                ⨾ bits "ip_summed" __u8 2
                ⨾ bits "ooo_okay" __u8 1
                ⨾ field "__mono_tc_offset" (array __u8 0)
                ⨾ bits "tstamp_type" __u8 1
                ⨾ bits "tc_at_ingress" __u8 1
                ⨾ bits "tc_skip_classify" __u8 1
                ⨾ bits "remcsum_offload" __u8 1
                ⨾ bits "csum_complete_sw" __u8 1
                ⨾ bits "csum_level" __u8 2
                ⨾ bits "inner_protocol_type" __u8 1
                ⨾ bits "l4_hash" __u8 1
                ⨾ bits "sw_hash" __u8 1
                ⨾ bits "wifi_acked_valid" __u8 1
                ⨾ bits "wifi_acked" __u8 1
                ⨾ bits "no_fcs" __u8 1
                ⨾ bits "encapsulation" __u8 1
                ⨾ bits "encap_hdr_csum" __u8 1
                ⨾ bits "csum_valid" __u8 1
                ⨾ bits "ndisc_nodetype" __u8 2
                ⨾ bits "ipvs_property" __u8 1
                ⨾ bits "nf_trace" __u8 1
                ⨾ bits "offload_fwd_mark" __u8 1
                ⨾ bits "offload_l3_fwd_mark" __u8 1
                ⨾ bits "redirected" __u8 1
                ⨾ bits "from_ingress" __u8 1
                ⨾ bits "nf_skip_egress" __u8 1
                ⨾ bits "decrypted" __u8 1
                ⨾ bits "slow_gro" __u8 1
                ⨾ bits "csum_not_inet" __u8 1
                ⨾ field "tc_index" __u16
                ⨾ field "alloc_cpu" u16
                ⨾ field "" (
                    union (
                      field "csum" __wsum
                      ⨾ field ""
                          (struct (field "csum_start" __u16 ⨾ field "csum_offset" __u16 ⨾ done))
                      ⨾ done))
                ⨾ field "priority" __u32
                ⨾ field "skb_iif" (int signed w32)
                ⨾ field "hash" __u32
                ⨾ field "" (
                    union (
                      field "vlan_all" u32
                      ⨾ field ""
                          (struct (field "vlan_proto" __be16 ⨾ field "vlan_tci" __u16 ⨾ done))
                      ⨾ done))
                ⨾ field "" (
                    union (
                      field "napi_id" (int unsigned w32)
                      ⨾ field "sender_cpu" (int unsigned w32)
                      ⨾ done))
                ⨾ field "secmark" __u32
                ⨾ field "" (union (field "mark" __u32 ⨾ field "reserved_tailroom" __u32 ⨾ done))
                ⨾ field ""
                    (union (field "inner_protocol" __be16 ⨾ field "inner_ipproto" __u8 ⨾ done))
                ⨾ field "inner_transport_header" __u16
                ⨾ field "inner_network_header" __u16
                ⨾ field "inner_mac_header" __u16
                ⨾ field "protocol" __be16
                ⨾ field "transport_header" __u16
                ⨾ field "network_header" __u16
                ⨾ field "mac_header" __u16
                ⨾ done))
          ⨾ done))
    ⨾ field "tail" sk_buff_data_t
    ⨾ field "end" sk_buff_data_t
    ⨾ field "head" pointer
    ⨾ field "data" pointer
    ⨾ field "truesize" (int unsigned w32)
    ⨾ field "users" refcount_t
    ⨾ field "extensions" pointer
    ⨾ field "kabi_reserved1" (int unsigned w64)
    ⨾ field "kabi_reserved2" (int unsigned w64)
    ⨾ field "kabi_reserved3" (int unsigned w64)
    ⨾ field "kabi_reserved4" (int unsigned w64)
    ⨾ field "kabi_reserved5" (int unsigned w64)
    ⨾ rest

abbrev pub sk_buff : CType
sk_buff = struct (sk_buff_first (sk_buff_last done))
