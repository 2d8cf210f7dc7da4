-- ===== src/Collector/Syscalls/Fields.antt =====
-- The histogram operations of pkg/collector/syscalls/collector.go, counter by counter.
use ebpf_docker_anormaly_det.Prelude.{◌≡◌, refl, add64}
use ebpf_docker_anormaly_det.Syscalls.Counts.{
  Category, SyscallCounts, bucket, file_open, file_close, file_read, file_write, file_unlink,
  file_rename, file_perm, net_socket, net_connect, net_bind, net_listen, net_accept, net_send,
  net_recv, proc_exec, proc_fork, proc_kill, priv_escalate, escape_attempt, mem_layout, other,
}
use ebpf_docker_anormaly_det.Collector.Syscalls.{add_counts, safe, subtract}

-- Each counter is added to its own sum.
pub bucket-add_counts :
    (s v : SyscallCounts) (c : Category)
    → bucket (add_counts s v) c ≡ add64 (bucket s c) (bucket v c)
unfolding add_counts
bucket-add_counts s v file_open = refl
bucket-add_counts s v file_close = refl
bucket-add_counts s v file_read = refl
bucket-add_counts s v file_write = refl
bucket-add_counts s v file_unlink = refl
bucket-add_counts s v file_rename = refl
bucket-add_counts s v file_perm = refl
bucket-add_counts s v net_socket = refl
bucket-add_counts s v net_connect = refl
bucket-add_counts s v net_bind = refl
bucket-add_counts s v net_listen = refl
bucket-add_counts s v net_accept = refl
bucket-add_counts s v net_send = refl
bucket-add_counts s v net_recv = refl
bucket-add_counts s v proc_exec = refl
bucket-add_counts s v proc_fork = refl
bucket-add_counts s v proc_kill = refl
bucket-add_counts s v priv_escalate = refl
bucket-add_counts s v escape_attempt = refl
bucket-add_counts s v mem_layout = refl
bucket-add_counts s v other = refl

pub total-add_counts : (s v : SyscallCounts) → (add_counts s v).total ≡ add64 s.total v.total
unfolding add_counts
total-add_counts s v = refl

-- Each delta is that of its own counter.
pub bucket-subtract :
    (t p : SyscallCounts) (c : Category) → bucket (subtract t p) c ≡ safe (bucket t c) (bucket p c)
unfolding subtract
bucket-subtract t p file_open = refl
bucket-subtract t p file_close = refl
bucket-subtract t p file_read = refl
bucket-subtract t p file_write = refl
bucket-subtract t p file_unlink = refl
bucket-subtract t p file_rename = refl
bucket-subtract t p file_perm = refl
bucket-subtract t p net_socket = refl
bucket-subtract t p net_connect = refl
bucket-subtract t p net_bind = refl
bucket-subtract t p net_listen = refl
bucket-subtract t p net_accept = refl
bucket-subtract t p net_send = refl
bucket-subtract t p net_recv = refl
bucket-subtract t p proc_exec = refl
bucket-subtract t p proc_fork = refl
bucket-subtract t p proc_kill = refl
bucket-subtract t p priv_escalate = refl
bucket-subtract t p escape_attempt = refl
bucket-subtract t p mem_layout = refl
bucket-subtract t p other = refl

pub total-subtract : (t p : SyscallCounts) → (subtract t p).total ≡ safe t.total p.total
unfolding subtract
total-subtract t p = refl
