-- ===== src/Syscalls/Counts.antt =====
-- `struct syscall_counts` and the `switch` of `trace_sys_enter` in bpf/syscall_trace.bpf.c.
use ebpf_docker_anormaly_det.Prelude.{
  ℕ, Bool, false, ◌||◌, eqb, if◌then◌else◌, List, [], ◌∷◌, add64,
}
use ebpf_docker_anormaly_det.Syscalls.Numbers.{
  nr_read, nr_write, nr_open, nr_close, nr_pread64, nr_pwrite64, nr_socket, nr_connect, nr_accept,
  nr_sendto, nr_recvfrom, nr_sendmsg, nr_recvmsg, nr_bind, nr_listen, nr_accept4, nr_clone, nr_fork,
  nr_vfork, nr_execve, nr_kill, nr_ptrace, nr_setuid, nr_setgid, nr_setreuid, nr_setregid,
  nr_capset, nr_unlink, nr_rename, nr_chmod, nr_fchmod, nr_chown, nr_fchown, nr_lchown, nr_mount,
  nr_umount2, nr_unshare, nr_setns, nr_openat, nr_bpf, nr_execveat, nr_unlinkat, nr_renameat,
  nr_renameat2, nr_fchmodat, nr_fchownat, nr_clone3, nr_openat2, nr_mmap, nr_mprotect, nr_brk,
}

-- The counters beside `total`, one for each label group of the `switch`.
pub data Category : Type 0 where
  file_open file_close file_read file_write file_unlink file_rename file_perm net_socket net_connect
        net_bind net_listen net_accept net_send net_recv proc_exec proc_fork proc_kill priv_escalate
        escape_attempt mem_layout other :
      Category

pub record SyscallCounts : Type 0 where
  pub total : ℕ
  pub file_open : ℕ
  pub file_close : ℕ
  pub file_read : ℕ
  pub file_write : ℕ
  pub file_unlink : ℕ
  pub file_rename : ℕ
  pub file_perm : ℕ
  pub net_socket : ℕ
  pub net_connect : ℕ
  pub net_bind : ℕ
  pub net_listen : ℕ
  pub net_accept : ℕ
  pub net_send : ℕ
  pub net_recv : ℕ
  pub proc_exec : ℕ
  pub proc_fork : ℕ
  pub proc_kill : ℕ
  pub priv_escalate : ℕ
  pub escape_attempt : ℕ
  pub mem_layout : ℕ
  pub other : ℕ

-- `struct syscall_counts zero = {}`
abbrev pub zero_counts : SyscallCounts
zero_counts = record {
  total = 0;
  file_open = 0;
  file_close = 0;
  file_read = 0;
  file_write = 0;
  file_unlink = 0;
  file_rename = 0;
  file_perm = 0;
  net_socket = 0;
  net_connect = 0;
  net_bind = 0;
  net_listen = 0;
  net_accept = 0;
  net_send = 0;
  net_recv = 0;
  proc_exec = 0;
  proc_fork = 0;
  proc_kill = 0;
  priv_escalate = 0;
  escape_attempt = 0;
  mem_layout = 0;
  other = 0;
}

-- Whether `id` is one of the labels in front of a branch.
abbrev pub one_of : ℕ → List ℕ → Bool
one_of id [] = false
one_of id (n ∷ ns) = eqb id n || one_of id ns

-- The branch that `switch (id)` takes.
unfoldable pub classify : ℕ → Category
classify id =
    if one_of id (nr_open ∷ nr_openat ∷ nr_openat2 ∷ [])
    then file_open
    else if one_of id (nr_close ∷ [])
    then file_close
    else if one_of id (nr_read ∷ nr_pread64 ∷ [])
    then file_read
    else if one_of id (nr_write ∷ nr_pwrite64 ∷ [])
    then file_write
    else if one_of id (nr_unlink ∷ nr_unlinkat ∷ [])
    then file_unlink
    else if one_of id (nr_rename ∷ nr_renameat ∷ nr_renameat2 ∷ [])
    then file_rename
    else if one_of id
        (nr_chmod ∷ nr_fchmod ∷ nr_fchmodat ∷ nr_chown ∷ nr_fchown ∷ nr_lchown ∷ nr_fchownat ∷ [])
    then file_perm
    else if one_of id (nr_socket ∷ [])
    then net_socket
    else if one_of id (nr_connect ∷ [])
    then net_connect
    else if one_of id (nr_bind ∷ [])
    then net_bind
    else if one_of id (nr_listen ∷ [])
    then net_listen
    else if one_of id (nr_accept ∷ nr_accept4 ∷ [])
    then net_accept
    else if one_of id (nr_sendto ∷ nr_sendmsg ∷ [])
    then net_send
    else if one_of id (nr_recvfrom ∷ nr_recvmsg ∷ [])
    then net_recv
    else if one_of id (nr_execve ∷ nr_execveat ∷ [])
    then proc_exec
    else if one_of id (nr_fork ∷ nr_vfork ∷ nr_clone ∷ nr_clone3 ∷ [])
    then proc_fork
    else if one_of id (nr_kill ∷ [])
    then proc_kill
    else if one_of id
        (nr_ptrace ∷ nr_setuid ∷ nr_setgid ∷ nr_setreuid ∷ nr_setregid ∷ nr_capset ∷ [])
    then priv_escalate
    else if one_of id (nr_mount ∷ nr_umount2 ∷ nr_unshare ∷ nr_setns ∷ nr_bpf ∷ [])
    then escape_attempt
    else if one_of id (nr_mmap ∷ nr_mprotect ∷ nr_brk ∷ [])
    then mem_layout
    else other

-- `c->file_open++` and its like
unfoldable pub bump : Category → SyscallCounts → SyscallCounts
bump file_open s = record s { file_open = add64 s.file_open 1 }
bump file_close s = record s { file_close = add64 s.file_close 1 }
bump file_read s = record s { file_read = add64 s.file_read 1 }
bump file_write s = record s { file_write = add64 s.file_write 1 }
bump file_unlink s = record s { file_unlink = add64 s.file_unlink 1 }
bump file_rename s = record s { file_rename = add64 s.file_rename 1 }
bump file_perm s = record s { file_perm = add64 s.file_perm 1 }
bump net_socket s = record s { net_socket = add64 s.net_socket 1 }
bump net_connect s = record s { net_connect = add64 s.net_connect 1 }
bump net_bind s = record s { net_bind = add64 s.net_bind 1 }
bump net_listen s = record s { net_listen = add64 s.net_listen 1 }
bump net_accept s = record s { net_accept = add64 s.net_accept 1 }
bump net_send s = record s { net_send = add64 s.net_send 1 }
bump net_recv s = record s { net_recv = add64 s.net_recv 1 }
bump proc_exec s = record s { proc_exec = add64 s.proc_exec 1 }
bump proc_fork s = record s { proc_fork = add64 s.proc_fork 1 }
bump proc_kill s = record s { proc_kill = add64 s.proc_kill 1 }
bump priv_escalate s = record s { priv_escalate = add64 s.priv_escalate 1 }
bump escape_attempt s = record s { escape_attempt = add64 s.escape_attempt 1 }
bump mem_layout s = record s { mem_layout = add64 s.mem_layout 1 }
bump other s = record s { other = add64 s.other 1 }

-- The counter that a branch increments.
abbrev pub bucket : SyscallCounts → Category → ℕ
bucket s file_open = s.file_open
bucket s file_close = s.file_close
bucket s file_read = s.file_read
bucket s file_write = s.file_write
bucket s file_unlink = s.file_unlink
bucket s file_rename = s.file_rename
bucket s file_perm = s.file_perm
bucket s net_socket = s.net_socket
bucket s net_connect = s.net_connect
bucket s net_bind = s.net_bind
bucket s net_listen = s.net_listen
bucket s net_accept = s.net_accept
bucket s net_send = s.net_send
bucket s net_recv = s.net_recv
bucket s proc_exec = s.proc_exec
bucket s proc_fork = s.proc_fork
bucket s proc_kill = s.proc_kill
bucket s priv_escalate = s.priv_escalate
bucket s escape_attempt = s.escape_attempt
bucket s mem_layout = s.mem_layout
bucket s other = s.other
