-- ===== src/Syscalls/Numbers.antt =====
-- The x86_64 system call numbers that bpf/syscall_trace.bpf.c defines (`_NR_*`).
use Prim.Native.Nat.{ℕ}

abbrev pub nr_read : ℕ
nr_read = 0

abbrev pub nr_write : ℕ
nr_write = 1

abbrev pub nr_open : ℕ
nr_open = 2

abbrev pub nr_close : ℕ
nr_close = 3

abbrev pub nr_pread64 : ℕ
nr_pread64 = 17

abbrev pub nr_pwrite64 : ℕ
nr_pwrite64 = 18

abbrev pub nr_socket : ℕ
nr_socket = 41

abbrev pub nr_connect : ℕ
nr_connect = 42

abbrev pub nr_accept : ℕ
nr_accept = 43

abbrev pub nr_sendto : ℕ
nr_sendto = 44

abbrev pub nr_recvfrom : ℕ
nr_recvfrom = 45

abbrev pub nr_sendmsg : ℕ
nr_sendmsg = 46

abbrev pub nr_recvmsg : ℕ
nr_recvmsg = 47

abbrev pub nr_bind : ℕ
nr_bind = 49

abbrev pub nr_listen : ℕ
nr_listen = 50

abbrev pub nr_accept4 : ℕ
nr_accept4 = 288

abbrev pub nr_clone : ℕ
nr_clone = 56

abbrev pub nr_fork : ℕ
nr_fork = 57

abbrev pub nr_vfork : ℕ
nr_vfork = 58

abbrev pub nr_execve : ℕ
nr_execve = 59

abbrev pub nr_kill : ℕ
nr_kill = 62

abbrev pub nr_ptrace : ℕ
nr_ptrace = 101

abbrev pub nr_setuid : ℕ
nr_setuid = 105

abbrev pub nr_setgid : ℕ
nr_setgid = 106

abbrev pub nr_setreuid : ℕ
nr_setreuid = 113

abbrev pub nr_setregid : ℕ
nr_setregid = 114

abbrev pub nr_capset : ℕ
nr_capset = 126

abbrev pub nr_unlink : ℕ
nr_unlink = 87

abbrev pub nr_rename : ℕ
nr_rename = 82

abbrev pub nr_chmod : ℕ
nr_chmod = 90

abbrev pub nr_fchmod : ℕ
nr_fchmod = 91

abbrev pub nr_chown : ℕ
nr_chown = 92

abbrev pub nr_fchown : ℕ
nr_fchown = 93

abbrev pub nr_lchown : ℕ
nr_lchown = 94

abbrev pub nr_mount : ℕ
nr_mount = 165

abbrev pub nr_umount2 : ℕ
nr_umount2 = 166

abbrev pub nr_unshare : ℕ
nr_unshare = 310

abbrev pub nr_setns : ℕ
nr_setns = 308

abbrev pub nr_openat : ℕ
nr_openat = 257

abbrev pub nr_bpf : ℕ
nr_bpf = 321

abbrev pub nr_execveat : ℕ
nr_execveat = 322

abbrev pub nr_unlinkat : ℕ
nr_unlinkat = 263

abbrev pub nr_renameat : ℕ
nr_renameat = 264

abbrev pub nr_renameat2 : ℕ
nr_renameat2 = 316

abbrev pub nr_fchmodat : ℕ
nr_fchmodat = 268

abbrev pub nr_fchownat : ℕ
nr_fchownat = 260

abbrev pub nr_clone3 : ℕ
nr_clone3 = 435

abbrev pub nr_openat2 : ℕ
nr_openat2 = 437

abbrev pub nr_mmap : ℕ
nr_mmap = 9

abbrev pub nr_mprotect : ℕ
nr_mprotect = 10

abbrev pub nr_brk : ℕ
nr_brk = 12
