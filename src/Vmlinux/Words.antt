-- ===== src/Vmlinux/Words.antt =====
-- Of bpf/vmlinux.h: the names of the integer types.
use ebpf_docker_anormaly_det.CTypes.{CType, int, signed, unsigned, w16, w32, w64, w8}

abbrev pub __u8 : CType
__u8 = int unsigned w8

abbrev pub __u16 : CType
__u16 = int unsigned w16

abbrev pub __s32 : CType
__s32 = int signed w32

abbrev pub __u32 : CType
__u32 = int unsigned w32

abbrev pub __s64 : CType
__s64 = int signed w64

abbrev pub __u64 : CType
__u64 = int unsigned w64

abbrev pub u8 : CType
u8 = __u8

abbrev pub u16 : CType
u16 = __u16

abbrev pub s32 : CType
s32 = __s32

abbrev pub u32 : CType
u32 = __u32

abbrev pub s64 : CType
s64 = __s64

abbrev pub u64 : CType
u64 = __u64

abbrev pub __kernel_ulong_t : CType
__kernel_ulong_t = int unsigned w64

abbrev pub __kernel_pid_t : CType
__kernel_pid_t = int signed w32

abbrev pub __kernel_uid32_t : CType
__kernel_uid32_t = int unsigned w32

abbrev pub __kernel_size_t : CType
__kernel_size_t = __kernel_ulong_t

abbrev pub __kernel_clockid_t : CType
__kernel_clockid_t = int signed w32

abbrev pub pid_t : CType
pid_t = __kernel_pid_t

abbrev pub clockid_t : CType
clockid_t = __kernel_clockid_t

abbrev pub bool : CType
bool = int unsigned w8

abbrev pub uid_t : CType
uid_t = __kernel_uid32_t

abbrev pub size_t : CType
size_t = __kernel_size_t

abbrev pub gfp_t : CType
gfp_t = int unsigned w32
