-- ===== src/Vmlinux/Fpu.antt =====
-- Of bpf/vmlinux.h: a task's processor state.
use ebpf_docker_anormaly_det.CTypes.{
  CType, array, bits, done, field, int, pointer, signed, struct, union, unsigned, w16, w32, w64,
  ◌⨾◌,
}
use ebpf_docker_anormaly_det.Vmlinux.Words.{u16, u32, u64, u8}

abbrev pub desc_struct : CType
desc_struct = struct (
    field "limit0" u16
    ⨾ field "base0" u16
    ⨾ bits "base1" u16 8
    ⨾ bits "type" u16 4
    ⨾ bits "s" u16 1
    ⨾ bits "dpl" u16 2
    ⨾ bits "p" u16 1
    ⨾ bits "limit1" u16 4
    ⨾ bits "avl" u16 1
    ⨾ bits "l" u16 1
    ⨾ bits "d" u16 1
    ⨾ bits "g" u16 1
    ⨾ bits "base2" u16 8
    ⨾ done)

abbrev pub fpu_state_perm : CType
fpu_state_perm = struct (
    field "__state_perm" u64
    ⨾ field "__state_size" (int unsigned w32)
    ⨾ field "__user_state_size" (int unsigned w32)
    ⨾ done)

abbrev pub fregs_state : CType
fregs_state = struct (
    field "cwd" u32
    ⨾ field "swd" u32
    ⨾ field "twd" u32
    ⨾ field "fip" u32
    ⨾ field "fcs" u32
    ⨾ field "foo" u32
    ⨾ field "fos" u32
    ⨾ field "st_space" (array u32 20)
    ⨾ field "status" u32
    ⨾ done)

abbrev pub fxregs_state : CType
fxregs_state = struct (
    field "cwd" u16
    ⨾ field "swd" u16
    ⨾ field "twd" u16
    ⨾ field "fop" u16
    ⨾ field "" (
        union (
          field "" (struct (field "rip" u64 ⨾ field "rdp" u64 ⨾ done))
          ⨾ field "" (
              struct (field "fip" u32 ⨾ field "fcs" u32 ⨾ field "foo" u32 ⨾ field "fos" u32 ⨾ done))
          ⨾ done))
    ⨾ field "mxcsr" u32
    ⨾ field "mxcsr_mask" u32
    ⨾ field "st_space" (array u32 32)
    ⨾ field "xmm_space" (array u32 64)
    ⨾ field "padding" (array u32 12)
    ⨾ field "" (union (field "padding1" (array u32 12) ⨾ field "sw_reserved" (array u32 12) ⨾ done))
    ⨾ done)

abbrev pub swregs_state : CType
swregs_state = struct (
    field "cwd" u32
    ⨾ field "swd" u32
    ⨾ field "twd" u32
    ⨾ field "fip" u32
    ⨾ field "fcs" u32
    ⨾ field "foo" u32
    ⨾ field "fos" u32
    ⨾ field "st_space" (array u32 20)
    ⨾ field "ftop" u8
    ⨾ field "changed" u8
    ⨾ field "lookahead" u8
    ⨾ field "no_update" u8
    ⨾ field "rm" u8
    ⨾ field "alimit" u8
    ⨾ field "info" pointer
    ⨾ field "entry_eip" u32
    ⨾ done)

abbrev pub xstate_header : CType
xstate_header =
    struct (field "xfeatures" u64 ⨾ field "xcomp_bv" u64 ⨾ field "reserved" (array u64 6) ⨾ done)

abbrev pub xregs_state : CType
xregs_state = struct (
    field "i387" fxregs_state
    ⨾ field "header" xstate_header
    ⨾ field "extended_state_area" (array u8 0)
    ⨾ done)

abbrev pub fpregs_state : CType
fpregs_state = union (
    field "fsave" fregs_state
    ⨾ field "fxsave" fxregs_state
    ⨾ field "soft" swregs_state
    ⨾ field "xsave" xregs_state
    ⨾ field "__padding" (array u8 4096)
    ⨾ done)

abbrev pub fpstate : CType
fpstate = struct (
    field "size" (int unsigned w32)
    ⨾ field "user_size" (int unsigned w32)
    ⨾ field "xfeatures" u64
    ⨾ field "user_xfeatures" u64
    ⨾ field "xfd" u64
    ⨾ bits "is_valloc" (int unsigned w32) 1
    ⨾ bits "is_guest" (int unsigned w32) 1
    ⨾ bits "is_confidential" (int unsigned w32) 1
    ⨾ bits "in_use" (int unsigned w32) 1
    ⨾ bits "" (int signed w64) 64
    ⨾ bits "" (int signed w64) 64
    ⨾ bits "" (int signed w64) 64
    ⨾ field "regs" fpregs_state
    ⨾ done)

abbrev pub fpu : CType
fpu = struct (
    field "last_cpu" (int unsigned w32)
    ⨾ field "avx512_timestamp" (int unsigned w64)
    ⨾ field "fpstate" pointer
    ⨾ field "__task_fpstate" pointer
    ⨾ field "perm" fpu_state_perm
    ⨾ field "guest_perm" fpu_state_perm
    ⨾ field "__fpstate" fpstate
    ⨾ done)

abbrev pub thread_struct : CType
thread_struct = struct (
    field "tls_array" (array desc_struct 3)
    ⨾ field "sp" (int unsigned w64)
    ⨾ field "es" (int unsigned w16)
    ⨾ field "ds" (int unsigned w16)
    ⨾ field "fsindex" (int unsigned w16)
    ⨾ field "gsindex" (int unsigned w16)
    ⨾ field "fsbase" (int unsigned w64)
    ⨾ field "gsbase" (int unsigned w64)
    ⨾ field "ptrace_bps" (array pointer 4)
    ⨾ field "virtual_dr6" (int unsigned w64)
    ⨾ field "ptrace_dr7" (int unsigned w64)
    ⨾ field "cr2" (int unsigned w64)
    ⨾ field "trap_nr" (int unsigned w64)
    ⨾ field "error_code" (int unsigned w64)
    ⨾ field "io_bitmap" pointer
    ⨾ field "iopl_emul" (int unsigned w64)
    ⨾ bits "iopl_warn" (int unsigned w32) 1
    ⨾ field "pkru" u32
    ⨾ bits "" (int signed w64) 64
    ⨾ bits "" (int signed w64) 64
    ⨾ bits "" (int signed w64) 64
    ⨾ bits "" (int signed w64) 64
    ⨾ bits "" (int signed w64) 64
    ⨾ field "fpu" fpu
    ⨾ done)
