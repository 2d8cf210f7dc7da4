-- ===== src/Vmlinux/Registers.antt =====
-- Of bpf/vmlinux.h: the registers that a probe finds.
use ebpf_docker_anormaly_det.CTypes.{
  CType, bits, done, field, int, signed, struct, union, unsigned, w16, w32, w64, w8, ◌⨾◌,
}
use ebpf_docker_anormaly_det.Vmlinux.Words.{u16, u64}

abbrev pub fred_cs : CType
fred_cs = struct (bits "cs" u64 16 ⨾ bits "sl" u64 2 ⨾ bits "wfe" u64 1 ⨾ done)

abbrev pub fred_ss : CType
fred_ss = struct (
    bits "ss" u64 16
    ⨾ bits "sti" u64 1
    ⨾ bits "swevent" u64 1
    ⨾ bits "nmi" u64 1
    ⨾ bits "" (int signed w32) 13
    ⨾ bits "vector" u64 8
    ⨾ bits "" (int signed w16) 8
    ⨾ bits "type" u64 4
    ⨾ bits "" (int signed w8) 4
    ⨾ bits "enclave" u64 1
    ⨾ bits "lm" u64 1
    ⨾ bits "nested" u64 1
    ⨾ bits "" (int signed w8) 1
    ⨾ bits "insnlen" u64 4
    ⨾ done)

abbrev pub pt_regs : CType
pt_regs = struct (
    field "r15" (int unsigned w64)
    ⨾ field "r14" (int unsigned w64)
    ⨾ field "r13" (int unsigned w64)
    ⨾ field "r12" (int unsigned w64)
    ⨾ field "bp" (int unsigned w64)
    ⨾ field "bx" (int unsigned w64)
    ⨾ field "r11" (int unsigned w64)
    ⨾ field "r10" (int unsigned w64)
    ⨾ field "r9" (int unsigned w64)
    ⨾ field "r8" (int unsigned w64)
    ⨾ field "ax" (int unsigned w64)
    ⨾ field "cx" (int unsigned w64)
    ⨾ field "dx" (int unsigned w64)
    ⨾ field "si" (int unsigned w64)
    ⨾ field "di" (int unsigned w64)
    ⨾ field "orig_ax" (int unsigned w64)
    ⨾ field "ip" (int unsigned w64)
    ⨾ field "" (union (field "cs" u16 ⨾ field "csx" u64 ⨾ field "fred_cs" fred_cs ⨾ done))
    ⨾ field "flags" (int unsigned w64)
    ⨾ field "sp" (int unsigned w64)
    ⨾ field "" (union (field "ss" u16 ⨾ field "ssx" u64 ⨾ field "fred_ss" fred_ss ⨾ done))
    ⨾ done)
