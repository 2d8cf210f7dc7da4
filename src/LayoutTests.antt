-- ===== src/LayoutTests.antt =====
-- Layouts of the types of bpf/vmlinux.h.
use ebpf_docker_anormaly_det.Prelude.{
  ℕ, ◌/◌, ◌≡◌, refl, true, Option, none, some, String, List, [], ◌∷◌, map, ◌>>=◌,
}
use ebpf_docker_anormaly_det.CTypes.{
  CType, int, unsigned, w16, size_of, find_in, follow, whole, slot,
}
use ebpf_docker_anormaly_det.Vmlinux.Task.{task_struct}
use ebpf_docker_anormaly_det.Vmlinux.Fpu.{desc_struct}
use ebpf_docker_anormaly_det.Vmlinux.Registers.{pt_regs}
use ebpf_docker_anormaly_det.Vmlinux.Sock.{sock}
use ebpf_docker_anormaly_det.Vmlinux.SkBuff.{sk_buff}
use ebpf_docker_anormaly_det.Vmlinux.Tracepoints.{
  trace_event_raw_sched_switch, trace_event_raw_sched_process_template,
}

-- The place of a chain of names, in bytes, and its size.
abbrev place : CType → List String → Option (ℕ × ℕ)
place t xs = follow (whole t) xs >>= λ s. some (s.start / 8, s.width / 8)

-- The explicit padding puts the entity, its load average and the floating-point state at the start of
-- cache lines of 64 bytes.
task_struct_places :
    map (place task_struct) (
      ("se" ∷ [])
      ∷ ("se" ∷ "avg" ∷ [])
      ∷ ("thread" ∷ "fpu" ∷ "__fpstate" ∷ "regs" ∷ [])
      ∷ ("comm" ∷ [])
      ∷ ("no_such_member" ∷ [])
      ∷ [])
    ≡ some (192, 320) ∷ some (384, 64) ∷ some (10304, 4096) ∷ some (3656, 16) ∷ none ∷ []
unfolding follow size_of
task_struct_places = refl

sizes :
    map size_of (
      task_struct ∷ pt_regs ∷ trace_event_raw_sched_switch ∷ trace_event_raw_sched_process_template
      ∷ sk_buff ∷ sock ∷ [])
    ≡ 14400 ∷ 168 ∷ 64 ∷ 32 ∷ 296 ∷ 896 ∷ []
unfolding size_of
sizes = refl

-- Bit-fields share a unit, and the segment descriptor has eight bytes.
descriptor_bits :
    (size_of desc_struct ≡ 8)
    × (find_in "type" desc_struct ≡ some (slot 40 4 (int unsigned w16) true))
    × (find_in "base2" desc_struct ≡ some (slot 56 8 (int unsigned w16) true))
unfolding find_in size_of
descriptor_bits = (refl, refl, refl)
