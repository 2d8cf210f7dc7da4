-- ===== src/CoRe.antt =====
-- What the BPF programs use of libbpf's CO-RE, which is not part of the repository: reads of a member
-- by its name, with the offset of the running kernel's own type. Programs take them as a parameter.
use ebpf_docker_anormaly_det.Prelude.{
  ℕ, ◌+◌, ◌/◌, ◌≡◌, false, String, Option, none, some, refl, ◌∙◌,
}
use ebpf_docker_anormaly_det.CTypes.{CType, Members, struct, Slot, size_of, find_in}
use ebpf_docker_anormaly_det.Memory.{Memory, load}
use ebpf_docker_anormaly_det.Memory.Fields.{Declares, read_member, read_member_lem}

-- BPF_CORE_READ(base, x), which loads as many bytes as the type of the program's own declaration has,
-- from where the kernel's type has the member. `none`: the kernel does not load the program.
pub record CoreRead : Type 0 where
  pub read : CType → CType → String → ℕ → Memory → Option ℕ
  pub read_found :
      (local target : CType) (x : String) (base : ℕ) (m : Memory) (l s : Slot)
      → find_in x local ≡ some l
      → find_in x target ≡ some s
      → l.packed ≡ false
      → s.packed ≡ false
      → read local target x base m ≡ some (load (size_of l.type) (base + s.start / 8) m)
  pub read_missing :
      (local target : CType) (x : String) (base : ℕ) (m : Memory)
      → find_in x target ≡ none
      → read local target x base m ≡ none

-- When the kernel's structure declares the member with the size that the program knows, the read is
-- that of the member as it stands there.
pub read-declared :
    (core : CoreRead) (local : CType) (l : Slot) (ms : Members) (x : String) (n base : ℕ)
    (m : Memory)
    → find_in x local ≡ some l
    → l.packed ≡ false
    → size_of l.type ≡ n
    → Declares ms x n
    → core.read local (struct ms) x base m ≡ read_member (struct ms) x base m
unfolding find_in
read-declared core local l ms x n base m known whole size d =
    core.read_found local (struct ms) x base m l d.slot known d.found whole d.addressable
    ∙ rw (size, read_member_lem ms x n d base m) refl
