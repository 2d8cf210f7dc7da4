-- ===== src/Vmlinux.antt =====
-- The types of bpf/vmlinux.h that the BPF programs reach: each structure, union, enumeration and
-- typedef, in the order of the file, with its members in their order.
pub mod Words
pub mod Locks
pub mod Sched
pub mod Accounting
pub mod Limits
pub mod Fpu
pub mod TaskState
pub mod Task
pub mod Registers
pub mod Tracepoints
pub mod MapTypes
pub mod Helpers
pub mod Net
pub mod SkBuff
pub mod Sock
pub mod Layout
