-- ===== src/Collector.antt =====
-- The user space collectors of pkg/collector.
mod PrevSeen
pub mod Lifecycle
pub mod ProcExit
pub mod Syscalls
pub mod TcpStats
pub mod PidRuntime
