-- ===== src/Lib.antt =====
-- A model of an anomaly detector for containers: BPF programs count in the kernel what containers
-- do, Go collectors poll or read the counts, and an aggregator turns them into one feature vector
-- for each container and window, which go to a CSV file for offline detection.
--
-- Parts and files
--   * bpf/syscall_trace.bpf.c: `Syscalls` (the program at sys_enter), with the numbers of the calls
--     in `Syscalls.Numbers`, and `struct syscall_counts` and the `switch` in `Syscalls.Counts`.
--   * bpf/tcp_stats.bpf.c: `TcpStats` (`bump` and the three probes), the probes' arguments in the
--     registers in `TcpStats.Arguments`, and the counters in memory in `TcpStats.Stored`.
--   * bpf/pid_runtime.bpf.c: `PidRuntime` (the program at sched_switch); the bytes of the event's
--     record, from bpf/vmlinux.h, are `PidRuntime.Record`, and its reads of the record that the
--     kernel fills in memory `PidRuntime.Tracepoint`.
--   * bpf/proc_exit.bpf.c: `ProcExit` (`handle_proc_exit` and the bytes of its event), with its reads
--     of the exiting task in `ProcExit.Task`.
--   * bpf/vmlinux.h: `Vmlinux`, a C type for each structure, union, enumeration and typedef that
--     task_struct, pt_regs, sock, sk_buff and the records of the scheduler tracepoints hold, with
--     the types of maps and the numbers of helpers.
--   * The maps, sections and structures that the files of bpf/ declare: `BpfObjects`.
--   * pkg/collector/procexit/collector.go: `Collector.ProcExit` (the loop of `run`, `Signal`,
--     `Status`).
--   * pkg/collector/syscalls/collector.go: `Collector.Syscalls` (`pollOnce` as `poll_once`, which is
--     `collect`, `evict` and `emit`).
--   * pkg/collector/tcpstats/collector.go: `Collector.TcpStats` (`pollOnce` as `poll_once`, which is
--     `drain` and `emit`).
--   * pkg/collector/pidruntime/collector.go: `Collector.PidRuntime` (`pollOnce` as `poll_once`).
--   * `New` of these four collectors: `Collector.Lifecycle`, in which the success of each call that
--     loads or attaches is an argument.
--   * pkg/feature/aggregator.go: `Feature` (`accFor` as `update_acc`, the ingest methods as
--     `ingest_exit` and so on, the body of a tick of `Run` as `run_tick`), with its types in
--     `Feature.Types`, and `Run` among the goroutines around it in `Feature.Stop`.
--   * pkg/feature/csv.go: `Feature.Encoder` (`Headers`, `Write`, `NewEncoder`).
--   * pkg/container/resolver.go: `Resolver` (`Refresh`, `Resolve`, `ResolveFast` and the caches), with
--     the parsers `readStartTimeTicks` in `Resolver.ProcFiles`, `readCgroupProcs` in
--     `Resolver.CgroupProcs` and `parseContainerIDFromCgroup` in `Resolver.ContainerId`.
--   * `UpdateContainers` of pkg/collector/syscalls/collector.go: `Collector.Syscalls.Containers`; the
--     indices that cmd/agent/main.go assigns: `Agent` (`updateMappings`); its loop: `Agent.Loop`; a
--     round of its `pollCgroup`: `Agent.Cgroups`.
--   * pkg/cgroup/reader.go: `CgroupFiles` (`readCPUStat`, `readIOStat`), `CgroupFiles.Memory`
--     (`readPressure`, `readMemory`) and `CgroupFiles.Snapshot` (`PathForContainer`, `Read`).
--   * bpf/test.bpf.c: `ExitCount`.
-- The parts interact through the kernel's maps: a BPF program writes what a poller reads. The
-- pollers' rows are the arguments of the ingest methods. The agent assigns the indices by which
-- the kernel keys the histograms, and the resolver names the containers of processes.
--
-- How the code is modelled
--   * The kernel's maps are records of operations with laws (`Kernel`), parameters of the programs;
--     `KernelModel` has concrete maps for the tests. An entry of a per-processor map has a value for
--     each processor, and a program sees the value of its own.
--   * A program is a function from what it reads of its environment and the map to the map after
--     it. Programs on different processors run in some order, one after the other.
--   * Words are natural numbers with the wrap at 2 ^ 64 or 2 ^ 32 written out. Signed arguments of
--     probes are integers.
--   * A Go map is a list of entries with one for each key, in the order in which a loop visits them.
--   * What the iteration of a kernel map yields is an argument of a poll. The resolver of pids is a
--     function. Floating-point numbers are a parameter with the operations that the code uses.
--   * Every ingest method of the aggregator holds its mutex, so it is one step. `Run` takes several,
--     between which others run: `Feature.Stop` has them, with a channel of vectors of any capacity.
--     A query of the resolver is one step in `Resolver`, and two in `Resolver.Interleaved`. A time
--     is a number of nanoseconds.
--   * Files are texts in UTF-8. The scanner of lines ends at a line of 64 KiB, as Go's does.
--   * `CTypes` lays C types out as a compiler does by the System V ABI for x86-64: sizes, alignments,
--     padding, bit-fields, anonymous members, and the search for a member by its name. `Memory` has
--     bytes at addresses, and loads and stores of little-endian words and of members. A pointer
--     member does not keep the type it points to.
--   * libbpf's macros for arguments and for reads by CO-RE are records of operations with laws,
--     parameters of the programs (`TcpStats.Arguments`, `CoRe`).
-- All loops are structural recursion on lists, but for the digits of a decimal number: their fuel is
-- 20, the digits of 2 ^ 64, which is proved to be enough.
--
-- Not modelled: the types of bpf/vmlinux.h that no program reaches, which are generated from the
-- kernel's type information and number thousands, the library behind loading and attaching of BPF
-- objects, the Docker client, the system call behind cgroup ids, the quoting of CSV fields and errors
-- of writes, the agent's wiring of goroutines, the generated bindings, and the offline scripts.
pub mod Prelude
pub mod Kernel
pub mod KernelModel
pub mod Syscalls
pub mod SyscallsTests
pub mod TcpStats
pub mod TcpStatsTests
pub mod PidRuntime
pub mod PidRuntimeTests
pub mod ProcExit
pub mod ExitCount
pub mod Collector
pub mod CollectorTests
pub mod Feature
pub mod Resolver
pub mod Agent
pub mod CgroupFiles
pub mod CgroupFilesTests
pub mod AgentTests
pub mod ResolverTests
pub mod ExitCountTests
pub mod FeatureTests
pub mod CTypes
pub mod Vmlinux
pub mod Memory
pub mod BpfObjects
pub mod LayoutTests
pub mod MemoryTests
pub mod FileTests
pub mod CoRe
