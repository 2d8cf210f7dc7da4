-- ===== src/BpfObjects.antt =====
-- The maps and programs that the files of bpf/ declare, as bpf2go's compiler finds them: the sections of
-- the programs, and the types, key and value types and sizes of the maps.
pub mod Structs
use ebpf_docker_anormaly_det.Prelude.{
  ℕ, List, [], ◌∷◌, String, Option, some, none, ◌≡◌, refl, Bool, ◌&&◌, leb, eqb, ◌%◌,
}
use ebpf_docker_anormaly_det.CTypes.{CType, size_of}
use ebpf_docker_anormaly_det.CTypes.Enums.{value_of}
use ebpf_docker_anormaly_det.Vmlinux.Words.{__u32, __u64, u32, u64}
use ebpf_docker_anormaly_det.Vmlinux.MapTypes.{bpf_map_type}
use ebpf_docker_anormaly_det.ProcExit.Struct.{proc_exit_event}
use ebpf_docker_anormaly_det.BpfObjects.Structs.{syscall_counts, tcp_stats, cpu_acct, exit_stat}

-- `max_entries` is 0 where the declaration leaves it to the loader.
pub record MapDef : Type 0 where
  pub name : String
  pub type : Option ℕ
  pub max_entries : ℕ
  pub key : CType
  pub value : CType

-- `SEC(section) int function(...)`
pub record Program : Type 0 where
  pub section : String
  pub function : String

pub record Object : Type 0 where
  pub license : String
  pub maps : List MapDef
  pub programs : List Program

abbrev pub map_type : String → Option ℕ
map_type x = value_of x bpf_map_type

-- bpf/syscall_trace.bpf.c
abbrev pub cgid_map : MapDef
cgid_map = record {
  name = "cgid_map";
  type = map_type "BPF_MAP_TYPE_HASH";
  max_entries = 1024;
  key = __u64;
  value = __u32;
}

abbrev pub syscalls_by_cgid : MapDef
syscalls_by_cgid = record {
  name = "syscalls_by_cgid";
  type = map_type "BPF_MAP_TYPE_PERCPU_HASH";
  max_entries = 256;
  key = __u32;
  value = syscall_counts;
}

abbrev pub syscalls_anchor : MapDef
syscalls_anchor = record {
  name = "_syscalls_anchor";
  type = map_type "BPF_MAP_TYPE_PERCPU_ARRAY";
  max_entries = 1;
  key = __u32;
  value = syscall_counts;
}

abbrev pub syscall_trace_object : Object
syscall_trace_object = record {
  license = "Dual BSD/GPL";
  maps = cgid_map ∷ syscalls_by_cgid ∷ syscalls_anchor ∷ [];
  programs = record { section = "raw_tracepoint/sys_enter"; function = "trace_sys_enter" } ∷ [];
}

-- bpf/tcp_stats.bpf.c
abbrev pub tcp_stats_by_tgid : MapDef
tcp_stats_by_tgid = record {
  name = "tcp_stats_by_tgid";
  type = map_type "BPF_MAP_TYPE_PERCPU_HASH";
  max_entries = 10240;
  key = __u32;
  value = tcp_stats;
}

abbrev pub tcp_stats_anchor : MapDef
tcp_stats_anchor = record {
  name = "_tcp_stats_anchor";
  type = map_type "BPF_MAP_TYPE_PERCPU_ARRAY";
  max_entries = 1;
  key = __u32;
  value = tcp_stats;
}

abbrev pub tcp_stats_object : Object
tcp_stats_object = record {
  license = "Dual BSD/GPL";
  maps = tcp_stats_by_tgid ∷ tcp_stats_anchor ∷ [];
  programs =
      record { section = "kretprobe/tcp_sendmsg"; function = "kretprobe_tcp_sendmsg" }
      ∷ record { section = "kprobe/tcp_cleanup_rbuf"; function = "kprobe_tcp_cleanup_rbuf" }
      ∷ record { section = "kprobe/tcp_retransmit_skb"; function = "kprobe_tcp_retransmit_skb" }
      ∷ [];
}

-- bpf/pid_runtime.bpf.c
abbrev pub cpu_acct_by_pid : MapDef
cpu_acct_by_pid = record {
  name = "cpu_acct_by_pid";
  type = map_type "BPF_MAP_TYPE_PERCPU_HASH";
  max_entries = 65536;
  key = __u32;
  value = cpu_acct;
}

abbrev pub cpu_acct_anchor : MapDef
cpu_acct_anchor = record {
  name = "_cpu_acct_anchor";
  type = map_type "BPF_MAP_TYPE_PERCPU_ARRAY";
  max_entries = 1;
  key = __u32;
  value = cpu_acct;
}

abbrev pub pid_runtime_object : Object
pid_runtime_object = record {
  license = "Dual BSD/GPL";
  maps = cpu_acct_by_pid ∷ cpu_acct_anchor ∷ [];
  programs = record { section = "tp/sched/sched_switch"; function = "trace_sched_switch" } ∷ [];
}

-- bpf/proc_exit.bpf.c
abbrev pub proc_exit_events : MapDef
proc_exit_events = record {
  name = "proc_exit_events";
  type = map_type "BPF_MAP_TYPE_PERF_EVENT_ARRAY";
  max_entries = 0;
  key = __u32;
  value = __u32;
}

abbrev pub proc_exit_heap : MapDef
proc_exit_heap = record {
  name = "proc_exit_heap";
  type = map_type "BPF_MAP_TYPE_PERCPU_ARRAY";
  max_entries = 1;
  key = __u32;
  value = proc_exit_event;
}

abbrev pub proc_exit_object : Object
proc_exit_object = record {
  license = "Dual BSD/GPL";
  maps = proc_exit_events ∷ proc_exit_heap ∷ [];
  programs = record { section = "tp/sched/sched_process_exit"; function = "handle_proc_exit" } ∷ [];
}

-- bpf/test.bpf.c
abbrev pub exit_count : MapDef
exit_count = record {
  name = "exit_count";
  type = map_type "BPF_MAP_TYPE_PERCPU_ARRAY";
  max_entries = 1;
  key = u32;
  value = u64;
}

abbrev pub last_exit : MapDef
last_exit = record {
  name = "last_exit";
  type = map_type "BPF_MAP_TYPE_HASH";
  max_entries = 1024;
  key = u32;
  value = exit_stat;
}

abbrev pub test_object : Object
test_object = record {
  license = "Dual BSD/GPL";
  maps = exit_count ∷ last_exit ∷ [];
  programs =
      record { section = "tp/sched/sched_process_exit"; function = "count_sched_process_exit" }
      ∷ [];
}
