-- ===== src/Collector/ProcExit/Struct.antt =====
-- `struct proc_exit_event` of bpf/proc_exit.bpf.c as a C compiler lays it out, against the Go struct of
-- pkg/collector/procexit/collector.go.
use ebpf_docker_anormaly_det.Prelude.{ℕ, ◌+◌, ◌/◌, ◌≡◌, arith, some, refl, sym, false}
use ebpf_docker_anormaly_det.CTypes.{
  array, int, signed, w8, find, find_in, members_of, Slot, slot, size_of,
}
use ebpf_docker_anormaly_det.Vmlinux.Words.{__u32, __u64}
use ebpf_docker_anormaly_det.Memory.{Memory}
use ebpf_docker_anormaly_det.Memory.Bytes.{bytes_at, of_bytes-drop, take-drop, of_bytes-bytes_at}
use ebpf_docker_anormaly_det.Memory.Fields.{Declares, read_member, read_member_lem}
use ebpf_docker_anormaly_det.Collector.ProcExit.{event_size, reinterpret}
use ebpf_docker_anormaly_det.ProcExit.Struct.{proc_exit_event}

ts_ns_declared : Declares (members_of proc_exit_event) "ts_ns" 8
unfolding find size_of
ts_ns_declared = record {
  slot = slot 0 64 __u64 false;
  found = refl;
  addressable = refl;
  size = refl;
}

start_time_ns_declared : Declares (members_of proc_exit_event) "start_time_ns" 8
unfolding find size_of
start_time_ns_declared = record {
  slot = slot 64 64 __u64 false;
  found = refl;
  addressable = refl;
  size = refl;
}

tgid_declared : Declares (members_of proc_exit_event) "tgid" 4
unfolding find size_of
tgid_declared = record {
  slot = slot 128 32 __u32 false;
  found = refl;
  addressable = refl;
  size = refl;
}

exit_code_declared : Declares (members_of proc_exit_event) "exit_code" 4
unfolding find size_of
exit_code_declared = record {
  slot = slot 160 32 __u32 false;
  found = refl;
  addressable = refl;
  size = refl;
}

abbrev comm_slot : Slot
comm_slot = slot 192 128 (array (int signed w8) 16) false

-- The event in memory, at any address and with any contents: the Go struct takes from its bytes, as many
-- as `eventSize`, what the members of the C struct are, and the name from where the C struct has it.
pub reinterpret-read_member :
    (base : ℕ) (m : Memory)
    → let e = reinterpret (bytes_at event_size base m) in
      (read_member proc_exit_event "ts_ns" base m ≡ some e.ts_ns)
      × (read_member proc_exit_event "start_time_ns" base m ≡ some e.start_time_ns)
      × (read_member proc_exit_event "tgid" base m ≡ some e.tgid)
      × (read_member proc_exit_event "exit_code" base m ≡ some e.exit_code)
      × ((s : Slot) × (find_in "comm" proc_exit_event ≡ some s)
          × (bytes_at (size_of s.type) (base + s.start / 8) m ≡ e.comm))
      × (size_of proc_exit_event ≡ event_size)
unfolding reinterpret ts_ns_declared start_time_ns_declared tgid_declared exit_code_declared find_in
reinterpret-read_member base m =
    let same_base : base + 0 ≡ base = omega arith in
    (
      rw
          (
            read_member_lem (members_of proc_exit_event) "ts_ns" 8 ts_ns_declared base m,
            same_base,
            of_bytes-bytes_at 8 40 base m (omega arith),
          )
          refl,
      rw
          (
            read_member_lem (members_of proc_exit_event) "start_time_ns" 8 start_time_ns_declared
                base m,
            of_bytes-drop 8 8 40 base m (omega arith),
          )
          refl,
      rw
          (
            read_member_lem (members_of proc_exit_event) "tgid" 4 tgid_declared base m,
            of_bytes-drop 4 16 40 base m (omega arith),
          )
          refl,
      rw
          (
            read_member_lem (members_of proc_exit_event) "exit_code" 4 exit_code_declared base m,
            of_bytes-drop 4 20 40 base m (omega arith),
          )
          refl,
      (comm_slot, refl, sym (take-drop 16 24 40 base m (omega arith))),
      refl,
    )
