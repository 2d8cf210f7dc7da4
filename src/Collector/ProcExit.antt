-- ===== src/Collector/ProcExit.antt =====
-- The reader of exit events, pkg/collector/procexit/collector.go. The perf buffer and the resolver
-- of pids are not part of it: the one yields records or errors, the other is a function.
pub mod CoRe
pub mod Struct
pub mod Layout
pub mod Delivery
use ebpf_docker_anormaly_det.Prelude.{
  ℕ, zero, suc, ◌+◌, ◌/◌, ◌%◌, ◌^◌, Bool, String, Option, none, some, List, [], ◌∷◌, ltb, eqb, ◌==◌,
  string_eq, if◌then◌else◌, length,
}
use ebpf_docker_anormaly_det.Prelude.Bytes.{of_bytes, drop, take}
use ebpf_docker_anormaly_det.ProcExit.{ProcExitEvent}

-- `Comm` is a Go string: its bytes.
pub record Event : Type 0 where
  pub ts : ℕ
  pub start_time : ℕ
  pub tgid : ℕ
  pub exit_code : ℕ
  pub comm : List ℕ
  pub container_id : String

-- `int(e.ExitCode & 0x7f)`: the low seven bits.
unfoldable pub signal : Event → ℕ
signal e = e.exit_code % 128

-- `int(e.ExitCode >> 8) & 0xff`
unfoldable pub status : Event → ℕ
status e = (e.exit_code / 256) % 256

-- What `c.rd.Read()` returns: a record, `perf.ErrClosed`, or another error.
pub data Read : Type 0 where
  sample : ℕ → List ℕ → Read
  closed : Read
  failed : Read

-- `unsafe.Sizeof(procexitProcExitEvent{})`
abbrev pub event_size : ℕ
event_size = 40

-- `*(*procexitProcExitEvent)(unsafe.Pointer(&record.RawSample[0]))`
unfoldable pub reinterpret : List ℕ → ProcExitEvent
reinterpret raw = record {
  ts_ns = of_bytes 8 raw;
  start_time_ns = of_bytes 8 (drop 8 raw);
  tgid = of_bytes 4 (drop 16 raw);
  exit_code = of_bytes 4 (drop 20 raw);
  comm = take 16 (drop 24 raw);
}

unfoldable pub trim_null : List ℕ → List ℕ
trim_null [] = []
trim_null (c ∷ b) = let rest = trim_null b in if eqb c 0 then [] else c ∷ rest

module _ (resolve_pid : ℕ → String) where
  unfoldable pub to_event : List ℕ → Event
  to_event raw_sample =
      let raw = reinterpret raw_sample in
      record {
        ts = raw.ts_ns;
        start_time = raw.start_time_ns;
        tgid = raw.tgid;
        exit_code = raw.exit_code;
        comm = trim_null raw.comm;
        container_id = resolve_pid raw.tgid;
      }

  -- The loop of `run`, over what the reads return and whether the `select` takes the stop channel
  -- then: the events that go to the channel of events.
  unfoldable pub run : List (Read × Bool) → List Event
  run [] = []
  run ((closed, stopped) ∷ rs) = []
  run ((failed, stopped) ∷ rs) = run rs
  run ((sample lost_samples raw_sample, stopped) ∷ rs) =
      let ev = to_event raw_sample in
      let rest = run rs in
      if ltb 0 lost_samples
      then rest
      else if ltb (length raw_sample) event_size
      then rest
      else if ev.container_id == ""
      then rest
      else if stopped
      then []
      else ev ∷ rest
