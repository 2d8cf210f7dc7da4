-- ===== src/Collector/ProcExit/Layout.antt =====
-- The layout of an exit event, which pkg/collector/procexit/collector.go shares with
-- bpf/proc_exit.bpf.c.
use ebpf_docker_anormaly_det.Prelude.{
  ℕ, ◌+◌, ◌<◌, ◌^◌, ◌≡◌, ◌∙◌, List, ◌++◌, arith, string_eq, length, length-append,
}
use mathlib.Core.List.{append_assoc}
use ebpf_docker_anormaly_det.Prelude.Bytes.{
  to_bytes, drop, length-to_bytes, drop-append, drop_past, take-append, of_bytes-to_bytes_4,
  of_bytes-to_bytes_8,
}
use ebpf_docker_anormaly_det.ProcExit.{ProcExitEvent, event_bytes}
use ebpf_docker_anormaly_det.Collector.ProcExit.{event_size, reinterpret}

-- The fields have the widths of `struct proc_exit_event`.
pub record IsEvent (e : ProcExitEvent) : Type 0 where
  pub ts_ns : e.ts_ns < 2 ^ 64
  pub start_time_ns : e.start_time_ns < 2 ^ 64
  pub tgid : e.tgid < 2 ^ 32
  pub exit_code : e.exit_code < 2 ^ 32
  pub comm : length e.comm ≡ 16

module _ (e : ProcExitEvent) (w : IsEvent e) (pad : List ℕ) where
  bytes_assoc :
      event_bytes e ++ pad
      ≡ to_bytes 8 e.ts_ns
        ++ (to_bytes 8 e.start_time_ns
            ++ (to_bytes 4 e.tgid ++ (to_bytes 4 e.exit_code ++ (e.comm ++ pad))))
  unfolding event_bytes
  bytes_assoc = simp append_assoc

  pub length-event_bytes : length (event_bytes e ++ pad) ≡ event_size + length pad
  unfolding event_bytes
  length-event_bytes = simp (length-append, length-to_bytes) (omega (arith, w.comm))

  -- What stands behind each field.
  abbrev behind_exit_code : List ℕ
  behind_exit_code = e.comm ++ pad

  abbrev behind_tgid : List ℕ
  behind_tgid = to_bytes 4 e.exit_code ++ behind_exit_code

  abbrev behind_start : List ℕ
  behind_start = to_bytes 4 e.tgid ++ behind_tgid

  abbrev behind_ts : List ℕ
  behind_ts = to_bytes 8 e.start_time_ns ++ behind_start

  drop_8 : drop 8 (to_bytes 8 e.ts_ns ++ behind_ts) ≡ behind_ts
  drop_8 = drop-append 8 (to_bytes 8 e.ts_ns) behind_ts (length-to_bytes 8 e.ts_ns)

  drop_more : (j : ℕ) → drop (8 + j) (to_bytes 8 e.ts_ns ++ behind_ts) ≡ drop j behind_ts
  drop_more j =
      drop_past (8 + j) j (to_bytes 8 e.ts_ns) behind_ts (rw length-to_bytes (omega arith))

  drop_16 : drop 16 (to_bytes 8 e.ts_ns ++ behind_ts) ≡ behind_start
  drop_16 =
      drop_more 8
      ∙ drop-append 8 (to_bytes 8 e.start_time_ns) behind_start (length-to_bytes 8 e.start_time_ns)

  drop_20 : drop 20 (to_bytes 8 e.ts_ns ++ behind_ts) ≡ behind_tgid
  drop_20 =
      drop_more 12
      ∙ drop_past 12 4 (to_bytes 8 e.start_time_ns) behind_start (rw length-to_bytes (omega arith))
      ∙ drop-append 4 (to_bytes 4 e.tgid) behind_tgid (length-to_bytes 4 e.tgid)

  drop_24 : drop 24 (to_bytes 8 e.ts_ns ++ behind_ts) ≡ behind_exit_code
  drop_24 =
      drop_more 16
      ∙ drop_past 16 8 (to_bytes 8 e.start_time_ns) behind_start (rw length-to_bytes (omega arith))
      ∙ drop_past 8 4 (to_bytes 4 e.tgid) behind_tgid (rw length-to_bytes (omega arith))
      ∙ drop-append 4 (to_bytes 4 e.exit_code) behind_exit_code (length-to_bytes 4 e.exit_code)

  -- The Go struct reads from the sample what the BPF program wrote into it, whatever bytes the
  -- perf buffer adds behind the event.
  pub reinterpret-event_bytes : reinterpret (event_bytes e ++ pad) ≡ e
  unfolding reinterpret
  reinterpret-event_bytes = rw bytes_assoc (
      simp (
        drop_8,
        drop_16,
        drop_20,
        drop_24,
        of_bytes-to_bytes_8 e.ts_ns behind_ts w.ts_ns,
        of_bytes-to_bytes_8 e.start_time_ns behind_start w.start_time_ns,
        of_bytes-to_bytes_4 e.tgid behind_tgid w.tgid,
        of_bytes-to_bytes_4 e.exit_code behind_exit_code w.exit_code,
        take-append 16 e.comm pad w.comm,
      ))
