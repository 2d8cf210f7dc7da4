-- ===== src/PidRuntime/Slots.antt =====
-- What one context switch does to the entries of bpf/pid_runtime.bpf.c.
use ebpf_docker_anormaly_det.Prelude.{
  ℕ, ◌≤◌, ◌≡◌, true, not, ◌&&◌, none, some, List, arith, if◌then◌else◌, ◌==◌, nat_eq, eqb, inl, inr,
  Option-cases, length,
}
use ebpf_docker_anormaly_det.Prelude.Table.{contains}
use ebpf_docker_anormaly_det.Kernel.{PerCpuHash}
use ebpf_docker_anormaly_det.Kernel.Room.{EntriesAmong, read, accepts_missing}
use ebpf_docker_anormaly_det.PidRuntime.{CpuAcct, zero_acct, stop, switch_out, switch_in}

module _ (acct : PerCpuHash CpuAcct zero_acct) where
  -- Switching a task out touches its entry on this processor, if there is one.
  pub lookup-switch_out :
      (cpu now prev : ℕ) (m : acct.Map) (q d : ℕ)
      → acct.lookup (switch_out acct cpu now prev m) q d ≡ (
          if (prev == q) && (cpu == d) && not (eqb prev 0)
          then elim (acct.lookup m q d) [ some p ↦ some (stop now p) | none ↦ none ]
          else acct.lookup m q d)
  unfolding switch_out
  lookup-switch_out cpu now prev m q d = elim (Option-cases (acct.lookup m prev cpu)) [
    | inl absent ↦ ground arith
    | inr (p, found) ↦ ground (arith, acct.lookup-store m prev cpu (stop now p) p q d)
  ]

  pub switch_out-EntriesAmong :
      (ids : List ℕ) (cpu now prev : ℕ) (m : acct.Map)
      → EntriesAmong acct ids m
      → EntriesAmong acct ids (switch_out acct cpu now prev m)
  switch_out-EntriesAmong ids cpu now prev m among k c s h =
      elim (Option-cases (acct.lookup m k c)) [
        | inl absent ↦ ground (arith, lookup-switch_out cpu now prev m k c)
        | inr (p, found) ↦ among k c p found
      ]

  module _ (ids : List ℕ) (fits : length ids ≤ acct.max_entries) where
    module _ (cpu now next : ℕ) (m : acct.Map) (among : EntriesAmong acct ids m)
        (member : contains next ids ≡ true) where
      -- Switching a task in stamps its entry on this processor, which is created if need be.
      pub lookup-switch_in :
          (q d : ℕ)
          → acct.lookup (switch_in acct cpu now next m) q d ≡ (
              if (next == q) && not (eqb next 0)
              then some (
                  if cpu == d
                  then record (read acct m q d) { last_start_ns = now }
                  else read acct m q d)
              else acct.lookup m q d)
      unfolding switch_in
      lookup-switch_in q d = elim (Option-cases (acct.lookup m next cpu)) [
        | inr (n, found) ↦ elim (Option-cases (acct.lookup m next d)) [
          | inl gone ↦ ground (arith, acct.lookup_everywhere m next d cpu)
          | inr (n', found') ↦
              ground (arith, acct.lookup-store m next cpu (record n { last_start_ns = now }) n q d)
        ]
        | inl absent ↦ ground (
          arith,
          accepts_missing acct ids m among next cpu fits member absent,
          acct.lookup-create m next cpu (record { last_start_ns = now; runtime_ns = 0 }) q d,
          acct.lookup_everywhere m next cpu d,
        )
      ]

      pub switch_in-EntriesAmong : EntriesAmong acct ids (switch_in acct cpu now next m)
      switch_in-EntriesAmong k c s h = ground (arith, lookup-switch_in k c, among k c s)
