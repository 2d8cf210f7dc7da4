-- ===== src/Feature/Encoder/Rows.antt =====
-- The rows of pkg/feature/csv.go against its columns, and the decimal numbers in them.
use ebpf_docker_anormaly_det.Prelude.{
  ℕ, suc, zero, ◌+◌, ◌*◌, ◌/◌, ◌%◌, ◌<◌, ◌^◌, ◌≡◌, refl, ◌∙◌, ap, String, Option, none, some, List,
  [], ◌∷◌, ◌++◌, map, arith, string_eq, nat_eq, eqb, inl, inr, Bool-cases,
}
use mathlib.Core.List.{append_assoc, append-nil}
use ebpf_docker_anormaly_det.Prelude.Table.{Table, lookup}
use ebpf_docker_anormaly_det.Syscalls.Counts.{
  file_open, file_close, file_read, file_write, file_unlink, file_rename, file_perm, net_socket,
  net_connect, net_bind, net_listen, net_accept, net_send, net_recv, proc_exec, proc_fork,
  proc_kill, priv_escalate, escape_attempt, mem_layout, other,
}
use ebpf_docker_anormaly_det.Feature.Types.{Floats, Vector}
use ebpf_docker_anormaly_det.Feature.Accounts.{
  Counter, proc_exits, proc_crashes, tcp_bytes_tx, tcp_bytes_rx, tcp_retrans, cpu_runtime_ns,
  sys_total, sys, get,
}
use ebpf_docker_anormaly_det.Feature.Encoder.{
  headers, digits, utoa, Formats, row, new_encoder, write_all,
}

-- The number that digits stand for, after a number `n`.
abbrev pub number_from : ℕ → List ℕ → ℕ
number_from n [] = n
number_from n (d ∷ ds) = number_from (n * 10 + d) ds

abbrev power_of_ten : ℕ → ℕ
power_of_ten zero = 1
power_of_ten (suc k) = 10 * power_of_ten k

number-digits_from :
    (fuel n : ℕ) (acc : List ℕ)
    → n < power_of_ten fuel
    → number_from 0 (digits fuel n acc) ≡ number_from n acc
unfolding digits
number-digits_from zero n acc h = ap (λ k. number_from k acc) (omega arith)
number-digits_from (suc fuel) n acc h = elim (Bool-cases (eqb (n / 10) 0)) [
  | inl small ↦ rw small (ap (λ k. number_from k acc) (ground arith))
  | inr large ↦ rw large (
      number-digits_from fuel (n / 10) (n % 10 ∷ acc) (omega arith)
      ∙ ap (λ k. number_from k acc) (omega arith))
]

-- The digits that are printed of a 64-bit number stand for that number: 20 of them are enough.
pub number-digits : (n : ℕ) → n < 2 ^ 64 → number_from 0 (digits 20 n []) ≡ n
number-digits n h = number-digits_from 20 n [] (omega arith)

-- The column of a counter.
abbrev pub column : Counter → String
column proc_exits = "proc_exits"
column proc_crashes = "proc_crashes"
column tcp_bytes_tx = "tcp_bytes_tx"
column tcp_bytes_rx = "tcp_bytes_rx"
column tcp_retrans = "tcp_retrans"
column cpu_runtime_ns = "cpu_runtime_ns"
column sys_total = "sys_total"
column (sys file_open) = "sys_file_open"
column (sys file_close) = "sys_file_close"
column (sys file_read) = "sys_file_read"
column (sys file_write) = "sys_file_write"
column (sys file_unlink) = "sys_file_unlink"
column (sys file_rename) = "sys_file_rename"
column (sys file_perm) = "sys_file_perm"
column (sys net_socket) = "sys_net_socket"
column (sys net_connect) = "sys_net_connect"
column (sys net_bind) = "sys_net_bind"
column (sys net_listen) = "sys_net_listen"
column (sys net_accept) = "sys_net_accept"
column (sys net_send) = "sys_net_send"
column (sys net_recv) = "sys_net_recv"
column (sys proc_exec) = "sys_proc_exec"
column (sys proc_fork) = "sys_proc_fork"
column (sys proc_kill) = "sys_proc_kill"
column (sys priv_escalate) = "sys_priv_escalate"
column (sys escape_attempt) = "sys_escape_attempt"
column (sys mem_layout) = "sys_mem_layout"
column (sys other) = "sys_other"

-- A row with the names of its columns.
abbrev pub labelled : List String → List String → Table String String
labelled [] ys = []
labelled (x ∷ xs) [] = []
labelled (x ∷ xs) (y ∷ ys) = (x, y) ∷ labelled xs ys

module _ (fl : Floats) (fmt : Formats fl) where
  -- In the row of a vector each counter stands, in decimal digits, in the column that the header
  -- names after it.
  pub lookup-row :
      (k : Counter) (v : Vector fl)
      → lookup (column k) (labelled headers (row fl fmt v)) ≡ some (utoa (get fl k v))
  unfolding row lookup
  lookup-row proc_exits v = refl
  lookup-row proc_crashes v = refl
  lookup-row tcp_bytes_tx v = refl
  lookup-row tcp_bytes_rx v = refl
  lookup-row tcp_retrans v = refl
  lookup-row cpu_runtime_ns v = refl
  lookup-row sys_total v = refl
  lookup-row (sys file_open) v = refl
  lookup-row (sys file_close) v = refl
  lookup-row (sys file_read) v = refl
  lookup-row (sys file_write) v = refl
  lookup-row (sys file_unlink) v = refl
  lookup-row (sys file_rename) v = refl
  lookup-row (sys file_perm) v = refl
  lookup-row (sys net_socket) v = refl
  lookup-row (sys net_connect) v = refl
  lookup-row (sys net_bind) v = refl
  lookup-row (sys net_listen) v = refl
  lookup-row (sys net_accept) v = refl
  lookup-row (sys net_send) v = refl
  lookup-row (sys net_recv) v = refl
  lookup-row (sys proc_exec) v = refl
  lookup-row (sys proc_fork) v = refl
  lookup-row (sys proc_kill) v = refl
  lookup-row (sys priv_escalate) v = refl
  lookup-row (sys escape_attempt) v = refl
  lookup-row (sys mem_layout) v = refl
  lookup-row (sys other) v = refl

  -- The runs of the agent on one file.
  abbrev pub sessions :
      List (List (Vector fl)) → Option (List (List String)) → Option (List (List String))
  sessions [] file = file
  sessions (vs ∷ later) file = sessions later (some (write_all fl fmt vs (new_encoder fl fmt file)))

  abbrev pub rows_of : List (List (Vector fl)) → List (List String)
  rows_of [] = []
  rows_of (vs ∷ later) = map (row fl fmt) vs ++ rows_of later

  write_all_lem :
      (vs : List (Vector fl)) (rows : List (List String))
      → write_all fl fmt vs rows ≡ rows ++ map (row fl fmt) vs
  unfolding write_all
  write_all_lem [] rows = simp append-nil
  write_all_lem (v ∷ vs) rows =
      rw (write_all_lem vs (rows ++ (row fl fmt v ∷ []))) (simp append_assoc)

  sessions_lem :
      (later : List (List (Vector fl))) (rows : List (List String))
      → sessions later (some rows) ≡ some (rows ++ rows_of later)
  unfolding write_all new_encoder
  sessions_lem [] rows = simp append-nil
  sessions_lem (vs ∷ later) rows =
      let more = sessions_lem later (write_all fl fmt vs rows) in
      more ∙ rw (write_all_lem vs rows) (simp append_assoc)

  -- However often the agent is started on a file, the file has the header once, as its first row,
  -- and behind it the rows of all vectors in order, if it did not exist before.
  pub sessions-file :
      (vs : List (Vector fl)) (later : List (List (Vector fl)))
      → sessions (vs ∷ later) none ≡ some (headers ∷ rows_of (vs ∷ later))
  unfolding new_encoder
  sessions-file vs later =
      sessions_lem later (write_all fl fmt vs (headers ∷ [])) ∙ rw (write_all_lem vs (headers ∷ []))
