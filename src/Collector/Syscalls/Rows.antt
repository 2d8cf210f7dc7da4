-- ===== src/Collector/Syscalls/Rows.antt =====
-- What the rows of one poll of pkg/collector/syscalls/collector.go say of a container.
use ebpf_docker_anormaly_det.Prelude.{
  ℕ, ◌+◌, ◌-◌, ◌≤◌, ◌≡◌, ◌≢◌, refl, true, false, String, some, List, [], ◌∷◌, arith, nat_eq,
  string_eq, ◌==◌, if◌then◌else◌, eqb, eqb_iff, inl, inr, Option-cases, Bool-cases,
}
use text.Mathlib.TextEquality.{eq_iff}
use ebpf_docker_anormaly_det.Prelude.Table.{Table, lookup, keys, contains, distinct}
use ebpf_docker_anormaly_det.Syscalls.Counts.{
  Category, SyscallCounts, bucket, file_open, file_close, file_read, file_write, file_unlink,
  file_rename, file_perm, net_socket, net_connect, net_bind, net_listen, net_accept, net_send,
  net_recv, proc_exec, proc_fork, proc_kill, priv_escalate, escape_attempt, mem_layout, other,
}
use ebpf_docker_anormaly_det.Syscalls.Tally.{bucket_sum}
use ebpf_docker_anormaly_det.Collector.Syscalls.{Row, subtract, or_zero, or_empty}
use ebpf_docker_anormaly_det.Collector.Syscalls.Fields.{bucket-subtract, total-subtract}
use ebpf_docker_anormaly_det.Collector.Syscalls.Poll.{delta, rows_against}

-- The counters `t` are later than `p`, and the totals are sums that have not wrapped.
pub record Grows (p t : SyscallCounts) : Type 0 where
  pub buckets : (b : Category) → bucket p b ≤ bucket t b
  pub total_before : p.total ≡ bucket_sum p
  pub total_after : t.total ≡ bucket_sum t

-- The order of the counters, one by one.
abbrev EachLe : SyscallCounts → SyscallCounts → Type 0
EachLe p t =
    (p.file_open ≤ t.file_open)
    × (p.file_close ≤ t.file_close)
    × (p.file_read ≤ t.file_read)
    × (p.file_write ≤ t.file_write)
    × (p.file_unlink ≤ t.file_unlink)
    × (p.file_rename ≤ t.file_rename)
    × (p.file_perm ≤ t.file_perm)
    × (p.net_socket ≤ t.net_socket)
    × (p.net_connect ≤ t.net_connect)
    × (p.net_bind ≤ t.net_bind)
    × (p.net_listen ≤ t.net_listen)
    × (p.net_accept ≤ t.net_accept)
    × (p.net_send ≤ t.net_send)
    × (p.net_recv ≤ t.net_recv)
    × (p.proc_exec ≤ t.proc_exec)
    × (p.proc_fork ≤ t.proc_fork)
    × (p.proc_kill ≤ t.proc_kill)
    × (p.priv_escalate ≤ t.priv_escalate)
    × (p.escape_attempt ≤ t.escape_attempt)
    × (p.mem_layout ≤ t.mem_layout)
    × (p.other ≤ t.other)

grown : (p t : SyscallCounts) → Grows p t → EachLe p t
grown p t g = (
  g.buckets file_open,
  g.buckets file_close,
  g.buckets file_read,
  g.buckets file_write,
  g.buckets file_unlink,
  g.buckets file_rename,
  g.buckets file_perm,
  g.buckets net_socket,
  g.buckets net_connect,
  g.buckets net_bind,
  g.buckets net_listen,
  g.buckets net_accept,
  g.buckets net_send,
  g.buckets net_recv,
  g.buckets proc_exec,
  g.buckets proc_fork,
  g.buckets proc_kill,
  g.buckets priv_escalate,
  g.buckets escape_attempt,
  g.buckets mem_layout,
  g.buckets other,
)

-- If the total has not grown, no counter has: a row that is left out would be zero.
skipped_zero :
    (p t : SyscallCounts) (b : Category) → Grows p t → t.total ≤ p.total → bucket t b ≡ bucket p b
skipped_zero p t file_open g h = let all = grown p t g in omega arith
skipped_zero p t _ g h = let all = grown p t g in omega arith

-- What the rows say of a container.
abbrev pub reported : String → Category → List Row → ℕ
reported cid b [] = 0
reported cid b (row ∷ rows) =
    (if row.container_id == cid then bucket row.counts b else 0) + reported cid b rows

abbrev pub total_of : ℕ → Table ℕ SyscallCounts → SyscallCounts
total_of idx t = or_zero (lookup idx t)

-- `cid` is the container of `idx`, and of no other index.
pub record Owns (idx_to_cid : Table ℕ String) (cid : String) (idx : ℕ) : Type 0 where
  pub named : cid ≢ ""
  pub owner : lookup idx idx_to_cid ≡ some cid
  pub only : (j : ℕ) → lookup j idx_to_cid ≡ some cid → j ≡ idx

module _ {idx_to_cid : Table ℕ String} {cid : String} {idx : ℕ}
    (owns : Owns idx_to_cid cid idx) where
  other_container : (j : ℕ) → j ≢ idx → (or_empty (lookup j idx_to_cid) == cid) ≡ false
  other_container j ne = elim (Bool-cases (or_empty (lookup j idx_to_cid) == cid)) [
    | inr differs ↦ differs
    | inl same ↦
        let e = (eq_iff (or_empty (lookup j idx_to_cid)) cid).0 same in
        elim (Option-cases (lookup j idx_to_cid)) [
          | inl missing ↦ absurd (owns.named (ground (arith, e)))
          | inr (x, found) ↦ absurd (ne (owns.only j (ground (arith, e))))
        ]
  ]

  pub reported_absent :
      (b : Category) (prev current : Table ℕ SyscallCounts)
      → contains idx (keys current) ≡ false
      → reported cid b (rows_against idx_to_cid prev current) ≡ 0
  unfolding contains keys
  reported_absent b prev [] h = refl
  reported_absent b prev ((j, total) ∷ current) h =
      let later = reported_absent b prev current (ground arith) in
      let away = other_container j (λ e. ground (arith, e, eqb_iff j idx)) in
      elim (Bool-cases (eqb (delta prev j total).total 0)) [
        | inl same ↦ rw same later
        | inr more ↦ rw (more, away) (omega (arith, later))
      ]

  -- The row of the container's own index, if there is one.
  own_row :
      (b : Category) (p t : SyscallCounts)
      → Grows p t
      → (if eqb (subtract t p).total 0 then 0 else bucket (subtract t p) b)
        ≡ bucket t b - bucket p b
  own_row b p t g = elim (Bool-cases (eqb (subtract t p).total 0)) [
    | inl same ↦
        let stays = skipped_zero p t b g (ground (arith, total-subtract t p)) in
        rw same (omega (arith, stays))
    | inr more ↦ rw (more, bucket-subtract) (ground (arith, g.buckets b))
  ]

  reported_cons :
      (b : Category) (prev current : Table ℕ SyscallCounts) (j : ℕ) (total : SyscallCounts)
      → reported cid b (rows_against idx_to_cid prev ((j, total) ∷ current))
        ≡ (if or_empty (lookup j idx_to_cid) == cid
            then (if eqb (delta prev j total).total 0 then 0 else bucket (delta prev j total) b)
            else 0)
          + reported cid b (rows_against idx_to_cid prev current)
  reported_cons b prev current j total = elim (Bool-cases (eqb (delta prev j total).total 0)) [
    | inl same ↦ rw same (ground arith)
    | inr more ↦ rw more
  ]

  pub reported_present :
      (b : Category) (prev current : Table ℕ SyscallCounts)
      → distinct (keys current) ≡ true
      → contains idx (keys current) ≡ true
      → Grows (total_of idx prev) (total_of idx current)
      → reported cid b (rows_against idx_to_cid prev current)
        ≡ bucket (total_of idx current) b - bucket (total_of idx prev) b
  unfolding contains keys distinct lookup
  reported_present b prev [] d h g = cc
  reported_present b prev ((j, total) ∷ current) d h g = elim (Bool-cases (eqb j idx)) [
    | inl own ↦
        let e = (eqb_iff j idx).0 own in
        let mine : (or_empty (lookup j idx_to_cid) == cid) ≡ true =
          rw (e, owns.owner) ((eq_iff cid cid).1 refl) in
        let g' : Grows (total_of idx prev) total = rw own at g in
        let rest = reported_absent b prev current (ground (arith, e)) in
        rw (reported_cons b prev current j total, mine, rest, own, e)
          (omega (arith, own_row b (total_of idx prev) total g'))
    | inr foreign ↦
        let away = other_container j (λ e. ground (arith, e, eqb_iff j idx)) in
        rw (reported_cons b prev current j total, away, foreign)
          (omega (
            arith,
            reported_present b prev current (ground arith) (ground arith) (rw foreign at g),
          ))
  ]
