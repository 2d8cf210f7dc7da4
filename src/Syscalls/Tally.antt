-- ===== src/Syscalls/Tally.antt =====
-- What `tally` of bpf/syscall_trace.bpf.c does to each counter.
use ebpf_docker_anormaly_det.Prelude.{
  ℕ, ◌+◌, ◌<◌, ◌^◌, ◌≡◌, refl, Bool, arith, eqb, if◌then◌else◌, add64, u32, u64,
}
use ebpf_docker_anormaly_det.Syscalls.Counts.{
  Category, file_open, file_close, file_read, file_write, file_unlink, file_rename, file_perm,
  net_socket, net_connect, net_bind, net_listen, net_accept, net_send, net_recv, proc_exec,
  proc_fork, proc_kill, priv_escalate, escape_attempt, mem_layout, other, SyscallCounts,
  zero_counts, classify, bump, bucket,
}
use ebpf_docker_anormaly_det.Syscalls.Classify.{slot}
use ebpf_docker_anormaly_det.Syscalls.{tally}

-- Whether a call is counted in a category.
abbrev pub counted_in : Category → ℕ → Bool
counted_in c call = eqb (slot (classify (u32 call))) (slot c)

pub bucket-bump :
    (d c : Category) (s : SyscallCounts)
    → bucket (bump d s) c ≡ (if eqb (slot d) (slot c) then add64 (bucket s c) 1 else bucket s c)
unfolding bump
bucket-bump file_open file_open s = refl
bucket-bump file_open _ s = refl
bucket-bump file_close file_open s = refl
bucket-bump file_close _ s = refl
bucket-bump file_read file_open s = refl
bucket-bump file_read _ s = refl
bucket-bump file_write file_open s = refl
bucket-bump file_write _ s = refl
bucket-bump file_unlink file_open s = refl
bucket-bump file_unlink _ s = refl
bucket-bump file_rename file_open s = refl
bucket-bump file_rename _ s = refl
bucket-bump file_perm file_open s = refl
bucket-bump file_perm _ s = refl
bucket-bump net_socket file_open s = refl
bucket-bump net_socket _ s = refl
bucket-bump net_connect file_open s = refl
bucket-bump net_connect _ s = refl
bucket-bump net_bind file_open s = refl
bucket-bump net_bind _ s = refl
bucket-bump net_listen file_open s = refl
bucket-bump net_listen _ s = refl
bucket-bump net_accept file_open s = refl
bucket-bump net_accept _ s = refl
bucket-bump net_send file_open s = refl
bucket-bump net_send _ s = refl
bucket-bump net_recv file_open s = refl
bucket-bump net_recv _ s = refl
bucket-bump proc_exec file_open s = refl
bucket-bump proc_exec _ s = refl
bucket-bump proc_fork file_open s = refl
bucket-bump proc_fork _ s = refl
bucket-bump proc_kill file_open s = refl
bucket-bump proc_kill _ s = refl
bucket-bump priv_escalate file_open s = refl
bucket-bump priv_escalate _ s = refl
bucket-bump escape_attempt file_open s = refl
bucket-bump escape_attempt _ s = refl
bucket-bump mem_layout file_open s = refl
bucket-bump mem_layout _ s = refl
bucket-bump other file_open s = refl
bucket-bump other _ s = refl

pub total-bump : (d : Category) (s : SyscallCounts) → (bump d s).total ≡ s.total
unfolding bump
total-bump file_open s = refl
total-bump _ s = refl

bucket-total :
    (c : Category) (s : SyscallCounts) (n : ℕ) → bucket (record s { total = n }) c ≡ bucket s c
bucket-total file_open s n = refl
bucket-total _ s n = refl

pub bucket-tally :
    (call : ℕ) (c : Category) (s : SyscallCounts)
    → bucket (tally call s) c ≡ (if counted_in c call then add64 (bucket s c) 1 else bucket s c)
unfolding tally
bucket-tally call c s = simp (bucket-bump, bucket-total)

pub total-tally : (call : ℕ) (s : SyscallCounts) → (tally call s).total ≡ add64 s.total 1
unfolding tally
total-tally call s = total-bump (classify (u32 call)) (record s { total = add64 s.total 1 })

-- Every counter is a 64-bit word.
pub record IsWord (s : SyscallCounts) : Type 0 where
  pub total : s.total < 2 ^ 64
  pub buckets : (c : Category) → bucket s c < 2 ^ 64

pub zero_counts-IsWord : IsWord zero_counts
zero_counts-IsWord = record { total = omega arith; buckets = zero_bucket }
  where
    zero_bucket : (c : Category) → bucket zero_counts c < 2 ^ 64
    zero_bucket file_open = omega arith
    zero_bucket _ = omega arith

pub tally-IsWord : (call : ℕ) {s : SyscallCounts} → IsWord s → IsWord (tally call s)
tally-IsWord call {s} w = record {
  total = rw total-tally (omega arith);
  buckets = λ c. rw bucket-tally (ground (arith, w.buckets c));
}

-- The sum of the counters beside `total`.
abbrev pub bucket_sum : SyscallCounts → ℕ
bucket_sum s =
    s.file_open + s.file_close + s.file_read + s.file_write + s.file_unlink + s.file_rename
    + s.file_perm + s.net_socket + s.net_connect + s.net_bind + s.net_listen + s.net_accept
    + s.net_send + s.net_recv + s.proc_exec + s.proc_fork + s.proc_kill + s.priv_escalate
    + s.escape_attempt + s.mem_layout + s.other

-- `total` counts what the others count together.
abbrev pub IsBalanced : SyscallCounts → Type 0
IsBalanced s = u64 s.total ≡ u64 (bucket_sum s)

sum-bump : (d : Category) (s : SyscallCounts) → u64 (bucket_sum (bump d s)) ≡ add64 (bucket_sum s) 1
unfolding bump
sum-bump file_open s = omega arith
sum-bump _ s = omega arith

pub tally-IsBalanced : (call : ℕ) (s : SyscallCounts) → IsBalanced s → IsBalanced (tally call s)
unfolding tally
tally-IsBalanced call s b = omega (
  arith,
  total-bump (classify (u32 call)) (record s { total = add64 s.total 1 }),
  sum-bump (classify (u32 call)) (record s { total = add64 s.total 1 }),
)
