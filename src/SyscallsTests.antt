-- ===== src/SyscallsTests.antt =====
-- Runs of bpf/syscall_trace.bpf.c on small maps, and the theorems about it at concrete inputs.
use ebpf_docker_anormaly_det.Prelude.{nat_eq, ℕ, ◌≡◌, refl, some, List, [], ◌∷◌, arith}
use ebpf_docker_anormaly_det.Prelude.Table.{lookup, insert, contains}
use ebpf_docker_anormaly_det.Kernel.{Hash, PerCpuHash}
use ebpf_docker_anormaly_det.KernelModel.{
  hash, percpu_hash, no_slots, value, store, create, put_slots,
}
use ebpf_docker_anormaly_det.Syscalls.Counts.{SyscallCounts, zero_counts, bump, classify}
use ebpf_docker_anormaly_det.Syscalls.Classify.{group_of, syscall_table, classify-table}
use ebpf_docker_anormaly_det.Syscalls.Tally.{IsBalanced, IsWord, zero_counts-IsWord}
use ebpf_docker_anormaly_det.Syscalls.{SysEnter, tally, count_in, trace_sys_enter, trace_all}
use ebpf_docker_anormaly_det.Syscalls.Histogram.{IsHistogram}
use ebpf_docker_anormaly_det.Syscalls.Capacity.{IndicesAmong, trace_all-lossless}
use ebpf_docker_anormaly_det.Kernel.Room.{EntriesAmong, read}
use ebpf_docker_anormaly_det.Syscalls.Attribution.{
  AllBalanced, trace_all-IsBalanced, trace_all-containers_only, containers_only,
}

abbrev cgids : Hash ℕ
cgids = hash ℕ 1024

abbrev hist : PerCpuHash SyscallCounts zero_counts
hist = percpu_hash SyscallCounts zero_counts 256

-- Two containers, in cgroups 501 and 777.
abbrev cg : cgids.Map
cg = (501, 0) ∷ (777, 1) ∷ []

abbrev at : ℕ → ℕ → ℕ → SysEnter
at cpu cgid call = record { cpu = cpu; cgid = cgid; call = call }

-- openat, ptrace and an unknown call in the first container, one call of the host, one of the
-- second container.
abbrev calls : List SysEnter
calls = at 0 501 257 ∷ at 0 501 101 ∷ at 1 501 999 ∷ at 0 3 257 ∷ at 0 777 59 ∷ []

abbrev after : hist.Map
after = trace_all cgids hist cg calls no_slots

counts_first :
    hist.lookup after 0 0
    ≡ some (record zero_counts { total = 2; file_open = 1; priv_escalate = 1 })
unfolding trace_all trace_sys_enter count_in tally bump classify value store create put_slots lookup
    insert
counts_first = refl

abbrev indices : List ℕ
indices = 0 ∷ 1 ∷ []

IndicesAmong-cg : IndicesAmong cgids hist indices cg
unfolding lookup contains
IndicesAmong-cg g idx h = ground arith

EntriesAmong-no_slots : EntriesAmong hist indices no_slots
unfolding value lookup
EntriesAmong-no_slots k c s h = ground arith

no_counts-IsWord : IsWord (read hist no_slots 0 0)
unfolding value lookup
no_counts-IsWord = zero_counts-IsWord

trace_all-lossless_example :
    IsHistogram cgids hist cg 0 0 calls (read hist no_slots 0 0) (read hist after 0 0)
trace_all-lossless_example =
    trace_all-lossless cgids hist indices (omega arith) cg IndicesAmong-cg calls no_slots
      EntriesAmong-no_slots 0 0 no_counts-IsWord

classify-table_example : classify 257 ≡ group_of 257 syscall_table
classify-table_example = classify-table 257

-- The first call of the second container, and the calls after it.
abbrev known : hist.Map
known = trace_sys_enter cgids hist cg (at 0 501 59) no_slots

abbrev first_count : SyscallCounts
first_count = tally 59 zero_counts

known_count : hist.lookup known 0 0 ≡ some first_count
unfolding trace_sys_enter count_in value store create put_slots lookup insert
known_count = refl

AllBalanced-no_slots : AllBalanced cgids hist no_slots
unfolding value lookup
AllBalanced-no_slots q d s h = ground arith

trace_all-IsBalanced_example :
    IsBalanced (record zero_counts { total = 2; file_open = 1; priv_escalate = 1 })
trace_all-IsBalanced_example =
    trace_all-IsBalanced cgids hist cg calls no_slots AllBalanced-no_slots 0 0
      (record zero_counts { total = 2; file_open = 1; priv_escalate = 1 }) counts_first

trace_all-containers_only_example :
    after ≡ trace_all cgids hist cg (containers_only cgids hist cg calls) no_slots
trace_all-containers_only_example = trace_all-containers_only cgids hist cg calls no_slots
