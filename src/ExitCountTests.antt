-- ===== src/ExitCountTests.antt =====
-- A run of bpf/test.bpf.c on small maps, and the theorem about it at a concrete input.
use ebpf_docker_anormaly_det.Prelude.{ℕ, ◌≡◌, refl, some, List, [], ◌∷◌, arith, add64}
use ebpf_docker_anormaly_det.Kernel.{Hash, PerCpuArray}
use ebpf_docker_anormaly_det.KernelModel.{hash, percpu_cell}
use ebpf_docker_anormaly_det.ExitCount.{Exit, ExitStat, count_exits, count_exits-count}

abbrev count : PerCpuArray ℕ
count = percpu_cell ℕ

abbrev last : Hash ExitStat
last = hash ExitStat 1024

abbrev exit_on : ℕ → ℕ → Exit
exit_on cpu pid_tgid = record { cpu = cpu; pid_tgid = pid_tgid; ktime_ns = 100; comm = [] }

abbrev exits : List Exit
exits = exit_on 0 40 ∷ exit_on 1 41 ∷ exit_on 0 42 ∷ []

abbrev seven : count.Map
seven c = 7

count_exits-count_example :
    count.lookup (count_exits count last exits (seven, [])).0 0 0 ≡ some (add64 7 2)
count_exits-count_example =
    count_exits-count count last exits seven [] 0 7 (omega arith) (omega arith) refl
