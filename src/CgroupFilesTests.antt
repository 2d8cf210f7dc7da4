-- ===== src/CgroupFilesTests.antt =====
-- Runs of the parsers of pkg/cgroup/reader.go, and the theorem about numbers at a concrete input.
use ebpf_docker_anormaly_det.Prelude.{◌≡◌, refl, some}
use ebpf_docker_anormaly_det.CgroupFiles.{
  parse_from, parse_uint, fields_from, lines_from, scan, drop_cr, zero_cpu_stat, set_cpu_stat,
  cpu_line, cpu_lines, read_cpu_stat, cut_from, add_io_stat, io_pairs, io_line, io_lines,
  read_io_stat,
}

largest : parse_uint "18446744073709551616x" ≡ 18446744073709551615
unfolding parse_from
largest = refl

cpu :
    read_cpu_stat (some "usage_usec 1500\nbad line here\nnr_periods 4\nnr_throttled x\n")
    ≡ record zero_cpu_stat { usage_usec = 1500; nr_periods = 4 }
unfolding read_cpu_stat cpu_lines cpu_line set_cpu_stat fields_from lines_from scan drop_cr
    parse_from
cpu = refl

io :
    read_io_stat (some "8:0 rbytes=100 wbytes=7 rios=1 wios=2\n8:16 rbytes=23 dios\n")
    ≡ record { rbytes = 123; wbytes = 7; rios = 1; wios = 2 }
unfolding read_io_stat io_lines io_line io_pairs add_io_stat cut_from fields_from lines_from scan
    drop_cr parse_from
io = refl
