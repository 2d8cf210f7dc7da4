-- ===== src/CgroupFiles.antt =====
-- The parsers of cgroup files in pkg/cgroup/reader.go: cpu.stat, io.stat and memory.events. The
-- content of a file is an argument, without a value if it cannot be read. The files are UTF-8.
pub mod Numbers
pub mod Fields
pub mod Files
pub mod Memory
pub mod Snapshot
use Prim.Native.String.{len, ◌++◌ as text_append}
use text.Mathlib.Text.{starts_with}
use ebpf_docker_anormaly_det.Prelude.{
  ℕ, suc, ◌+◌, ◌-◌, ◌*◌, ◌^◌, Bool, true, false, ◌||◌, ◌&&◌, String, Option, none, some, List, [],
  ◌∷◌, string_eq, ◌==◌, ltb, eqb, if◌then◌else◌, add64, length,
}
use ebpf_docker_anormaly_det.Feature.Types.{Floats}

-- `unicode.IsSpace`, the characters that `strings.Fields` and `strings.TrimSpace` take for space: the
-- newline, and the others.
abbrev other_spaces : List String
other_spaces =
    " " ∷ "\t" ∷ "\u{b}" ∷ "\u{c}" ∷ "\r" ∷ "\u{85}" ∷ "\u{a0}" ∷ "\u{1680}" ∷ "\u{2000}"
    ∷ "\u{2001}" ∷ "\u{2002}" ∷ "\u{2003}" ∷ "\u{2004}" ∷ "\u{2005}" ∷ "\u{2006}" ∷ "\u{2007}"
    ∷ "\u{2008}" ∷ "\u{2009}" ∷ "\u{200a}" ∷ "\u{2028}" ∷ "\u{2029}" ∷ "\u{202f}" ∷ "\u{205f}"
    ∷ "\u{3000}" ∷ []

abbrev pub is_among : String → List String → Bool
is_among c [] = false
is_among c (d ∷ ds) = let rest = is_among c ds in c == d || rest

abbrev pub is_space : String → Bool
is_space c = c == "\n" || is_among c other_spaces

-- A word before a list of words, if it is not empty.
abbrev pub flush : String → List String → List String
flush word words = if word == "" then words else word ∷ words

-- `strings.Fields`, with the begin of a word.
unfoldable pub fields_from : String → String → List String
fields_from word String.[] = flush word []
fields_from word (String.◌∷◌ c s) =
    let space = is_space (String.◌∷◌ c String.[]) in
    let rest = fields_from (if space then "" else text_append word (String.◌∷◌ c String.[])) s in
    if space then flush word rest else rest

abbrev pub fields : String → List String
fields s = fields_from "" s

-- The texts between newlines, with the begin of one, but for an empty one at the end.
unfoldable pub lines_from : String → String → List String
lines_from line String.[] = flush line []
lines_from line (String.◌∷◌ c s) =
    let newline = (String.◌∷◌ c String.[]) == "\n" in
    let rest = lines_from (if newline then "" else text_append line (String.◌∷◌ c String.[])) s in
    if newline then line ∷ rest else rest

-- `bufio.ScanLines` drops a carriage return at the end of a line.
unfoldable pub drop_cr : String → String
drop_cr String.[] = ""
drop_cr (String.◌∷◌ c s) =
    let rest = drop_cr s in
    if (s == "") && ((String.◌∷◌ c String.[]) == "\r") then "" else String.◌∷◌ c rest

-- `bufio.MaxScanTokenSize`: a line of so many bytes ends the scan.
abbrev pub max_token : ℕ
max_token = 65536

unfoldable pub scan : List String → List String
scan [] = []
scan (line ∷ rest) =
    let later = scan rest in if ltb (len line) max_token then drop_cr line ∷ later else []

-- The lines of a `bufio.Scanner`.
abbrev pub lines : String → List String
lines s = scan (lines_from "" s)

abbrev pub digit_of : String → Option ℕ
digit_of c =
    if c == "0"
    then some 0
    else if c == "1"
    then some 1
    else if c == "2"
    then some 2
    else if c == "3"
    then some 3
    else if c == "4"
    then some 4
    else if c == "5"
    then some 5
    else if c == "6"
    then some 6
    else if c == "7"
    then some 7
    else if c == "8"
    then some 8
    else if c == "9"
    then some 9
    else none

abbrev pub max_uint64 : ℕ
max_uint64 = 18446744073709551615

-- The value of `strconv.ParseUint(s, 10, 64)`, whatever its error: 0 for a text that is no number,
-- and the greatest word as soon as the digits exceed it.
unfoldable pub parse_from : ℕ → String → ℕ
parse_from n String.[] = n
parse_from n (String.◌∷◌ c s) = elim (digit_of (String.◌∷◌ c String.[])) [
  | none ↦ 0
  | some d ↦
      let rest = parse_from (n * 10 + d) s in
      if ltb max_uint64 (n * 10 + d) then max_uint64 else rest
]

abbrev pub parse_uint : String → ℕ
parse_uint s = parse_from 0 s

pub record CpuStat : Type 0 where
  pub usage_usec : ℕ
  pub user_usec : ℕ
  pub system_usec : ℕ
  pub nr_periods : ℕ
  pub nr_throttled : ℕ
  pub throttled_usec : ℕ

abbrev pub zero_cpu_stat : CpuStat
zero_cpu_stat = record {
  usage_usec = 0;
  user_usec = 0;
  system_usec = 0;
  nr_periods = 0;
  nr_throttled = 0;
  throttled_usec = 0;
}

-- The `switch` of `readCPUStat`.
unfoldable pub set_cpu_stat : String → ℕ → CpuStat → CpuStat
set_cpu_stat k n s =
    if k == "usage_usec"
    then record s { usage_usec = n }
    else if k == "user_usec"
    then record s { user_usec = n }
    else if k == "system_usec"
    then record s { system_usec = n }
    else if k == "nr_periods"
    then record s { nr_periods = n }
    else if k == "nr_throttled"
    then record s { nr_throttled = n }
    else if k == "throttled_usec"
    then record s { throttled_usec = n }
    else s

-- A line with two fields sets a counter, and others are skipped.
unfoldable pub cpu_line : List String → CpuStat → CpuStat
cpu_line (k ∷ v ∷ []) s = set_cpu_stat k (parse_uint v) s
cpu_line _ s = s

unfoldable pub cpu_lines : List String → CpuStat → CpuStat
cpu_lines [] s = s
cpu_lines (line ∷ rest) s = cpu_lines rest (cpu_line (fields line) s)

-- `readCPUStat`
unfoldable pub read_cpu_stat : Option String → CpuStat
read_cpu_stat none = zero_cpu_stat
read_cpu_stat (some content) = cpu_lines (lines content) zero_cpu_stat

-- `strings.Index(kv, "=")` with the texts before and behind it.
unfoldable pub cut_from : String → String → Option (String × String)
cut_from before String.[] = none
cut_from before (String.◌∷◌ c s) =
    let rest = cut_from (text_append before (String.◌∷◌ c String.[])) s in
    if (String.◌∷◌ c String.[]) == "=" then some (before, s) else rest

abbrev pub cut : String → Option (String × String)
cut kv = cut_from "" kv

pub record IoStat : Type 0 where
  pub rbytes : ℕ
  pub wbytes : ℕ
  pub rios : ℕ
  pub wios : ℕ

abbrev pub zero_io_stat : IoStat
zero_io_stat = record { rbytes = 0; wbytes = 0; rios = 0; wios = 0 }

-- The `switch` of `readIOStat`.
unfoldable pub add_io_stat : String → ℕ → IoStat → IoStat
add_io_stat k n s =
    if k == "rbytes"
    then record s { rbytes = add64 s.rbytes n }
    else if k == "wbytes"
    then record s { wbytes = add64 s.wbytes n }
    else if k == "rios"
    then record s { rios = add64 s.rios n }
    else if k == "wios"
    then record s { wios = add64 s.wios n }
    else s

unfoldable pub io_pairs : List String → IoStat → IoStat
io_pairs [] s = s
io_pairs (kv ∷ rest) s = elim (cut kv) [
  | none ↦ io_pairs rest s
  | some (k, v) ↦ io_pairs rest (add_io_stat k (parse_uint v) s)
]

-- A line of a device: the fields behind its number.
unfoldable pub io_line : List String → IoStat → IoStat
io_line [] s = s
io_line (device ∷ kvs) s = io_pairs kvs s

unfoldable pub io_lines : List String → IoStat → IoStat
io_lines [] s = s
io_lines (line ∷ rest) s = io_lines rest (io_line (fields line) s)

-- `readIOStat`
unfoldable pub read_io_stat : Option String → IoStat
read_io_stat none = zero_io_stat
read_io_stat (some content) = io_lines (lines content) zero_io_stat

-- The loop of `readMemory` over memory.events.
unfoldable pub oom_line : List String → ℕ → ℕ
oom_line (k ∷ v ∷ []) n = if k == "oom_kill" then parse_uint v else n
oom_line _ n = n

unfoldable pub oom_lines : List String → ℕ → ℕ
oom_lines [] n = n
oom_lines (line ∷ rest) n = oom_lines rest (oom_line (fields line) n)
