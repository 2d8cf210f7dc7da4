-- ===== src/Resolver/ProcFiles.antt =====
-- The parsers of /proc/<pid>/stat and of cgroup.procs in pkg/container/resolver.go. The content of a
-- file is an argument, without a value if it cannot be read. The files are ASCII.
pub mod StartTime
use ebpf_docker_anormaly_det.Prelude.{
  ℕ, zero, suc, ◌+◌, ◌*◌, ◌^◌, ◌-◌, Bool, String, Option, none, some, List, [], ◌∷◌, string_eq,
  ◌==◌, ltb, if◌then◌else◌, ◌>>=◌,
}
use ebpf_docker_anormaly_det.CgroupFiles.{digit_of, fields}

-- `strconv.ParseUint(s, 10, bits)`, without a value on an error; `limit` is the greatest word.
unfoldable pub parse_digits : ℕ → ℕ → String → Option ℕ
parse_digits limit n String.[] = some n
parse_digits limit n (String.◌∷◌ c s) = elim (digit_of (String.◌∷◌ c String.[])) [
  | none ↦ none
  | some d ↦
      let rest = parse_digits limit (n * 10 + d) s in if ltb limit (n * 10 + d) then none else rest
]

unfoldable pub parse_uint_or_error : ℕ → String → Option ℕ
unfolding parse_digits
parse_uint_or_error limit s = if s == "" then none else parse_digits limit 0 s

-- The text behind the last `)`, which `strings.LastIndexByte` finds.
unfoldable pub after_last_paren : String → Option String
after_last_paren String.[] = none
after_last_paren (String.◌∷◌ c s) =
    let later = after_last_paren s in
    elim later [ some t ↦ some t | none ↦ if (String.◌∷◌ c String.[]) == ")" then some s else none ]

unfoldable pub nth : ℕ → List String → Option String
nth n [] = none
nth zero (w ∷ ws) = some w
nth (suc n) (w ∷ ws) = nth n ws

-- `readStartTimeTicks`, whose errors are one value.
unfoldable pub read_start_time_ticks : Option String → Option ℕ
unfolding after_last_paren nth parse_uint_or_error
read_start_time_ticks file = do
  content ← file
  tail ← after_last_paren content
  field ← if tail == "" then none else nth 19 (fields tail)
  parse_uint_or_error (2 ^ 64 - 1) field
