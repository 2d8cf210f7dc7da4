-- ===== src/CgroupFiles/Memory.antt =====
-- `readPressure` and `readMemory` of pkg/cgroup/reader.go. `strconv.ParseFloat` is a parameter, whose
-- value, whatever its error, the code takes.
use text.Mathlib.Text.{starts_with}
use ebpf_docker_anormaly_det.Prelude.{
  ℕ, ◌&&◌, String, Option, none, some, List, [], ◌∷◌, string_eq, ◌==◌, if◌then◌else◌,
}
use ebpf_docker_anormaly_det.Feature.Types.{Floats}
use ebpf_docker_anormaly_det.CgroupFiles.{is_space, fields, lines, cut, parse_uint, oom_lines}

-- `strings.TrimSpace`
unfoldable pub trim_left : String → String
trim_left String.[] = ""
trim_left (String.◌∷◌ c s) =
    let rest = trim_left s in if is_space (String.◌∷◌ c String.[]) then rest else String.◌∷◌ c s

unfoldable pub trim_right : String → String
trim_right String.[] = ""
trim_right (String.◌∷◌ c s) =
    let rest = trim_right s in
    if (rest == "") && is_space (String.◌∷◌ c String.[]) then "" else String.◌∷◌ c rest

abbrev pub trim_space : String → String
trim_space s = trim_left (trim_right s)

module _ (fl : Floats) (parse_float : String → fl.Float) (zero_float : fl.Float) where
  pub record PressureLine : Type 0 where
    pub avg10 : fl.Float
    pub avg60 : fl.Float
    pub avg300 : fl.Float
    pub total : ℕ

  pub record Pressure : Type 0 where
    pub some_line : PressureLine
    pub full_line : PressureLine

  abbrev pub zero_line : PressureLine
  zero_line = record { avg10 = zero_float; avg60 = zero_float; avg300 = zero_float; total = 0 }

  abbrev pub zero_pressure : Pressure
  zero_pressure = record { some_line = zero_line; full_line = zero_line }

  -- The `switch` on the name of a pair.
  unfoldable pub set_pressure : String → String → PressureLine → PressureLine
  set_pressure k v p =
      if k == "avg10"
      then record p { avg10 = parse_float v }
      else if k == "avg60"
      then record p { avg60 = parse_float v }
      else if k == "avg300"
      then record p { avg300 = parse_float v }
      else if k == "total"
      then record p { total = parse_uint v }
      else p

  unfoldable pub pressure_pairs : List String → PressureLine → PressureLine
  pressure_pairs [] p = p
  pressure_pairs (kv ∷ rest) p = elim (cut kv) [
    | none ↦ pressure_pairs rest p
    | some (k, v) ↦ pressure_pairs rest (set_pressure k v p)
  ]

  -- `strings.Fields(line)[1:]`; a line with one of the prefixes has a field.
  abbrev behind_first : List String → List String
  behind_first [] = []
  behind_first (w ∷ ws) = ws

  unfoldable pub pressure_line : String → Pressure → Pressure
  pressure_line line p =
      let pairs = behind_first (fields line) in
      if starts_with line "some"
      then record p { some_line = pressure_pairs pairs p.some_line }
      else if starts_with line "full"
      then record p { full_line = pressure_pairs pairs p.full_line }
      else p

  unfoldable pub pressure_lines : List String → Pressure → Pressure
  pressure_lines [] p = p
  pressure_lines (line ∷ rest) p = pressure_lines rest (pressure_line line p)

  -- `readPressure`, whose error nobody looks at.
  unfoldable pub read_pressure : Option String → Pressure
  read_pressure none = zero_pressure
  read_pressure (some content) = pressure_lines (lines content) zero_pressure

  pub record MemoryStat : Type 0 where
    pub current : ℕ
    pub max : ℕ
    pub oom_kill : ℕ
    pub pressure : Pressure

  -- memory.current, and memory.max, which is `max` without a limit.
  unfoldable pub read_current : Option String → ℕ
  read_current none = 0
  read_current (some content) = parse_uint (trim_space content)

  unfoldable pub read_max : Option String → ℕ
  read_max none = 0
  read_max (some content) =
      if trim_space content == "max" then 0 else parse_uint (trim_space content)

  unfoldable pub read_oom_kill : Option String → ℕ
  read_oom_kill none = 0
  read_oom_kill (some content) = oom_lines (lines content) 0

  -- `readMemory`, of memory.current, memory.max, memory.pressure and memory.events.
  unfoldable pub read_memory :
      Option String → Option String → Option String → Option String → MemoryStat
  read_memory current max pressure events = record {
    current = read_current current;
    max = read_max max;
    oom_kill = read_oom_kill events;
    pressure = read_pressure pressure;
  }
