-- ===== src/CgroupFiles/Files.antt =====
-- Whole files: `readCPUStat` of pkg/cgroup/reader.go on what the kernel writes to cpu.stat.
use Prim.Native.Char.{Char}
use Prim.Native.String.{len, ◌++◌ as text_append}
use text.Mathlib.TextEquality.{eq_iff}
use text.Mathlib.TextLemmas.{nil-append, append-nil, cons-append, append_assoc}
use ebpf_docker_anormaly_det.Prelude.{
  ℕ, ◌^◌, ◌<◌, ◌≡◌, ◌∙◌, refl, sym, ap, true, false, String, some, List, [], ◌∷◌, string_eq, ◌==◌,
  arith, All, Bool, ◌||◌, if◌then◌else◌, ltb, Bool-cases, inl, inr,
}
use ebpf_docker_anormaly_det.Feature.Encoder.{utoa}
use ebpf_docker_anormaly_det.CgroupFiles.Numbers.{parse_uint-utoa}
use ebpf_docker_anormaly_det.CgroupFiles.Fields.{
  is_plain, IsWord, plain-cons, fields_from-word, utoa-IsWord, cons_is_text,
}
use ebpf_docker_anormaly_det.CgroupFiles.{
  CpuStat, zero_cpu_stat, fields, fields_from, lines, lines_from, is_space, set_cpu_stat, cpu_line,
  cpu_lines, read_cpu_stat, scan, drop_cr, max_token,
}

-- A line of a name and a number.
abbrev pub pair_line : String × ℕ → String
pair_line (k, n) = text_append k (String.◌∷◌ " " (utoa n))

-- A file of such lines.
unfoldable pub pair_file : List (String × ℕ) → String
pair_file [] = ""
pair_file (p ∷ ps) = text_append (pair_line p) (String.◌∷◌ "\n" (pair_file ps))

-- A name of one word and a 64-bit number, on a line that the scanner takes.
abbrev pub IsPair : String × ℕ → Type 0
IsPair (k, n) = IsWord k × (n < 2 ^ 64) × (len (pair_line (k, n)) < max_token)

-- What the `switch` makes of the pairs, one after the other.
unfoldable pub set_all : List (String × ℕ) → CpuStat → CpuStat
set_all [] s = s
set_all ((k, n) ∷ ps) s = set_all ps (set_cpu_stat k n s)

-- The counters, and their names in the file.
pub data Field : Type 0 where
  usage user system periods throttled throttled_time : Field

abbrev pub counter : Field → CpuStat → ℕ
counter usage s = s.usage_usec
counter user s = s.user_usec
counter system s = s.system_usec
counter periods s = s.nr_periods
counter throttled s = s.nr_throttled
counter throttled_time s = s.throttled_usec

abbrev pub key_of : Field → String
key_of usage = "usage_usec"
key_of user = "user_usec"
key_of system = "system_usec"
key_of periods = "nr_periods"
key_of throttled = "nr_throttled"
key_of throttled_time = "throttled_usec"

-- The number of the last line with a name.
abbrev pub last_of : String → List (String × ℕ) → ℕ → ℕ
last_of name [] before = before
last_of name ((k, n) ∷ ps) before = last_of name ps (if k == name then n else before)

counter-set_cpu_stat :
    (f : Field) (k : String) (n : ℕ) (s : CpuStat)
    → counter f (set_cpu_stat k n s) ≡ (if k == key_of f then n else counter f s)
unfolding set_cpu_stat
counter-set_cpu_stat usage k n s = elim (Bool-cases (k == key_of usage)) [
  | inl e ↦ rw ((eq_iff k (key_of usage)).0 e) refl
  | inr e ↦ ground (arith, e)
]
counter-set_cpu_stat user k n s = elim (Bool-cases (k == key_of user)) [
  | inl e ↦ rw ((eq_iff k (key_of user)).0 e) refl
  | inr e ↦ ground (arith, e)
]
counter-set_cpu_stat system k n s = elim (Bool-cases (k == key_of system)) [
  | inl e ↦ rw ((eq_iff k (key_of system)).0 e) refl
  | inr e ↦ ground (arith, e)
]
counter-set_cpu_stat periods k n s = elim (Bool-cases (k == key_of periods)) [
  | inl e ↦ rw ((eq_iff k (key_of periods)).0 e) refl
  | inr e ↦ ground (arith, e)
]
counter-set_cpu_stat throttled k n s = elim (Bool-cases (k == key_of throttled)) [
  | inl e ↦ rw ((eq_iff k (key_of throttled)).0 e) refl
  | inr e ↦ ground (arith, e)
]
counter-set_cpu_stat throttled_time k n s = elim (Bool-cases (k == key_of throttled_time)) [
  | inl e ↦ rw ((eq_iff k (key_of throttled_time)).0 e) refl
  | inr e ↦ ground (arith, e)
]

counter-zero : (f : Field) → counter f zero_cpu_stat ≡ 0
counter-zero usage = refl
counter-zero user = refl
counter-zero system = refl
counter-zero periods = refl
counter-zero throttled = refl
counter-zero throttled_time = refl

ltb-true : (m n : ℕ) → m < n → ltb m n ≡ true
ltb-true m n h = ground arith

counter-set_all :
    (f : Field) (ps : List (String × ℕ)) (s : CpuStat)
    → counter f (set_all ps s) ≡ last_of (key_of f) ps (counter f s)
unfolding set_all
counter-set_all f [] s = refl
counter-set_all f ((k, n) ∷ ps) s =
    counter-set_all f ps (set_cpu_stat k n s)
    ∙ ap (λ before. last_of (key_of f) ps before) (counter-set_cpu_stat f k n s)

first_false : (a b : Bool) → (a || b) ≡ false → a ≡ false
first_false true b h = h
first_false false b h = refl

newline-space :
    (c : Char)
    → is_space (String.◌∷◌ c String.[]) ≡ false
    → ((String.◌∷◌ c String.[]) == "\n") ≡ false
newline-space c h = first_false ((String.◌∷◌ c String.[]) == "\n") _ h

return-space :
    (c : Char)
    → is_space (String.◌∷◌ c String.[]) ≡ false
    → ((String.◌∷◌ c String.[]) == "\r") ≡ false
return-space c h = elim (Bool-cases ((String.◌∷◌ c String.[]) == "\r")) [
  | inr e ↦ e
  | inl e ↦ absurd (ground (arith, rw ((eq_iff (String.◌∷◌ c String.[]) "\r").0 e) at h))
]

-- A line that ends in a word has no carriage return at its end.
drop_cr-word : (w : String) → is_plain w ≡ true → drop_cr w ≡ w
unfolding drop_cr
drop_cr-word String.[] p = refl
drop_cr-word (String.◌∷◌ c w) p =
    let (space, paren, rest) = plain-cons c w p in
    rw (drop_cr, drop_cr-word w rest, return-space c space)
      (elim (Bool-cases (w == "")) [ inl e ↦ rw e refl | inr e ↦ rw e refl ])

append_is_text : (a w : String) → (w == "") ≡ false → (text_append a w == "") ≡ false
append_is_text String.[] w h = rw (nil-append w) h
append_is_text (String.◌∷◌ c a) w h = rw (cons-append c a w) (cons_is_text c (text_append a w))

drop_cr-append :
    (a w : String) → (w == "") ≡ false → drop_cr w ≡ w → drop_cr (text_append a w) ≡ text_append a w
unfolding drop_cr
drop_cr-append String.[] w h e = rw (nil-append w) e
drop_cr-append (String.◌∷◌ c a) w h e =
    rw (cons-append c a w, drop_cr, append_is_text a w h, drop_cr-append a w h e) refl

drop_cr-pair :
    (k v : String)
    → IsWord v
    → drop_cr (text_append k (String.◌∷◌ " " v)) ≡ text_append k (String.◌∷◌ " " v)
unfolding drop_cr
drop_cr-pair k v q =
    drop_cr-append k (String.◌∷◌ " " v) (cons_is_text " " v)
      (rw (drop_cr, q.1, drop_cr-word v q.0) refl)

pub lines_from-word :
    (w acc s : String)
    → is_plain w ≡ true
    → lines_from acc (text_append w s) ≡ lines_from (text_append acc w) s
unfolding lines_from
lines_from-word String.[] acc s p = rw (nil-append s, append-nil acc) refl
lines_from-word (String.◌∷◌ c w) acc s p =
    let (space, paren, rest) = plain-cons c w p in
    rw (cons-append c w s, lines_from, newline-space c space)
      (lines_from-word w (text_append acc (String.◌∷◌ c String.[])) s rest
        ∙ ap (λ t. lines_from t s)
            (append_assoc acc (String.◌∷◌ c String.[]) w
              ∙ ap (λ t. text_append acc t) (cons-append c String.[] w ∙ rw (nil-append w) refl)))

lines_from-pair :
    (k v s : String)
    → is_plain k ≡ true
    → is_plain v ≡ true
    → lines_from "" (text_append (text_append k (String.◌∷◌ " " v)) (String.◌∷◌ "\n" s))
      ≡ text_append k (String.◌∷◌ " " v) ∷ lines_from "" s
unfolding lines_from
lines_from-pair k v s p q =
    let rest = String.◌∷◌ "\n" s in
    let behind = String.◌∷◌ " " (text_append v rest) in
    let begun = text_append k (String.◌∷◌ " " String.[]) in
    let whole : text_append begun v ≡ text_append k (String.◌∷◌ " " v) =
      append_assoc k (String.◌∷◌ " " String.[]) v
      ∙ ap (λ t. text_append k t) (cons-append " " String.[] v ∙ rw (nil-append v) refl) in
    rw (append_assoc k (String.◌∷◌ " " v) rest, cons-append " " v rest)
      (lines_from-word k "" behind p
        ∙ rw (nil-append k) (lines_from-word v begun rest q ∙ rw (lines_from, whole) refl))

fields-pair :
    (k v : String) → IsWord k → IsWord v → fields (text_append k (String.◌∷◌ " " v)) ≡ k ∷ v ∷ []
unfolding fields_from
fields-pair k v p q =
    fields_from-word k "" (String.◌∷◌ " " v) p.0
    ∙ rw (nil-append k, fields_from, p.1)
        (ap (λ ws. k ∷ ws)
          (ap (λ t. fields_from "" t) (sym (append-nil v))
            ∙ fields_from-word v "" "" q.0
            ∙ rw (nil-append v, q.1) refl))

cpu_lines-pair_file :
    (ps : List (String × ℕ)) (s : CpuStat)
    → All IsPair ps
    → cpu_lines (lines (pair_file ps)) s ≡ set_all ps s
unfolding pair_file set_all cpu_lines lines_from scan cpu_line set_cpu_stat
cpu_lines-pair_file [] s h = refl
cpu_lines-pair_file ((k, n) ∷ ps) s (h, hs) =
    let v = utoa-IsWord n in
    rw
      (
        pair_file,
        lines_from-pair k (utoa n) (pair_file ps) h.0.0 v.0,
        scan,
        ltb-true (len (pair_line (k, n))) max_token h.2,
        drop_cr-pair k (utoa n) v,
        cpu_lines,
        fields-pair k (utoa n) h.0 v,
      )
      (rw (cpu_line, parse_uint-utoa n h.1) (cpu_lines-pair_file ps (set_cpu_stat k n s) hs))

-- From a file of lines with a name and a number, as the kernel writes cpu.stat, in whatever order and
-- with whatever other names between them, none as long as the scanner's limit: each counter that
-- `readCPUStat` reads has the number of the last line with its name, or is 0 without one.
pub read_cpu_stat-pair_file :
    (ps : List (String × ℕ))
    → All IsPair ps
    → (f : Field) → counter f (read_cpu_stat (some (pair_file ps))) ≡ last_of (key_of f) ps 0
unfolding read_cpu_stat
read_cpu_stat-pair_file ps h f =
    ap (λ s. counter f s) (cpu_lines-pair_file ps zero_cpu_stat h)
    ∙ counter-set_all f ps zero_cpu_stat
    ∙ ap (λ n. last_of (key_of f) ps n) (counter-zero f)
