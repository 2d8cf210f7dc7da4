-- ===== src/Resolver/ProcFiles/StartTime.antt =====
-- `readStartTimeTicks` of pkg/container/resolver.go on the line that the kernel writes to
-- /proc/<pid>/stat.
use Prim.Native.String.{◌++◌ as text_append}
use text.Mathlib.TextLemmas.{nil-append, cons-append, append_assoc}
use ebpf_docker_anormaly_det.Prelude.{
  ℕ, ◌+◌, ◌*◌, ◌^◌, ◌-◌, ◌<◌, ◌≤◌, ◌≡◌, ◌∙◌, refl, sym, ap, true, false, String, none, some, List,
  [], ◌∷◌, string_eq, ◌==◌, arith, All,
}
use ebpf_docker_anormaly_det.Feature.Encoder.{digits, text_of, utoa}
use ebpf_docker_anormaly_det.Feature.Encoder.Rows.{number_from, number-digits}
use ebpf_docker_anormaly_det.CgroupFiles.{fields_from, flush}
use ebpf_docker_anormaly_det.CgroupFiles.Numbers.{digit_of-digit, number_from_grows, digits-small}
use ebpf_docker_anormaly_det.CgroupFiles.Fields.{
  is_plain, IsWord, plain-cons, fields_from-word, cons_is_text, utoa_is_text,
}
use ebpf_docker_anormaly_det.Resolver.ProcFiles.{
  after_last_paren, nth, parse_digits, parse_uint_or_error, read_start_time_ticks,
}

-- The words behind the name of the process, each after a space, and the end of the line.
unfoldable pub spread : List String → String
spread [] = "\n"
spread (w ∷ ws) = String.◌∷◌ " " (text_append w (spread ws))

-- `<pid> (<comm>)<fields>`
abbrev pub stat_line : String → String → List String → String
stat_line pid comm ws =
    text_append pid (text_append " (" (text_append comm (String.◌∷◌ ")" (spread ws))))

-- A word has no `)`, so what stands behind the last one is the same with and without it.
after_last_paren-word :
    (w s : String)
    → is_plain w ≡ true
    → after_last_paren s ≡ none
    → after_last_paren (text_append w s) ≡ none
unfolding is_plain after_last_paren
after_last_paren-word String.[] s p e = rw (nil-append s) e
after_last_paren-word (String.◌∷◌ c w) s p e =
    let (space, paren, rest) = plain-cons c w p in
    rw (cons-append c w s, after_last_paren, after_last_paren-word w s rest e, paren) refl

after_last_paren-spread : (ws : List String) → All IsWord ws → after_last_paren (spread ws) ≡ none
unfolding after_last_paren spread
after_last_paren-spread [] h = refl
after_last_paren-spread (w ∷ ws) (h, hs) =
    rw
      (
        spread,
        after_last_paren,
        after_last_paren-word w (spread ws) h.0 (after_last_paren-spread ws hs),
      )
      refl

after_last_paren-append :
    (a s : String)
    → after_last_paren s ≡ none
    → after_last_paren (text_append a (String.◌∷◌ ")" s)) ≡ some s
unfolding after_last_paren
after_last_paren-append String.[] s e = rw (nil-append (String.◌∷◌ ")" s), e) refl
after_last_paren-append (String.◌∷◌ c a) s e =
    rw (cons-append c a (String.◌∷◌ ")" s), after_last_paren, after_last_paren-append a s e) refl

-- The words are the fields of the line.
fields_from-spread :
    (ws : List String) (acc : String) → All IsWord ws → fields_from acc (spread ws) ≡ flush acc ws
unfolding fields_from spread
fields_from-spread [] acc h = refl
fields_from-spread (w ∷ ws) acc (h, hs) =
    rw
      (
        spread,
        fields_from,
        fields_from-word w "" (spread ws) h.0,
        nil-append w,
        fields_from-spread ws w hs,
        h.1,
      )
      refl

parse_digits-text_of :
    (limit m : ℕ) (ds : List ℕ)
    → All (λ d. d < 10) ds
    → number_from m ds ≤ limit
    → parse_digits limit m (text_of ds) ≡ some (number_from m ds)
unfolding parse_digits
parse_digits-text_of limit m [] w h = refl
parse_digits-text_of limit m (d ∷ ds) w h =
    rw (text_of, parse_digits, digit_of-digit d w.0)
      (ground
        (arith, number_from_grows ds (m * 10 + d), parse_digits-text_of limit (m * 10 + d) ds w.1))

spread_is_text : (ws : List String) → (spread ws == "") ≡ false
unfolding spread
spread_is_text [] = refl
spread_is_text (w ∷ ws) = cons_is_text " " (text_append w (spread ws))

-- A number that the encoder prints is read back, and without an error.
parse_uint-utoa_or_error :
    (limit n : ℕ) → n < 2 ^ 64 → n ≤ limit → parse_uint_or_error limit (utoa n) ≡ some n
unfolding parse_uint_or_error utoa
parse_uint-utoa_or_error limit n h l =
    rw (parse_uint_or_error, utoa_is_text n)
      (parse_digits-text_of limit 0 (digits 20 n []) (digits-small 20 n [] tt)
          (omega (arith, number-digits n h))
        ∙ ap some (number-digits n h))

pub parse_uint-utoa_or_error_32 :
    (n : ℕ) → n < 2 ^ 32 → parse_uint_or_error (2 ^ 32 - 1) (utoa n) ≡ some n
parse_uint-utoa_or_error_32 n h =
    parse_uint-utoa_or_error (2 ^ 32 - 1) n (omega arith) (omega arith)

-- The kernel's line for a process: its id, its name in parentheses, and the words of the other fields, of
-- which the one at place 19 is the start time in ticks. Whatever the name holds, spaces and
-- parentheses too, and whatever the id, the parser reads the start time.
pub read_start_time_ticks-stat_line :
    (pid comm : String) (ws : List String) (start : ℕ)
    → All IsWord ws
    → nth 19 ws ≡ some (utoa start)
    → start < 2 ^ 64
    → read_start_time_ticks (some (stat_line pid comm ws)) ≡ some start
unfolding read_start_time_ticks
read_start_time_ticks-stat_line pid comm ws start h e l =
    let front = text_append pid (text_append " (" comm) in
    let line : stat_line pid comm ws ≡ text_append front (String.◌∷◌ ")" (spread ws)) = sym (
      append_assoc pid (text_append " (" comm) (String.◌∷◌ ")" (spread ws))
      ∙ ap (λ t. text_append pid t) (append_assoc " (" comm (String.◌∷◌ ")" (spread ws)))) in
    let tail = after_last_paren-append front (spread ws) (after_last_paren-spread ws h) in
    rw (line, tail, spread_is_text ws, fields_from-spread ws "" h, e)
      (parse_uint-utoa_or_error (2 ^ 64 - 1) start l (omega arith))
