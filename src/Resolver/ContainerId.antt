-- ===== src/Resolver/ContainerId.antt =====
-- `parseContainerIDFromCgroup` of pkg/container/resolver.go: the first match of the expression
-- `(?:docker|containerd)[/-]([0-9a-f]{64})` in a line of /proc/<pid>/cgroup.
use Prim.Native.Char.{Char}
use Prim.Native.String.{◌++◌ as text_append}
use text.Mathlib.TextLemmas.{nil-append, cons-append}
use ebpf_docker_anormaly_det.Prelude.{
  ℕ, zero, suc, ◌≡◌, refl, Bool, true, false, ◌&&◌, ◌||◌, String, Option, none, some, List, [], ◌∷◌,
  string_eq, ◌==◌, if◌then◌else◌, arith, ◌>>=◌,
}
use ebpf_docker_anormaly_det.Prelude.Table.{is_some}
use ebpf_docker_anormaly_det.CgroupFiles.{digit_of, lines}

-- `[0-9a-f]`
abbrev pub is_hex : String → Bool
is_hex c =
    is_some (digit_of c)
    || (c == "a" || (c == "b" || (c == "c" || (c == "d" || (c == "e" || c == "f")))))

-- `[0-9a-f]{n}` at the begin of a text: what it matches.
unfoldable pub take_hex : ℕ → String → Option String
take_hex zero s = some ""
take_hex (suc n) String.[] = none
take_hex (suc n) (String.◌∷◌ c s) =
    let rest = take_hex n s in
    if is_hex (String.◌∷◌ c String.[]) then (rest >>= λ r. some (String.◌∷◌ c r)) else none

-- What stands behind a text at the begin of another.
unfoldable pub behind : String → String → Option String
behind String.[] s = some s
behind (String.◌∷◌ c p) String.[] = none
behind (String.◌∷◌ c p) (String.◌∷◌ d s) =
    let rest = behind p s in
    if (String.◌∷◌ c String.[]) == (String.◌∷◌ d String.[]) then rest else none

-- `[/-]`
unfoldable pub behind_separator : String → Option String
behind_separator String.[] = none
behind_separator (String.◌∷◌ c s) =
    if (String.◌∷◌ c String.[]) == "/" || (String.◌∷◌ c String.[]) == "-" then some s else none

-- One alternative of the expression, and the expression, at the begin of a text.
unfoldable pub match_kind : String → String → Option String
match_kind kind s = do t ← behind kind s; u ← behind_separator t; take_hex 64 u

unfoldable pub match_here : String → Option String
unfolding match_kind
match_here s = elim (match_kind "docker" s) [
  | some cid ↦ some cid
  | none ↦ match_kind "containerd" s
]

-- `FindStringSubmatch`, the leftmost match.
unfoldable pub match_line : String → Option String
match_line String.[] = none
match_line (String.◌∷◌ c s) =
    let later = match_line s in
    elim (match_here (String.◌∷◌ c s)) [ some cid ↦ some cid | none ↦ later ]

-- The first line with a match, and "" without one, or if the file cannot be read.
unfoldable pub match_lines : List String → String
match_lines [] = ""
match_lines (line ∷ rest) =
    let later = match_lines rest in elim (match_line line) [ some cid ↦ cid | none ↦ later ]

unfoldable pub parse_container_id_from_cgroup : Option String → String
parse_container_id_from_cgroup none = ""
parse_container_id_from_cgroup (some content) = match_lines (lines content)

-- A text of `n` hexadecimal digits.
unfoldable pub is_hexes : ℕ → String → Bool
is_hexes zero String.[] = true
is_hexes zero (String.◌∷◌ c s) = false
is_hexes (suc n) String.[] = false
is_hexes (suc n) (String.◌∷◌ c s) =
    let rest = is_hexes n s in is_hex (String.◌∷◌ c String.[]) && rest

-- No match of the expression starts in the text `front` before `s`.
unfoldable pub is_unmatched : String → String → Bool
is_unmatched String.[] s = true
is_unmatched (String.◌∷◌ c front) s =
    let rest = is_unmatched front s in
    elim (match_here (String.◌∷◌ c (text_append front s))) [ none ↦ rest | some cid ↦ false ]

both_true : (a b : Bool) → (a && b) ≡ true → (a ≡ true) × (b ≡ true)
both_true true b h = (refl, h)
both_true false b h = absurd (ground (arith, h))

no_match :
    (o : Option String) (rest : Bool)
    → elim o [ none ↦ rest | some cid ↦ false ] ≡ true
    → (o ≡ none) × (rest ≡ true)
no_match none rest h = (refl, h)
no_match (some cid) rest h = absurd (ground (arith, h))

take_hex-append :
    (n : ℕ) (cid s : String) → is_hexes n cid ≡ true → take_hex n (text_append cid s) ≡ some cid
unfolding take_hex is_hexes
take_hex-append zero String.[] s h = refl
take_hex-append zero (String.◌∷◌ c cid) s h = absurd (ground (arith, h))
take_hex-append (suc n) String.[] s h = absurd (ground (arith, h))
take_hex-append (suc n) (String.◌∷◌ c cid) s h =
    let (first, rest) = both_true (is_hex (String.◌∷◌ c String.[])) (is_hexes n cid) h in
    rw (cons-append c cid s, take_hex, first, take_hex-append n cid s rest) refl

match_line-front :
    (front s cid : String)
    → is_unmatched front s ≡ true
    → match_line s ≡ some cid
    → match_line (text_append front s) ≡ some cid
unfolding match_line is_unmatched
match_line-front String.[] s cid h e = rw (nil-append s) e
match_line-front (String.◌∷◌ c front) s cid h e =
    let here = match_here (String.◌∷◌ c (text_append front s)) in
    let (missed, rest) = no_match here (is_unmatched front s) h in
    rw (cons-append c front s, match_line, missed) (match_line-front front s cid rest e)

behind-append : (p s : String) → behind p (text_append p s) ≡ some s
unfolding behind
behind-append String.[] s = rw (nil-append s, behind) refl
behind-append (String.◌∷◌ c p) s =
    let same = (string_eq.same_iff (String.◌∷◌ c String.[]) (String.◌∷◌ c String.[])).1 refl in
    rw (cons-append c p s, behind, same, behind-append p s) refl

match_line-here : (t cid : String) → match_here t ≡ some cid → match_line t ≡ some cid
unfolding match_line match_here match_kind behind
match_line-here String.[] cid e = absurd (ground (arith, e))
match_line-here (String.◌∷◌ c s) cid e = rw (match_line, e) refl

-- A cgroup path of a container.
abbrev pub cgroup_line : String → Char → String → String → String
cgroup_line front separator cid back =
    text_append front (text_append "docker" (String.◌∷◌ separator (text_append cid back)))

-- Of a line that names a container by `docker-` or `docker/` and its 64 hexadecimal digits, with whatever
-- behind them, and before them anything in which no match begins, the parser takes those digits,
-- whatever lines follow.
pub match_lines-cgroup_line :
    (front cid back : String) (separator : Char) (others : List String)
    → ((String.◌∷◌ separator String.[]) == "/" || (String.◌∷◌ separator String.[]) == "-") ≡ true
    → is_hexes 64 cid ≡ true
    → is_unmatched front (text_append "docker" (String.◌∷◌ separator (text_append cid back))) ≡ true
    → match_lines (cgroup_line front separator cid back ∷ others) ≡ cid
unfolding match_lines match_here match_kind behind_separator
match_lines-cgroup_line front cid back separator others sep hex unmatched =
    let named = String.◌∷◌ separator (text_append cid back) in
    let here : match_here (text_append "docker" named) ≡ some cid =
      rw
        (
          match_here,
          match_kind,
          behind-append "docker" named,
          behind_separator,
          sep,
          take_hex-append 64 cid back hex,
        )
        refl in
    let found =
      match_line-front front (text_append "docker" named) cid unmatched
        (match_line-here (text_append "docker" named) cid here) in
    rw (match_lines, found) refl
