-- ===== src/CgroupFiles/Fields.antt =====
-- Words, numbers and lines in the files that pkg/cgroup/reader.go and pkg/container/resolver.go read.
use Prim.Native.Char.{Char}
use Prim.Native.String.{◌++◌ as text_append}
use text.Mathlib.TextLemmas.{nil-append, append-nil, cons-append, append_assoc, cons≢nil}
use text.Mathlib.TextEquality.{eq_iff}
use ebpf_docker_anormaly_det.Prelude.{
  ℕ, zero, suc, ◌/◌, ◌%◌, eqb, ◌<◌, ◌≡◌, ◌∙◌, refl, ap, Bool, true, false, not, ◌&&◌, String, List,
  [], ◌∷◌, string_eq, ◌==◌, arith, All, Bool-cases, inl, inr,
}
use ebpf_docker_anormaly_det.Feature.Encoder.{digits, digit, text_of, utoa}
use ebpf_docker_anormaly_det.CgroupFiles.Numbers.{digits-small}
use ebpf_docker_anormaly_det.CgroupFiles.{fields_from, is_space}

-- A word of the line: no space and no `)` in it.
unfoldable pub is_plain : String → Bool
is_plain String.[] = true
is_plain (String.◌∷◌ c s) =
    let rest = is_plain s in
    not (is_space (String.◌∷◌ c String.[])) && (not ((String.◌∷◌ c String.[]) == ")") && rest)

abbrev pub IsWord : String → Type 0
IsWord w = (is_plain w ≡ true) × (w == "" ≡ false)

three : (a b c : Bool) → (not a && (not b && c)) ≡ true → (a ≡ false) × (b ≡ false) × (c ≡ true)
three true b c h = absurd (ground (arith, h))
three false true c h = absurd (ground (arith, h))
three false false c h = (refl, refl, h)

pub plain-cons :
    (c : Char) (s : String)
    → is_plain (String.◌∷◌ c s) ≡ true
    → (is_space (String.◌∷◌ c String.[]) ≡ false)
      × (((String.◌∷◌ c String.[]) == ")") ≡ false)
      × (is_plain s ≡ true)
unfolding is_plain
plain-cons c s h =
    three (is_space (String.◌∷◌ c String.[])) ((String.◌∷◌ c String.[]) == ")") (is_plain s) h

-- A word joins the begin of a field.
pub fields_from-word :
    (w acc s : String)
    → is_plain w ≡ true
    → fields_from acc (text_append w s) ≡ fields_from (text_append acc w) s
unfolding fields_from
fields_from-word String.[] acc s p = rw (nil-append s, append-nil acc) refl
fields_from-word (String.◌∷◌ c w) acc s p =
    let (space, paren, rest) = plain-cons c w p in
    rw (cons-append c w s, fields_from, space)
      (fields_from-word w (text_append acc (String.◌∷◌ c String.[])) s rest
        ∙ ap (λ t. fields_from t s)
            (append_assoc acc (String.◌∷◌ c String.[]) w
              ∙ ap (λ t. text_append acc t) (cons-append c String.[] w ∙ rw (nil-append w) refl)))

pub cons_is_text : (c : Char) (s : String) → ((String.◌∷◌ c s) == "") ≡ false
cons_is_text c s = elim (Bool-cases ((String.◌∷◌ c s) == "")) [
  | inl e ↦ absurd (cons≢nil ((eq_iff (String.◌∷◌ c s) "").0 e))
  | inr e ↦ e
]

digits_is_text :
    (fuel n : ℕ) (d : ℕ) (acc : List ℕ) → (text_of (digits fuel n (d ∷ acc)) == "") ≡ false
unfolding digits
digits_is_text zero n d acc = cons_is_text (digit d) (text_of acc)
digits_is_text (suc fuel) n d acc = elim (Bool-cases (eqb (n / 10) 0)) [
  | inl small ↦ rw (digits, small) (cons_is_text (digit (n % 10)) (text_of (d ∷ acc)))
  | inr large ↦ rw (digits, large) (digits_is_text fuel (n / 10) (n % 10) (d ∷ acc))
]

pub utoa_is_text : (n : ℕ) → (utoa n == "") ≡ false
unfolding utoa digits
utoa_is_text n = elim (Bool-cases (eqb (n / 10) 0)) [
  | inl small ↦ rw (digits, small) (cons_is_text (digit (n % 10)) "")
  | inr large ↦ rw (digits, large) (digits_is_text 19 (n / 10) (n % 10) [])
]

-- The digits of a number make a word.
plain-digit : (d : ℕ) (s : String) → d < 10 → is_plain (String.◌∷◌ (digit d) s) ≡ is_plain s
unfolding is_plain
plain-digit zero s h = refl
plain-digit (suc zero) s h = refl
plain-digit (suc (suc zero)) s h = refl
plain-digit (suc (suc (suc zero))) s h = refl
plain-digit (suc (suc (suc (suc zero)))) s h = refl
plain-digit (suc (suc (suc (suc (suc zero))))) s h = refl
plain-digit (suc (suc (suc (suc (suc (suc zero)))))) s h = refl
plain-digit (suc (suc (suc (suc (suc (suc (suc zero))))))) s h = refl
plain-digit (suc (suc (suc (suc (suc (suc (suc (suc zero)))))))) s h = refl
plain-digit (suc (suc (suc (suc (suc (suc (suc (suc (suc zero))))))))) s h = refl
plain-digit (suc (suc (suc (suc (suc (suc (suc (suc (suc (suc d)))))))))) s h = absurd (omega arith)

plain-text_of : (ds : List ℕ) → All (λ d. d < 10) ds → is_plain (text_of ds) ≡ true
unfolding is_plain
plain-text_of [] h = refl
plain-text_of (d ∷ ds) h = plain-digit d (text_of ds) h.0 ∙ plain-text_of ds h.1

pub utoa-IsWord : (n : ℕ) → IsWord (utoa n)
unfolding utoa
utoa-IsWord n = (plain-text_of (digits 20 n []) (digits-small 20 n [] tt), utoa_is_text n)
