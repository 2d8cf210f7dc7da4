-- ===== src/CgroupFiles/Numbers.antt =====
-- The decimal numbers that pkg/feature/csv.go prints are read back by the parser of
-- pkg/cgroup/reader.go.
use ebpf_docker_anormaly_det.Prelude.{
  ℕ, suc, zero, ◌+◌, ◌*◌, ◌/◌, ◌%◌, ◌<◌, ◌≤◌, ◌^◌, ◌≡◌, refl, ◌∙◌, String, List, [], ◌∷◌, arith,
  some, eqb, ltb, if◌then◌else◌, inl, inr, Bool-cases, All,
}
use ebpf_docker_anormaly_det.Feature.Encoder.{digits, digit, text_of, utoa}
use ebpf_docker_anormaly_det.Feature.Encoder.Rows.{number_from, number-digits}
use ebpf_docker_anormaly_det.CgroupFiles.{digit_of, max_uint64, parse_from, parse_uint}

pub digit_of-digit : (d : ℕ) → d < 10 → digit_of (String.◌∷◌ (digit d) String.[]) ≡ some d
digit_of-digit zero h = refl
digit_of-digit (suc zero) h = refl
digit_of-digit (suc (suc zero)) h = refl
digit_of-digit (suc (suc (suc zero))) h = refl
digit_of-digit (suc (suc (suc (suc zero)))) h = refl
digit_of-digit (suc (suc (suc (suc (suc zero))))) h = refl
digit_of-digit (suc (suc (suc (suc (suc (suc zero)))))) h = refl
digit_of-digit (suc (suc (suc (suc (suc (suc (suc zero))))))) h = refl
digit_of-digit (suc (suc (suc (suc (suc (suc (suc (suc zero)))))))) h = refl
digit_of-digit (suc (suc (suc (suc (suc (suc (suc (suc (suc zero))))))))) h = refl
digit_of-digit (suc (suc (suc (suc (suc (suc (suc (suc (suc (suc d)))))))))) h =
    absurd (omega arith)

digit-step :
    (d m : ℕ) (s : String)
    → d < 10
    → parse_from m (String.◌∷◌ (digit d) s)
      ≡ (if ltb max_uint64 (m * 10 + d) then max_uint64 else parse_from (m * 10 + d) s)
unfolding parse_from
digit-step d m s h = rw (parse_from, digit_of-digit d h) refl

pub number_from_grows : (ds : List ℕ) (m : ℕ) → m ≤ number_from m ds
number_from_grows [] m = omega arith
number_from_grows (d ∷ ds) m = omega (arith, number_from_grows ds (m * 10 + d))

parse-text_of :
    (ds : List ℕ) (m : ℕ)
    → All (λ d. d < 10) ds
    → number_from m ds ≤ max_uint64
    → parse_from m (text_of ds) ≡ number_from m ds
parse-text_of [] m w h = unfold parse_from in refl
parse-text_of (d ∷ ds) m w h =
    digit-step d m (text_of ds) w.0
    ∙ ground (arith, number_from_grows ds (m * 10 + d), parse-text_of ds (m * 10 + d) w.1)

pub digits-small :
    (fuel n : ℕ) (acc : List ℕ) → All (λ d. d < 10) acc → All (λ d. d < 10) (digits fuel n acc)
unfolding digits
digits-small zero n acc w = w
digits-small (suc fuel) n acc w = elim (Bool-cases (eqb (n / 10) 0)) [
  | inl small ↦ rw (digits, small) (omega arith, w)
  | inr large ↦ rw (digits, large) (digits-small fuel (n / 10) (n % 10 ∷ acc) (omega arith, w))
]

-- Every 64-bit number that the encoder prints is read back as itself by the parser of numbers.
pub parse_uint-utoa : (n : ℕ) → n < 2 ^ 64 → parse_uint (utoa n) ≡ n
unfolding utoa
parse_uint-utoa n h =
    parse-text_of (digits 20 n []) 0 (digits-small 20 n [] tt) (omega (arith, number-digits n h))
    ∙ number-digits n h
