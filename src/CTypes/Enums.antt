-- ===== src/CTypes/Enums.antt =====
-- The constants of an enumeration, by their names and by their values.
use ebpf_docker_anormaly_det.Prelude.{
  ℕ, ◌≡◌, true, Option, none, some, List, [], ◌∷◌, String, ◌==◌, string_eq, nat_eq, if◌then◌else◌,
  arith,
}
use ebpf_docker_anormaly_det.Prelude.Table.{lookup, contains, distinct}
use ebpf_docker_anormaly_det.CTypes.{CType, enum}

abbrev pub constants : CType → List (String × ℕ)
constants (enum vs) = vs
constants _ = []

unfoldable pub value_of : String → CType → Option ℕ
value_of x t = lookup x (constants t)

-- The first constant with a value.
unfoldable pub first_named : ℕ → List (String × ℕ) → Option String
first_named v [] = none
first_named v ((x, w) ∷ vs) = let rest = first_named v vs in if w == v then some x else rest

unfoldable pub name_of : ℕ → CType → Option String
unfolding first_named
name_of v t = first_named v (constants t)

unfoldable pub values : List (String × ℕ) → List ℕ
values [] = []
values ((x, w) ∷ vs) = w ∷ values vs

contains-values :
    (x : String) (v : ℕ) (vs : List (String × ℕ))
    → lookup x vs ≡ some v
    → contains v (values vs) ≡ true
unfolding values contains lookup
contains-values x v [] e = absurd (ground (arith, e))
contains-values x v ((y, w) ∷ vs) e = ground (arith, contains-values x v vs)

-- In an enumeration whose values are distinct, the value of a constant leads back to its name.
first_named-lookup :
    (x : String) (v : ℕ) (vs : List (String × ℕ))
    → distinct (values vs) ≡ true
    → lookup x vs ≡ some v
    → first_named v vs ≡ some x
unfolding first_named lookup distinct values
first_named-lookup x v [] h e = absurd (ground (arith, e))
first_named-lookup x v ((y, w) ∷ vs) h e =
    ground (arith, first_named-lookup x v vs, contains-values x v vs, string_eq.same_iff y x)

-- In an enumeration whose constants have different values, as BPF's helper numbers do, the constant that
-- has the value of a name is the one of that name.
pub name_of-value_of :
    (t : CType) (x : String) (v : ℕ)
    → distinct (values (constants t)) ≡ true
    → value_of x t ≡ some v
    → name_of v t ≡ some x
unfolding name_of value_of
name_of-value_of t x v h e = first_named-lookup x v (constants t) h e
