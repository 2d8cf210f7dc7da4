-- ===== src/Prelude/Table.antt =====
-- Maps as association lists with one entry for each key, in some order: Go's built-in maps.
use mathlib.Core.Path.{◌≡◌, refl}
use mathlib.Core.Bool.{Bool, true, false, not, ◌&&◌, ◌||◌}
use mathlib.Core.List.{List, [], ◌∷◌}
use mathlib.Core.Option.{Option, none, some}
use native.Mathlib.Omega.{arith}
use ebpf_docker_anormaly_det.Prelude.Tests.{if◌then◌else◌}
use ebpf_docker_anormaly_det.Prelude.Keys.{Key, ◌==◌}

-- Whether an option holds a value.
abbrev pub is_some {ℓ} : {A : Type ℓ} → Option A → Bool
is_some none = false
is_some (some a) = true

abbrev pub Table {ℓ κ} : Type ℓ → Type κ → Type (ℓ ⊔ κ)
Table K V = List (K × V)

module _ {ℓ κ} {K : Type ℓ} {V : Type κ} ⦃key : Key K⦄ where
  -- `m[k]`, with the test for presence
  unfoldable pub lookup : K → Table K V → Option V
  lookup k [] = none
  lookup k ((j, v) ∷ t) = if j == k then some v else lookup k t

  -- `m[k] = v`
  unfoldable pub insert : K → V → Table K V → Table K V
  insert k v [] = (k, v) ∷ []
  insert k v ((j, old) ∷ t) =
      let later = insert k v t in if j == k then (k, v) ∷ t else (j, old) ∷ later

  -- `delete(m, k)`
  unfoldable pub erase : K → Table K V → Table K V
  erase k [] = []
  erase k ((j, old) ∷ t) = let rest = erase k t in if j == k then rest else (j, old) ∷ rest

  pub lookup-insert :
      (k j : K) (v : V) (t : Table K V)
      → lookup j (insert k v t) ≡ (if k == j then some v else lookup j t)
  unfolding lookup insert
  lookup-insert k j v [] = ground arith
  lookup-insert k j v ((i, old) ∷ t) =
      ground (arith, key.same_iff k j, key.same_iff i k, key.same_iff i j, lookup-insert k j v t)

  pub lookup-erase :
      (k j : K) (t : Table K V) → lookup j (erase k t) ≡ (if k == j then none else lookup j t)
  unfolding lookup erase
  lookup-erase k j [] = ground arith
  lookup-erase k j ((i, old) ∷ t) =
      ground (arith, key.same_iff k j, key.same_iff i k, key.same_iff i j, lookup-erase k j t)

  unfoldable pub keys : Table K V → List K
  keys [] = []
  keys ((j, old) ∷ t) = j ∷ keys t

module _ {ℓ} {K : Type ℓ} ⦃key : Key K⦄ where
  -- Membership and absence of duplicates, as tests.
  unfoldable pub contains : K → List K → Bool
  contains k [] = false
  contains k (j ∷ ks) = j == k || contains k ks

  unfoldable pub distinct : List K → Bool
  unfolding contains
  distinct [] = true
  distinct (k ∷ ks) = not (contains k ks) && distinct ks

module _ {ℓ κ} {K : Type ℓ} {V : Type κ} ⦃key : Key K⦄ where
  pub contains-keys : (k : K) (t : Table K V) → contains k (keys t) ≡ is_some (lookup k t)
  unfolding contains keys lookup
  contains-keys k [] = refl
  contains-keys k ((j, old) ∷ t) = ground (arith, contains-keys k t)

  contains-keys-insert :
      (k j : K) (v : V) (t : Table K V)
      → contains j (keys (insert k v t)) ≡ (k == j || contains j (keys t))
  unfolding contains keys insert
  contains-keys-insert k j v [] = ground arith
  contains-keys-insert k j v ((i, old) ∷ t) =
      ground
        (arith, key.same_iff k j, key.same_iff i k, key.same_iff i j, contains-keys-insert k j v t)

  pub distinct-insert :
      (k : K) (v : V) (t : Table K V)
      → distinct (keys t) ≡ true
      → distinct (keys (insert k v t)) ≡ true
  unfolding distinct keys insert
  distinct-insert k v [] h = refl
  distinct-insert k v ((i, old) ∷ t) h = ground (
    arith,
    key.same_iff i k,
    key.same_iff k i,
    contains-keys-insert k i v t,
    distinct-insert k v t,
  )

  contains-keys-erase :
      (k j : K) (t : Table K V)
      → contains j (keys (erase k t)) ≡ (not (k == j) && contains j (keys t))
  unfolding contains keys erase
  contains-keys-erase k j [] = ground arith
  contains-keys-erase k j ((i, old) ∷ t) =
      ground
        (arith, key.same_iff k j, key.same_iff i k, key.same_iff i j, contains-keys-erase k j t)

  pub distinct-erase :
      (k : K) (t : Table K V) → distinct (keys t) ≡ true → distinct (keys (erase k t)) ≡ true
  unfolding distinct keys erase
  distinct-erase k [] h = refl
  distinct-erase k ((i, old) ∷ t) h = ground (arith, contains-keys-erase k i t, distinct-erase k t)
