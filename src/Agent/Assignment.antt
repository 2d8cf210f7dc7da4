-- ===== src/Agent/Assignment.antt =====
-- The indices that cmd/agent/main.go assigns: no two containers share one, and a container keeps
-- its own.
use ebpf_docker_anormaly_det.Prelude.{
  ℕ, ◌+◌, ◌<◌, ◌≤◌, ◌^◌, ◌≡◌, refl, sym, ◌∙◌, Bool, true, false, ◌&&◌, ◌||◌, String, Option, none,
  some, List, [], ◌∷◌, arith, string_eq, nat_eq, ◌==◌, inl, inr, Option-cases, Bool-cases, length,
  All, eqb, eqb_iff,
}
use text.Mathlib.TextEquality.{eq_iff}
use ebpf_docker_anormaly_det.Prelude.Table.{lookup, insert, is_some, lookup-insert}
use ebpf_docker_anormaly_det.Collector.Syscalls.Containers.{Mapping, named}
use ebpf_docker_anormaly_det.Agent.{Indices, index_of, assign}

-- Indices below the next one, and different for different containers.
pub record IsAssigned (st : Indices) : Type 0 where
  pub below : (c : String) (i : ℕ) → lookup c st.idx_by_cid ≡ some i → i < st.next_idx
  pub injective :
      (c d : String) (i : ℕ)
      → lookup c st.idx_by_cid ≡ some i
      → lookup d st.idx_by_cid ≡ some i
      → c ≡ d

-- A container keeps its index.
abbrev pub Keeps : Indices → Indices → Type 0
Keeps st st' =
    (c : String) (i : ℕ) → lookup c st.idx_by_cid ≡ some i → lookup c st'.idx_by_cid ≡ some i

module _ (cid : String) (st : Indices) (w : IsAssigned st) (room : st.next_idx + 1 < 2 ^ 32) where
  abbrev next : ℕ × Indices
  next = index_of cid st (lookup cid st.idx_by_cid)

  new_injective :
      (c d : String) (i : ℕ)
      → lookup c (insert cid st.next_idx st.idx_by_cid) ≡ some i
      → lookup d (insert cid st.next_idx st.idx_by_cid) ≡ some i
      → c ≡ d
  new_injective c d i h k = elim (Bool-cases (cid == c)) [
    | inl a ↦ elim (Bool-cases (cid == d)) [
      | inl b ↦ sym ((eq_iff cid c).0 a) ∙ (eq_iff cid d).0 b
      | inr b ↦ absurd (
          ground (
            arith,
            lookup-insert cid c st.next_idx st.idx_by_cid,
            lookup-insert cid d st.next_idx st.idx_by_cid,
            w.below d i,
          ))
    ]
    | inr a ↦ elim (Bool-cases (cid == d)) [
      | inl b ↦ absurd (
          ground (
            arith,
            lookup-insert cid c st.next_idx st.idx_by_cid,
            lookup-insert cid d st.next_idx st.idx_by_cid,
            w.below c i,
          ))
      | inr b ↦
          w.injective c d i (ground (arith, lookup-insert cid c st.next_idx st.idx_by_cid))
            (ground (arith, lookup-insert cid d st.next_idx st.idx_by_cid))
    ]
  ]

  next-IsAssigned : IsAssigned next.1
  unfolding index_of
  next-IsAssigned = elim (Option-cases (lookup cid st.idx_by_cid)) [
    | inr (i, e) ↦ rw e w
    | inl e ↦ rw e (record {
      below = λ c i h. ground (arith, lookup-insert cid c st.next_idx st.idx_by_cid, w.below c i);
      injective = λ c d i h k. new_injective c d i h k;
    })
  ]

  next-Keeps : Keeps st next.1
  unfolding index_of
  next-Keeps c i h = elim (Option-cases (lookup cid st.idx_by_cid)) [
    | inr (i, e) ↦ rw e h
    | inl e ↦ rw e (ground (arith, lookup-insert cid c st.next_idx st.idx_by_cid, eq_iff cid c))
  ]

  next_lem : lookup cid next.1.idx_by_cid ≡ some next.0
  unfolding index_of
  next_lem = elim (Option-cases (lookup cid st.idx_by_cid)) [
    | inr (i, e) ↦ rw e e
    | inl e ↦ rw e (ground (arith, lookup-insert cid cid st.next_idx st.idx_by_cid, eq_iff cid cid))
  ]

  next_room : next.1.next_idx ≤ st.next_idx + 1
  unfolding index_of
  next_room = elim (Option-cases (lookup cid st.idx_by_cid)) [
    | inr (i, e) ↦ rw e (omega arith)
    | inl e ↦ rw e (omega arith)
  ]

-- The mapping of a container has its index.
abbrev pub InForce : Indices → List Mapping → Type 0
InForce st ms = All (λ m. lookup m.cid st.idx_by_cid ≡ some m.index) ms

module _ (cgroup_id : String → Option ℕ) where
  pub assign-IsAssigned :
      (cids : List String) (st : Indices)
      → IsAssigned st
      → st.next_idx + length cids < 2 ^ 32
      → IsAssigned (assign cgroup_id cids st).1
  unfolding assign
  assign-IsAssigned [] st w room = w
  assign-IsAssigned (cid ∷ cids) st w room = elim (Option-cases (cgroup_id cid)) [
    | inl e ↦ rw (assign, e) (assign-IsAssigned cids st w (omega arith))
    | inr (g, e) ↦
        rw (assign, e)
          (assign-IsAssigned cids _ (next-IsAssigned cid st w (omega arith))
            (omega (arith, next_room cid st w (omega arith))))
  ]

  -- A container that has an index keeps it through `updateMappings`, whatever containers come and
  -- go, while the indices have not run out.
  pub assign-Keeps :
      (cids : List String) (st : Indices)
      → IsAssigned st
      → st.next_idx + length cids < 2 ^ 32
      → (c : String) (i : ℕ) → lookup c st.idx_by_cid ≡ some i
      → lookup c (assign cgroup_id cids st).1.idx_by_cid ≡ some i
  unfolding assign
  assign-Keeps [] st w room c i h = h
  assign-Keeps (cid ∷ cids) st w room c i h = elim (Option-cases (cgroup_id cid)) [
    | inl e ↦ rw (assign, e) (assign-Keeps cids st w (omega arith) c i h)
    | inr (g, e) ↦
        rw (assign, e)
          (assign-Keeps cids _ (next-IsAssigned cid st w (omega arith))
            (omega (arith, next_room cid st w (omega arith))) c i
            (next-Keeps cid st w (omega arith) c i h))
  ]

  pub assign-InForce :
      (cids : List String) (st : Indices)
      → IsAssigned st
      → st.next_idx + length cids < 2 ^ 32
      → InForce (assign cgroup_id cids st).1 (assign cgroup_id cids st).0
  unfolding assign
  assign-InForce [] st w room = tt
  assign-InForce (cid ∷ cids) st w room = elim (Option-cases (cgroup_id cid)) [
    | inl e ↦ rw (assign, e) (assign-InForce cids st w (omega arith))
    | inr (g, e) ↦
        let w' = next-IsAssigned cid st w (omega arith) in
        let room' : (index_of cid st (lookup cid st.idx_by_cid)).1.next_idx + length cids < 2 ^ 32 =
          omega (arith, next_room cid st w (omega arith)) in
        rw (assign, e)
          (
            assign-Keeps cids _ w' room' cid _ (next_lem cid st w (omega arith)),
            assign-InForce cids _ w' room',
          )
  ]

-- What the mappings name is in force.
pub named-InForce :
    (st : Indices) (ms : List Mapping) (before : Option String) (i : ℕ) (c : String)
    → InForce st ms
    → ((d : String) → before ≡ some d → lookup d st.idx_by_cid ≡ some i)
    → named i ms before ≡ some c
    → lookup c st.idx_by_cid ≡ some i
named-InForce st [] before i c w b h = b c h
named-InForce st (m ∷ ms) before i c w b h = elim (Bool-cases (eqb m.index i)) [
  | inl same ↦
      named-InForce st ms (some m.cid) i c w.1 (λ d e. ground (arith, w.0, eqb_iff m.index i))
        (rw same at h)
  | inr differs ↦ named-InForce st ms before i c w.1 b (rw differs at h)
]

named-some : (ms : List Mapping) (i : ℕ) (d : String) → is_some (named i ms (some d)) ≡ true
named-some [] i d = refl
named-some (m ∷ ms) i d = elim (Bool-cases (eqb m.index i)) [
  | inl same ↦ rw same (named-some ms i m.cid)
  | inr differs ↦ rw differs (named-some ms i d)
]

abbrev pub names : String → ℕ → List Mapping → Bool
names cid i [] = false
names cid i (m ∷ ms) = (m.cid == cid && eqb m.index i) || names cid i ms

pub named-names :
    (ms : List Mapping) (cid : String) (i : ℕ)
    → names cid i ms ≡ true
    → is_some (named i ms none) ≡ true
named-names [] cid i h = cc
named-names (m ∷ ms) cid i h = elim (Bool-cases (eqb m.index i)) [
  | inl same ↦ rw same (named-some ms i m.cid)
  | inr differs ↦ rw differs (named-names ms cid i (ground arith))
]

pub names-InForce :
    (st : Indices) (ms : List Mapping) (cid : String) (i : ℕ)
    → InForce st ms
    → names cid i ms ≡ true
    → lookup cid st.idx_by_cid ≡ some i
names-InForce st [] cid i w h = cc
names-InForce st (m ∷ ms) cid i w h =
    ground (arith, names-InForce st ms cid i, w.0, eq_iff m.cid cid, eqb_iff m.index i)
