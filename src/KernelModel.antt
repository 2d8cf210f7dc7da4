-- ===== src/KernelModel.antt =====
-- Maps that satisfy the laws of `Kernel`: association lists with a bound on their length. They
-- show that the laws can hold, and run the programs in tests.
use ebpf_docker_anormaly_det.Prelude.{
  ℕ, ◌≡◌, refl, ap, suc, ◌<◌, [], ◌∷◌, Bool, true, false, Option, none, some, ◌&&◌, ◌==◌, nat_eq,
  if◌then◌else◌, arith, length, ltb, eqb, Option-cases, inl, inr,
}
use ebpf_docker_anormaly_det.Prelude.Table.{
  Table, lookup, insert, erase, lookup-insert, lookup-erase, is_some, keys, contains, distinct,
  contains-keys, distinct-insert, distinct-erase,
}
use ebpf_docker_anormaly_det.Kernel.{Hash, PerCpuHash, PerCpuArray}

-- Whether a table has room for one more entry.
abbrev pub fits {ℓ} : {V : Type ℓ} → ℕ → Table ℕ V → ℕ → Bool
fits max_entries m k = ltb (length m) max_entries

module _ (V : Type 0) (max_entries : ℕ) where
  unfoldable pub update : Table ℕ V → ℕ → V → Table ℕ V
  update m k v = elim (lookup k m) [
    | some old ↦ insert k v m
    | none ↦ if fits max_entries m k then insert k v m else m
  ]

  pub lookup-update :
      (m : Table ℕ V) (k : ℕ) (v : V) (q : ℕ)
      → fits max_entries m k ≡ true
      → lookup q (update m k v) ≡ (if k == q then some v else lookup q m)
  unfolding update
  lookup-update m k v q h = ground (arith, lookup-insert k q v m)

  pub lookup-update_present :
      (m : Table ℕ V) (k : ℕ) (v old : V) (q : ℕ)
      → lookup k m ≡ some old
      → lookup q (update m k v) ≡ (if k == q then some v else lookup q m)
  unfolding update
  lookup-update_present m k v old q h = ground (arith, lookup-insert k q v m)

  pub lookup-update_full :
      (m : Table ℕ V) (k : ℕ) (v : V) (q : ℕ)
      → lookup k m ≡ none
      → fits max_entries m k ≡ false
      → lookup q (update m k v) ≡ lookup q m
  unfolding update
  lookup-update_full m k v q h f = ground arith

  abbrev pub hash : Hash V
  hash = record {
    Map = Table ℕ V;
    lookup = λ m k. lookup k m;
    accepts = fits max_entries;
    update = update;
    delete = λ m k. erase k m;
    lookup-update = lookup-update;
    lookup-update_present = lookup-update_present;
    lookup-update_full = lookup-update_full;
    lookup-delete = λ m k q. lookup-erase k q m;
  }

-- One value for each processor under each key, and no key twice.
pub record Slots (V : Type 0) : Type 0 where
  pub table : Table ℕ (ℕ → V)
  pub unique : distinct (keys table) ≡ true

pub no_keys : (V : Type 0) → distinct (keys {K = ℕ} {V = ℕ → V} []) ≡ true
unfolding distinct keys
no_keys V = refl

abbrev pub no_slots : {V : Type 0} → Slots V
no_slots {V} = record { table = []; unique = no_keys V }

module _ {V : Type 0} where
  unfoldable pub value : Slots V → ℕ → ℕ → Option V
  value m k c = elim (lookup k m.table) [ some f ↦ some (f c) | none ↦ none ]

  unfoldable pub put_slots : ℕ → (ℕ → V) → Slots V → Slots V
  put_slots k f m = record {
    table = insert k f m.table;
    unique = distinct-insert k f m.table m.unique;
  }

  unfoldable pub store : Slots V → ℕ → ℕ → V → Slots V
  unfolding put_slots
  store m k c v = elim (lookup k m.table) [
    | some f ↦ put_slots k (λ d. if c == d then v else f d) m
    | none ↦ m
  ]

  unfoldable pub discard : Slots V → ℕ → Slots V
  discard m k = record { table = erase k m.table; unique = distinct-erase k m.table m.unique }

  pub value_everywhere : (m : Slots V) (k c d : ℕ) → value m k c ≡ none → value m k d ≡ none
  unfolding value
  value_everywhere m k c d h = ground arith

  pub contains-keys_value :
      (m : Slots V) (k c : ℕ) → contains k (keys m.table) ≡ is_some (value m k c)
  unfolding value
  contains-keys_value m k c = ground (arith, contains-keys k m.table)

  pub value-store :
      (m : Slots V) (k c : ℕ) (v old : V) (q d : ℕ)
      → value m k c ≡ some old
      → value (store m k c v) q d ≡ (if (k == q) && (c == d) then some v else value m q d)
  unfolding value store
  value-store m k c v old q d h = elim (Option-cases (lookup k m.table)) [
    | inl e ↦ ground arith
    | inr (f, e) ↦
        rw (e, store, value)
          (ground (arith, e, lookup-insert k q (λ x. if c == x then v else f x) m.table))
  ]

  pub value-discard :
      (m : Slots V) (k q d : ℕ) → value (discard m k) q d ≡ (if k == q then none else value m q d)
  unfolding value discard
  value-discard m k q d = ground (arith, lookup-erase k q m.table)

module _ (V : Type 0) (zeroed : V) (max_entries : ℕ) where
  unfoldable pub create : Slots V → ℕ → ℕ → V → Slots V
  unfolding put_slots
  create m k c v = elim (lookup k m.table) [
    | some f ↦ m
    | none ↦
        if fits max_entries m.table k then put_slots k (λ d. if c == d then v else zeroed) m else m
  ]

  module _ (m : Slots V) (k c : ℕ) (v : V) where
    pub value-create :
        (q d : ℕ)
        → value m k c ≡ none
        → fits max_entries m.table k ≡ true
        → value (create m k c v) q d
          ≡ (if k == q then some (if c == d then v else zeroed) else value m q d)
    unfolding value create
    value-create q d h room =
        ground (arith, lookup-insert k q (λ e. if c == e then v else zeroed) m.table)

    pub value-create_present :
        (old : V) (q d : ℕ) → value m k c ≡ some old → value (create m k c v) q d ≡ value m q d
    unfolding value create
    value-create_present old q d h = ground arith

    pub value-create_full :
        (q d : ℕ) → fits max_entries m.table k ≡ false → value (create m k c v) q d ≡ value m q d
    unfolding value create
    value-create_full q d full = ground arith

  length-keys : (t : Table ℕ (ℕ → V)) → length (keys t) ≡ length t
  unfolding keys
  length-keys [] = refl
  length-keys ((k, f) ∷ t) = ap suc (length-keys t)

  pub fits_room :
      (m : Slots V) (k : ℕ)
      → length (keys m.table) < max_entries
      → fits max_entries m.table k ≡ true
  fits_room m k h = ground (arith, length-keys m.table)

  abbrev pub percpu_hash : PerCpuHash V zeroed
  percpu_hash = record {
    Map = Slots V;
    lookup = value;
    store = store;
    accepts = λ m k. fits max_entries m.table k;
    create = create;
    delete = discard;
    max_entries = max_entries;
    keys = λ m. keys m.table;
    keys_distinct = λ m. m.unique;
    contains-keys = contains-keys_value;
    accepts_room = fits_room;
    lookup_everywhere = value_everywhere;
    lookup-store = value-store;
    lookup-create = value-create;
    lookup-create_present = value-create_present;
    lookup-create_full = value-create_full;
    lookup-delete = value-discard;
  }

module _ (V : Type 0) where
  -- An array of one value for each processor.
  abbrev pub cell : (ℕ → V) → ℕ → ℕ → Option V
  cell m k c = if eqb k 0 then some (m c) else none

  abbrev pub set_cell : (ℕ → V) → ℕ → ℕ → V → ℕ → V
  set_cell m k c v d = if eqb k 0 && (c == d) then v else m d

  pub cell_below : (m : ℕ → V) (k c : ℕ) → k < 1 → is_some (cell m k c) ≡ true
  cell_below m k c h = ground arith

  pub cell-set_cell :
      (m : ℕ → V) (k c : ℕ) (v old : V) (q d : ℕ)
      → cell m k c ≡ some old
      → cell (set_cell m k c v) q d ≡ (if (k == q) && (c == d) then some v else cell m q d)
  cell-set_cell m k c v old q d h = ground arith

  abbrev pub percpu_cell : PerCpuArray V
  percpu_cell = record {
    Map = ℕ → V;
    max_entries = 1;
    lookup = cell;
    store = set_cell;
    lookup_below = cell_below;
    lookup-store = cell-set_cell;
  }
