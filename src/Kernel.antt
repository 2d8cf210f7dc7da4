-- ===== src/Kernel.antt =====
-- What the BPF programs use of the kernel's maps, which are not part of the repository: operations
-- with the laws that bpf(2) and the kernel's map documentation state. Programs take them as
-- parameters. A value behind the pointer that a lookup returns is read by `lookup` and written by
-- `store`. `KernelModel` builds maps that satisfy the laws.

pub mod Room
use ebpf_docker_anormaly_det.Prelude.{
  ℕ, ◌≡◌, Bool, true, false, Option, none, some, ◌&&◌, ◌==◌, nat_eq, if◌then◌else◌, List, length,
  ◌<◌,
}
use ebpf_docker_anormaly_det.Prelude.Table.{is_some, contains, distinct}

-- BPF_MAP_TYPE_HASH with `__u64` or `__u32` keys.
pub record Hash (V : Type 0) : Type 1 where
  pub Map : Type 0
  -- bpf_map_lookup_elem
  pub lookup : Map → ℕ → Option V
  -- Whether an update of an absent key finds room.
  pub accepts : Map → ℕ → Bool
  -- bpf_map_update_elem with BPF_ANY
  pub update : Map → ℕ → V → Map
  pub delete : Map → ℕ → Map
  pub lookup-update :
      (m : Map) (k : ℕ) (v : V) (q : ℕ)
      → accepts m k ≡ true
      → lookup (update m k v) q ≡ (if k == q then some v else lookup m q)
  pub lookup-update_present :
      (m : Map) (k : ℕ) (v old : V) (q : ℕ)
      → lookup m k ≡ some old
      → lookup (update m k v) q ≡ (if k == q then some v else lookup m q)
  pub lookup-update_full :
      (m : Map) (k : ℕ) (v : V) (q : ℕ)
      → lookup m k ≡ none
      → accepts m k ≡ false
      → lookup (update m k v) q ≡ lookup m q
  pub lookup-delete :
      (m : Map) (k q : ℕ) → lookup (delete m k) q ≡ (if k == q then none else lookup m q)

-- BPF_MAP_TYPE_PERCPU_HASH: an entry holds one value for each processor, and is present on all
-- processors or on none. `lookup m k c` is the value that a program on processor `c` sees. `zeroed`
-- is the value of all bytes zero, which the other processors get when an entry is created.
pub record PerCpuHash (V : Type 0) (zeroed : V) : Type 1 where
  pub Map : Type 0
  -- bpf_map_lookup_elem
  pub lookup : Map → ℕ → ℕ → Option V
  -- A write through the pointer that the lookup returned.
  pub store : Map → ℕ → ℕ → V → Map
  pub accepts : Map → ℕ → Bool
  -- bpf_map_update_elem with BPF_NOEXIST
  pub create : Map → ℕ → ℕ → V → Map
  pub delete : Map → ℕ → Map
  pub max_entries : ℕ
  -- The keys that an iteration yields while nothing else changes the map.
  pub keys : Map → List ℕ
  pub keys_distinct : (m : Map) → distinct (keys m) ≡ true
  pub contains-keys : (m : Map) (k c : ℕ) → contains k (keys m) ≡ is_some (lookup m k c)
  pub accepts_room : (m : Map) (k : ℕ) → length (keys m) < max_entries → accepts m k ≡ true
  pub lookup_everywhere : (m : Map) (k c d : ℕ) → lookup m k c ≡ none → lookup m k d ≡ none
  pub lookup-store :
      (m : Map) (k c : ℕ) (v old : V) (q d : ℕ)
      → lookup m k c ≡ some old
      → lookup (store m k c v) q d ≡ (if (k == q) && (c == d) then some v else lookup m q d)
  pub lookup-create :
      (m : Map) (k c : ℕ) (v : V) (q d : ℕ)
      → lookup m k c ≡ none
      → accepts m k ≡ true
      → lookup (create m k c v) q d
        ≡ (if k == q then some (if c == d then v else zeroed) else lookup m q d)
  -- -EEXIST
  pub lookup-create_present :
      (m : Map) (k c : ℕ) (v old : V) (q d : ℕ)
      → lookup m k c ≡ some old
      → lookup (create m k c v) q d ≡ lookup m q d
  -- -E2BIG or -ENOMEM
  pub lookup-create_full :
      (m : Map) (k c : ℕ) (v : V) (q d : ℕ)
      → accepts m k ≡ false
      → lookup (create m k c v) q d ≡ lookup m q d
  pub lookup-delete :
      (m : Map) (k q d : ℕ) → lookup (delete m k) q d ≡ (if k == q then none else lookup m q d)

-- BPF_MAP_TYPE_PERCPU_ARRAY: every index below the size has a value on every processor.
pub record PerCpuArray (V : Type 0) : Type 1 where
  pub Map : Type 0
  pub max_entries : ℕ
  -- bpf_map_lookup_elem
  pub lookup : Map → ℕ → ℕ → Option V
  -- A write through the pointer that the lookup returned.
  pub store : Map → ℕ → ℕ → V → Map
  pub lookup_below : (m : Map) (k c : ℕ) → k < max_entries → is_some (lookup m k c) ≡ true
  pub lookup-store :
      (m : Map) (k c : ℕ) (v old : V) (q d : ℕ)
      → lookup m k c ≡ some old
      → lookup (store m k c v) q d ≡ (if (k == q) && (c == d) then some v else lookup m q d)
