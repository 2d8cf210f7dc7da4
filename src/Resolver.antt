-- ===== src/Resolver.antt =====
-- The resolver of processes to containers, pkg/container/resolver.go. What the Docker daemon and
-- the files below /proc and /sys/fs/cgroup say are arguments. The locks make each method one step.
pub mod ProcFiles
pub mod ContainerId
pub mod CgroupProcs
pub mod Cache
pub mod Interleaved
pub mod Sets
use Prim.Native.String.{slice, len}
use text.Mathlib.Text.{starts_with}
use ebpf_docker_anormaly_det.Prelude.{
  ℕ, ◌≡◌, ◌↔◌, Bool, true, false, not, ◌&&◌, String, Option, none, some, List, [], ◌∷◌, arith, eqb,
  Key, ◌==◌, nat_eq, string_eq, if◌then◌else◌,
}
use ebpf_docker_anormaly_det.Prelude.Table.{Table, lookup, insert, erase, keys}

-- `UPID`: a process that survives the reuse of pids.
pub record Upid : Type 0 where
  pub pid : ℕ
  pub start_time : ℕ

abbrev pub same_upid : Upid → Upid → Bool
same_upid u v = eqb u.pid v.pid && eqb u.start_time v.start_time

pub same_upid_iff : (u v : Upid) → (same_upid u v ≡ true) ↔ (u ≡ v)
same_upid_iff u v = ground arith

instance abbrev pub upid_eq : Key Upid
upid_eq = record { same = same_upid; same_iff = same_upid_iff }

pub record Info : Type 0 where
  pub id : String
  pub short_id : String
  pub name : String
  pub image : String
  pub state : String
  pub pid : ℕ
  pub started_at : ℕ

-- What `ListContainers` says of a container, and what `InspectContainer` says, with the time of
-- the start as `time.Parse` reads it.
pub record Summary : Type 0 where
  pub id : String
  pub names : List String
  pub image : String

pub record Detail : Type 0 where
  pub status : String
  pub pid : ℕ
  pub started_at : ℕ

pub record Resolver : Type 0 where
  pub containers : Table String Info
  pub upid_cache : Table Upid String
  pub pid_set : Table ℕ String

-- `NewResolver`; a nil map reads as an empty one.
abbrev pub new_resolver : Resolver
new_resolver = record { containers = []; upid_cache = []; pid_set = [] }

-- `strings.TrimPrefix(name, "/")` of the first name
unfoldable pub name_of : List String → String
name_of [] = ""
name_of (name ∷ names) = if starts_with name "/" then slice name 1 (len name) else name

-- The entry of a container. `s.ID[:12]` is in range: the daemon's ids have 64 characters.
unfoldable pub info_of : Summary → Detail → Info
info_of s detail = record {
  id = s.id;
  short_id = slice s.id 0 12;
  name = name_of s.names;
  image = s.image;
  state = detail.status;
  pid = detail.pid;
  started_at = detail.started_at;
}

-- The loop over the summaries: `next`.
unfoldable pub enumerate :
    (String → Option Detail) → List Summary → Table String Info → Table String Info
enumerate inspect [] next = next
enumerate inspect (s ∷ summaries) next = elim (inspect s.id) [
  | none ↦ enumerate inspect summaries next
  | some detail ↦ enumerate inspect summaries (insert s.id (info_of s detail) next)
]

-- The loops over the containers and the pids of each: `pidSet`.
unfoldable pub add_pids : String → List ℕ → Table ℕ String → Table ℕ String
add_pids cid [] pid_set = pid_set
add_pids cid (pid ∷ pids) pid_set = add_pids cid pids (insert pid cid pid_set)

unfoldable pub collect_pids : (String → List ℕ) → List String → Table ℕ String → Table ℕ String
collect_pids procs [] pid_set = pid_set
collect_pids procs (cid ∷ cids) pid_set = collect_pids procs cids (add_pids cid (procs cid) pid_set)

-- The loop over `upidCache`, which deletes the entries of containers that are gone.
unfoldable pub drop_gone : Table String Info → Table Upid String → Table Upid String
drop_gone next [] = []
drop_gone next ((u, cid) ∷ cache) =
    let rest = drop_gone next cache in
    if cid == ""
    then (u, cid) ∷ rest
    else elim (lookup cid next) [ none ↦ rest | some info ↦ (u, cid) ∷ rest ]

-- `Refresh`: whether there was no error, and the resolver after it.
unfoldable pub refresh :
    Option (List Summary)
    → (String → Option Detail)
    → (String → List ℕ)
    → Resolver
    → Bool × Resolver
refresh none inspect procs r = (false, r)
refresh (some summaries) inspect procs r =
    let next = enumerate inspect summaries [] in
    (
      true,
      record {
        containers = next;
        pid_set = collect_pids procs (keys next) [];
        upid_cache = drop_gone next r.upid_cache;
      },
    )

-- `ContainerByID`
abbrev pub container_by_id : String → Resolver → Option Info
container_by_id cid r = lookup cid r.containers

-- From the look into the cache on. `cgroup_cid` is what parseContainerIDFromCgroup yields.
unfoldable pub resolve_upid :
    (ℕ → String) → Upid → Resolver → Option String → String × Bool × Resolver
resolve_upid cgroup_cid u r (some cid) = (cid, not (cid == ""), r)
resolve_upid cgroup_cid u r none =
    let cid = cgroup_cid u.pid in
    (cid, not (cid == ""), record r { upid_cache = insert u cid r.upid_cache })

-- `Resolve`; `start_time` is readStartTimeTicks, without a value for an error.
unfoldable pub resolve : (ℕ → Option ℕ) → (ℕ → String) → ℕ → Resolver → String × Bool × Resolver
resolve start_time cgroup_cid pid r = elim (start_time pid) [
  | none ↦ ("", false, r)
  | some start ↦
      let u : Upid = record { pid = pid; start_time = start } in
      resolve_upid cgroup_cid u r (lookup u r.upid_cache)
]

-- `ClearCache`
abbrev pub clear_cache : Resolver → Resolver
clear_cache r = record r { upid_cache = [] }

-- `ResolveFast`; a missing key reads as "".
unfoldable pub resolve_fast : ℕ → Resolver → String
resolve_fast pid r = elim (lookup pid r.pid_set) [ none ↦ "" | some cid ↦ cid ]
