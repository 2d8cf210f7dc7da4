-- ===== src/Collector/Lifecycle.antt =====
-- `New` of the four collectors in pkg/collector: what they hold of the kernel, and give back on an error.
-- Loading and attaching are the library's, so whether each of these calls succeeds is an argument.
pub mod Release
use ebpf_docker_anormaly_det.Prelude.{
  ℕ, ◌≡◌, ◌≢◌, ◌∙◌, refl, ap, Bool, true, false, not, ◌&&◌, String, Option, none, some, List, [],
  ◌∷◌, ◌++◌, if◌then◌else◌, arith, Bool-cases, inl, inr, ◌⊎◌,
}
use ebpf_docker_anormaly_det.Prelude.Int.{ℤ, le_zero}

-- The BPF objects, the links to probes and tracepoints, and the reader of the perf buffer that are open.
pub record Held : Type 0 where
  pub objects : Bool
  pub links : List String
  pub reader : Bool

abbrev pub nothing : Held
nothing = record { objects = false; links = []; reader = false }

pub data NewError : Type 0 where
  no_resolve tick_not_positive memlock load perf_reader : NewError
  attach : String → NewError

-- The arguments of `New`, and which of its calls succeed.
pub record Env : Type 0 where
  pub has_resolve : Bool
  pub tick : ℤ
  pub memlock_ok : Bool
  pub loads : Bool
  pub attaches : String → Bool
  pub reader_ok : Bool

abbrev pub open_objects : Held → Held
open_objects h = record h { objects = true }

abbrev pub close_objects : Held → Held
close_objects h = record h { objects = false }

abbrev pub add_link : String → Held → Held
add_link l h = record h { links = h.links ++ (l ∷ []) }

-- The collectors with one link close it as `link`, that of tcpstats in the loop of `cleanup`.
abbrev pub close_links : Held → Held
close_links h = record h { links = [] }

-- An error, or none, with what is open after the call.
abbrev pub Outcome : Type 0
Outcome = Option NewError × Held

-- The steps that all four share: the objects are loaded after the lock on memory is lifted.
unfoldable pub load_then : Env → (Held → Outcome) → Held → Outcome
load_then env next h =
    let loaded = next (open_objects h) in
    if not env.memlock_ok
    then (some memlock, h)
    else (if not env.loads then (some load, h) else loaded)

unfoldable pub check_resolve : Env → Outcome → Outcome → Outcome
check_resolve env failed next = if not env.has_resolve then failed else next

unfoldable pub check_tick : Env → Outcome → Outcome → Outcome
check_tick env failed next = if le_zero env.tick then failed else next

-- One link, whose failure closes the objects.
unfoldable pub attach_one : Env → String → (Held → Outcome) → Held → Outcome
attach_one env name next h =
    let attached = next (add_link name h) in
    if env.attaches name then attached else (some (attach name), close_objects h)

abbrev pub ready : Held → Outcome
ready h = (none, h)

-- pkg/collector/syscalls
unfoldable pub new_syscalls : Env → Held → Outcome
unfolding check_tick load_then attach_one
new_syscalls env h =
    check_tick env (some tick_not_positive, h)
      (load_then env (attach_one env "raw_tracepoint sys_enter" ready) h)

-- pkg/collector/pidruntime
unfoldable pub new_pidruntime : Env → Held → Outcome
unfolding check_resolve check_tick load_then attach_one
new_pidruntime env h =
    check_resolve env (some no_resolve, h)
      (check_tick env (some tick_not_positive, h)
        (load_then env (attach_one env "tracepoint sched_switch" ready) h))

-- pkg/collector/procexit: the reader is opened last, and its failure closes the link too.
unfoldable pub open_reader : Env → Held → Outcome
open_reader env h =
    if env.reader_ok
    then (none, record h { reader = true })
    else (some perf_reader, close_objects (close_links h))

unfoldable pub new_procexit : Env → Held → Outcome
unfolding check_resolve load_then attach_one open_reader
new_procexit env h =
    check_resolve env (some no_resolve, h)
      (load_then env (attach_one env "tracepoint sched_process_exit" (open_reader env)) h)

-- pkg/collector/tcpstats: `cleanup`, and the loop over the probes.
abbrev pub cleanup : Held → Held
cleanup h = close_objects (close_links h)

unfoldable pub attach_probes : Env → List String → Held → Outcome
attach_probes env [] h = (none, h)
attach_probes env (p ∷ ps) h =
    let rest = attach_probes env ps (add_link p h) in
    if env.attaches p then rest else (some (attach p), cleanup h)

abbrev pub probes : List String
probes = "kretprobe tcp_sendmsg" ∷ "kprobe tcp_cleanup_rbuf" ∷ "kprobe tcp_retransmit_skb" ∷ []

unfoldable pub new_tcpstats : Env → Held → Outcome
unfolding check_resolve check_tick load_then attach_probes
new_tcpstats env h =
    check_resolve env (some no_resolve, h)
      (check_tick env (some tick_not_positive, h) (load_then env (attach_probes env probes) h))

-- A collector that was created, and one that was not.
abbrev pub IsClean : List String → Bool → Outcome → Type 0
IsClean links reader (none, h) = h ≡ record { objects = true; links = links; reader = reader }
IsClean links reader (some e, h) = h ≡ nothing
