-- ===== src/Resolver/CgroupProcs.antt =====
-- `readCgroupProcs` of pkg/container/resolver.go: the pids of a container, from its cgroup.procs.
use Prim.Native.String.{◌++◌ as text_append}
use text.Mathlib.TextLemmas.{nil-append}
use ebpf_docker_anormaly_det.Prelude.{
  ℕ, ◌^◌, ◌-◌, ◌<◌, ◌≡◌, ◌∙◌, refl, true, String, Option, none, some, List, [], ◌∷◌, string_eq,
  ◌==◌, if◌then◌else◌, All, Bool-cases, inl, inr, ◌⊎◌,
}
use ebpf_docker_anormaly_det.Feature.Encoder.{utoa}
use ebpf_docker_anormaly_det.CgroupFiles.{lines_from}
use ebpf_docker_anormaly_det.CgroupFiles.Fields.{is_plain, plain-cons, utoa-IsWord}
use ebpf_docker_anormaly_det.CgroupFiles.Files.{lines_from-word}
use ebpf_docker_anormaly_det.CgroupFiles.Memory.{trim_left, trim_right, trim_space}
use ebpf_docker_anormaly_det.CgroupFiles.Snapshot.{Files, join}
use ebpf_docker_anormaly_det.Resolver.ProcFiles.{parse_uint_or_error}
use ebpf_docker_anormaly_det.Resolver.ProcFiles.StartTime.{parse_uint-utoa_or_error_32}

-- The loop over the lines.
abbrev pub keep_pid : Option ℕ → List ℕ → List ℕ
keep_pid none pids = pids
keep_pid (some pid) pids = pid ∷ pids

unfoldable pub pids_of : List String → List ℕ
pids_of [] = []
pids_of (line ∷ rest) =
    let later = pids_of rest in
    if trim_space line == ""
    then later
    else keep_pid (parse_uint_or_error (2 ^ 32 - 1) (trim_space line)) later

-- The two layouts of the cgroup tree, the first that can be read.
abbrev pub systemd_procs : String → String
systemd_procs cid =
    join (join "/sys/fs/cgroup/system.slice" (text_append "docker-" (text_append cid ".scope")))
      "cgroup.procs"

abbrev pub legacy_procs : String → String
legacy_procs cid = join (join (join "/sys/fs/cgroup" "docker") cid) "cgroup.procs"

unfoldable pub read_cgroup_procs : Files → String → List ℕ
read_cgroup_procs fs cid = elim (fs.read (systemd_procs cid)) [
  | some content ↦ pids_of (lines_from "" content)
  | none ↦ elim (fs.read (legacy_procs cid)) [
    | some content ↦ pids_of (lines_from "" content)
    | none ↦ []
  ]
]

-- The file as the kernel writes it.
unfoldable pub procs_file : List ℕ → String
procs_file [] = ""
procs_file (pid ∷ pids) = text_append (utoa pid) (String.◌∷◌ "\n" (procs_file pids))

trim_right-word : (w : String) → is_plain w ≡ true → trim_right w ≡ w
unfolding trim_right
trim_right-word String.[] p = refl
trim_right-word (String.◌∷◌ c w) p =
    let (space, paren, rest) = plain-cons c w p in
    rw (trim_right, trim_right-word w rest, space)
      (elim (Bool-cases (w == "")) [ inl e ↦ rw e refl | inr e ↦ rw e refl ])

trim_left-word : (w : String) → is_plain w ≡ true → trim_left w ≡ w
unfolding trim_left
trim_left-word String.[] p = refl
trim_left-word (String.◌∷◌ c w) p =
    let (space, paren, rest) = plain-cons c w p in rw (trim_left, space) refl

pids_of-procs_file :
    (pids : List ℕ) → All (λ p. p < 2 ^ 32) pids → pids_of (lines_from "" (procs_file pids)) ≡ pids
unfolding pids_of procs_file lines_from
pids_of-procs_file [] h = refl
pids_of-procs_file (pid ∷ pids) (h, hs) =
    let (plain, full) = utoa-IsWord pid in
    let trimmed : trim_space (utoa pid) ≡ utoa pid =
      rw (trim_right-word (utoa pid) plain) (trim_left-word (utoa pid) plain) in
    let first : lines_from "" (procs_file (pid ∷ pids))
        ≡ utoa pid ∷ lines_from "" (procs_file pids) =
      lines_from-word (utoa pid) "" (String.◌∷◌ "\n" (procs_file pids)) plain
      ∙ rw (nil-append (utoa pid), lines_from) refl in
    rw
      (first, pids_of, trimmed, full, parse_uint-utoa_or_error_32 pid h, pids_of-procs_file pids hs)
      refl

-- When the kernel lists the processes of a container in its cgroup.procs, below the systemd slice or, if
-- there is none, in the legacy layout, `readCgroupProcs` returns exactly those processes, in order.
pub read_cgroup_procs-procs_file :
    (fs : Files) (cid : String) (pids : List ℕ)
    → All (λ p. p < 2 ^ 32) pids
    → (fs.read (systemd_procs cid) ≡ some (procs_file pids))
      ⊎ ((fs.read (systemd_procs cid) ≡ none)
          × (fs.read (legacy_procs cid) ≡ some (procs_file pids)))
    → read_cgroup_procs fs cid ≡ pids
unfolding read_cgroup_procs
read_cgroup_procs-procs_file fs cid pids h (inl e) =
    rw (read_cgroup_procs, e) (pids_of-procs_file pids h)
read_cgroup_procs-procs_file fs cid pids h (inr (e, f)) =
    rw (read_cgroup_procs, e, f) (pids_of-procs_file pids h)
