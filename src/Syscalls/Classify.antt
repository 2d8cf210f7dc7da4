-- ===== src/Syscalls/Classify.antt =====
-- The `switch` of bpf/syscall_trace.bpf.c against a table of the numbers in increasing order.
use ebpf_docker_anormaly_det.Prelude.{
  ℕ, zero, suc, ◌≤◌, ◌<◌, ◌≡◌, refl, sym, ap, ◌∙◌, Bool, true, false, ◌&&◌, inl, inr, List, [], ◌∷◌,
  arith, eqb, ltb, leb, eqb_iff, if◌then◌else◌, Bool-cases, All,
}
use ebpf_docker_anormaly_det.Prelude.Table.{Table}
use ebpf_docker_anormaly_det.Syscalls.Counts.{
  Category, file_open, file_close, file_read, file_write, file_unlink, file_rename, file_perm,
  net_socket, net_connect, net_bind, net_listen, net_accept, net_send, net_recv, proc_exec,
  proc_fork, proc_kill, priv_escalate, escape_attempt, mem_layout, other, one_of, classify,
}

-- The groups' numbers in the order of the `switch`.
abbrev pub slot : Category → ℕ
slot file_open = 0
slot file_close = 1
slot file_read = 2
slot file_write = 3
slot file_unlink = 4
slot file_rename = 5
slot file_perm = 6
slot net_socket = 7
slot net_connect = 8
slot net_bind = 9
slot net_listen = 10
slot net_accept = 11
slot net_send = 12
slot net_recv = 13
slot proc_exec = 14
slot proc_fork = 15
slot proc_kill = 16
slot priv_escalate = 17
slot escape_attempt = 18
slot mem_layout = 19
slot other = 20

abbrev of_slot : ℕ → Category
of_slot zero = file_open
of_slot (suc zero) = file_close
of_slot (suc (suc zero)) = file_read
of_slot (suc (suc (suc zero))) = file_write
of_slot (suc (suc (suc (suc zero)))) = file_unlink
of_slot (suc (suc (suc (suc (suc zero))))) = file_rename
of_slot (suc (suc (suc (suc (suc (suc zero)))))) = file_perm
of_slot (suc (suc (suc (suc (suc (suc (suc zero))))))) = net_socket
of_slot (suc (suc (suc (suc (suc (suc (suc (suc zero)))))))) = net_connect
of_slot (suc (suc (suc (suc (suc (suc (suc (suc (suc zero))))))))) = net_bind
of_slot (suc (suc (suc (suc (suc (suc (suc (suc (suc (suc zero)))))))))) = net_listen
of_slot (suc (suc (suc (suc (suc (suc (suc (suc (suc (suc (suc zero))))))))))) = net_accept
of_slot (suc (suc (suc (suc (suc (suc (suc (suc (suc (suc (suc (suc zero)))))))))))) = net_send
of_slot (suc (suc (suc (suc (suc (suc (suc (suc (suc (suc (suc (suc (suc zero))))))))))))) =
    net_recv
of_slot (suc (suc (suc (suc (suc (suc (suc (suc (suc (suc (suc (suc (suc (suc zero)))))))))))))) =
    proc_exec
of_slot
      (suc
        (suc (suc (suc (suc (suc (suc (suc (suc (suc (suc (suc (suc (suc (suc zero))))))))))))))) =
    proc_fork
of_slot
      (suc (
        suc (
          suc
            (suc (suc (suc (suc (suc (suc (suc (suc (suc (suc (suc (suc (suc zero)))))))))))))))) =
    proc_kill
of_slot
      (suc (
        suc (
          suc (
            suc (
              suc
                (suc (suc (suc (suc (suc (suc (suc (suc (suc (suc (suc (suc zero))))))))))))))))) =
    priv_escalate
of_slot
      (suc (
        suc (
          suc (
            suc (
              suc (
                suc (
                  suc
                    (suc (suc (suc (suc (suc (suc (suc (suc (suc (suc (suc zero)))))))))))))))))) =
    escape_attempt
of_slot
      (suc (
        suc (
          suc (
            suc (
              suc (
                suc (
                  suc (
                    suc (
                      suc
                        (suc (suc (suc (suc (suc (suc (suc (suc (suc (suc zero))))))))))))))))))) =
    mem_layout
of_slot _ = other

of_slot-slot : (c : Category) → of_slot (slot c) ≡ c
of_slot-slot file_open = refl
of_slot-slot _ = refl

pub slot-injective : (c d : Category) → slot c ≡ slot d → c ≡ d
slot-injective c d h = sym (of_slot-slot c) ∙ ap of_slot h ∙ of_slot-slot d

-- Which system calls the program counts apart, by number.
abbrev pub syscall_table : Table ℕ Category
syscall_table =
    (0, file_read)
    ∷ (1, file_write)
    ∷ (2, file_open)
    ∷ (3, file_close)
    ∷ (9, mem_layout)
    ∷ (10, mem_layout)
    ∷ (12, mem_layout)
    ∷ (17, file_read)
    ∷ (18, file_write)
    ∷ (41, net_socket)
    ∷ (42, net_connect)
    ∷ (43, net_accept)
    ∷ (44, net_send)
    ∷ (45, net_recv)
    ∷ (46, net_send)
    ∷ (47, net_recv)
    ∷ (49, net_bind)
    ∷ (50, net_listen)
    ∷ (56, proc_fork)
    ∷ (57, proc_fork)
    ∷ (58, proc_fork)
    ∷ (59, proc_exec)
    ∷ (62, proc_kill)
    ∷ (82, file_rename)
    ∷ (87, file_unlink)
    ∷ (90, file_perm)
    ∷ (91, file_perm)
    ∷ (92, file_perm)
    ∷ (93, file_perm)
    ∷ (94, file_perm)
    ∷ (101, priv_escalate)
    ∷ (105, priv_escalate)
    ∷ (106, priv_escalate)
    ∷ (113, priv_escalate)
    ∷ (114, priv_escalate)
    ∷ (126, priv_escalate)
    ∷ (165, escape_attempt)
    ∷ (166, escape_attempt)
    ∷ (257, file_open)
    ∷ (260, file_perm)
    ∷ (263, file_unlink)
    ∷ (264, file_rename)
    ∷ (268, file_perm)
    ∷ (288, net_accept)
    ∷ (308, escape_attempt)
    ∷ (310, escape_attempt)
    ∷ (316, file_rename)
    ∷ (321, escape_attempt)
    ∷ (322, proc_exec)
    ∷ (435, proc_fork)
    ∷ (437, file_open)
    ∷ []

-- The group of a number in a table, `other` if it has none.
abbrev pub group_of : ℕ → Table ℕ Category → Category
group_of id [] = other
group_of id ((n, c) ∷ t) = if eqb n id then c else group_of id t

holds_to : (ℕ → Bool) → ℕ → Bool
holds_to test zero = test zero
holds_to test (suc bound) = holds_to test bound && test (suc bound)

holds_to_lem :
    (test : ℕ → Bool) (bound id : ℕ) → id ≤ bound → holds_to test bound ≡ true → test id ≡ true
unfolding holds_to
holds_to_lem test zero id le h = ground arith
holds_to_lem test (suc bound) id le h = ground (arith, holds_to_lem test bound id)

agrees : ℕ → Bool
agrees id = eqb (slot (classify id)) (slot (group_of id syscall_table))

agrees_table : holds_to agrees 437 ≡ true
unfolding holds_to agrees classify
agrees_table = refl

-- Whether every label is below the bound of the table.
abbrev all_small : List ℕ → Bool
all_small [] = true
all_small (n ∷ ns) = ltb n 438 && all_small ns

one_of_above : (id : ℕ) → 438 ≤ id → (ns : List ℕ) → all_small ns ≡ true → one_of id ns ≡ false
one_of_above id k [] h = refl
one_of_above id k (n ∷ ns) h = ground (arith, one_of_above id k ns)

group_of_above :
    (id b : ℕ) (t : Table ℕ Category) → All (λ e. e.0 < b) t → b ≤ id → group_of id t ≡ other
group_of_above id b [] h k = refl
group_of_above id b ((n, c) ∷ t) h k = ground (arith, group_of_above id b t)

classify_above : (id : ℕ) → 438 ≤ id → classify id ≡ other
unfolding classify
classify_above id h = simp (one_of_above id h)

agrees_below :
    (id : ℕ) → id < 438 → eqb (slot (classify id)) (slot (group_of id syscall_table)) ≡ true
unfolding agrees
agrees_below id h = holds_to_lem agrees 437 id (omega arith) agrees_table

-- For every number the `switch` takes the branch that the table gives, and the default branch
-- exactly where the table has no entry.
pub classify-table : (id : ℕ) → classify id ≡ group_of id syscall_table
classify-table id = elim (Bool-cases (leb 438 id)) [
  | inl above ↦
      classify_above id (ground arith)
      ∙ sym (group_of_above id 438 syscall_table (omega arith) (ground arith))
  | inr below ↦ slot-injective _ _ ((eqb_iff _ _).0 (agrees_below id (ground arith)))
]
