-- ===== src/TcpStats/Arguments.antt =====
-- How the probes of bpf/tcp_stats.bpf.c get at their arguments: in the registers of the probed call,
-- `struct pt_regs` of bpf/vmlinux.h. The macros BPF_KPROBE and BPF_KRETPROBE are libbpf's, which is
-- not part of the repository.
use ebpf_docker_anormaly_det.Prelude.{
  ℕ, ◌+◌, ◌-◌, ◌*◌, ◌^◌, ◌<◌, ◌≡◌, ◌∙◌, arith, some, refl, sym, u32, ltb, if◌then◌else◌, false,
  true, ◌%◌, eqb, ◌||◌, ◌&&◌, ◌==◌, nat_eq, inl, inr, Option-cases,
}
use mathlib.Core.Option.{some-injective}
use ebpf_docker_anormaly_det.Prelude.Int.{ℤ, pos, negsuc, to_u64}
use ebpf_docker_anormaly_det.CTypes.{int, unsigned, w64, find, members_of, slot, size_of}
use ebpf_docker_anormaly_det.Vmlinux.Registers.{pt_regs}
use ebpf_docker_anormaly_det.Memory.{Memory}
use ebpf_docker_anormaly_det.Memory.Fields.{
  Declares, read_member, write_member, read_member-write_member,
}
use ebpf_docker_anormaly_det.Kernel.{PerCpuHash}
use ebpf_docker_anormaly_det.TcpStats.{
  TcpStats, zero_stats, Task, tgid, bump, charge, first_charge, kretprobe_tcp_sendmsg,
  kprobe_tcp_cleanup_rbuf,
}
use ebpf_docker_anormaly_det.TcpStats.Traffic.{first_charge-eq-charge}
use ebpf_docker_anormaly_det.Prelude.Table.{is_some}
use ebpf_docker_anormaly_det.Kernel.Room.{read}

-- On x86-64 the second argument of a call is in `si`, and the value that it returns in `ax`.
pub record ProbeRegs : Type 0 where
  pub parm2 : ℕ → Memory → ℕ
  pub rc : ℕ → Memory → ℕ
  pub parm2_si : (ctx : ℕ) (m : Memory) → read_member pt_regs "si" ctx m ≡ some (parm2 ctx m)
  pub rc_ax : (ctx : ℕ) (m : Memory) → read_member pt_regs "ax" ctx m ≡ some (rc ctx m)

-- `(int)x` of a register, and the bits of an `int`.
unfoldable pub int_of : ℕ → ℤ
int_of x = if ltb (u32 x) (2 ^ 31) then pos (u32 x) else negsuc (2 ^ 32 - u32 x - 1)

abbrev pub bits_of : ℤ → ℕ
bits_of v = u32 (to_u64 v)

-- The values of an `int`.
abbrev pub IsInt : ℤ → Type 0
IsInt (pos n) = n < 2 ^ 31
IsInt (negsuc n) = n < 2 ^ 31

-- A register holds an `int` in its lower half, and anything in its upper half.
int_of-bits_of : (v : ℤ) (upper : ℕ) → IsInt v → int_of (bits_of v + 2 ^ 32 * upper) ≡ v
unfolding int_of
int_of-bits_of (pos n) upper h =
    let e : u32 (bits_of (pos n) + 2 ^ 32 * upper) ≡ n = omega arith in ground (arith, e)
int_of-bits_of (negsuc n) upper h =
    let e : u32 (bits_of (negsuc n) + 2 ^ 32 * upper) ≡ 2 ^ 32 - n - 1 = omega arith in
    ground (arith, e)

module _ (regs : ProbeRegs) (stats : PerCpuHash TcpStats zero_stats) where
  -- The two programs that take an argument, with the registers at `ctx`.
  unfoldable pub sendmsg_returned : Task → ℕ → Memory → stats.Map → stats.Map
  sendmsg_returned t ctx mem m = kretprobe_tcp_sendmsg stats t (int_of (regs.rc ctx mem)) m

  unfoldable pub cleanup_rbuf_entered : Task → ℕ → Memory → stats.Map → stats.Map
  cleanup_rbuf_entered t ctx mem m = kprobe_tcp_cleanup_rbuf stats t (int_of (regs.parm2 ctx mem)) m

si_declared : Declares (members_of pt_regs) "si" 8
unfolding find size_of
si_declared = record {
  slot = slot 832 64 (int unsigned w64) false;
  found = refl;
  addressable = refl;
  size = refl;
}

ax_declared : Declares (members_of pt_regs) "ax" 8
unfolding find size_of
ax_declared = record {
  slot = slot 640 64 (int unsigned w64) false;
  found = refl;
  addressable = refl;
  size = refl;
}

-- What the counters become by a call with a number of bytes, which is an error if it is negative.
abbrev pub received : ℤ → TcpStats → TcpStats
received (negsuc n) s = s
received (pos n) s =
    if eqb n 0
    then s
    else record s { bytes_rx = (s.bytes_rx + n) % 2 ^ 64; pkts_rx = (s.pkts_rx + 1) % 2 ^ 64 }

abbrev pub sent : ℤ → TcpStats → TcpStats
sent (negsuc n) s = s
sent (pos n) s =
    if eqb n 0
    then s
    else record s { bytes_tx = (s.bytes_tx + n) % 2 ^ 64; pkts_tx = (s.pkts_tx + 1) % 2 ^ 64 }

module _ (stats : PerCpuHash TcpStats zero_stats) (t : Task) (m : stats.Map) where
  -- The process has an entry, or finds room for one.
  abbrev pub HasRoom : Type 0
  HasRoom = (is_some (stats.lookup m (tgid t) t.cpu) || stats.accepts m (tgid t)) ≡ true

  module _ (room : HasRoom) (tx rx : ℕ) (h : tx < 2 ^ 64) (k : rx < 2 ^ 64) (q d : ℕ) where
    read-bump_room : read stats (bump stats t.cpu (tgid t) tx rx 0 m) q d ≡ (
        if (tgid t == q) && (t.cpu == d)
        then charge tx rx 0 (read stats m q d)
        else read stats m q d)
    unfolding bump
    read-bump_room = elim (Option-cases (stats.lookup m (tgid t) t.cpu)) [
      | inr (v, found) ↦
          ground (arith, stats.lookup-store m (tgid t) t.cpu (charge tx rx 0 v) v q d)
      | inl absent ↦ ground (
        arith,
        room,
        stats.lookup-create m (tgid t) t.cpu (first_charge tx rx 0) q d,
        stats.lookup_everywhere m (tgid t) t.cpu d,
        first_charge-eq-charge tx rx 0 h k,
      )
    ]

  module _ (room : HasRoom) (q d : ℕ) where
    read-cleanup_rbuf :
        (v : ℤ)
        → IsInt v
        → read stats (kprobe_tcp_cleanup_rbuf stats t v m) q d ≡ (
            if (tgid t == q) && (t.cpu == d)
            then received v (read stats m q d)
            else read stats m q d)
    unfolding kprobe_tcp_cleanup_rbuf charge
    read-cleanup_rbuf (negsuc n) h = ground arith
    read-cleanup_rbuf (pos n) h =
        ground (arith, read-bump_room room 0 n (omega arith) (omega arith) q d)

    read-sendmsg :
        (v : ℤ)
        → IsInt v
        → read stats (kretprobe_tcp_sendmsg stats t v m) q d
          ≡ (if (tgid t == q) && (t.cpu == d) then sent v (read stats m q d) else read stats m q d)
    unfolding kretprobe_tcp_sendmsg charge
    read-sendmsg (negsuc n) h = ground arith
    read-sendmsg (pos n) h = ground (arith, read-bump_room room n 0 (omega arith) (omega arith) q d)

-- A call whose second argument is an `int`, and a call that returned one, in a register whose upper
-- half holds anything, of a process that has an entry or finds room for one: by tcp_cleanup_rbuf's
-- probe the counters of received bytes and packets of the process, on its processor, grow by that
-- argument and by one, and by tcp_sendmsg's those of sent ones by that result and by one, modulo
-- 2 ^ 64. By a number that is not positive, an error or nothing moved, no counter changes, and
-- those of other processes and processors never do.
pub cleanup_rbuf_entered-sendmsg_returned :
    (regs : ProbeRegs) (stats : PerCpuHash TcpStats zero_stats) (t : Task) (ctx upper : ℕ) (v : ℤ)
    (mem : Memory) (m : stats.Map)
    → IsInt v
    → upper < 2 ^ 32
    → HasRoom stats t m
    → (q d : ℕ)
    → (read stats
          (cleanup_rbuf_entered regs stats t ctx
            (write_member pt_regs "si" (bits_of v + 2 ^ 32 * upper) ctx mem)
            m)
          q
          d
        ≡ (if (tgid t == q) && (t.cpu == d)
            then received v (read stats m q d)
            else read stats m q d))
      × (read stats
            (sendmsg_returned regs stats t ctx
              (write_member pt_regs "ax" (bits_of v + 2 ^ 32 * upper) ctx mem)
              m)
            q
            d
          ≡ (if (tgid t == q) && (t.cpu == d) then sent v (read stats m q d) else read stats m q d))
unfolding cleanup_rbuf_entered sendmsg_returned
cleanup_rbuf_entered-sendmsg_returned regs stats t ctx upper v mem m h l room q d =
    let x = bits_of v + 2 ^ 32 * upper in
    let small : x < 256 ^ 8 = omega arith in
    let si = write_member pt_regs "si" x ctx mem in
    let ax = write_member pt_regs "ax" x ctx mem in
    let p : regs.parm2 ctx si ≡ x = some-injective (regs.parm2 ctx si) x (
      sym (regs.parm2_si ctx si)
      ∙ read_member-write_member (members_of pt_regs) "si" 8 si_declared ctx x mem small) in
    let r : regs.rc ctx ax ≡ x = some-injective (regs.rc ctx ax) x (
      sym (regs.rc_ax ctx ax)
      ∙ read_member-write_member (members_of pt_regs) "ax" 8 ax_declared ctx x mem small) in
    (
      rw (p, int_of-bits_of v upper h) (read-cleanup_rbuf stats t m room q d v h),
      rw (r, int_of-bits_of v upper h) (read-sendmsg stats t m room q d v h),
    )
