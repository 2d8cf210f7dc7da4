-- ===== src/CTypes/Apart.antt =====
-- The members of a structure do not overlap.
use ebpf_docker_anormaly_det.Prelude.{
  ℕ, ◌+◌, ◌≤◌, ◌≡◌, ◌≢◌, ◌⊎◌, inl, inr, arith, String, if◌then◌else◌, Option, none, some, refl, suc,
  ap,
}
use ebpf_docker_anormaly_det.Prelude.Table.{is_some}
use ebpf_docker_anormaly_det.CTypes.{
  Members, done, ◌⨾◌, stop_of, end_of, Slot, or_else, find_member, find, holder_of,
}
use ebpf_docker_anormaly_det.CTypes.Bounds.{
  Holds, holds_at, IsWithin, find_member-IsWithin, find-IsWithin,
}

-- One slot ends before the other starts.
abbrev pub IsApart : Slot → Slot → Type 0
IsApart s r = (s.start + s.width ≤ r.start) ⊎ (r.start + r.width ≤ s.start)

-- Two searches, each in the first member (`a`, `b`) and then in the later ones (`c`, `d`).
module _ (lo mid hi : ℕ) (c d : Option Slot) (i j : ℕ) (s r : Slot) where
  or_else-IsApart :
      (a b : Option Slot)
      → Holds (IsWithin lo mid) a
      → Holds (IsWithin lo mid) b
      → Holds (IsWithin mid hi) c
      → Holds (IsWithin mid hi) d
      → (c ≡ some s → d ≡ some r → i ≢ j → IsApart s r)
      → or_else a c ≡ some s
      → or_else b d ≡ some r
      → (if is_some a then 0 else suc i) ≢ (if is_some b then 0 else suc j)
      → IsApart s r
  or_else-IsApart none none ha hb hc hd later e f ne = later e f λ q. ne (ap suc q)
  or_else-IsApart none (some b) ha hb hc hd later e f ne =
      let w = holds_at (IsWithin lo mid) (some b) r hb f in
      let k = holds_at (IsWithin mid hi) c s hc e in inr (omega (arith, w, k))
  or_else-IsApart (some a) none ha hb hc hd later e f ne =
      let w = holds_at (IsWithin lo mid) (some a) s ha e in
      let k = holds_at (IsWithin mid hi) d r hd f in inl (omega (arith, w, k))
  or_else-IsApart (some a) (some b) ha hb hc hd later e f ne = absurd (ne refl)

-- Take the members that two names find in a structure. If they are not held by the same direct member,
-- as the alternatives of an anonymous union are, one ends before the other starts.
pub find-IsApart :
    (x y : String) (ms : Members) (pos : ℕ) (s r : Slot)
    → find x ms pos ≡ some s
    → find y ms pos ≡ some r
    → holder_of x ms pos ≢ holder_of y ms pos
    → IsApart s r
unfolding find holder_of
find-IsApart x y done pos s r e f ne = absurd (ne refl)
find-IsApart x y (m ⨾ ms) pos s r e f ne =
    let next = stop_of m pos in
    or_else-IsApart pos next (end_of ms next) (find x ms next) (find y ms next)
      (holder_of x ms next) (holder_of y ms next) s r (find_member x m pos) (find_member y m pos)
      (find_member-IsWithin x m pos) (find_member-IsWithin y m pos) (find-IsWithin x ms next)
      (find-IsWithin y ms next) (find-IsApart x y ms next s r) e f ne
