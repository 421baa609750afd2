-- ===== src/Core/Segment/Ownership/Claims.antt =====
-- The two ways in which `claim_with` hands out work: a piece of a gap, and a stolen tail.
use xde.Prelude.{
  ℕ, suc, zero, ◌+◌, ◌≤◌, ◌<◌, ◌≡◌, refl, ◌∙◌, true, false, not, ◌&&◌, ◌||◌, none, some, arith,
  ◌==◌, max, Bool-cases, inl, inr, u64_max, wadd, sat_add, Option-cases, wadd-eq,
}
use xde.Core.Ranges
use xde.Core.Ranges.{ByteRange, RangeSet, range, holds}
use xde.Core.Ranges.Normal.{covers, IsValid}
use xde.Core.Ranges.Insert.{insert-IsValid, covers-insert}
use xde.Core.Ranges.Canonical.{IsValid-canonical}
use xde.Core.Ranges.Gaps.{IsFirstGap, first_gap-IsFirstGap}
use xde.Core.Units.{Float}
use xde.Core.Ewma.{ewma_new}
use xde.Core.SlotMap.{SlotMap, IsLawful}
use xde.Core.Segment.Plan.{
  Assignment, Plan, cursor, snap_end, max_end, push_assignment, gap_is_deferred,
}
use xde.Core.Segment.Claim.{gap_loop, claim_gap, steal_at, overlap_for}
use xde.Core.Segment.Ownership.{View, Fits, holder_owns}
use xde.Core.Segment.Ownership.Assign.{adopt, shrink_owner}
use xde.Core.Segment.Ownership.Bytes.{take_free}
use xde.Core.Segment.Ownership.Steps.{view, IsOwned, modify-IsOwned}
use xde.Core.Segment.Ownership.Cuts.{start-le-cursor}

-- What a worker takes of a gap.
abbrev pub piece_of : ByteRange → ℕ → ℕ → ℕ → ByteRange
piece_of gap len align total = snap_end (Ranges.truncated_to gap len) align total

-- Of a gap that is not empty and ends in an artifact shorter than 2^64 - 1, however long the piece and
-- whatever the alignment, a worker takes at least one byte, from the
-- start of the gap, and nothing beyond the gap.
pub piece_of-bounds :
    (gap : ByteRange) (len align total : ℕ)
    → gap.start < gap.end
    → gap.end ≤ total
    → total < u64_max
    → let take = piece_of gap len align total in
      (take.start ≡ gap.start) × (take.start < take.end) × (take.end ≤ gap.end)
unfolding snap_end
piece_of-bounds gap len align total h k l =
    let e = Ranges.truncated_to gap len in
    let s : e.start ≡ gap.start = (unfold Ranges.truncated_to in refl) in
    let t : e.end ≤ gap.end = (unfold Ranges.truncated_to in omega arith) in
    let one : wadd e.start 1 ≡ e.start + 1 = wadd-eq e.start 1 (omega arith) in
    (s, omega arith, omega arith)

module _ ⦃fl : Float⦄ ⦃sm : SlotMap (Assignment fl.F)⦄ where
  -- What the loop for a claimable gap returns is a gap of the claimed set.
  pub gap_loop-gap :
      (p : Plan) (total now fuel pos : ℕ) (g : ByteRange)
      → IsValid p.claimed
      → gap_loop p total now fuel pos ≡ some (some g)
      → (g.start < g.end)
        × (g.end ≤ total)
        × ((off : ℕ) → holds g off ≡ true → covers p.claimed.ranges off ≡ false)
  unfolding gap_loop
  gap_loop-gap p total now zero pos g v h = cc
  gap_loop-gap p total now (suc fuel) pos g v h =
      elim (Option-cases (Ranges.first_gap p.claimed pos total)) [
        | inl n ↦ ground arith
        | inr (gap, n) ↦
            let f : IsFirstGap p.claimed.ranges pos total (some gap) =
              rw n at (first_gap-IsFirstGap p.claimed pos total v) in
            elim (Bool-cases (gap_is_deferred p.deferred gap now)) [
              | inl d ↦
                  let skip : ℕ = elim (max_end gap now p.deferred) [
                    | none ↦ gap.end
                    | some e ↦ e
                  ] in
                  gap_loop-gap p total now fuel (max skip (sat_add gap.start 1)) g v (ground arith)
              | inr d ↦
                  let q : gap ≡ g = ground arith in
                  rw (← q) (f.1, f.2, λ off e. f.4 off (ground arith) (ground arith))
            ]
      ]

  -- The overlap and the attempt of a fresh assignment do not move its span.
  abbrev pub new_assignment : ByteRange → ℕ → ℕ → Assignment fl.F
  new_assignment r now overlap = record {
    span = r;
    wire_received = 0;
    destination_submitted = 0;
    destination_committed = 0;
    committed_ranges = Ranges.new;
    started = now;
    last_progress = now;
    rate = ewma_new 4_000_000_000;
    overlap = overlap;
    truncated = false;
    connection = none;
    attempt = 0;
  }

  pub push_assignment-finite :
      (p : Plan) (r : ByteRange) (now overlap : ℕ)
      → r.end < u64_max
      → (push_assignment p r now overlap).1 ≡ record p {
        claimed = Ranges.insert p.claimed r;
        assignments = (sm.push p.assignments (new_assignment r now overlap)).1;
      }
  unfolding push_assignment
  push_assignment-finite p r now overlap h =
      let e : (r.end == u64_max) ≡ false = ground arith in rw e

module _ ⦃fl : Float⦄ ⦃sm : SlotMap (Assignment fl.F)⦄ (law : IsLawful sm) where
  push-IsOwned :
      (total : ℕ) (p : Plan) (r : ByteRange) (now overlap : ℕ)
      → IsOwned total p
      → r.start ≤ r.end
      → r.end ≤ total
      → ((off : ℕ) → holds r off ≡ true → covers p.claimed.ranges off ≡ false)
      → IsOwned total (push_assignment p r now overlap).1
  push-IsOwned total p r now overlap o k l f =
      let s = o.small in
      let c = Ranges.insert p.claimed r in
      let v = insert-IsValid p.claimed r o.claimed_valid (omega arith) in
      let h : (off : ℕ) → covers c.ranges off ≡ (holds r off || covers p.claimed.ranges off) =
        λ off. covers-insert p.claimed r off o.claimed_valid in
      rw (push_assignment-finite p r now overlap (omega arith)) (
        adopt law total (holds r) (record (view p) { claimed = c }) (new_assignment r now overlap)
          (take_free total (view p) r c o v l h f) (λ off. refl) (λ off e. rw (h off, e)) k l)

  -- Giving a worker a piece of a gap.
  pub claim_gap-IsOwned :
      (total : ℕ) (p : Plan) (gap : ByteRange) (len now : ℕ)
      → IsOwned total p
      → gap.start < gap.end
      → gap.end ≤ total
      → ((off : ℕ) → holds gap off ≡ true → covers p.claimed.ranges off ≡ false)
      → IsOwned total (claim_gap p gap total len now).1
  claim_gap-IsOwned total p gap len now o h l f =
      let take = piece_of gap len p.cfg.alignment total in
      let b = piece_of-bounds gap len p.cfg.alignment total h l o.small in
      let q =
        push-IsOwned total p take now (overlap_for p take) o (omega (arith, b)) (omega (arith, b))
          (λ off e. f off (ground (arith, b))) in
      unfold claim_gap in modify-IsOwned law total _ _ _ (λ a. refl) q

  -- Moving the tail of a victim's span to a new assignment.
  pub steal_at-IsOwned :
      (total : ℕ) (p : Plan) (victim : sm.Key) (a : Assignment fl.F) (cut now : ℕ)
      → IsOwned total p
      → sm.get p.assignments victim ≡ some a
      → cursor a < cut
      → cut < a.span.end
      → IsOwned total (steal_at p victim a cut now).1
  steal_at-IsOwned total p victim a cut now o n lo hi =
      let f : Fits total (some a) = rw n at (o.finite victim) in
      let s = start-le-cursor a f.0 in
      let small = o.small in
      let b : Assignment fl.F = record a { span = range a.span.start cut; truncated = true } in
      let r = range cut a.span.end in
      let c = Ranges.insert p.claimed r in
      let claimed : (off : ℕ) → holds r off ≡ true → covers p.claimed.ranges off ≡ true = λ off e.
        o.owned_claimed victim off (holder_owns law p.assignments victim a off n (ground arith)) in
      let v = insert-IsValid p.claimed r o.claimed_valid (omega (arith, f.1)) in
      let kept : c ≡ p.claimed = IsValid-canonical c p.claimed v o.claimed_valid λ off.
        covers-insert p.claimed r off o.claimed_valid ∙ elim (Bool-cases (holds r off)) [
          | inl x ↦ rw (x, claimed off x) refl
          | inr x ↦ rw x refl
        ] in
      let q : Plan = record p { assignments = sm.put p.assignments victim b } in
      let w : View = record (view p) { assignments = sm.put p.assignments victim b } in
      let shrunk =
        shrink_owner law total (view p) victim a b o n (λ off e. ground arith) (omega arith)
          (omega (arith, f.1)) in
      let d : IsOwned total (push_assignment q r now 0).1 =
        rw (push_assignment-finite q r now 0 (omega (arith, f.1)), kept)
          (adopt law total (λ off. holds a.span off && not (holds b.span off)) w
            (new_assignment r now 0) shrunk (λ off. ground arith) claimed (omega arith) f.1) in
      unfold steal_at in d
