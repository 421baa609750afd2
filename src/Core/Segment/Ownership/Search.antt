-- ===== src/Core/Segment/Ownership/Search.antt =====
-- The search for a claimable gap, `next_claimable_gap`, and its loop.
use xde.Prelude.{
  ℕ, zero, suc, ◌+◌, ◌≤◌, ◌<◌, ◌≡◌, refl, true, false, ◌&&◌, Option, none, some, List, [], ◌∷◌,
  arith, ltb, max, Bool-cases, Option-cases, inl, inr, u64_max, sat_add,
}
use xde.Core.Ranges
use xde.Core.Ranges.{ByteRange, RangeSet, range, holds, intersects}
use xde.Core.Ranges.Gaps.{IsFirstGap, first_gap-IsFirstGap}
use xde.Core.Units.{Float}
use xde.Core.SlotMap.{SlotMap}
use xde.Core.Segment.Plan.{Assignment, DeferredWork, Plan, gap_is_deferred, max_end}
use xde.Core.Segment.Claim.{gap_loop, next_claimable_gap}
use xde.Core.Segment.Owners.{parked, Apart}
use xde.Core.Segment.Ownership.Steps.{IsOwned}
use xde.Core.Segment.Ownership.Cuts.{first_gap-le}

module _ ⦃fl : Float⦄ ⦃sm : SlotMap (Assignment fl.F)⦄ where
  -- A range that shares no byte with the deferred ones is not held back.
  gap_is_deferred-Apart :
      (g : ByteRange) (now : ℕ) (ds : List DeferredWork)
      → g.start < g.end
      → Apart ds
      → ((off : ℕ) → holds g off ≡ true → parked ds off ≡ false)
      → gap_is_deferred ds g now ≡ false
  unfolding gap_is_deferred
  gap_is_deferred-Apart g now [] l a h = refl
  gap_is_deferred-Apart g now (d ∷ ds) l a h =
      let rest = gap_is_deferred-Apart g now ds l a.3 (λ off e. ground (arith, h off)) in
      let miss : intersects d.span g ≡ false = ground (arith, a.0, h (max d.span.start g.start)) in
      let e : (ltb now d.until && intersects d.span g) ≡ false = ground arith in rw (e, rest) refl

  -- For a total below 2^64 - 1, each round of the loop moves on by a byte at least, so the loop ends
  -- before the fuel is used up if there is more of it than bytes that are left.
  pub gap_loop-enough :
      (p : Plan) (total now fuel pos : ℕ)
      → total < u64_max
      → total ≤ fuel + pos
      → (r : Option ByteRange) × (gap_loop p total now (suc fuel) pos ≡ some r)
  unfolding gap_loop
  gap_loop-enough p total now zero pos s h =
      let e : ltb pos total ≡ false = ground arith in (none, rw e refl)
  gap_loop-enough p total now (suc fuel) pos s h = elim (Bool-cases (ltb pos total)) [
    | inr b ↦ (none, rw b refl)
    | inl b ↦ elim (Option-cases (Ranges.first_gap p.claimed pos total)) [
      | inl n ↦ (none, rw (b, n) refl)
      | inr (g, n) ↦ elim (Bool-cases (gap_is_deferred p.deferred g now)) [
        | inr d ↦ (some g, rw (b, n, d) refl)
        | inl d ↦
            let skip : ℕ = elim (max_end g now p.deferred) [ none ↦ g.end | some e ↦ e ] in
            let l = first_gap-le p.claimed pos total g n in
            let rest =
              gap_loop-enough p total now fuel (max skip (sat_add g.start 1)) s (omega arith) in
            (rest.0, rw (b, n, d) rest.1)
      ]
    ]
  ]

  -- On a plan that keeps the ownership invariant, next_claimable_gap is the first gap of the claimed
  -- set below the total: nothing deferred is ever in its way.
  pub next_claimable_gap_lem :
      (total : ℕ) (p : Plan) (now : ℕ)
      → IsOwned total p
      → next_claimable_gap p total now ≡ Ranges.first_gap p.claimed 0 total
  unfolding next_claimable_gap gap_loop
  next_claimable_gap_lem total p now o = elim (Option-cases (Ranges.first_gap p.claimed 0 total)) [
    | inl n ↦ elim (Bool-cases (ltb 0 total)) [ inl b ↦ rw (b, n) refl | inr b ↦ rw (b, n) refl ]
    | inr (g, n) ↦
        let f : IsFirstGap p.claimed.ranges 0 total (some g) =
          rw n at (first_gap-IsFirstGap p.claimed 0 total o.claimed_valid) in
        let d : gap_is_deferred p.deferred g now ≡ false =
          gap_is_deferred-Apart g now p.deferred f.1 o.apart
            (λ off e. ground (arith, f.4 off, o.parked_claimed off)) in
        let l : ltb 0 total ≡ true = ground (arith, f.1, f.2) in rw (n, d, l) refl
  ]
