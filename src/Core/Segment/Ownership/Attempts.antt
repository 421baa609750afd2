-- ===== src/Core/Segment/Ownership/Attempts.antt =====
-- The attempt that a fresh assignment starts with: `pending_attempt_for` in `claim_with`.
use xde.Prelude.{
  ℕ, ◌≤◌, ◌<◌, ◌≡◌, refl, ◌∙◌, ap, u64_max, true, false, some, List, [], ◌∷◌, arith, max,
}
use xde.Core.Ranges.{ByteRange, holds, intersects}
use xde.Core.Ranges.Normal.{covers}
use xde.Core.Units.{Float}
use xde.Core.SlotMap.{SlotMap, IsLawful}
use xde.Core.Segment.Plan.{
  Assignment, DeferredWork, fresh, Plan, max_attempt, pending_attempt_for, push_assignment,
}
use xde.Core.Segment.Claim.{claim_gap, overlap_for}
use xde.Core.Segment.Progress.{modify}
use xde.Core.Segment.Owners.{parked, Apart, same_refl}
use xde.Core.Segment.Ownership.Steps.{IsOwned}
use xde.Core.Segment.Ownership.Claims.{
  new_assignment, push_assignment-finite, piece_of, piece_of-bounds,
}

-- Deferred ranges that a range shares no byte with give it no attempt.
max_attempt-Apart :
    (r : ByteRange) (ds : List DeferredWork)
    → r.start < r.end
    → Apart ds
    → ((off : ℕ) → holds r off ≡ true → parked ds off ≡ false)
    → max_attempt r ds ≡ 0
unfolding max_attempt
max_attempt-Apart r [] l a h = refl
max_attempt-Apart r (d ∷ ds) l a h =
    let rest = max_attempt-Apart r ds l a.3 (λ off e. ground (arith, h off)) in
    let miss : intersects d.span r ≡ false = ground (arith, a.0, h (max d.span.start r.start)) in
    rw (miss, rest) refl

module _ ⦃fl : Float⦄ ⦃sm : SlotMap (Assignment fl.F)⦄ (law : IsLawful sm) where
  get-modify :
      (p : Plan) (k : sm.Key) (f : Assignment fl.F → Assignment fl.F) (a : Assignment fl.F)
      → sm.get p.assignments k ≡ some a
      → sm.get (modify p k f).assignments k ≡ some (f a)
  unfolding modify
  get-modify p k f a h =
      rw (h, modify) (law.get-put p.assignments k k (f a) ∙ rw (same_refl law k, h) refl)

  get-push_assignment :
      (p : Plan) (r : ByteRange) (now overlap : ℕ)
      → r.end < u64_max
      → sm.get (push_assignment p r now overlap).1.assignments (push_assignment p r now overlap).0
        ≡ some (new_assignment r now overlap)
  get-push_assignment p r now overlap h =
      let e : (push_assignment p r now overlap).0
          ≡ (sm.push p.assignments (new_assignment r now overlap)).0 =
        (unfold push_assignment in refl) in
      rw (push_assignment-finite p r now overlap h, e)
        (law.get-push p.assignments (new_assignment r now overlap) _
          ∙ rw (same_refl law (sm.push p.assignments (new_assignment r now overlap)).0) refl)

  -- On a plan that keeps the ownership invariant, the assignment that claim_gap makes for a piece of an
  -- unclaimed gap starts with attempt 0,
  -- whatever has been deferred and whatever attempts the deferred ranges have reached.
  pub claim_gap-attempt :
      (total : ℕ) (p : Plan) (gap : ByteRange) (len now : ℕ) (k : sm.Key) (q : Plan)
      → IsOwned total p
      → gap.start < gap.end
      → gap.end ≤ total
      → ((off : ℕ) → holds gap off ≡ true → covers p.claimed.ranges off ≡ false)
      → claim_gap p gap total len now ≡ (fresh k, q)
      → (a : Assignment fl.F) × (sm.get q.assignments k ≡ some a) × (a.attempt ≡ 0)
  unfolding claim_gap
  claim_gap-attempt total p gap len now k q o l m f h =
      let take = piece_of gap len p.cfg.alignment total in
      let b = piece_of-bounds gap len p.cfg.alignment total l m o.small in
      let small = o.small in
      let no_attempt : pending_attempt_for p take ≡ 0 =
        unfold pending_attempt_for in
        max_attempt-Apart take p.deferred (omega (arith, b)) o.apart
          (λ off e. ground (arith, b, f off, o.parked_claimed off)) in
      let r = push_assignment p take now (overlap_for p take) in
      let set : Assignment fl.F → Assignment fl.F =
        λ a. record a { attempt = pending_attempt_for p take } in
      let g =
        get-modify r.1 r.0 set _
          (get-push_assignment p take now (overlap_for p take) (omega (arith, b))) in
      let ek : r.0 ≡ k = cc h in
      let eq : modify r.1 r.0 set ≡ q = ap (λ x. x.1) h in
      (set (new_assignment take now (overlap_for p take)), (rw (← eq, ← ek) g), no_attempt)
