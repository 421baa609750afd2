-- ===== src/Core/Segment/Ownership/Cuts.antt =====
-- `rebalance_stragglers` and the ownership invariant of a plan.
use xde.Prelude.{
  ℕ, ◌≤◌, ◌<◌, ◌≡◌, Bool, true, false, not, ◌&&◌, some, List, [], ◌∷◌, arith, ltb, leb, inl, inr,
  if◌then◌else◌, Option-cases, partition_point, partition_point-stops, get_elem?,
}
use xde.Core.Ranges
use xde.Core.Ranges.{ByteRange, RangeSet, range, holds}
use xde.Core.Units.{Float}
use xde.Core.SlotMap.{SlotMap, IsLawful}
use xde.Core.Segment.Plan.{Assignment, Plan, cursor, in_flight}
use xde.Core.Segment.Stragglers.{
  rebalance_one, rebalance_all, rebalance_stragglers, rebalance_cut, release_tail, stragglers,
}
use xde.Core.Segment.Tail.{release_tail-IsValid, release_tail-covers}
use xde.Core.Segment.Ownership.{View, Fits}
use xde.Core.Segment.Ownership.Assign.{shrink_owner}
use xde.Core.Segment.Ownership.Bytes.{give_back}
use xde.Core.Segment.Ownership.Steps.{view, IsOwned}

-- A gap never starts before the byte that it is looked for from.
pub first_gap-le :
    (s : RangeSet) (from limit : ℕ) (g : ByteRange)
    → Ranges.first_gap s from limit ≡ some g
    → from ≤ g.start
unfolding Ranges.first_gap
first_gap-le s from limit g h =
    elim (Option-cases (get_elem? s.ranges (partition_point (λ x. leb x.end from) s.ranges))) [
      | inl n ↦ ground arith
      | inr (x, n) ↦
          let e = partition_point-stops (λ (x : ByteRange). leb x.end from) s.ranges x n in
          ground arith
    ]

pub start-le-cursor :
    {F : Type 0} (a : Assignment F) → a.span.start ≤ a.span.end → a.span.start ≤ cursor a
unfolding cursor
start-le-cursor a h =
    elim (Option-cases (Ranges.first_gap a.committed_ranges a.span.start a.span.end)) [
      | inl n ↦ rw (n, cursor) h
      | inr (g, n) ↦ rw (n, cursor) (first_gap-le a.committed_ranges a.span.start a.span.end g n)
    ]

module _ ⦃fl : Float⦄ ⦃sm : SlotMap (Assignment fl.F)⦄ where
  -- A straggler is cut strictly between its cursor and its end.
  pub rebalance_cut_bounds :
      (p : Plan) (a : Assignment fl.F) (n : ℕ)
      → rebalance_cut p a ≡ some n
      → (cursor a < n) × (n < a.span.end)
  unfolding rebalance_cut
  rebalance_cut_bounds p a n h = ground arith

module _ ⦃fl : Float⦄ ⦃sm : SlotMap (Assignment fl.F)⦄ (law : IsLawful sm) where
  cut_plan-IsOwned :
      (total : ℕ) (p : Plan) (j : sm.Key) (a : Assignment fl.F) (n : ℕ)
      → IsOwned total p
      → sm.get p.assignments j ≡ some a
      → cursor a < n
      → n < a.span.end
      → IsOwned total (record p {
        assignments =
            sm.put p.assignments j (record a { span = range a.span.start n; truncated = true });
        claimed = release_tail p.completed.ranges n a.span.end p.claimed;
      })
  cut_plan-IsOwned total p j a n o h lo hi =
      let f : Fits total (some a) = rw h at (o.finite j) in
      let s = start-le-cursor a f.0 in
      let b : Assignment fl.F = record a { span = range a.span.start n; truncated = true } in
      let c = release_tail p.completed.ranges n a.span.end p.claimed in
      let w : View = record (view p) { assignments = sm.put p.assignments j b } in
      give_back total (λ off. holds a.span off && not (holds b.span off)) w c
        (shrink_owner law total (view p) j a b o h (λ off e. ground arith) (omega arith)
          (omega (arith, f.1)))
        (release_tail-IsValid p.completed.ranges n a.span.end p.claimed o.claimed_valid)
        (λ off. ground (
          arith,
          release_tail-covers p.completed.ranges n a.span.end p.claimed off 0
              o.completed_valid.normal o.claimed_valid,
        ))

  rebalance_one-IsOwned :
      (total : ℕ) (p : Plan) (j : sm.Key) → IsOwned total p → IsOwned total (rebalance_one p j).0
  unfolding rebalance_one
  rebalance_one-IsOwned total p j o = elim (Option-cases (sm.get p.assignments j)) [
    | inl n ↦ rw (n, rebalance_one) o
    | inr (a, n) ↦
        rw (n, rebalance_one)
          (elim (Option-cases (rebalance_cut p a)) [
            | inl c ↦ rw c o
            | inr (m, c) ↦
                let (lo, hi) = rebalance_cut_bounds p a m c in
                rw c (cut_plan-IsOwned total p j a m o n lo hi)
          ])
  ]

  rebalance_all-IsOwned :
      (total : ℕ) (p : Plan) (ks : List sm.Key)
      → IsOwned total p
      → IsOwned total (rebalance_all p ks).0
  unfolding rebalance_all
  rebalance_all-IsOwned total p [] o = o
  rebalance_all-IsOwned total p (k ∷ ks) o =
      rebalance_all-IsOwned total (rebalance_one p k).0 ks (rebalance_one-IsOwned total p k o)

  -- The rebalance releases exactly the tails that it cuts off.
  pub rebalance_stragglers-IsOwned :
      (total : ℕ) (p : Plan) (now : ℕ)
      → IsOwned total p
      → IsOwned total (rebalance_stragglers p now).0
  unfolding rebalance_stragglers
  rebalance_stragglers-IsOwned total p now o = pick (ltb (in_flight p) 2)
    where
      pick :
          (b : Bool) → IsOwned total (if b then (p, []) else rebalance_all p (stragglers p now)).0
      pick true = o
      pick false = rebalance_all-IsOwned total p (stragglers p now) o
