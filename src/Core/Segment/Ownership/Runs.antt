-- ===== src/Core/Segment/Ownership/Runs.antt =====
-- The operations of a plan as a step relation, and the plans that a run reaches.
use xde.Prelude.{
  ℕ, ◌≤◌, ◌<◌, ◌≡◌, ◌↔◌, ◌⊎◌, inl, inr, Bool, true, false, Option, none, some, u64_max,
}
use xde.Core.Ranges.{ByteRange, RangeSet, holds}
use xde.Core.Ranges.Normal.{covers, IsValid}
use xde.Core.Units.{Float}
use xde.Core.Policy.{SegmentationPolicy}
use xde.Core.SlotMap.{SlotMap, IsLawful}
use xde.Core.Segment.Plan.{Assignment, Claim, Plan, plan_new, defer, release_due}
use xde.Core.Segment.Claim.{claim_with}
use xde.Core.Segment.Progress.{
  on_wire_received, on_submitted, on_destination_committed, on_response_verified, finish_verified,
  abandon,
}
use xde.Core.Segment.Stragglers.{rebalance_stragglers}
use xde.Core.Segment.Owners.{owns, parked}
use xde.Core.Segment.Ownership.Steps.{
  IsOwned, plan_new-IsOwned, on_wire_received-IsOwned, on_submitted-IsOwned,
  on_destination_committed-IsOwned, on_response_verified-IsOwned,
}
use xde.Core.Segment.Ownership.Ends.{
  abandon-IsOwned, finish_verified-IsOwned, defer-IsOwned, release_due-IsOwned,
}
use xde.Core.Segment.Ownership.Cuts.{rebalance_stragglers-IsOwned}
use xde.Core.Segment.Ownership.Handout.{claim_with-IsOwned}

module _ ⦃fl : Float⦄ ⦃sm : SlotMap (Assignment fl.F)⦄ where
  -- What a finished worker committed lies in the artifact and is not deferred.
  abbrev pub CommittedInside : ℕ → Plan → Option (Assignment fl.F) → Type 0
  CommittedInside total p none = Unit {0}
  CommittedInside total p (some a) =
      IsValid a.committed_ranges
      × ((off : ℕ)
          → covers a.committed_ranges.ranges off ≡ true
          → (off < total) × (parked p.deferred off ≡ false))

  -- Nobody works on the range, and no byte of it is completed or deferred.
  abbrev pub Idle : Plan → ByteRange → Type 0
  Idle p r =
      ((k : sm.Key) (off : ℕ) → holds r off ≡ true → owns p.assignments k off ≡ false)
      × ((off : ℕ) → holds r off ≡ true → covers p.completed.ranges off ≡ false)
      × ((off : ℕ) → holds r off ≡ true → parked p.deferred off ≡ false)

  -- One call of an operation, on a source that serves ranges and an artifact of `total` bytes.
  pub data Step (total : ℕ) : Plan → Plan → Type 0 where
    claimed :
        {p q : Plan} (est : fl.F) (now : ℕ) (solo : Bool) (peer_slots : ℕ) (c : Claim sm.Key)
        → p.total ≡ some total
        → p.single_stream ≡ false
        → claim_with p est now solo peer_slots ≡ some (c, q)
        → Step total p q
    received : {p : Plan} (k : sm.Key) (n : ℕ) → Step total p (on_wire_received p k n)
    submitted : {p : Plan} (k : sm.Key) (n : ℕ) → Step total p (on_submitted p k n)
    committed :
        {p : Plan} (k : sm.Key) (r : ByteRange) (now : ℕ)
        → Step total p (on_destination_committed p k r now)
    verified : {p : Plan} (k : sm.Key) (r : ByteRange) → Step total p (on_response_verified p k r)
    finished :
        {p : Plan} (k : sm.Key)
        → CommittedInside total p (sm.get p.assignments k)
        → Step total p (finish_verified p k).1
    abandoned : {p : Plan} (k : sm.Key) → Step total p (abandon p k).1
    deferred :
        {p : Plan} (r : ByteRange) (until attempt : ℕ)
        → r.end ≤ total
        → Idle p r
        → Step total p (defer p r until attempt)
    released : {p : Plan} (now : ℕ) → Step total p (release_due p now).0
    rebalanced : {p : Plan} (now : ℕ) → Step total p (rebalance_stragglers p now).0

  pub data Run (total : ℕ) : Plan → Plan → Type 0 where
    stay : {p : Plan} → Run total p p
    more : {p q r : Plan} → Run total p q → Step total q r → Run total p r

module _ ⦃fl : Float⦄ ⦃sm : SlotMap (Assignment fl.F)⦄ (law : IsLawful sm) where
  -- Every step of a plan, that is one call of an operation under the conditions of Step, keeps the
  -- ownership invariant.
  pub Step-IsOwned : {total : ℕ} {p q : Plan} → Step total p q → IsOwned total p → IsOwned total q
  Step-IsOwned (claimed {p} {q} est now solo peer_slots c t s h) o =
      claim_with-IsOwned law _ p est now solo peer_slots c q t s o h
  Step-IsOwned (received k n) o = on_wire_received-IsOwned law _ _ k n o
  Step-IsOwned (submitted k n) o = on_submitted-IsOwned law _ _ k n o
  Step-IsOwned (committed k r now) o = on_destination_committed-IsOwned law _ _ k r now o
  Step-IsOwned (verified k r) o = on_response_verified-IsOwned law _ _ k r o
  Step-IsOwned (finished {p} k c) o = finish_verified-IsOwned law _ p k o λ a h. rw h at c
  Step-IsOwned (abandoned k) o = abandon-IsOwned law _ _ k o
  Step-IsOwned (deferred r until attempt l i) o =
      defer-IsOwned law _ _ r until attempt o l i.0 i.1 i.2
  Step-IsOwned (released now) o = release_due-IsOwned law _ _ now o
  Step-IsOwned (rebalanced now) o = rebalance_stragglers-IsOwned law _ _ now o

  pub Run-IsOwned : {total : ℕ} {p q : Plan} → Run total p q → IsOwned total p → IsOwned total q
  Run-IsOwned stay o = o
  Run-IsOwned (more r s) o = Step-IsOwned s (Run-IsOwned r o)

  -- The state that a run from a fresh plan ends in is accounted for.
  start-Run-IsOwned :
      (total : ℕ) (completed : RangeSet) (cfg : SegmentationPolicy fl.F) (duration overlap : ℕ)
      (q : Plan)
      → IsValid completed
      → total < u64_max
      → ((off : ℕ) → covers completed.ranges off ≡ true → off < total)
      → Run total (plan_new (some total) completed cfg duration overlap) q
      → IsOwned total q
  start-Run-IsOwned total completed cfg duration overlap q v s b r =
      Run-IsOwned r (plan_new-IsOwned law total completed cfg duration overlap v s b)

  -- Whatever steps run after `plan_new` with a valid set of completed bytes below a total that is less
  -- than 2^64 - 1, no byte has two owners: assignments that both hold a
  -- byte are the same assignment, and no byte of an assignment is deferred.
  pub Run-one_owner :
      (total : ℕ) (completed : RangeSet) (cfg : SegmentationPolicy fl.F) (duration overlap : ℕ)
      (q : Plan)
      → IsValid completed
      → total < u64_max
      → ((off : ℕ) → covers completed.ranges off ≡ true → off < total)
      → Run total (plan_new (some total) completed cfg duration overlap) q
      → (j k : sm.Key) (off : ℕ) → owns q.assignments j off ≡ true
      → owns q.assignments k off ≡ true
      → (j ≡ k) × (parked q.deferred off ≡ false)
  Run-one_owner total completed cfg duration overlap q v s b r j k off x y =
      let o = start-Run-IsOwned total completed cfg duration overlap q v s b r in
      ((law.same_iff j k).0 (o.exclusive j k off x y), o.parked_free j off x)

  -- Whatever steps run after `plan_new` with a valid set of completed bytes below a total that is less
  -- than 2^64 - 1, nothing leaks: a byte is claimed exactly when it is
  -- completed, in the span of an assignment or deferred, and every claimed byte is below the total.
  pub Run-claimed_iff :
      (total : ℕ) (completed : RangeSet) (cfg : SegmentationPolicy fl.F) (duration overlap : ℕ)
      (q : Plan)
      → IsValid completed
      → total < u64_max
      → ((off : ℕ) → covers completed.ranges off ≡ true → off < total)
      → Run total (plan_new (some total) completed cfg duration overlap) q
      → (off : ℕ)
      → (covers q.claimed.ranges off ≡ true) ↔ (
          (off < total)
          × ((covers q.completed.ranges off ≡ true)
              ⊎ ((k : sm.Key) × (owns q.assignments k off ≡ true))
              ⊎ (parked q.deferred off ≡ true)))
  Run-claimed_iff total completed cfg duration overlap q v s b r off =
      let o = start-Run-IsOwned total completed cfg duration overlap q v s b r in
      (
        (λ c. (
          o.bounded off c,
          elim (o.no_leak off c) [
            | inl d ↦ inl d
            | inr (inl d) ↦ inr (inl d)
            | inr (inr (inl d)) ↦ inr (inr d)
            | inr (inr (inr d)) ↦ cc
          ],
        )),
        (λ (l, w). elim w [
          | inl d ↦ o.completed_claimed off d
          | inr (inl (k, d)) ↦ o.owned_claimed k off d
          | inr (inr d) ↦ o.parked_claimed off d
        ]),
      )
