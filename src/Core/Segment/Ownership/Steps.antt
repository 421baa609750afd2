-- ===== src/Core/Segment/Ownership/Steps.antt =====
-- The start of a plan and the progress reports, and the ownership invariant.
use xde.Prelude.{
  ℕ, ◌≤◌, ◌<◌, ◌≡◌, refl, sym, ◌∙◌, Bool, true, ◌&&◌, some, arith, Bool-cases, inl, inr, u64_max,
  u64_mod, Option-cases,
}
use xde.Core.Ranges
use xde.Core.Ranges.{ByteRange, RangeSet, range, holds, is_empty}
use xde.Core.Ranges.Normal.{covers, IsValid}
use xde.Core.Ranges.Insert.{insert-IsValid, covers-insert}
use xde.Core.Units.{Float}
use xde.Core.SlotMap.{SlotMap, IsLawful}
use xde.Core.Policy.{SegmentationPolicy}
use xde.Core.Segment.Plan.{Assignment, Plan, plan_new}
use xde.Core.Segment.Progress.{
  modify, on_wire_received, on_submitted, on_destination_committed, commit_range,
  on_response_verified, inside,
}
use xde.Core.Segment.Owners.{owns, owns-put_same}
use xde.Core.Segment.Ownership.{View, Owned, Fits, nothing, holder_owns}
use xde.Core.Segment.Ownership.Bytes.{learn}

-- The part of `r` inside a span holds bytes of both, and its end is an end of the span.
inside_lem :
    (r span : ByteRange) (off : ℕ)
    → span.start ≤ span.end
    → (holds (inside r span) off ≡ (holds r off && holds span off))
      × ((inside r span).end ≤ span.end)
unfolding inside
inside_lem r span off h = (unfold Ranges.intersection in ground arith)

module _ ⦃fl : Float⦄ ⦃sm : SlotMap (Assignment fl.F)⦄ where
  abbrev pub view : Plan → View
  view p = record {
    completed = p.completed;
    claimed = p.claimed;
    assignments = p.assignments;
    deferred = p.deferred;
  }

  -- The ownership invariant of a plan.
  abbrev pub IsOwned : ℕ → Plan → Type 0
  IsOwned total p = Owned total nothing (view p)

module _ ⦃fl : Float⦄ ⦃sm : SlotMap (Assignment fl.F)⦄ (law : IsLawful sm) where
  -- A plan starts with what the journal says is completed, and nothing in flight.
  pub plan_new-IsOwned :
      (total : ℕ) (completed : RangeSet) (cfg : SegmentationPolicy fl.F) (duration overlap : ℕ)
      → IsValid completed
      → total < u64_max
      → ((off : ℕ) → covers completed.ranges off ≡ true → off < total)
      → IsOwned total (plan_new (some total) completed cfg duration overlap)
  unfolding plan_new
  plan_new-IsOwned total completed cfg duration overlap v s b = record {
    small = s;
    completed_valid = v;
    claimed_valid = v;
    completed_claimed = λ off e. e;
    owned_claimed = λ k off e. cc (law.get-empty k);
    parked_claimed = λ off e. cc;
    exclusive = λ j k off d e. cc (law.get-empty k);
    parked_free = λ k off e. refl;
    parked_missing = λ off e. refl;
    apart = tt;
    bounded = b;
    finite = λ k. rw (law.get-empty k) tt;
    no_leak = λ off e. inl e;
    free_unowned = λ k off e. cc;
    free_unparked = λ off e. cc;
  }

  -- A write that leaves the span alone.
  pub rewrite_entry :
      (total : ℕ) (free : ℕ → Bool) (v : View) (j : sm.Key) (a b : Assignment fl.F)
      → Owned total free v
      → sm.get v.assignments j ≡ some a
      → b.span ≡ a.span
      → Owned total free (record v { assignments = sm.put v.assignments j b })
  rewrite_entry total free v j a b o h e = record {
    small = o.small;
    completed_valid = o.completed_valid;
    claimed_valid = o.claimed_valid;
    completed_claimed = o.completed_claimed;
    owned_claimed = λ k off d. o.owned_claimed k off (sym (same k off) ∙ d);
    parked_claimed = o.parked_claimed;
    exclusive = λ i k off d c. o.exclusive i k off (sym (same i off) ∙ d) (sym (same k off) ∙ c);
    parked_free = λ k off d. o.parked_free k off (sym (same k off) ∙ d);
    parked_missing = o.parked_missing;
    apart = o.apart;
    bounded = o.bounded;
    finite = λ k. rw (law.get-put v.assignments j k b) (elim (Bool-cases (sm.same k j)) [
      | inl s ↦
          let q : sm.get v.assignments k ≡ some a = rw ((law.same_iff k j).0 s) h in
          let f : Fits total (some a) = rw q at (o.finite k) in rw (s, q, e) f
      | inr s ↦ rw s (o.finite k)
    ]);
    no_leak = λ off d. elim (o.no_leak off d) [
      | inl x ↦ inl x
      | inr (inl (k, x)) ↦ inr (inl (k, same k off ∙ x))
      | inr (inr x) ↦ inr (inr x)
    ];
    free_unowned = λ k off d. same k off ∙ o.free_unowned k off d;
    free_unparked = o.free_unparked;
  }
    where
      same :
          (k : sm.Key) (off : ℕ) → owns (sm.put v.assignments j b) k off ≡ owns v.assignments k off
      same k off = owns-put_same law v.assignments j k a b off h e

  pub modify-IsOwned :
      (total : ℕ) (p : Plan) (j : sm.Key) (f : Assignment fl.F → Assignment fl.F)
      → ((a : Assignment fl.F) → (f a).span ≡ a.span)
      → IsOwned total p
      → IsOwned total (modify p j f)
  unfolding modify
  modify-IsOwned total p j f e o = elim (Option-cases (sm.get p.assignments j)) [
    | inl n ↦ rw (n, modify) o
    | inr (a, n) ↦ rw (n, modify) (rewrite_entry total nothing (view p) j a (f a) o n (e a))
  ]

  pub on_wire_received-IsOwned :
      (total : ℕ) (p : Plan) (j : sm.Key) (n : ℕ)
      → IsOwned total p
      → IsOwned total (on_wire_received p j n)
  unfolding on_wire_received
  on_wire_received-IsOwned total p j n = modify-IsOwned total p j _ (λ a. refl)

  pub on_submitted-IsOwned :
      (total : ℕ) (p : Plan) (j : sm.Key) (n : ℕ)
      → IsOwned total p
      → IsOwned total (on_submitted p j n)
  unfolding on_submitted
  on_submitted-IsOwned total p j n = modify-IsOwned total p j _ (λ a. refl)

  span-commit_range :
      (r : ByteRange) (now : ℕ) (a : Assignment fl.F) → (commit_range r now a).span ≡ a.span
  unfolding commit_range
  span-commit_range r now a = ground arith

  pub on_destination_committed-IsOwned :
      (total : ℕ) (p : Plan) (j : sm.Key) (r : ByteRange) (now : ℕ)
      → IsOwned total p
      → IsOwned total (on_destination_committed p j r now)
  unfolding on_destination_committed
  on_destination_committed-IsOwned total p j r now o = elim (Bool-cases (is_empty r)) [
    | inl e ↦ rw e o
    | inr e ↦ rw e (modify-IsOwned total p j (commit_range r now) (span-commit_range r now) o)
  ]

  verify_part :
      (total : ℕ) (p : Plan) (j : sm.Key) (a : Assignment fl.F) (r : ByteRange)
      → IsOwned total p
      → sm.get p.assignments j ≡ some a
      → IsOwned total (record p {
        completed = Ranges.insert p.completed (inside r a.span);
        claimed = Ranges.insert p.claimed (inside r a.span);
      })
  verify_part total p j a r o h =
      let f : Fits total (some a) = rw h at (o.finite j) in
      let x = inside r a.span in
      let s = o.small in
      let b : x.end < u64_mod = omega (arith, (inside_lem r a.span 0 f.0).1) in
      learn total nothing (holds x) (view p) (Ranges.insert p.completed x)
        (Ranges.insert p.claimed x) o (insert-IsValid p.completed x o.completed_valid b)
        (insert-IsValid p.claimed x o.claimed_valid b)
        (λ off. covers-insert p.completed x off o.completed_valid)
        (λ off. covers-insert p.claimed x off o.claimed_valid)
        (λ off e. ground (arith, (inside_lem r a.span 0 f.0).1))
        (λ off e. o.parked_free j off (
          holder_owns law p.assignments j a off h
            (ground (arith, (inside_lem r a.span off f.0).0))))

  -- Verified bytes are completed.
  pub on_response_verified-IsOwned :
      (total : ℕ) (p : Plan) (j : sm.Key) (r : ByteRange)
      → IsOwned total p
      → IsOwned total (on_response_verified p j r)
  unfolding on_response_verified
  on_response_verified-IsOwned total p j r o = elim (Bool-cases (is_empty r)) [
    | inl e ↦ rw e o
    | inr e ↦ rw e (elim (Option-cases (sm.get p.assignments j)) [
      | inl n ↦ rw n o
      | inr (a, n) ↦ rw n (elim (Bool-cases (is_empty (inside r a.span))) [
        | inl z ↦ rw z o
        | inr z ↦ rw z (verify_part total p j a r o n)
      ])
    ])
  ]
