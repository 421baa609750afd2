-- ===== src/Core/Segment/Ownership/Bytes.antt =====
-- Changes of the claimed and completed bytes.
use xde.Prelude.{ℕ, ◌≤◌, ◌<◌, ◌≡◌, Bool, true, false, not, ◌&&◌, ◌||◌, arith, Bool-cases, inl, inr}
use xde.Core.Ranges.{ByteRange, RangeSet, holds}
use xde.Core.Ranges.Normal.{covers, IsValid}
use xde.Core.Units.{Float}
use xde.Core.SlotMap.{SlotMap}
use xde.Core.Segment.Plan.{Assignment}
use xde.Core.Segment.Owners.{parked}
use xde.Core.Segment.Ownership.{View, Owned, nothing}

module _ ⦃fl : Float⦄ ⦃sm : SlotMap (Assignment fl.F)⦄ where
  -- Free bytes that are not completed are given back.
  pub give_back :
      (total : ℕ) (free : ℕ → Bool) (v : View) (c : RangeSet)
      → Owned total free v
      → IsValid c
      → ((off : ℕ)
          → covers c.ranges off ≡ (
              covers v.claimed.ranges off && not (free off && not (covers v.completed.ranges off))))
      → Owned total nothing (record v { claimed = c })
  give_back total free v c o w h = record {
    small = o.small;
    completed_valid = o.completed_valid;
    claimed_valid = w;
    completed_claimed = λ off d. ground (arith, h off, o.completed_claimed off d);
    owned_claimed = λ k off e. ground (arith, h off, o.owned_claimed k off e, o.free_unowned k off);
    parked_claimed = λ off e. ground (arith, h off, o.parked_claimed off e, o.free_unparked off);
    exclusive = o.exclusive;
    parked_free = o.parked_free;
    parked_missing = o.parked_missing;
    apart = o.apart;
    bounded = λ off e. ground (arith, h off, o.bounded off);
    finite = o.finite;
    no_leak = λ off e. elim (o.no_leak off (ground (arith, h off))) [
      | inl d ↦ inl d
      | inr (inl (k, x)) ↦ inr (inl (k, x))
      | inr (inr (inl d)) ↦ inr (inr (inl d))
      | inr (inr (inr d)) ↦ inl (ground (arith, h off))
    ];
    free_unowned = λ k off e. cc;
    free_unparked = λ off e. cc;
  }

  -- Bytes are claimed that nobody owns: they are free.
  pub take_free :
      (total : ℕ) (v : View) (r : ByteRange) (c : RangeSet)
      → Owned total nothing v
      → IsValid c
      → r.end ≤ total
      → ((off : ℕ) → covers c.ranges off ≡ (holds r off || covers v.claimed.ranges off))
      → ((off : ℕ) → holds r off ≡ true → covers v.claimed.ranges off ≡ false)
      → Owned total (holds r) (record v { claimed = c })
  take_free total v r c o w l h f = record {
    small = o.small;
    completed_valid = o.completed_valid;
    claimed_valid = w;
    completed_claimed = λ off d. ground (arith, h off, o.completed_claimed off d);
    owned_claimed = λ k off e. ground (arith, h off, o.owned_claimed k off e);
    parked_claimed = λ off e. ground (arith, h off, o.parked_claimed off e);
    exclusive = o.exclusive;
    parked_free = o.parked_free;
    parked_missing = o.parked_missing;
    apart = o.apart;
    bounded = λ off e. ground (arith, h off, o.bounded off);
    finite = o.finite;
    no_leak = λ off e. elim (Bool-cases (holds r off)) [
      | inl x ↦ inr (inr (inr x))
      | inr x ↦ elim (o.no_leak off (ground (arith, h off))) [
        | inl d ↦ inl d
        | inr (inl y) ↦ inr (inl y)
        | inr (inr (inl d)) ↦ inr (inr (inl d))
        | inr (inr (inr d)) ↦ cc
      ]
    ];
    free_unowned = λ k off e. ground (arith, f off e, o.owned_claimed k off);
    free_unparked = λ off e. ground (arith, f off e, o.parked_claimed off);
  }

  -- Bytes of the artifact that are not deferred become completed, and stay claimed.
  pub learn :
      (total : ℕ) (free more : ℕ → Bool) (v : View) (d c : RangeSet)
      → Owned total free v
      → IsValid d
      → IsValid c
      → ((off : ℕ) → covers d.ranges off ≡ (more off || covers v.completed.ranges off))
      → ((off : ℕ) → covers c.ranges off ≡ (more off || covers v.claimed.ranges off))
      → ((off : ℕ) → more off ≡ true → off < total)
      → ((off : ℕ) → more off ≡ true → parked v.deferred off ≡ false)
      → Owned total free (record v { completed = d; claimed = c })
  learn total free more v d c o x y hd hc low apart = record {
    small = o.small;
    completed_valid = x;
    claimed_valid = y;
    completed_claimed = λ off e. ground (arith, hd off, hc off, o.completed_claimed off);
    owned_claimed = λ k off e. ground (arith, hc off, o.owned_claimed k off e);
    parked_claimed = λ off e. ground (arith, hc off, o.parked_claimed off e);
    exclusive = o.exclusive;
    parked_free = o.parked_free;
    parked_missing = λ off e. ground (arith, hd off, apart off, o.parked_missing off);
    apart = o.apart;
    bounded = λ off e. ground (arith, hc off, low off, o.bounded off);
    finite = o.finite;
    no_leak = λ off e. elim (Bool-cases (more off)) [
      | inl m ↦ inl (ground (arith, hd off))
      | inr m ↦ elim (o.no_leak off (ground (arith, hc off))) [
        | inl z ↦ inl (ground (arith, hd off))
        | inr z ↦ inr z
      ]
    ];
    free_unowned = o.free_unowned;
    free_unparked = o.free_unparked;
  }
