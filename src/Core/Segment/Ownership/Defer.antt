-- ===== src/Core/Segment/Ownership/Defer.antt =====
-- Changes of the deferred work: a range is put aside, or comes back.
use xde.Prelude.{
  ℕ, ◌≤◌, ◌<◌, ◌≡◌, refl, true, false, not, ◌&&◌, ◌||◌, List, [], ◌∷◌, ◌++◌, arith, Bool-cases, inl,
  inr, u64_max,
}
use xde.Core.Ranges.{ByteRange, RangeSet, range, holds}
use xde.Core.Ranges.Normal.{covers, IsValid}
use xde.Core.Units.{Float}
use xde.Core.SlotMap.{SlotMap}
use xde.Core.Segment.Plan.{Assignment, DeferredWork}
use xde.Core.Segment.Owners.{parked, Apart, owns, parked-append, Apart-append_one}
use xde.Core.Ranges
use xde.Core.Ranges.Remove.{remove-IsValid, covers-remove}
use xde.Core.Segment.Ownership.{View, Owned, nothing}

pub Apart-middle :
    (xs ys : List DeferredWork) (d : DeferredWork)
    → Apart (xs ++ d ∷ ys)
    → Apart (xs ++ ys)
      × ((off : ℕ) → holds d.span off ≡ true → parked (xs ++ ys) off ≡ false)
      × (d.span.end < u64_max)
Apart-middle [] ys d a = (a.3, a.2, a.1)
Apart-middle (x ∷ xs) ys d a =
    let (rest, apart, small) = Apart-middle xs ys d a.3 in
    (
      (
        a.0,
        a.1,
        (λ off e.
            ground (arith, a.2 off e, parked-append xs (d ∷ ys) off, parked-append xs ys off)),
        rest,
      ),
      (λ off e. ground (arith, a.2 off, apart off e, parked-append xs (d ∷ ys) off)),
      small,
    )

module _ ⦃fl : Float⦄ ⦃sm : SlotMap (Assignment fl.F)⦄ where
  -- Bytes that nobody owns, and that are not completed or deferred, are put aside.
  pub park :
      (total : ℕ) (v : View) (d : DeferredWork) (c : RangeSet)
      → Owned total nothing v
      → IsValid c
      → d.span.start < d.span.end
      → d.span.end ≤ total
      → ((off : ℕ) → covers c.ranges off ≡ (holds d.span off || covers v.claimed.ranges off))
      → ((k : sm.Key) (off : ℕ) → holds d.span off ≡ true → owns v.assignments k off ≡ false)
      → ((off : ℕ) → holds d.span off ≡ true → covers v.completed.ranges off ≡ false)
      → ((off : ℕ) → holds d.span off ≡ true → parked v.deferred off ≡ false)
      → Owned total nothing (record v { claimed = c; deferred = v.deferred ++ d ∷ [] })
  park total v d c o w ne l h unowned missing apart = record {
    small = o.small;
    completed_valid = o.completed_valid;
    claimed_valid = w;
    completed_claimed = λ off e. ground (arith, h off, o.completed_claimed off e);
    owned_claimed = λ k off e. ground (arith, h off, o.owned_claimed k off e);
    parked_claimed =
        λ off e. ground (arith, h off, parked-append v.deferred (d ∷ []) off, o.parked_claimed off);
    exclusive = o.exclusive;
    parked_free = λ k off e.
        ground (arith, parked-append v.deferred (d ∷ []) off, o.parked_free k off e, unowned k off);
    parked_missing = λ off e.
        ground (arith, parked-append v.deferred (d ∷ []) off, o.parked_missing off e, missing off);
    apart = Apart-append_one v.deferred d o.apart ne (let s = o.small in omega arith) apart;
    bounded = λ off e. ground (arith, h off, o.bounded off);
    finite = o.finite;
    no_leak = λ off e. elim (Bool-cases (holds d.span off)) [
      | inl x ↦ inr (inr (inl (rw (parked-append v.deferred (d ∷ []) off, x) (ground arith))))
      | inr x ↦ elim (o.no_leak off (ground (arith, h off))) [
        | inl z ↦ inl z
        | inr (inl z) ↦ inr (inl z)
        | inr (inr (inl z)) ↦ inr (inr (inl (rw (parked-append v.deferred (d ∷ []) off, z) refl)))
        | inr (inr (inr z)) ↦ cc
      ]
    ];
    free_unowned = λ k off e. cc;
    free_unparked = λ off e. cc;
  }

  -- A deferred range comes back: its bytes can be claimed again.
  pub unpark :
      (total : ℕ) (v : View) (xs ys : List DeferredWork) (d : DeferredWork)
      → v.deferred ≡ xs ++ d ∷ ys
      → Owned total nothing v
      → Owned total nothing
          (record v { claimed = Ranges.remove v.claimed d.span; deferred = xs ++ ys })
  unpark total v xs ys d q o = record {
    small = o.small;
    completed_valid = o.completed_valid;
    claimed_valid = remove-IsValid v.claimed d.span o.claimed_valid;
    completed_claimed =
        λ off e. ground (arith, was off, h off, o.completed_claimed off e, o.parked_missing off e);
    owned_claimed =
        λ k off e. ground (arith, was off, h off, o.owned_claimed k off e, o.parked_free k off e);
    parked_claimed = λ off e. ground (arith, was off, h off, o.parked_claimed off, split.1 off);
    exclusive = o.exclusive;
    parked_free = λ k off e. ground (arith, was off, o.parked_free k off e);
    parked_missing = λ off e. ground (arith, was off, o.parked_missing off e);
    apart = split.0;
    bounded = λ off e. ground (arith, h off, o.bounded off);
    finite = o.finite;
    no_leak = λ off e. elim (o.no_leak off (ground (arith, h off))) [
      | inl z ↦ inl z
      | inr (inl z) ↦ inr (inl z)
      | inr (inr (inl z)) ↦ inr (inr (inl (ground (arith, was off, h off))))
      | inr (inr (inr z)) ↦ cc
    ];
    free_unowned = λ k off e. cc;
    free_unparked = λ off e. cc;
  }
    where
      split :
          Apart (xs ++ ys)
          × ((off : ℕ) → holds d.span off ≡ true → parked (xs ++ ys) off ≡ false)
          × (d.span.end < u64_max)
      split = Apart-middle xs ys d (rw q at o.apart)

      h :
          (off : ℕ)
          → covers (Ranges.remove v.claimed d.span).ranges off
            ≡ (covers v.claimed.ranges off && not (holds d.span off))
      h off = covers-remove v.claimed d.span off o.claimed_valid

      was : (off : ℕ) → parked v.deferred off ≡ (holds d.span off || parked (xs ++ ys) off)
      was off = rw q (ground (arith, parked-append xs (d ∷ ys) off, parked-append xs ys off))
