-- ===== src/Core/Segment/Ownership/Assign.antt =====
-- Changes of the assignments: one is removed, shrinks, or is added.
use xde.Prelude.{
  ℕ, ◌≤◌, ◌≡◌, refl, sym, ◌∙◌, Bool, true, false, not, ◌&&◌, some, arith, Bool-cases, inl, inr, ◌⊎◌,
}
use xde.Core.Ranges.{holds}
use xde.Core.Ranges.Normal.{covers}
use xde.Core.Units.{Float}
use xde.Core.SlotMap.{SlotMap, IsLawful}
use xde.Core.Segment.Plan.{Assignment}
use xde.Core.Segment.Owners.{owns, owns-push, owns-fresh, owns-put, owns-remove, same_refl}
use xde.Core.Segment.Ownership.{View, Owned, nothing, owner_holds, holder_owns, others_apart}

module _ ⦃fl : Float⦄ ⦃sm : SlotMap (Assignment fl.F)⦄ (law : IsLawful sm) where
  -- An assignment is removed: its bytes are free.
  pub drop_owner :
      (total : ℕ) (v : View) (j : sm.Key) (a : Assignment fl.F)
      → Owned total nothing v
      → sm.get v.assignments j ≡ some a
      → Owned total (holds a.span) (record v { assignments = sm.remove v.assignments j })
  drop_owner total v j a o h = record {
    small = o.small;
    completed_valid = o.completed_valid;
    claimed_valid = o.claimed_valid;
    completed_claimed = o.completed_claimed;
    owned_claimed =
        λ k off. ground (arith, owns-remove law v.assignments j k off, o.owned_claimed k off);
    parked_claimed = o.parked_claimed;
    exclusive = λ i k off. ground (
      arith,
      owns-remove law v.assignments j i off,
      owns-remove law v.assignments j k off,
      o.exclusive i k off,
    );
    parked_free =
        λ k off. ground (arith, owns-remove law v.assignments j k off, o.parked_free k off);
    parked_missing = o.parked_missing;
    apart = o.apart;
    bounded = o.bounded;
    finite = λ k.
        rw (law.get-remove v.assignments j k)
          (elim (Bool-cases (sm.same k j)) [ inl s ↦ rw s tt | inr s ↦ rw s (o.finite k) ]);
    no_leak = λ off c. elim (o.no_leak off c) [
      | inl d ↦ inl d
      | inr (inl (k, e)) ↦ elim (Bool-cases (sm.same k j)) [
        | inl s ↦ inr (inr (inr (owner_holds law v.assignments j k a off h s e)))
        | inr s ↦ inr (inl (k, rw (owns-remove law v.assignments j k off, s) e))
      ]
      | inr (inr (inl d)) ↦ inr (inr (inl d))
      | inr (inr (inr d)) ↦ cc
    ];
    free_unowned = λ k off e.
        owns-remove law v.assignments j k off ∙ elim (Bool-cases (sm.same k j)) [
          | inl s ↦ rw s
          | inr s ↦ rw s (others_apart law total nothing v j k a off o h s e)
        ];
    free_unparked = λ off e. o.parked_free j off (rw h e);
  }

  -- An assignment's span shrinks: what it loses is free.
  pub shrink_owner :
      (total : ℕ) (v : View) (j : sm.Key) (a b : Assignment fl.F)
      → Owned total nothing v
      → sm.get v.assignments j ≡ some a
      → ((off : ℕ) → holds b.span off ≡ true → holds a.span off ≡ true)
      → b.span.start ≤ b.span.end
      → b.span.end ≤ total
      → Owned total
          (λ off. holds a.span off && not (holds b.span off))
          (record v { assignments = sm.put v.assignments j b })
  shrink_owner total v j a b o h sub l m = record {
    small = o.small;
    completed_valid = o.completed_valid;
    claimed_valid = o.claimed_valid;
    completed_claimed = o.completed_claimed;
    owned_claimed = λ k off e. o.owned_claimed k off (kept k off e);
    parked_claimed = o.parked_claimed;
    exclusive = λ i k off d e. o.exclusive i k off (kept i off d) (kept k off e);
    parked_free = λ k off e. o.parked_free k off (kept k off e);
    parked_missing = o.parked_missing;
    apart = o.apart;
    bounded = o.bounded;
    finite = λ k. rw (law.get-put v.assignments j k b) (elim (Bool-cases (sm.same k j)) [
      | inl s ↦
          let q : sm.get v.assignments k ≡ some a = rw ((law.same_iff k j).0 s) h in
          rw (s, q) (l, m)
      | inr s ↦ rw s (o.finite k)
    ]);
    no_leak = λ off c. elim (o.no_leak off c) [
      | inl d ↦ inl d
      | inr (inl (k, e)) ↦ elim (Bool-cases (sm.same k j)) [
        | inl s ↦ elim (Bool-cases (holds b.span off)) [
          | inl x ↦ inr (inl (k, rw (owns-put law v.assignments j k a b off h, s) x))
          | inr x ↦
              let y = owner_holds law v.assignments j k a off h s e in
              inr (inr (inr (rw (y, x) refl)))
        ]
        | inr s ↦ inr (inl (k, rw (owns-put law v.assignments j k a b off h, s) e))
      ]
      | inr (inr (inl d)) ↦ inr (inr (inl d))
      | inr (inr (inr d)) ↦ cc
    ];
    free_unowned = λ k off e.
        let x : holds a.span off ≡ true = ground arith in
        let y : holds b.span off ≡ false = ground arith in
        owns-put law v.assignments j k a b off h ∙ elim (Bool-cases (sm.same k j)) [
          | inl s ↦ rw s y
          | inr s ↦ rw s (others_apart law total nothing v j k a off o h s x)
        ];
    free_unparked = λ off e.
        let x : holds a.span off ≡ true = ground arith in
        o.parked_free j off (holder_owns law v.assignments j a off h x);
  }
    where
      kept :
          (k : sm.Key) (off : ℕ)
          → owns (sm.put v.assignments j b) k off ≡ true
          → owns v.assignments k off ≡ true
      kept k off e = elim (Bool-cases (sm.same k j)) [
        | inl s ↦
            let x : holds b.span off ≡ true =
              rw (owns-put law v.assignments j k a b off h, s) at e in
            rw ((law.same_iff k j).0 s) (holder_owns law v.assignments j a off h (sub off x))
        | inr s ↦ rw (owns-put law v.assignments j k a b off h, s) at e
      ]

  -- The free bytes, claimed and not completed, get an owner.
  pub adopt :
      (total : ℕ) (free : ℕ → Bool) (v : View) (a : Assignment fl.F)
      → Owned total free v
      → ((off : ℕ) → holds a.span off ≡ free off)
      → ((off : ℕ) → holds a.span off ≡ true → covers v.claimed.ranges off ≡ true)
      → a.span.start ≤ a.span.end
      → a.span.end ≤ total
      → Owned total nothing (record v { assignments = (sm.push v.assignments a).1 })
  adopt total free v a o same claimed l m = record {
    small = o.small;
    completed_valid = o.completed_valid;
    claimed_valid = o.claimed_valid;
    completed_claimed = o.completed_claimed;
    owned_claimed = λ k off e. elim (owner k off e) [
      | inl x ↦ claimed off x.1
      | inr x ↦ o.owned_claimed k off x.1
    ];
    parked_claimed = o.parked_claimed;
    exclusive = λ i k off d e. elim (owner i off d) [
      | inl x ↦ elim (owner k off e) [
        | inl y ↦ rw (x.0, y.0) (same_refl law (sm.push v.assignments a).0)
        | inr y ↦ cc (y.1, o.free_unowned k off (sym (same off) ∙ x.1))
      ]
      | inr x ↦ elim (owner k off e) [
        | inl y ↦ cc (x.1, o.free_unowned i off (sym (same off) ∙ y.1))
        | inr y ↦ o.exclusive i k off x.1 y.1
      ]
    ];
    parked_free = λ k off e. elim (owner k off e) [
      | inl x ↦ o.free_unparked off (sym (same off) ∙ x.1)
      | inr x ↦ o.parked_free k off x.1
    ];
    parked_missing = o.parked_missing;
    apart = o.apart;
    bounded = o.bounded;
    finite = λ k.
        rw (law.get-push v.assignments a k)
          (elim (Bool-cases (sm.same k (sm.push v.assignments a).0)) [
            | inl s ↦ rw s (l, m)
            | inr s ↦ rw s (o.finite k)
          ]);
    no_leak = λ off e. elim (o.no_leak off e) [
      | inl d ↦ inl d
      | inr (inl (k, x)) ↦ inr (inl (k, rw (owns-push law v.assignments a k off, older k off x) x))
      | inr (inr (inl d)) ↦ inr (inr (inl d))
      | inr (inr (inr d)) ↦ inr (
          inl (
            (sm.push v.assignments a).0,
            rw
                (
                  owns-push law v.assignments a (sm.push v.assignments a).0 off,
                  same_refl law (sm.push v.assignments a).0,
                )
                (same off ∙ d),
          ))
    ];
    free_unowned = λ k off e. cc;
    free_unparked = λ off e. cc;
  }
    where
      owner :
          (k : sm.Key) (off : ℕ)
          → owns (sm.push v.assignments a).1 k off ≡ true
          → ((k ≡ (sm.push v.assignments a).0) × (holds a.span off ≡ true))
            ⊎ ((sm.same k (sm.push v.assignments a).0 ≡ false) × (owns v.assignments k off ≡ true))
      owner k off e = elim (Bool-cases (sm.same k (sm.push v.assignments a).0)) [
        | inl s ↦ inl (
          (law.same_iff k (sm.push v.assignments a).0).0 s,
          rw (owns-push law v.assignments a k off, s) at e,
        )
        | inr s ↦ inr (s, rw (owns-push law v.assignments a k off, s) at e)
      ]

      older :
          (k : sm.Key) (off : ℕ)
          → owns v.assignments k off ≡ true
          → sm.same k (sm.push v.assignments a).0 ≡ false
      older k off e = elim (Bool-cases (sm.same k (sm.push v.assignments a).0)) [
        | inl s ↦ cc (
          rw ((law.same_iff k (sm.push v.assignments a).0).0 s) at e,
          owns-fresh law v.assignments a off,
        )
        | inr s ↦ s
      ]
