-- ===== src/Core/Segment/Owners.antt =====
-- Who owns a byte of the plan: an assignment by its span, or a deferred range.
use xde.Prelude.{
  ℕ, ◌<◌, ◌≡◌, refl, ◌∙◌, ap, Bool, true, false, ◌||◌, Option, none, some, List, [], ◌∷◌, ◌++◌,
  arith, Bool-cases, inl, inr, if◌then◌else◌, u64_max,
}
use xde.Core.Ranges.{ByteRange, holds}
use xde.Core.Units.{Float}
use xde.Core.SlotMap.{SlotMap, IsLawful}
use xde.Core.Segment.Plan.{Assignment, DeferredWork}

-- The bytes that a list of deferred work keeps back.
abbrev pub parked : List DeferredWork → ℕ → Bool
parked [] off = false
parked (d ∷ ds) off = holds d.span off || parked ds off

-- Deferred ranges are finite, not empty and do not overlap.
abbrev pub Apart : List DeferredWork → Type 0
Apart [] = Unit {0}
Apart (d ∷ ds) =
    (d.span.start < d.span.end)
    × (d.span.end < u64_max)
    × ((off : ℕ) → holds d.span off ≡ true → parked ds off ≡ false)
    × Apart ds

pub parked-append :
    (xs ys : List DeferredWork) (off : ℕ) → parked (xs ++ ys) off ≡ (parked xs off || parked ys off)
parked-append [] ys off = refl
parked-append (x ∷ xs) ys off = ground (arith, parked-append xs ys off)

-- Work that meets nothing deferred goes to the end of the list.
pub Apart-append_one :
    (ds : List DeferredWork) (d : DeferredWork)
    → Apart ds
    → d.span.start < d.span.end
    → d.span.end < u64_max
    → ((off : ℕ) → holds d.span off ≡ true → parked ds off ≡ false)
    → Apart (ds ++ d ∷ [])
Apart-append_one [] d a l h k = (l, h, (λ off e. refl), tt)
Apart-append_one (x ∷ xs) d a l h k = (
  a.0,
  a.1,
  (λ off e. ground (arith, parked-append xs (d ∷ []) off, a.2 off, k off)),
  Apart-append_one xs d a.3 l h λ off e. ground (arith, k off e),
)

module _ ⦃fl : Float⦄ ⦃sm : SlotMap (Assignment fl.F)⦄ where
  -- Does this entry hold the byte?
  abbrev pub span_holds : Option (Assignment fl.F) → ℕ → Bool
  span_holds none off = false
  span_holds (some a) off = holds a.span off

  -- Does the assignment under this key own the byte?
  abbrev pub owns : sm.Store → sm.Key → ℕ → Bool
  owns m k off = span_holds (sm.get m k) off

module _ ⦃fl : Float⦄ ⦃sm : SlotMap (Assignment fl.F)⦄ (law : IsLawful sm) where
  pub same_refl : (k : sm.Key) → sm.same k k ≡ true
  same_refl k = (law.same_iff k k).1 refl

  pub owns-push :
      (m : sm.Store) (a : Assignment fl.F) (k : sm.Key) (off : ℕ)
      → owns (sm.push m a).1 k off
        ≡ (if sm.same k (sm.push m a).0 then holds a.span off else owns m k off)
  owns-push m a k off =
      rw (law.get-push m a k)
        (elim (Bool-cases (sm.same k (sm.push m a).0)) [ inl e ↦ rw e | inr e ↦ rw e ])

  pub owns-fresh :
      (m : sm.Store) (a : Assignment fl.F) (off : ℕ) → owns m (sm.push m a).0 off ≡ false
  owns-fresh m a off = rw (law.get-fresh m a)

  -- A write that makes the entry's span `s`.
  pub owns-put :
      (m : sm.Store) (j k : sm.Key) (a b : Assignment fl.F) (off : ℕ)
      → sm.get m j ≡ some a
      → owns (sm.put m j b) k off ≡ (if sm.same k j then holds b.span off else owns m k off)
  owns-put m j k a b off h = rw (law.get-put m j k b) (elim (Bool-cases (sm.same k j)) [
    | inl e ↦ let q : sm.get m k ≡ some a = rw ((law.same_iff k j).0 e) h in rw (e, q)
    | inr e ↦ rw e
  ])

  pub owns-remove :
      (m : sm.Store) (j k : sm.Key) (off : ℕ)
      → owns (sm.remove m j) k off ≡ (if sm.same k j then false else owns m k off)
  owns-remove m j k off =
      rw (law.get-remove m j k) (elim (Bool-cases (sm.same k j)) [ inl e ↦ rw e | inr e ↦ rw e ])

  -- A write that keeps the span changes no ownership.
  pub owns-put_same :
      (m : sm.Store) (j k : sm.Key) (a b : Assignment fl.F) (off : ℕ)
      → sm.get m j ≡ some a
      → b.span ≡ a.span
      → owns (sm.put m j b) k off ≡ owns m k off
  owns-put_same m j k a b off h e = owns-put m j k a b off h ∙ elim (Bool-cases (sm.same k j)) [
    | inl s ↦
        let q : sm.get m k ≡ some a = rw ((law.same_iff k j).0 s) h in
        rw (s, q) (ap (λ (r : ByteRange). holds r off) e)
    | inr s ↦ rw s
  ]
