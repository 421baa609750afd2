-- ===== src/Core/Segment/Ownership.antt =====
-- The ownership invariant of a segment plan, byte by byte. The child modules are about the elementary
-- changes of a plan, and the operations of crates/xde/src/core/segment.rs made of them.
pub mod Assign
pub mod Bytes
pub mod Defer
pub mod Steps
pub mod Ends
pub mod Cuts
pub mod Claims
pub mod Handout
pub mod Runs
pub mod Attempts
pub mod Search
pub mod Frontier
use xde.Prelude.{
  ℕ, ◌+◌, ◌≤◌, ◌<◌, ◌≡◌, refl, sym, ◌∙◌, ap, Bool, true, false, not, ◌&&◌, ◌||◌, Option, none, some,
  List, [], ◌∷◌, ◌++◌, arith, ltb, leb, Bool-cases, inl, inr, ◌⊎◌, if◌then◌else◌, u64_max,
}
use xde.Core.Ranges.{ByteRange, RangeSet, range, holds}
use xde.Core.Ranges.Normal.{covers, IsValid}
use xde.Core.Units.{Float}
use xde.Core.SlotMap.{SlotMap, IsLawful}
use xde.Core.Segment.Plan.{Assignment, SegmentPlan, DeferredWork, Plan}
use xde.Core.Segment.Owners.{
  parked, Apart, owns, owns-push, owns-fresh, owns-put, owns-remove, same_refl, parked-append,
  Apart-append_one,
}

module _ ⦃fl : Float⦄ ⦃sm : SlotMap (Assignment fl.F)⦄ where
  -- A span has its ends in order and lies in the artifact.
  abbrev pub Fits : ℕ → Option (Assignment fl.F) → Type 0
  Fits total none = Unit {0}
  Fits total (some a) = (a.span.start ≤ a.span.end) × (a.span.end ≤ total)

  -- The parts of a plan that ownership is about.
  pub record View : Type 0 where
    pub completed : RangeSet
    pub claimed : RangeSet
    pub assignments : sm.Store
    pub deferred : List DeferredWork

  -- Every claimed byte lies below `total` and is completed, owned by one assignment or deferred; what
  -- is completed, owned or deferred is claimed; no byte has two owners; and what is deferred is
  -- neither owned nor completed. The bytes of `free` may be claimed for none of these reasons.
  pub record Owned (total : ℕ) (free : ℕ → Bool) (v : View) : Type 0 where
    pub small : total < u64_max
    pub completed_valid : IsValid v.completed
    pub claimed_valid : IsValid v.claimed
    pub completed_claimed :
        (off : ℕ) → covers v.completed.ranges off ≡ true → covers v.claimed.ranges off ≡ true
    pub owned_claimed :
        (k : sm.Key) (off : ℕ)
        → owns v.assignments k off ≡ true
        → covers v.claimed.ranges off ≡ true
    pub parked_claimed :
        (off : ℕ) → parked v.deferred off ≡ true → covers v.claimed.ranges off ≡ true
    pub exclusive :
        (j k : sm.Key) (off : ℕ)
        → owns v.assignments j off ≡ true
        → owns v.assignments k off ≡ true
        → sm.same j k ≡ true
    pub parked_free :
        (k : sm.Key) (off : ℕ) → owns v.assignments k off ≡ true → parked v.deferred off ≡ false
    pub parked_missing :
        (off : ℕ) → covers v.completed.ranges off ≡ true → parked v.deferred off ≡ false
    pub apart : Apart v.deferred
    pub bounded : (off : ℕ) → covers v.claimed.ranges off ≡ true → off < total
    pub finite : (k : sm.Key) → Fits total (sm.get v.assignments k)
    pub no_leak :
        (off : ℕ)
        → covers v.claimed.ranges off ≡ true
        → (covers v.completed.ranges off ≡ true)
          ⊎ ((k : sm.Key) × (owns v.assignments k off ≡ true))
          ⊎ (parked v.deferred off ≡ true)
          ⊎ (free off ≡ true)
    pub free_unowned : (k : sm.Key) (off : ℕ) → free off ≡ true → owns v.assignments k off ≡ false
    pub free_unparked : (off : ℕ) → free off ≡ true → parked v.deferred off ≡ false

abbrev pub nothing : ℕ → Bool
nothing off = false

module _ ⦃fl : Float⦄ ⦃sm : SlotMap (Assignment fl.F)⦄ (law : IsLawful sm) where
  pub owner_holds :
      (m : sm.Store) (j k : sm.Key) (a : Assignment fl.F) (off : ℕ)
      → sm.get m j ≡ some a
      → sm.same k j ≡ true
      → owns m k off ≡ true
      → holds a.span off ≡ true
  owner_holds m j k a off h s e =
      let q : sm.get m k ≡ some a = rw ((law.same_iff k j).0 s) h in rw q at e

  pub holder_owns :
      (m : sm.Store) (j : sm.Key) (a : Assignment fl.F) (off : ℕ)
      → sm.get m j ≡ some a
      → holds a.span off ≡ true
      → owns m j off ≡ true
  holder_owns m j a off h e = rw h e

  -- Nobody else owns the bytes of an assignment.
  pub others_apart :
      (total : ℕ) (free : ℕ → Bool) (v : View) (j k : sm.Key) (a : Assignment fl.F) (off : ℕ)
      → Owned total free v
      → sm.get v.assignments j ≡ some a
      → sm.same k j ≡ false
      → holds a.span off ≡ true
      → owns v.assignments k off ≡ false
  others_apart total free v j k a off o h s e = elim (Bool-cases (owns v.assignments k off)) [
    | inl x ↦ cc (o.exclusive k j off x (holder_owns v.assignments j a off h e))
    | inr x ↦ x
  ]
