-- ===== src/Core/Segment/Release.antt =====
-- Which bytes the plan gives back: the loops of `finish_verified` and `abandon` over the gaps of
-- `completed`, out of crates/xde/src/core/segment.rs.
use xde.Prelude.{
  ℕ, ◌<◌, ◌≡◌, ◌∙◌, Bool, false, not, ◌&&◌, ◌||◌, Option, none, some, List, [], ◌∷◌, arith, ◌==◌,
  u64_max, Bool-cases, inl, inr,
}
use xde.Core.Ranges
use xde.Core.Ranges.{ByteRange, RangeSet, range, holds, intersection}
use xde.Core.Ranges.Normal.{covers, IsValid}
use xde.Core.Ranges.Remove.{remove-IsValid, covers-remove}
use xde.Core.Ranges.Gaps.{gaps_lem}
use xde.Core.Ranges.Shape.{intersection_lem, held}
use xde.Core.Segment.Progress.{release_gaps, release_span}

-- One round of `release_gaps`.
abbrev give_up : Option ByteRange → RangeSet → RangeSet
give_up o c = elim o [ none ↦ c | some x ↦ Ranges.remove c x ]

give_up-IsValid : (o : Option ByteRange) (c : RangeSet) → IsValid c → IsValid (give_up o c)
give_up-IsValid none c v = v
give_up-IsValid (some x) c v = remove-IsValid c x v

give_up-covers :
    (o : Option ByteRange) (c : RangeSet) (off : ℕ)
    → IsValid c
    → covers (give_up o c).ranges off ≡ (covers c.ranges off && not (held o off))
give_up-covers none c off v = ground arith
give_up-covers (some x) c off v = covers-remove c x off v

abbrev release_one : ByteRange → ByteRange → RangeSet → RangeSet
release_one g span c = give_up (intersection g span) c

release_one-IsValid :
    (g span : ByteRange) (c : RangeSet) → IsValid c → IsValid (release_one g span c)
release_one-IsValid g span c v = give_up-IsValid (intersection g span) c v

release_one-covers :
    (g span : ByteRange) (c : RangeSet) (off : ℕ)
    → IsValid c
    → covers (release_one g span c).ranges off
      ≡ (covers c.ranges off && not (holds g off && holds span off))
release_one-covers g span c off v =
    rw (← (intersection_lem g span).0 off) (give_up-covers (intersection g span) c off v)

pub release_gaps-IsValid :
    (gs : List ByteRange) (span : ByteRange) (c : RangeSet)
    → IsValid c
    → IsValid (release_gaps gs span c)
unfolding release_gaps
release_gaps-IsValid [] span c v = v
release_gaps-IsValid (g ∷ gs) span c v =
    release_gaps-IsValid gs span (release_one g span c) (release_one-IsValid g span c v)

regroup : (c g s r : Bool) → ((c && not (g && s)) && not (r && s)) ≡ (c && not ((g || r) && s))
regroup c g s r = ground arith

release_gaps-covers :
    (gs : List ByteRange) (span : ByteRange) (c : RangeSet) (off : ℕ)
    → IsValid c
    → covers (release_gaps gs span c).ranges off
      ≡ (covers c.ranges off && not (covers gs off && holds span off))
unfolding release_gaps
release_gaps-covers [] span c off v = ground arith
release_gaps-covers (g ∷ gs) span c off v =
    release_gaps-covers gs span (release_one g span c) off (release_one-IsValid g span c v)
    ∙ rw (release_one-covers g span c off v)
        (regroup (covers c.ranges off) (holds g off) (holds span off) (covers gs off))

pub release_span-IsValid :
    (completed claimed : RangeSet) (span : ByteRange)
    → IsValid claimed
    → IsValid (release_span completed claimed span)
unfolding release_span
release_span-IsValid completed claimed span v = elim (Bool-cases (span.end == u64_max)) [
  | inl e ↦ rw e v
  | inr e ↦ rw e (release_gaps-IsValid (Ranges.gaps completed span.end) span claimed v)
]

-- Of a finite span, exactly the bytes that are not completed are released.
pub release_span-covers :
    (completed claimed : RangeSet) (span : ByteRange) (off : ℕ)
    → IsValid completed
    → IsValid claimed
    → span.end < u64_max
    → covers (release_span completed claimed span).ranges off
      ≡ (covers claimed.ranges off && not (holds span off && not (covers completed.ranges off)))
unfolding release_span
release_span-covers completed claimed span off v w h =
    let e : (span.end == u64_max) ≡ false = ground arith in
    rw
      (
        e,
        release_gaps-covers (Ranges.gaps completed span.end) span claimed off w,
        (gaps_lem completed span.end v (omega arith)).1 off,
      )
      (ground arith)
