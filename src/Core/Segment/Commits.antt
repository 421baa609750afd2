-- ===== src/Core/Segment/Commits.antt =====
-- `on_destination_committed` of crates/xde/src/core/segment.rs: what a worker has committed.
use xde.Prelude.{ℕ, Bool, ◌<◌, ◌≡◌, ◌∙◌, ◌&&◌, ◌||◌, arith, u64_mod}
use xde.Core.Ranges
use xde.Core.Ranges.{ByteRange, holds}
use xde.Core.Ranges.Normal.{IsValid, covers}
use xde.Core.Ranges.Insert.{insert-IsValid, covers-insert}
use xde.Core.Units.{Float}
use xde.Core.SlotMap.{SlotMap}
use xde.Core.Segment.Plan.{Assignment}
use xde.Core.Segment.Progress.{inside, commit_range}

-- The part of a range that lies in the span.
holds-inside : (r s : ByteRange) (off : ℕ) → holds (inside r s) off ≡ (holds r off && holds s off)
unfolding inside Ranges.intersection
holds-inside r s off = ground arith

inside-end : (r s : ByteRange) → s.end < u64_mod → s.start < u64_mod → (inside r s).end < u64_mod
unfolding inside Ranges.intersection
inside-end r s l m = ground arith

swap : (a b : Bool) → (b || a) ≡ (a || b)
swap a b = ground arith

module _ ⦃fl : Float⦄ ⦃sm : SlotMap (Assignment fl.F)⦄ where
  commit_range-ranges :
      (r : ByteRange) (now : ℕ) (a : Assignment fl.F)
      → (commit_range r now a).committed_ranges ≡ Ranges.insert a.committed_ranges (inside r a.span)
  unfolding commit_range
  commit_range-ranges r now a = ground arith

  -- What is reported as committed counts as far as it lies in the span of the assignment, and the set
  -- of it stays valid.
  commit_range_lem :
      (r : ByteRange) (now : ℕ) (a : Assignment fl.F)
      → IsValid a.committed_ranges
      → a.span.end < u64_mod
      → a.span.start < u64_mod
      → IsValid (commit_range r now a).committed_ranges
        × ((off : ℕ)
            → covers (commit_range r now a).committed_ranges.ranges off
              ≡ (covers a.committed_ranges.ranges off || (holds r off && holds a.span off)))
  commit_range_lem r now a v l m = rw (commit_range-ranges r now a) (
    insert-IsValid a.committed_ranges (inside r a.span) v (inside-end r a.span l m),
    λ off.
        covers-insert a.committed_ranges (inside r a.span) off v
        ∙ rw (holds-inside r a.span off)
            (swap (covers a.committed_ranges.ranges off) (holds r off && holds a.span off)),
  )
