-- ===== src/Core/Ranges/Examples.antt =====
-- Range sets at concrete values, and the theorems about them applied there.
use xde.Prelude.{ℕ, ◌≡◌, refl, not, ◌&&◌, ◌||◌, [], ◌∷◌, arith, wadd, wsub}
use xde.Core.Ranges.{
  ByteRange, RangeSet, range, holds, insert, remove, first_gap, gaps, serialize, deserialize,
  from_ranges,
}
use xde.Core.Ranges.Edits.{insert_lem, remove_lem}
use xde.Core.Ranges.Normal.{covers, IsValid}
use xde.Core.Ranges.Gaps.{IsFirstGap, first_gap-IsFirstGap}
use xde.Core.Ranges.Canonical.{from_ranges-eq_of_covers, deserialize-serialize}

abbrev two : RangeSet
two = record { ranges = range 2 5 ∷ range 8 10 ∷ []; covered = 5 }

abbrev bridge : ByteRange
bridge = range 4 9

-- The insertion joins the ranges that the new one meets.
insert_test : insert two bridge ≡ record { ranges = range 2 10 ∷ []; covered = 8 }
unfolding insert wadd wsub
insert_test = refl

-- Adjacent ranges are joined, too.
insert_adjacent_test : insert two (range 5 8) ≡ record { ranges = range 2 10 ∷ []; covered = 8 }
unfolding insert wadd wsub
insert_adjacent_test = refl

-- The removal cuts the ranges that it meets.
remove_test : remove two bridge ≡ record { ranges = range 2 4 ∷ range 9 10 ∷ []; covered = 3 }
unfolding remove wadd wsub
remove_test = refl

gaps_test : gaps two 12 ≡ range 0 2 ∷ range 5 8 ∷ range 10 12 ∷ []
unfolding gaps
gaps_test = refl

pub two-IsValid : IsValid two
two-IsValid = record {
  normal = (omega arith, omega arith, omega arith, (omega arith, omega arith, omega arith, tt));
  counted = refl;
}

abbrev filled : RangeSet
filled = record { ranges = range 0 10 ∷ []; covered = 10 }

filled-IsValid : IsValid filled
filled-IsValid = record { normal = (omega arith, omega arith, omega arith, tt); counted = refl }

first_gap_example : IsFirstGap two.ranges 3 12 (first_gap two 3 12)
first_gap_example = first_gap-IsFirstGap two 3 12 two-IsValid

-- The same bytes, out of order and overlapping.
from_ranges_example :
    from_ranges (range 5 8 ∷ range 0 6 ∷ range 1 2 ∷ []) ≡ from_ranges (range 0 8 ∷ [])
from_ranges_example =
    from_ranges-eq_of_covers (range 5 8 ∷ range 0 6 ∷ range 1 2 ∷ []) (range 0 8 ∷ [])
      (omega arith, (omega arith, (omega arith, tt))) (omega arith, tt) λ off. ground arith

deserialize-serialize_example : deserialize (serialize two) ≡ two
deserialize-serialize_example = deserialize-serialize two two-IsValid

insert_lem_example :
    IsValid (insert two bridge)
    × ((off : ℕ)
        → covers (insert two bridge).ranges off ≡ (holds bridge off || covers two.ranges off))
insert_lem_example = insert_lem two bridge two-IsValid (omega arith)

remove_lem_example :
    IsValid (remove two bridge)
    × ((off : ℕ)
        → covers (remove two bridge).ranges off ≡ (covers two.ranges off && not (holds bridge off)))
remove_lem_example = remove_lem two bridge two-IsValid
