-- ===== src/Core/Ranges.antt =====
-- crates/xde/src/core/ranges.rs: half-open byte ranges and normalized sets of them.
pub mod Normal
pub mod Insert
pub mod Remove
pub mod Edits
pub mod Contains
pub mod Gaps
pub mod Canonical
pub mod Shape
pub mod Examples
use xde.Prelude.{
  ℕ, ◌+◌, ◌-◌, min, max, Bool, true, false, not, ◌&&◌, ◌||◌, Option, none, some, List, [], ◌∷◌,
  ◌++◌, map, ltb, leb, ◌==◌, if◌then◌else◌, get_elem?, get_or, slice, splice, partition_point,
  clamp, ◌>>=◌, is_nil, wadd, wsub,
}

-- `struct ByteRange`.
pub record ByteRange : Type 0 where
  pub start : ℕ
  pub end : ℕ

abbrev pub range : ℕ → ℕ → ByteRange
range s e = record { start = s; end = e }

-- `ByteRange::at`.
unfoldable pub at : ℕ → ℕ → ByteRange
unfolding wadd
at s n = range s (wadd s n)

unfoldable pub len : ByteRange → ℕ
len r = wsub r.end r.start

abbrev pub is_empty : ByteRange → Bool
is_empty r = leb r.end r.start

abbrev pub holds : ByteRange → ℕ → Bool
holds r off = leb r.start off && ltb off r.end

abbrev pub intersects : ByteRange → ByteRange → Bool
intersects r o = ltb r.start o.end && ltb o.start r.end

unfoldable pub intersection : ByteRange → ByteRange → Option ByteRange
intersection r o =
    let s = max r.start o.start in
    let e = min r.end o.end in if ltb s e then some (range s e) else none

-- `at.clamp(self.start, self.end)` panics on a range with its ends out of order.
unfoldable pub split_at : ByteRange → ℕ → Option (ByteRange × ByteRange)
unfolding clamp
split_at r at = do cut ← clamp at r.start r.end; some (range r.start cut, range cut r.end)

unfoldable pub truncated_to : ByteRange → ℕ → ByteRange
truncated_to r n = range r.start (min r.end (wadd r.start n))

-- `struct RangeSet`.
pub record RangeSet : Type 0 where
  pub ranges : List ByteRange
  pub covered : ℕ

abbrev pub new : RangeSet
new = record { ranges = []; covered = 0 }

-- `iter().map(|x| x.len()).sum()`.
unfoldable pub sum_len : List ByteRange → ℕ
unfolding len
sum_len [] = 0
sum_len (x ∷ xs) = wadd (len x) (sum_len xs)

unfoldable pub covered_len : RangeSet → ℕ
covered_len s = s.covered

unfoldable pub clear : RangeSet → RangeSet
clear s = record s { ranges = []; covered = 0 }

-- `RangeSet::insert`: merge with every range that overlaps or touches `r`.
unfoldable pub insert : RangeSet → ByteRange → RangeSet
unfolding len sum_len
insert s r =
    if is_empty r
    then s
    else let lo = partition_point (λ x. ltb x.end r.start) s.ranges in
      let hi = partition_point (λ x. leb x.start r.end) s.ranges in
      if lo == hi
      then record { ranges = splice lo lo (r ∷ []) s.ranges; covered = wadd s.covered (len r) }
      else let removed = sum_len (slice lo hi s.ranges) in
        let merged =
          range (min r.start (get_or s.ranges lo r).start)
            (max r.end (get_or s.ranges (hi - 1) r).end) in
        record {
          ranges = splice lo hi (merged ∷ []) s.ranges;
          covered = wadd (wsub s.covered removed) (len merged);
        }

-- `RangeSet::remove`. The two pieces that survive are those of the first and last range hit.
unfoldable pub remove : RangeSet → ByteRange → RangeSet
unfolding len sum_len
remove s r =
    if is_empty r || is_nil s.ranges
    then s
    else let lo = partition_point (λ x. leb x.end r.start) s.ranges in
      let hi = partition_point (λ x. ltb x.start r.end) s.ranges in
      if leb hi lo
      then s
      else let removed = sum_len (slice lo hi s.ranges) in
        let first = get_or s.ranges lo r in
        let last = get_or s.ranges (hi - 1) r in
        let replacement =
          (if ltb first.start r.start then range first.start r.start ∷ [] else [])
          ++ (if ltb r.end last.end then range r.end last.end ∷ [] else []) in
        record {
          ranges = splice lo hi replacement s.ranges;
          covered = wadd (wsub s.covered removed) (sum_len replacement);
        }

-- `RangeSet::contains`: a binary search and one comparison.
unfoldable pub contains : RangeSet → ℕ → Bool
contains s off =
    let i = partition_point (λ x. leb x.end off) s.ranges in
    elim (get_elem? s.ranges i) [ none ↦ false | some x ↦ holds x off ]

unfoldable pub contains_range : RangeSet → ByteRange → Bool
contains_range s r =
    if is_empty r
    then true
    else let i = partition_point (λ x. leb x.end r.start) s.ranges in
      elim (get_elem? s.ranges i) [ none ↦ false | some x ↦ leb x.start r.start && leb r.end x.end ]

-- `first_gap`: the first uncovered span at or after `from`, bounded by `limit`.
unfoldable pub first_gap : RangeSet → ℕ → ℕ → Option ByteRange
first_gap s from limit =
    if leb limit from
    then none
    else let i = partition_point (λ x. leb x.end from) s.ranges in
      elim (get_elem? s.ranges i) [
        | none ↦ some (range from limit)
        | some cur ↦
            if ltb from cur.start
            then some (range from (min cur.start limit))
            else if leb limit cur.end
            then none
            else let next_start : ℕ = elim (get_elem? s.ranges (i + 1)) [
              | none ↦ limit
              | some n ↦ min n.start limit
            ] in
              some (range cur.end next_start)
      ]

-- The loop of `gaps` over the ranges that are left, from the cursor `cur`.
unfoldable pub gaps_loop : ℕ → ℕ → List ByteRange → List ByteRange
gaps_loop limit cur [] = if ltb cur limit then range cur limit ∷ [] else []
gaps_loop limit cur (r ∷ rs) =
    let rest = gaps_loop limit (max cur r.end) rs in
    if leb limit r.start
    then (if ltb cur limit then range cur limit ∷ [] else [])
    else if ltb cur r.start
    then range cur (min r.start limit) ∷ rest
    else rest

unfoldable pub gaps : RangeSet → ℕ → List ByteRange
unfolding gaps_loop
gaps s limit = gaps_loop limit 0 s.ranges

complete_ranges : List ByteRange → ℕ → Bool
complete_ranges [] total = total == 0
complete_ranges (only ∷ []) total = only.start == 0 && leb total only.end
complete_ranges (_ ∷ _ ∷ _) total = false

unfoldable pub is_complete : RangeSet → ℕ → Bool
unfolding complete_ranges
is_complete s total = complete_ranges s.ranges total

prefix_of : List ByteRange → ℕ
prefix_of [] = 0
prefix_of (r ∷ _) = if r.start == 0 then r.end else 0

unfoldable pub contiguous_prefix : RangeSet → ℕ
unfolding prefix_of
contiguous_prefix s = prefix_of s.ranges

-- The loop of `from_ranges` and of `union_with`.
unfoldable pub insert_all : RangeSet → List ByteRange → RangeSet
unfolding insert
insert_all s [] = s
insert_all s (r ∷ rs) = insert_all (insert s r) rs

unfoldable pub from_ranges : List ByteRange → RangeSet
unfolding insert_all
from_ranges rs = insert_all new rs

unfoldable pub union_with : RangeSet → RangeSet → RangeSet
unfolding insert_all
union_with s other = insert_all s other.ranges

-- `serialize` and `deserialize`, up to the pairs that serde reads and writes.
unfoldable pub serialize : RangeSet → List (ℕ × ℕ)
serialize s = map (λ r. (r.start, r.end)) s.ranges

raw_ranges : List (ℕ × ℕ) → List ByteRange
raw_ranges [] = []
raw_ranges ((s, e) ∷ raw) = let rest = raw_ranges raw in if ltb s e then range s e ∷ rest else rest

unfoldable pub deserialize : List (ℕ × ℕ) → RangeSet
unfolding raw_ranges from_ranges
deserialize raw = from_ranges (raw_ranges raw)

-- `assert_normalized`, as the test that its assertions make; `prev` is the range before.
normalized_from : Option ByteRange → List ByteRange → Bool
normalized_from prev [] = true
normalized_from prev (r ∷ rs) =
    not (is_empty r)
    && elim prev [ none ↦ true | some p ↦ ltb p.end r.start ]
    && normalized_from (some r) rs

unfoldable pub assert_normalized : RangeSet → Bool
unfolding normalized_from sum_len
assert_normalized s = normalized_from none s.ranges && sum_len s.ranges == s.covered
