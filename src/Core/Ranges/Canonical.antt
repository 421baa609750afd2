-- ===== src/Core/Ranges/Canonical.antt =====
-- Range sets as sets of bytes: `from_ranges`, `union_with` and the serialized form of
-- crates/xde/src/core/ranges.rs.
use xde.Prelude.{
  ℕ, suc, ◌≤◌, ◌<◌, ◌≡◌, refl, sym, ap, ◌∙◌, Bool, ◌||◌, List, [], ◌∷◌, map, arith, u64_mod, lt→ltb,
  dec_lt,
}
use xde.Core.Ranges.{
  ByteRange, RangeSet, new, holds, insert, insert_all, from_ranges, union_with, serialize,
  deserialize, raw_ranges,
}
use xde.Core.Ranges.Normal.{Normal, covers, covers-below, IsValid, total_len}
use xde.Core.Ranges.Insert.{insert-IsValid, covers-insert}

-- Two sorted lists that cover the same bytes start alike.
same_start :
    (a b : ℕ) (x y : ByteRange) (xs ys : List ByteRange)
    → Normal a (x ∷ xs)
    → Normal b (y ∷ ys)
    → ((off : ℕ) → covers (x ∷ xs) off ≡ covers (y ∷ ys) off)
    → y.start ≤ x.start
same_start a b x y xs ys n m h = elim (dec_lt x.start y.start) [
  | yes l ↦ ground (arith, h x.start, covers-below (suc y.end) x.start ys m.3)
  | no l ↦ omega arith
]

same_end :
    (a b : ℕ) (x y : ByteRange) (xs ys : List ByteRange)
    → Normal a (x ∷ xs)
    → Normal b (y ∷ ys)
    → ((off : ℕ) → covers (x ∷ xs) off ≡ covers (y ∷ ys) off)
    → y.start ≤ x.start
    → y.end ≤ x.end
same_end a b x y xs ys n m h k = elim (dec_lt x.end y.end) [
  | yes l ↦ ground (arith, h x.end, covers-below (suc x.end) x.end xs n.3)
  | no l ↦ omega arith
]

range_eq : (x y : ByteRange) → x.start ≡ y.start → x.end ≡ y.end → x ≡ y
range_eq x y p q = λ i. record { start = p i; end = q i }

pub Normal-canonical :
    (a b : ℕ) (xs ys : List ByteRange)
    → Normal a xs
    → Normal b ys
    → ((off : ℕ) → covers xs off ≡ covers ys off)
    → xs ≡ ys
Normal-canonical a b [] [] n m h = refl
Normal-canonical a b [] (y ∷ ys) n m h = ground (arith, h y.start)
Normal-canonical a b (x ∷ xs) [] n m h = ground (arith, h x.start)
Normal-canonical a b (x ∷ xs) (y ∷ ys) n m h =
    let s = same_start a b x y xs ys n m h in
    let s' = same_start b a y x ys xs m n (λ off. sym (h off)) in
    let e = same_end a b x y xs ys n m h s in
    let e' = same_end b a y x ys xs m n (λ off. sym (h off)) s' in
    let tails = Normal-canonical (suc x.end) (suc y.end) xs ys n.3 m.3 λ off.
      ground
        (arith, h off, covers-below (suc x.end) off xs n.3, covers-below (suc y.end) off ys m.3) in
    cc (tails, range_eq x y (omega arith) (omega arith))

-- Valid sets that cover the same bytes are equal, counters included.
pub IsValid-canonical :
    (s t : RangeSet)
    → IsValid s
    → IsValid t
    → ((off : ℕ) → covers s.ranges off ≡ covers t.ranges off)
    → s ≡ t
IsValid-canonical s t v w h =
    let e = Normal-canonical 0 0 s.ranges t.ranges v.normal w.normal h in
    let c : s.covered ≡ t.covered = v.counted ∙ ap total_len e ∙ sym w.counted in
    λ i. record { ranges = e i; covered = c i }

-- All ends of a list of ranges are `u64` values.
abbrev pub Bounded : List ByteRange → Type 0
Bounded [] = Unit {0}
Bounded (r ∷ rs) = (r.end < u64_mod) × Bounded rs

pub Normal-Bounded : (lo : ℕ) (rs : List ByteRange) → Normal lo rs → Bounded rs
Normal-Bounded lo [] n = tt
Normal-Bounded lo (x ∷ xs) n = (n.2, Normal-Bounded (suc x.end) xs n.3)

pub new-IsValid : IsValid new
new-IsValid = record { normal = tt; counted = refl }

pub insert_all-IsValid :
    (s : RangeSet) (rs : List ByteRange) → IsValid s → Bounded rs → IsValid (insert_all s rs)
unfolding insert_all
insert_all-IsValid s [] v b = v
insert_all-IsValid s (r ∷ rs) v b =
    insert_all-IsValid (insert s r) rs (insert-IsValid s r v b.0) b.1

swap_or : (a b c : Bool) → (a || (b || c)) ≡ ((b || a) || c)
swap_or a b c = ground arith

pub covers-insert_all :
    (s : RangeSet) (rs : List ByteRange) (off : ℕ)
    → IsValid s
    → Bounded rs
    → covers (insert_all s rs).ranges off ≡ (covers rs off || covers s.ranges off)
unfolding insert_all
covers-insert_all s [] off v b = refl
covers-insert_all s (r ∷ rs) off v b =
    covers-insert_all (insert s r) rs off (insert-IsValid s r v b.0) b.1
    ∙ rw (covers-insert s r off v) (swap_or (covers rs off) (holds r off) (covers s.ranges off))

pub from_ranges-IsValid : (rs : List ByteRange) → Bounded rs → IsValid (from_ranges rs)
unfolding from_ranges
from_ranges-IsValid rs b = insert_all-IsValid new rs new-IsValid b

pub covers-from_ranges :
    (rs : List ByteRange) (off : ℕ)
    → Bounded rs
    → covers (from_ranges rs).ranges off ≡ covers rs off
unfolding from_ranges
covers-from_ranges rs off b = covers-insert_all new rs off new-IsValid b ∙ ground arith

-- Order, repetition and overlaps of the ranges do not matter: lists of ranges that end below 2^64 and
-- cover the same bytes build the same set.
pub from_ranges-eq_of_covers :
    (xs ys : List ByteRange)
    → Bounded xs
    → Bounded ys
    → ((off : ℕ) → covers xs off ≡ covers ys off)
    → from_ranges xs ≡ from_ranges ys
from_ranges-eq_of_covers xs ys b c h =
    IsValid-canonical (from_ranges xs) (from_ranges ys) (from_ranges-IsValid xs b)
      (from_ranges-IsValid ys c)
      λ off. covers-from_ranges xs off b ∙ h off ∙ sym (covers-from_ranges ys off c)

-- `union_with` of valid sets is valid and covers the union of their bytes.
pub union_with_lem :
    (s t : RangeSet)
    → IsValid s
    → IsValid t
    → IsValid (union_with s t)
      × ((off : ℕ)
          → covers (union_with s t).ranges off ≡ (covers t.ranges off || covers s.ranges off))
unfolding union_with
union_with_lem s t v w =
    let b = Normal-Bounded 0 t.ranges w.normal in
    (insert_all-IsValid s t.ranges v b, λ off. covers-insert_all s t.ranges off v b)

raw_ranges-map :
    (lo : ℕ) (rs : List ByteRange)
    → Normal lo rs
    → raw_ranges (map (λ (r : ByteRange). (r.start, r.end)) rs) ≡ rs
unfolding raw_ranges
raw_ranges-map lo [] n = refl
raw_ranges-map lo (x ∷ xs) n =
    rw (lt→ltb x.start x.end n.1) (ap (◌∷◌ x) (raw_ranges-map (suc x.end) xs n.3))

-- Reading back what was written of a valid set gives the same set.
pub deserialize-serialize : (s : RangeSet) → IsValid s → deserialize (serialize s) ≡ s
unfolding serialize deserialize
deserialize-serialize s v =
    let b = Normal-Bounded 0 s.ranges v.normal in
    rw (raw_ranges-map 0 s.ranges v.normal) (
      IsValid-canonical (from_ranges s.ranges) s (from_ranges-IsValid s.ranges b) v
        λ off. covers-from_ranges s.ranges off b)

-- The pairs of a journal that may have been tampered with.
abbrev pub RawBounded : List (ℕ × ℕ) → Type 0
RawBounded [] = Unit {0}
RawBounded (p ∷ raw) = (p.1 < u64_mod) × RawBounded raw

raw_ranges-Bounded : (raw : List (ℕ × ℕ)) → RawBounded raw → Bounded (raw_ranges raw)
unfolding raw_ranges
raw_ranges-Bounded [] b = tt
raw_ranges-Bounded ((s, e) ∷ raw) b = ground (arith, raw_ranges-Bounded raw b.1)

-- Whatever pairs of 64-bit numbers are read, the set is valid.
pub deserialize-IsValid : (raw : List (ℕ × ℕ)) → RawBounded raw → IsValid (deserialize raw)
unfolding deserialize
deserialize-IsValid raw b = from_ranges-IsValid (raw_ranges raw) (raw_ranges-Bounded raw b)
