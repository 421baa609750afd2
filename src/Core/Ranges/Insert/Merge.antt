-- ===== src/Core/Ranges/Insert/Merge.antt =====
-- A reference for `RangeSet::insert` of crates/xde/src/core/ranges.rs: one walk over the ranges,
-- without indices.
use xde.Prelude.{
  ℕ, suc, ◌≤◌, ◌<◌, min, max, ◌≡◌, refl, ◌||◌, List, [], ◌∷◌, arith, ltb, leb, u64_mod,
  if◌then◌else◌,
}
use xde.Core.Ranges.{ByteRange, range, holds}
use xde.Core.Ranges.Normal.{Normal, covers}

-- The reference: one walk over the ranges, without indices. From the first range that `r` touches
-- on, ranges are swallowed while they start at or before the end so far.
unfoldable pub absorb : ℕ → ℕ → List ByteRange → List ByteRange
absorb s e [] = range s e ∷ []
absorb s e (x ∷ xs) =
    let rest = absorb s (max e x.end) xs in if leb x.start e then rest else range s e ∷ x ∷ xs

unfoldable pub merge_in : ByteRange → List ByteRange → List ByteRange
unfolding absorb
merge_in r [] = r ∷ []
merge_in r (x ∷ xs) =
    let rest = merge_in r xs in
    if ltb x.end r.start
    then x ∷ rest
    else if ltb r.end x.start
    then r ∷ x ∷ xs
    else absorb (min r.start x.start) (max r.end x.end) xs

absorb-Normal :
    (lo s e b : ℕ) (rs : List ByteRange)
    → lo ≤ s
    → s < e
    → e < u64_mod
    → s ≤ b
    → Normal b rs
    → Normal lo (absorb s e rs)
unfolding absorb
absorb-Normal lo s e b [] h k l m n = (h, k, l, tt)
absorb-Normal lo s e b (x ∷ xs) h k l m n =
    ground (arith, absorb-Normal lo s (max e x.end) (suc x.end) xs)

pub merge_in-Normal :
    (lo : ℕ) (r : ByteRange) (rs : List ByteRange)
    → lo ≤ r.start
    → r.start < r.end
    → r.end < u64_mod
    → Normal lo rs
    → Normal lo (merge_in r rs)
unfolding merge_in
merge_in-Normal lo r [] h k l n = (h, k, l, tt)
merge_in-Normal lo r (x ∷ xs) h k l n = ground (
  arith,
  merge_in-Normal (suc x.end) r xs,
  absorb-Normal lo (min r.start x.start) (max r.end x.end) (suc x.end) xs,
)

absorb-covers :
    (s e b off : ℕ) (rs : List ByteRange)
    → s < e
    → s ≤ b
    → Normal b rs
    → covers (absorb s e rs) off ≡ (holds (range s e) off || covers rs off)
unfolding absorb
absorb-covers s e b off [] h k n = refl
absorb-covers s e b off (x ∷ xs) h k n =
    ground (arith, absorb-covers s (max e x.end) (suc x.end) off xs)

pub merge_in-covers :
    (lo off : ℕ) (r : ByteRange) (rs : List ByteRange)
    → r.start < r.end
    → Normal lo rs
    → covers (merge_in r rs) off ≡ (holds r off || covers rs off)
unfolding merge_in
merge_in-covers lo off r [] k n = refl
merge_in-covers lo off r (x ∷ xs) k n = ground (
  arith,
  merge_in-covers (suc x.end) off r xs,
  absorb-covers (min r.start x.start) (max r.end x.end) (suc x.end) off xs,
)
