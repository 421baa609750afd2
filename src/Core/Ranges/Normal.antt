-- ===== src/Core/Ranges/Normal.antt =====
-- Sorted, disjoint, non-adjacent lists of ranges: the invariant of `RangeSet`, the bytes that a
-- list of ranges covers, and the exact (not wrapping) sum of its lengths.
use xde.Prelude.{
  ℕ, suc, ◌+◌, ◌-◌, ◌≤◌, ◌<◌, ◌≡◌, refl, Bool, false, ◌||◌, none, some, List, [], ◌∷◌, ◌++◌, arith,
  leb, u64_mod, u64_max, take, drop, slice, splice, get_or, zero, wadd, wadd-eq, wsub, wsub-eq,
  partition_point, get_elem?,
}
use xde.Core.Ranges.{ByteRange, RangeSet, len, holds, sum_len, contains}

-- Every range is non-empty, starts at `lo` or above, ends below 2^64, and leaves a byte free
-- before the next one.
abbrev pub Normal : ℕ → List ByteRange → Type 0
Normal lo [] = Unit {0}
Normal lo (x ∷ xs) = (lo ≤ x.start) × (x.start < x.end) × (x.end < u64_mod) × Normal (suc x.end) xs

-- The offsets that a list of ranges covers.
abbrev pub covers : List ByteRange → ℕ → Bool
covers [] off = false
covers (x ∷ xs) off = holds x off || covers xs off

abbrev pub total_len : List ByteRange → ℕ
total_len [] = 0
total_len (x ∷ xs) = (x.end - x.start) + total_len xs

pub record IsValid (s : RangeSet) : Type 0 where
  pub normal : Normal 0 s.ranges
  pub counted : s.covered ≡ total_len s.ranges

pub Normal-mono : (a b : ℕ) (rs : List ByteRange) → a ≤ b → Normal b rs → Normal a rs
Normal-mono a b [] h n = tt
Normal-mono a b (x ∷ xs) h n = (omega arith, n.1, n.2, n.3)

pub len-eq : (x : ByteRange) → x.start ≤ x.end → x.end < u64_mod → len x ≡ x.end - x.start
unfolding len
len-eq x h k = wsub-eq x.end x.start h k

pub total_len-bound : (lo : ℕ) (rs : List ByteRange) → Normal lo rs → total_len rs ≤ u64_max - lo
total_len-bound lo [] n = omega arith
total_len-bound lo (x ∷ xs) n = omega (arith, total_len-bound (suc x.end) xs n.3)

-- The wrapping sum is the exact one.
pub sum_len-eq : (lo : ℕ) (rs : List ByteRange) → Normal lo rs → sum_len rs ≡ total_len rs
unfolding sum_len
sum_len-eq lo [] n = refl
sum_len-eq lo (x ∷ xs) n =
    rw (sum_len-eq (suc x.end) xs n.3, len-eq x (omega arith) n.2)
      (wadd-eq _ _ (omega (arith, total_len-bound (suc x.end) xs n.3)))

-- No byte below the lower end is covered.
pub covers-below :
    (lo off : ℕ) (rs : List ByteRange) → Normal lo rs → off < lo → covers rs off ≡ false
covers-below lo off [] n h = refl
covers-below lo off (x ∷ xs) n h = ground (arith, covers-below (suc x.end) off xs n.3)

pub covers-append :
    (xs ys : List ByteRange) (off : ℕ) → covers (xs ++ ys) off ≡ (covers xs off || covers ys off)
covers-append [] ys off = refl
covers-append (x ∷ xs) ys off = ground (arith, covers-append xs ys off)

holds_at : List ByteRange → ℕ → ℕ → Bool
holds_at rs i off = elim (get_elem? rs i) [ none ↦ false | some x ↦ holds x off ]

holds_at-covers :
    (lo off : ℕ) (rs : List ByteRange)
    → Normal lo rs
    → holds_at rs (partition_point (λ x. leb x.end off) rs) off ≡ covers rs off
unfolding holds_at
holds_at-covers lo off [] n = refl
holds_at-covers lo off (x ∷ xs) n =
    ground (arith, holds_at-covers (suc x.end) off xs n.3, covers-below (suc x.end) off xs n.3)

-- On a valid set the binary search of `contains` finds exactly the covered bytes.
pub contains-eq-covers : (s : RangeSet) (off : ℕ) → IsValid s → contains s off ≡ covers s.ranges off
unfolding contains holds_at
contains-eq-covers s off v = holds_at-covers 0 off s.ranges v.normal

-- Sub-slices of a normal list are normal, and a splice changes the sum by what it takes and puts.
pub take-Normal : (lo k : ℕ) (rs : List ByteRange) → Normal lo rs → Normal lo (take k rs)
take-Normal lo zero rs n = tt
take-Normal lo (suc k) [] n = tt
take-Normal lo (suc k) (x ∷ xs) n = (n.0, n.1, n.2, take-Normal (suc x.end) k xs n.3)

pub slice-Normal : (lo i k : ℕ) (rs : List ByteRange) → Normal lo rs → Normal lo (slice i k rs)
slice-Normal lo zero k rs n = take-Normal lo k rs n
slice-Normal lo (suc i) k [] n = tt
slice-Normal lo (suc i) zero (x ∷ xs) n = tt
slice-Normal lo (suc i) (suc k) (x ∷ xs) n =
    Normal-mono lo (suc x.end) (slice i k xs) (omega arith) (slice-Normal (suc x.end) i k xs n.3)

pub total_len-append : (xs ys : List ByteRange) → total_len (xs ++ ys) ≡ total_len xs + total_len ys
total_len-append [] ys = omega arith
total_len-append (x ∷ xs) ys = omega (arith, total_len-append xs ys)

total_len-take-drop :
    (k : ℕ) (rs : List ByteRange) → total_len (take k rs) + total_len (drop k rs) ≡ total_len rs
total_len-take-drop zero rs = omega arith
total_len-take-drop (suc k) [] = omega arith
total_len-take-drop (suc k) (x ∷ xs) = omega (arith, total_len-take-drop k xs)

pub total_len-splice :
    (lo hi : ℕ) (with rs : List ByteRange)
    → lo ≤ hi
    → total_len (splice lo hi with rs) + total_len (slice lo hi rs) ≡ total_len rs + total_len with
total_len-splice zero hi with rs h =
    omega (arith, total_len-append with (drop hi rs), total_len-take-drop hi rs)
total_len-splice (suc lo) hi with [] h =
    elim hi as (λ hi. total_len (splice (suc lo) hi with []) + 0 ≡ 0 + total_len with) [
      | zero ↦ omega (arith, total_len-append with [])
      | suc k ↦ omega (arith, total_len-append with [])
    ]
total_len-splice (suc lo) zero with (x ∷ xs) h = absurd (omega arith)
total_len-splice (suc lo) (suc hi) with (x ∷ xs) h =
    omega (arith, total_len-splice lo hi with xs (omega arith))

pub get_or-bound :
    (lo i : ℕ) (d : ByteRange) (rs : List ByteRange)
    → Normal lo rs
    → d.end < u64_mod
    → (get_or rs i d).end < u64_mod
get_or-bound lo i d [] n h = h
get_or-bound lo zero d (x ∷ xs) n h = n.2
get_or-bound lo (suc i) d (x ∷ xs) n h = get_or-bound (suc x.end) i d xs n.3 h

pub slice_self : (i : ℕ) (rs : List ByteRange) → slice i i rs ≡ []
slice_self zero rs = refl
slice_self (suc i) [] = refl
slice_self (suc i) (x ∷ xs) = slice_self i xs

-- The counter of a set after a splice, in the wrapping arithmetic of the program.
pub covered-splice :
    (lo hi : ℕ) (with rs : List ByteRange)
    → lo ≤ hi
    → Normal 0 rs
    → Normal 0 (splice lo hi with rs)
    → wadd (wsub (total_len rs) (sum_len (slice lo hi rs))) (total_len with)
      ≡ total_len (splice lo hi with rs)
covered-splice lo hi with rs h n m =
    let e = total_len-splice lo hi with rs h in
    let d = total_len-splice lo hi [] rs h in
    let b = total_len-bound 0 rs n in
    let c = total_len-bound 0 (splice lo hi with rs) m in
    rw
      (
        sum_len-eq 0 (slice lo hi rs) (slice-Normal 0 lo hi rs n),
        wsub-eq (total_len rs) (total_len (slice lo hi rs)) (omega arith) (omega arith),
        wadd-eq (total_len rs - total_len (slice lo hi rs)) (total_len with) (omega arith),
      )
      (omega arith)

pub Normal-append_left : (lo : ℕ) (xs ys : List ByteRange) → Normal lo (xs ++ ys) → Normal lo xs
Normal-append_left lo [] ys n = tt
Normal-append_left lo (x ∷ xs) ys n = (n.0, n.1, n.2, Normal-append_left (suc x.end) xs ys n.3)

pub Normal-append_right : (lo : ℕ) (xs ys : List ByteRange) → Normal lo (xs ++ ys) → Normal 0 ys
Normal-append_right lo [] ys n = Normal-mono 0 lo ys (omega arith) n
Normal-append_right lo (x ∷ xs) ys n = Normal-append_right (suc x.end) xs ys n.3
