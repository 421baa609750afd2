-- ===== src/Core/Ranges/Gaps.antt =====
-- `RangeSet::first_gap` and `RangeSet::gaps` of crates/xde/src/core/ranges.rs against the offsets
-- that the set covers.
use xde.Prelude.{
  ℕ, suc, ◌+◌, ◌≤◌, ◌<◌, min, max, ◌≡◌, refl, true, false, not, ◌&&◌, List, [], ◌∷◌, arith, ltb,
  leb, u64_mod, inl, ◌⊎◌, Option, some, none, partition_point, get_elem?, le→leb, lt→ltb, leb-false,
  ltb-false, if◌then◌else◌, dec_lt,
}
use xde.Core.Ranges.{ByteRange, RangeSet, range, first_gap, gaps, gaps_loop}
use xde.Core.Ranges.Normal.{Normal, Normal-mono, covers, covers-below, IsValid}

-- What `first_gap` promises of its result on a set that covers `rs`.
abbrev pub IsFirstGap : List ByteRange → ℕ → ℕ → Option ByteRange → Type 0
IsFirstGap rs from limit none = (off : ℕ) → from ≤ off → off < limit → covers rs off ≡ true
IsFirstGap rs from limit (some g) =
    (from ≤ g.start)
    × (g.start < g.end)
    × (g.end ≤ limit)
    × ((off : ℕ) → from ≤ off → off < g.start → covers rs off ≡ true)
    × ((off : ℕ) → g.start ≤ off → off < g.end → covers rs off ≡ false)
    × ((g.end ≡ limit) ⊎ (covers rs g.end ≡ true))

gap_between : Option ByteRange → Option ByteRange → ℕ → ℕ → Option ByteRange
gap_between at next from limit = elim at [
  | none ↦ some (range from limit)
  | some cur ↦
      if ltb from cur.start
      then some (range from (min cur.start limit))
      else if leb limit cur.end
      then none
      else let next_start : ℕ = elim next [ none ↦ limit | some n ↦ min n.start limit ] in
        some (range cur.end next_start)
]

gap_at : ℕ → List ByteRange → ℕ → ℕ → Option ByteRange
gap_at i rs = gap_between (get_elem? rs i) (get_elem? rs (i + 1))

gap_from : List ByteRange → ℕ → ℕ → Option ByteRange
gap_from rs from limit = gap_at (partition_point (λ x. leb x.end from) rs) rs from limit

gap_at-suc :
    (i : ℕ) (x : ByteRange) (xs : List ByteRange) (from limit : ℕ)
    → gap_at (suc i) (x ∷ xs) from limit ≡ gap_at i xs from limit
unfolding gap_at
gap_at-suc i x xs from limit = let e : suc i + 1 ≡ suc (i + 1) = omega arith in rw e

gap_from-skip :
    (x : ByteRange) (xs : List ByteRange) (from limit : ℕ)
    → x.end ≤ from
    → gap_from (x ∷ xs) from limit ≡ gap_from xs from limit
unfolding gap_from
gap_from-skip x xs from limit h = rw (le→leb x.end from h) (gap_at-suc _ x xs from limit)

IsFirstGap-skip :
    (x : ByteRange) (xs : List ByteRange) (from limit : ℕ) (o : Option ByteRange)
    → x.end ≤ from
    → IsFirstGap xs from limit o
    → IsFirstGap (x ∷ xs) from limit o
IsFirstGap-skip x xs from limit none h g = λ off a b. ground (arith, g off a b)
IsFirstGap-skip x xs from limit (some r) h g = (
  g.0,
  g.1,
  g.2,
  (λ off a b. ground (arith, g.3 off a b)),
  (λ off a b. ground (arith, g.4 off a b)),
  ground (arith, g.5),
)

-- The gap that starts where `x` ends: it reaches to the next range or to the limit.
abbrev next_start : List ByteRange → ℕ → ℕ
next_start [] limit = limit
next_start (y ∷ ys) limit = min y.start limit

gap_from-stop :
    (x : ByteRange) (xs : List ByteRange) (from limit : ℕ)
    → from < x.end
    → gap_from (x ∷ xs) from limit ≡ (
        if ltb from x.start
        then some (range from (min x.start limit))
        else if leb limit x.end
        then none
        else some (range x.end (next_start xs limit)))
unfolding gap_from
gap_from-stop x [] from limit h = rw (leb-false x.end from h) (unfold gap_at gap_between in refl)
gap_from-stop x (y ∷ ys) from limit h =
    rw (leb-false x.end from h) (unfold gap_at gap_between in refl)

next_gap-IsFirstGap :
    (x : ByteRange) (xs : List ByteRange) (from limit : ℕ)
    → x.start ≤ from
    → from < x.end
    → x.end < limit
    → Normal (suc x.end) xs
    → IsFirstGap (x ∷ xs) from limit (some (range x.end (next_start xs limit)))
next_gap-IsFirstGap x [] from limit a b c n =
    (omega arith, c, omega arith, (λ off h k. ground arith), (λ off h k. ground arith), inl refl)
next_gap-IsFirstGap x (y ∷ ys) from limit a b c n = (
  omega arith,
  omega arith,
  omega arith,
  (λ off h k. ground arith),
  (λ off h k. ground (arith, covers-below (suc y.end) off ys n.3)),
  ground arith,
)

first-IsFirstGap :
    (x : ByteRange) (xs : List ByteRange) (from limit : ℕ)
    → from < x.start
    → from < limit
    → x.start < x.end
    → Normal (suc x.end) xs
    → IsFirstGap (x ∷ xs) from limit (some (range from (min x.start limit)))
first-IsFirstGap x xs from limit a b c n = (
  omega arith,
  omega arith,
  omega arith,
  (λ off h k. absurd (omega arith)),
  (λ off h k. ground (arith, covers-below (suc x.end) off xs n)),
  ground arith,
)

gap_from-IsFirstGap :
    (lo : ℕ) (rs : List ByteRange) (from limit : ℕ)
    → Normal lo rs
    → from < limit
    → IsFirstGap rs from limit (gap_from rs from limit)
gap_from-IsFirstGap lo [] from limit n l =
    unfold gap_from gap_at gap_between in
    (omega arith, l, omega arith, (λ off a b. absurd (omega arith)), (λ off a b. refl), inl refl)
gap_from-IsFirstGap lo (x ∷ xs) from limit n l = elim (dec_lt from x.end) [
  | yes h ↦ rw (gap_from-stop x xs from limit h) (elim (dec_lt from x.start) [
    | yes k ↦ rw (lt→ltb from x.start k) (first-IsFirstGap x xs from limit k l n.1 n.3)
    | no k ↦ elim (dec_lt x.end limit) [
      | yes j ↦
          rw (ltb-false from x.start (omega arith), leb-false limit x.end j)
            (next_gap-IsFirstGap x xs from limit (omega arith) h j n.3)
      | no j ↦
          rw (ltb-false from x.start (omega arith), le→leb limit x.end (omega arith))
            λ off a b. ground arith
    ]
  ])
  | no h ↦ rw (gap_from-skip x xs from limit (omega arith)) (
      IsFirstGap-skip x xs from limit _ (omega arith)
        (gap_from-IsFirstGap (suc x.end) xs from limit n.3 l))
]

-- On a valid set `first_gap` returns the first maximal gap below the limit from the given byte on,
-- and `none` only if there is no gap.
pub first_gap-IsFirstGap :
    (s : RangeSet) (from limit : ℕ)
    → IsValid s
    → IsFirstGap s.ranges from limit (first_gap s from limit)
unfolding first_gap gap_from gap_at gap_between
first_gap-IsFirstGap s from limit v = elim (dec_lt from limit) [
  | yes l ↦ rw (leb-false limit from l) (gap_from-IsFirstGap 0 s.ranges from limit v.normal l)
  | no l ↦ rw (le→leb limit from (omega arith)) λ off a b. absurd (omega arith)
]

gaps_loop-Normal :
    (lo cur limit : ℕ) (rs : List ByteRange)
    → Normal lo rs
    → cur ≤ lo
    → limit < u64_mod
    → Normal cur (gaps_loop limit cur rs)
unfolding gaps_loop
gaps_loop-Normal lo cur limit [] n h k = ground arith
gaps_loop-Normal lo cur limit (x ∷ xs) n h k = ground (
  arith,
  gaps_loop-Normal (suc x.end) (max cur x.end) limit xs n.3,
  Normal-mono cur (max cur x.end) (gaps_loop limit (max cur x.end) xs),
  Normal-mono (suc x.start) (max cur x.end) (gaps_loop limit (max cur x.end) xs),
)

gaps_loop-covers :
    (lo cur limit off : ℕ) (rs : List ByteRange)
    → Normal lo rs
    → cur ≤ lo
    → covers (gaps_loop limit cur rs) off ≡ (leb cur off && (ltb off limit && not (covers rs off)))
unfolding gaps_loop
gaps_loop-covers lo cur limit off [] n h = ground arith
gaps_loop-covers lo cur limit off (x ∷ xs) n h = ground (
  arith,
  gaps_loop-covers (suc x.end) (max cur x.end) limit off xs n.3,
  covers-below (suc x.end) off xs n.3,
)

-- For a valid set and a limit below 2^64, `gaps` is normalized, and covers exactly the bytes below the
-- limit that the set leaves out.
pub gaps_lem :
    (s : RangeSet) (limit : ℕ)
    → IsValid s
    → limit < u64_mod
    → Normal 0 (gaps s limit)
      × ((off : ℕ) → covers (gaps s limit) off ≡ (ltb off limit && not (covers s.ranges off)))
unfolding gaps
gaps_lem s limit v h = (
  gaps_loop-Normal 0 0 limit s.ranges v.normal (omega arith) h,
  λ off. ground (arith, gaps_loop-covers 0 0 limit off s.ranges v.normal),
)
