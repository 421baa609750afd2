-- ===== src/Core/Ranges/Remove/Cut.antt =====
-- A reference for `RangeSet::remove` of crates/xde/src/core/ranges.rs: one walk over the ranges.
use xde.Prelude.{
  ℕ, suc, ◌≤◌, ◌<◌, ◌≡◌, refl, Bool, false, not, ◌&&◌, ◌||◌, List, [], ◌∷◌, ◌++◌, arith, ltb, leb,
  Bool-cases, inl, inr, leb→le, if◌then◌else◌,
}
use xde.Core.Ranges.{ByteRange, range, holds}
use xde.Core.Ranges.Normal.{Normal, covers, covers-append, covers-below, Normal-mono}

-- What is left of `x` before and behind `r`.
abbrev pub before : ByteRange → ByteRange → List ByteRange
before r x = if ltb x.start r.start then range x.start r.start ∷ [] else []

abbrev pub behind : ByteRange → ByteRange → List ByteRange
behind r x = if ltb r.end x.end then range r.end x.end ∷ [] else []

unfoldable pub cut : ByteRange → List ByteRange → List ByteRange
cut r [] = []
cut r (x ∷ xs) =
    let rest = cut r xs in
    if leb x.end r.start
    then x ∷ rest
    else if leb r.end x.start
    then x ∷ xs
    else before r x ++ (behind r x ++ rest)

pub cut-Normal :
    (lo : ℕ) (r : ByteRange) (rs : List ByteRange)
    → r.start < r.end
    → Normal lo rs
    → Normal lo (cut r rs)
unfolding cut
cut-Normal lo r [] h n = tt
cut-Normal lo r (x ∷ xs) h n =
    let m = cut-Normal (suc x.end) r xs h n.3 in
    ground (
      arith,
      m,
      Normal-mono (suc r.start) (suc x.end) (cut r xs),
      Normal-mono lo (suc x.end) (cut r xs),
    )

pieces-covers :
    (off : ℕ) (r x : ByteRange)
    → r.start < x.end
    → x.start < r.end
    → r.start < r.end
    → (covers (before r x) off || covers (behind r x) off) ≡ (holds x off && not (holds r off))
pieces-covers off r x h k l = ground arith

hit-covers :
    (off : ℕ) (r x : ByteRange) (rest : List ByteRange)
    → r.start < x.end
    → x.start < r.end
    → r.start < r.end
    → covers (before r x ++ (behind r x ++ rest)) off
      ≡ ((holds x off && not (holds r off)) || covers rest off)
hit-covers off r x rest h k l =
    rw
      (
        covers-append (before r x) (behind r x ++ rest) off,
        covers-append (behind r x) rest off,
        ← pieces-covers off r x h k l,
      )
      (regroup (covers (before r x) off) (covers (behind r x) off) (covers rest off))
  where
    regroup : (a b c : Bool) → (a || (b || c)) ≡ ((a || b) || c)
    regroup a b c = ground arith

-- Facts on the two tests at one offset, which the cases of `cut` put in.
apart_left :
    (off : ℕ) (r x : ByteRange) (c : Bool)
    → x.end ≤ r.start
    → (holds x off || (c && not (holds r off))) ≡ ((holds x off || c) && not (holds r off))
apart_left off r x c h = ground arith

apart_right :
    (off : ℕ) (r x : ByteRange) (c : Bool)
    → r.end ≤ x.start
    → (off < r.end → c ≡ false)
    → (holds x off || c) ≡ ((holds x off || c) && not (holds r off))
apart_right off r x c h k = ground arith

distribute : (a c h : Bool) → ((a && not h) || (c && not h)) ≡ ((a || c) && not h)
distribute a c h = ground arith

pub cut-covers :
    (lo off : ℕ) (r : ByteRange) (rs : List ByteRange)
    → r.start < r.end
    → Normal lo rs
    → covers (cut r rs) off ≡ (covers rs off && not (holds r off))
unfolding cut
cut-covers lo off r [] h n = refl
cut-covers lo off r (x ∷ xs) h n = elim (Bool-cases (leb x.end r.start)) [
  | inl p ↦
      rw (p, cut-covers (suc x.end) off r xs h n.3)
        (apart_left off r x (covers xs off) (leb→le x.end r.start p))
  | inr p ↦ elim (Bool-cases (leb r.end x.start)) [
    | inl q ↦
        rw (p, q)
          (apart_right off r x (covers xs off) (leb→le r.end x.start q)
            λ k. covers-below (suc x.end) off xs n.3 (ground arith))
    | inr q ↦
        rw
          (
            p,
            q,
            hit-covers off r x (cut r xs) (ground arith) (ground arith) h,
            cut-covers (suc x.end) off r xs h n.3,
          )
          (distribute (holds x off) (covers xs off) (holds r off))
  ]
]
