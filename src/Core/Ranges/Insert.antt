-- ===== src/Core/Ranges/Insert.antt =====
-- `RangeSet::insert` of crates/xde/src/core/ranges.rs, which splices a vector between two binary
-- searches: it computes the reference walk of `Insert/Merge`.
mod Merge
use xde.Prelude.{
  ℕ, suc, zero, ◌+◌, ◌-◌, ◌≤◌, ◌<◌, min, max, ◌≡◌, refl, sym, ap, ◌∙◌, true, false, ◌||◌, List, [],
  ◌∷◌, arith, ltb, leb, ◌==◌, u64_mod, wadd, wsub, wadd-eq, Bool-cases, inl, inr, partition_point,
  get_or, drop, leb→le, le→leb, leb-false, ltb-false, ltb→lt, slice, splice, if◌then◌else◌, dec_lt,
}
use xde.Core.Ranges.{ByteRange, RangeSet, range, len, holds, sum_len, insert}
use xde.Core.Ranges.Normal.{
  Normal, covers, total_len, IsValid, len-eq, total_len-bound, total_len-splice, slice_self,
  get_or-bound, covered-splice,
}
use xde.Core.Ranges.Insert.Merge.{absorb, merge_in, merge_in-Normal, merge_in-covers}

-- Where the window of ranges that `r` touches ends, and what the binary searches make of it.
absorb-splice :
    (r x : ByteRange) (s e : ℕ) (xs : List ByteRange)
    → Normal (suc x.end) xs
    → absorb s (max e x.end) xs
      ≡ range s (max e (get_or (x ∷ xs) (partition_point (λ y. leb y.start e) xs) r).end)
        ∷ drop (partition_point (λ y. leb y.start e) xs) xs
unfolding absorb
absorb-splice r x s e [] n = refl
absorb-splice r x s e (y ∷ ys) n = elim (Bool-cases (leb y.start e)) [
  | inl h ↦
      let m : max (max e x.end) y.end ≡ max e y.end = omega (arith, leb→le y.start e h) in
      rw (h, le→leb y.start (max e x.end) (omega (arith, leb→le y.start e h)), m)
        (absorb-splice r y s e ys n.3)
  | inr h ↦ rw (h, leb-false y.start (max e x.end) (ground arith))
]

window_start : ByteRange → List ByteRange → ℕ
window_start r = partition_point (λ x. ltb x.end r.start)

window_end : ByteRange → List ByteRange → ℕ
window_end r = partition_point (λ x. leb x.start r.end)

window_le :
    (lo : ℕ) (r : ByteRange) (rs : List ByteRange)
    → r.start < r.end
    → Normal lo rs
    → window_start r rs ≤ window_end r rs
unfolding window_start window_end
window_le lo r [] h n = omega arith
window_le lo r (x ∷ xs) h n = ground (arith, window_le (suc x.end) r xs h n.3)

-- What `insert` writes in the window from `lo` to `hi`.
insert_at : ℕ → ℕ → ByteRange → List ByteRange → List ByteRange
insert_at lo hi r rs =
    if lo == hi
    then splice lo lo (r ∷ []) rs
    else splice lo hi
        (range (min r.start (get_or rs lo r).start) (max r.end (get_or rs (hi - 1) r).end) ∷ []) rs

get_or-pred :
    (x r : ByteRange) (xs : List ByteRange) (i : ℕ)
    → 0 < i
    → get_or (x ∷ xs) i r ≡ get_or xs (i - 1) r
get_or-pred x r xs zero h = elim h [ ]
get_or-pred x r xs (suc i) h = let e : suc i - 1 ≡ i = omega arith in rw e

insert_at-suc :
    (lo hi : ℕ) (r x : ByteRange) (xs : List ByteRange)
    → lo ≤ hi
    → insert_at (suc lo) (suc hi) r (x ∷ xs) ≡ x ∷ insert_at lo hi r xs
unfolding insert_at
insert_at-suc lo hi r x xs h = elim (Bool-cases (lo == hi)) [
  | inl p ↦ let q : (suc lo == suc hi) ≡ true = ground arith in rw (p, q)
  | inr p ↦
      let q : (suc lo == suc hi) ≡ false = ground arith in
      let m : suc hi - 1 ≡ hi = omega arith in rw (p, q, m, get_or-pred x r xs hi (ground arith))
]

insert_at-front :
    (k : ℕ) (r x : ByteRange) (xs : List ByteRange)
    → insert_at 0 (suc k) r (x ∷ xs)
      ≡ range (min r.start x.start) (max r.end (get_or (x ∷ xs) k r).end) ∷ drop k xs
unfolding insert_at
insert_at-front k r x xs =
    let m : suc k - 1 ≡ k = omega arith in let q : (0 == suc k) ≡ false = ground arith in rw (q, m)

-- The index arithmetic of `insert` computes the reference walk.
insert_at-eq :
    (lo : ℕ) (r : ByteRange) (rs : List ByteRange)
    → r.start < r.end
    → Normal lo rs
    → insert_at (window_start r rs) (window_end r rs) r rs ≡ merge_in r rs
unfolding merge_in window_start window_end
insert_at-eq lo r [] h n = unfold insert_at in refl
insert_at-eq lo r (x ∷ xs) h n = elim (Bool-cases (ltb x.end r.start)) [
  | inl p ↦
      rw (p, le→leb x.start r.end (omega (arith, ltb→lt x.end r.start p)))
        (insert_at-suc _ _ r x xs (window_le (suc x.end) r xs h n.3)
          ∙ ap (◌∷◌ x) (insert_at-eq (suc x.end) r xs h n.3))
  | inr p ↦ elim (Bool-cases (leb x.start r.end)) [
    | inl q ↦
        rw (p, q, ltb-false r.end x.start (leb→le x.start r.end q))
          (insert_at-front _ r x xs ∙ sym (absorb-splice r x (min r.start x.start) r.end xs n.3))
    | inr q ↦
        let k : ltb r.end x.start ≡ true = ground arith in rw (p, q, k) (unfold insert_at in refl)
  ]
]

merged_at : ℕ → ℕ → ByteRange → List ByteRange → ByteRange
merged_at lo hi r rs =
    range (min r.start (get_or rs lo r).start) (max r.end (get_or rs (hi - 1) r).end)

-- What `insert` makes of the counter.
covered_at : ℕ → ℕ → ℕ → ByteRange → List ByteRange → ℕ
unfolding merged_at
covered_at c lo hi r rs =
    if lo == hi
    then wadd c (len r)
    else wadd (wsub c (sum_len (slice lo hi rs))) (len (merged_at lo hi r rs))

insert_parts :
    (s : RangeSet) (r : ByteRange)
    → r.start < r.end
    → let lo = window_start r s.ranges in
      let hi = window_end r s.ranges in
      insert s r ≡ record {
        ranges = insert_at lo hi r s.ranges;
        covered = covered_at s.covered lo hi r s.ranges;
      }
unfolding insert window_start window_end insert_at covered_at
insert_parts s r h = elim (Bool-cases (window_start r s.ranges == window_end r s.ranges)) [
  | inl p ↦ rw (leb-false r.end r.start h, p)
  | inr p ↦ rw (leb-false r.end r.start h, p)
]

insert_at-Normal :
    (r : ByteRange) (rs : List ByteRange)
    → r.start < r.end
    → r.end < u64_mod
    → Normal 0 rs
    → Normal 0 (insert_at (window_start r rs) (window_end r rs) r rs)
insert_at-Normal r rs h k n =
    rw (insert_at-eq 0 r rs h n) (merge_in-Normal 0 r rs (omega arith) h k n)

covered_at-eq :
    (lo hi : ℕ) (r : ByteRange) (rs : List ByteRange)
    → Normal 0 rs
    → lo ≤ hi
    → r.start < r.end
    → r.end < u64_mod
    → Normal 0 (insert_at lo hi r rs)
    → covered_at (total_len rs) lo hi r rs ≡ total_len (insert_at lo hi r rs)
unfolding covered_at insert_at
covered_at-eq lo hi r rs n l h k = elim (Bool-cases (lo == hi)) [
  | inl p ↦ rw p λ m.
      let e = total_len-splice lo lo (r ∷ []) rs (omega arith) in
      let b = total_len-bound 0 (splice lo lo (r ∷ []) rs) m in
      let z = ap total_len (slice_self lo rs) in
      rw (len-eq r (omega arith) k, wadd-eq (total_len rs) (r.end - r.start) (omega arith))
        (omega arith)
  | inr p ↦ rw p λ m.
      let w = merged_at lo hi r rs in
      let b : w.end < u64_mod =
        (unfold merged_at in omega (arith, get_or-bound 0 (hi - 1) r rs n k)) in
      let g : w.start ≤ w.end = (unfold merged_at in omega arith) in
      let z : w.end - w.start + 0 ≡ w.end - w.start = omega arith in
      rw (len-eq w g b) (rw (← z) (covered-splice lo hi (w ∷ []) rs l n m))
]

pub insert_empty : (s : RangeSet) (r : ByteRange) → r.end ≤ r.start → insert s r ≡ s
unfolding insert
insert_empty s r h = rw (le→leb r.end r.start h)

-- On a valid set, inserting a range that is not empty gives the ranges of the reference walk.
pub ranges-insert :
    (s : RangeSet) (r : ByteRange)
    → IsValid s
    → r.start < r.end
    → (insert s r).ranges ≡ merge_in r s.ranges
ranges-insert s r v h = rw (insert_parts s r h) (insert_at-eq 0 r s.ranges h v.normal)

insert-IsValid_nonempty :
    (s : RangeSet) (r : ByteRange)
    → IsValid s
    → r.start < r.end
    → r.end < u64_mod
    → IsValid (insert s r)
insert-IsValid_nonempty s r v h k =
    let n = insert_at-Normal r s.ranges h k v.normal in
    rw (insert_parts s r h, v.counted)
      (record {
        normal = n;
        counted = covered_at-eq _ _ r s.ranges v.normal (window_le 0 r s.ranges h v.normal) h k n;
      })

-- `insert` of a range that ends below 2^64 keeps a valid set normalized and its counter exact.
pub insert-IsValid :
    (s : RangeSet) (r : ByteRange) → IsValid s → r.end < u64_mod → IsValid (insert s r)
insert-IsValid s r v k = elim (dec_lt r.start r.end) [
  | yes h ↦ insert-IsValid_nonempty s r v h k
  | no h ↦ rw (insert_empty s r (omega arith)) v
]

-- After `insert` into a valid set a byte is covered exactly if it was before or lies in `r`.
pub covers-insert :
    (s : RangeSet) (r : ByteRange) (off : ℕ)
    → IsValid s
    → covers (insert s r).ranges off ≡ (holds r off || covers s.ranges off)
covers-insert s r off v = elim (dec_lt r.start r.end) [
  | yes h ↦ rw (ranges-insert s r v h) (merge_in-covers 0 off r s.ranges h v.normal)
  | no h ↦ rw (insert_empty s r (omega arith)) (ground arith)
]
