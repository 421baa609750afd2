-- ===== src/Core/Ranges/Remove.antt =====
-- `RangeSet::remove` of crates/xde/src/core/ranges.rs: its index arithmetic computes the reference
-- walk of `Remove/Cut`.
mod Cut
use xde.Prelude.{
  ℕ, suc, zero, ◌-◌, ◌≤◌, ◌<◌, ◌≡◌, refl, sym, ap, ◌∙◌, Bool, true, false, not, ◌&&◌, ◌||◌, List,
  [], ◌∷◌, ◌++◌, arith, ltb, leb, wadd, wsub, Bool-cases, inl, inr, partition_point, get_or, drop,
  take, leb→le, le→leb, leb-false, slice, splice, if◌then◌else◌, dec_lt, is_nil,
}
use mathlib.Core.List.{append_assoc}
use xde.Core.Ranges.{ByteRange, RangeSet, range, holds, sum_len, remove}
use xde.Core.Ranges.Normal.{
  Normal, covers, covers-append, covers-below, IsValid, Normal-mono, sum_len-eq, covered-splice,
  Normal-append_left, Normal-append_right,
}
use xde.Core.Ranges.Remove.Cut.{before, behind, cut, cut-Normal, cut-covers}

window_start : ByteRange → List ByteRange → ℕ
window_start r = partition_point (λ x. leb x.end r.start)

window_end : ByteRange → List ByteRange → ℕ
window_end r = partition_point (λ x. ltb x.start r.end)

-- What `remove` writes in the window from `lo` to `hi`.
replacement_at : ℕ → ℕ → ByteRange → List ByteRange → List ByteRange
replacement_at lo hi r rs = before r (get_or rs lo r) ++ behind r (get_or rs (hi - 1) r)

remove_at : ℕ → ℕ → ByteRange → List ByteRange → List ByteRange
unfolding replacement_at
remove_at lo hi r rs = if leb hi lo then rs else splice lo hi (replacement_at lo hi r rs) rs

cut-window :
    (r x : ByteRange) (xs : List ByteRange)
    → r.start < r.end
    → r.start < x.end
    → Normal (suc x.end) xs
    → behind r x ++ cut r xs
      ≡ behind r (get_or (x ∷ xs) (partition_point (λ y. ltb y.start r.end) xs) r)
        ++ drop (partition_point (λ y. ltb y.start r.end) xs) xs
unfolding cut
cut-window r x [] h k n = refl
cut-window r x (y ∷ ys) h k n = elim (Bool-cases (ltb y.start r.end)) [
  | inl p ↦
      let a : ltb r.end x.end ≡ false = ground arith in
      let b : leb y.end r.start ≡ false = ground arith in
      let c : leb r.end y.start ≡ false = ground arith in
      let d : ltb y.start r.start ≡ false = ground arith in
      rw (p, a, b, c, d) (cut-window r y ys h (ground arith) n.3)
  | inr p ↦
      let b : leb y.end r.start ≡ false = ground arith in
      let c : leb r.end y.start ≡ true = ground arith in rw (p, b, c)
]

get_or-pred :
    (x r : ByteRange) (xs : List ByteRange) (i : ℕ)
    → 0 < i
    → get_or (x ∷ xs) i r ≡ get_or xs (i - 1) r
get_or-pred x r xs zero h = elim h [ ]
get_or-pred x r xs (suc i) h = let e : suc i - 1 ≡ i = omega arith in rw e

remove_at-suc :
    (lo hi : ℕ) (r x : ByteRange) (xs : List ByteRange)
    → remove_at (suc lo) (suc hi) r (x ∷ xs) ≡ x ∷ remove_at lo hi r xs
unfolding remove_at
remove_at-suc lo hi r x xs = elim (Bool-cases (leb hi lo)) [
  | inl p ↦ let q : leb (suc hi) (suc lo) ≡ true = ground arith in rw (p, q)
  | inr p ↦
      let q : leb (suc hi) (suc lo) ≡ false = ground arith in
      let m : suc hi - 1 ≡ hi = omega arith in rw (p, q, m, get_or-pred x r xs hi (ground arith))
]

remove_at-front :
    (k : ℕ) (r x : ByteRange) (xs : List ByteRange)
    → remove_at 0 (suc k) r (x ∷ xs) ≡ (before r x ++ behind r (get_or (x ∷ xs) k r)) ++ drop k xs
unfolding remove_at
remove_at-front k r x xs =
    let m : suc k - 1 ≡ k = omega arith in let q : leb (suc k) 0 ≡ false = ground arith in rw (q, m)

-- The index arithmetic of `remove` computes the reference walk.
remove_at-eq :
    (lo : ℕ) (r : ByteRange) (rs : List ByteRange)
    → r.start < r.end
    → Normal lo rs
    → remove_at (window_start r rs) (window_end r rs) r rs ≡ cut r rs
unfolding cut window_start window_end
remove_at-eq lo r [] h n = unfold remove_at in refl
remove_at-eq lo r (x ∷ xs) h n = elim (Bool-cases (leb x.end r.start)) [
  | inl p ↦
      let q : ltb x.start r.end ≡ true = ground arith in
      rw (p, q) (remove_at-suc _ _ r x xs ∙ ap (◌∷◌ x) (remove_at-eq (suc x.end) r xs h n.3))
  | inr p ↦ elim (Bool-cases (ltb x.start r.end)) [
    | inl q ↦
        let k : leb r.end x.start ≡ false = ground arith in
        rw (p, q, k)
          (remove_at-front _ r x xs
            ∙ append_assoc (before r x) _ _
            ∙ ap (◌++◌ (before r x)) (sym (cut-window r x xs h (ground arith) n.3)))
    | inr q ↦
        let k : leb r.end x.start ≡ true = ground arith in rw (p, q, k) (unfold remove_at in refl)
  ]
]

remove_hit : RangeSet → ByteRange → RangeSet
unfolding replacement_at
remove_hit s r =
    let lo = window_start r s.ranges in
    let hi = window_end r s.ranges in
    record {
      ranges = splice lo hi (replacement_at lo hi r s.ranges) s.ranges;
      covered =
          wadd (wsub s.covered (sum_len (slice lo hi s.ranges)))
            (sum_len (replacement_at lo hi r s.ranges));
    }

hit-is_nil :
    (r : ByteRange) (rs : List ByteRange)
    → leb (window_end r rs) (window_start r rs) ≡ false
    → is_nil rs ≡ false
unfolding window_start window_end
hit-is_nil r [] h = cc
hit-is_nil r (x ∷ xs) h = refl

-- `remove` changes nothing, or it writes the window.
remove_miss :
    (s : RangeSet) (r : ByteRange)
    → leb (window_end r s.ranges) (window_start r s.ranges) ≡ true
    → remove s r ≡ s
unfolding remove window_start window_end
remove_miss s r h = rw h (pick (leb r.end r.start || is_nil s.ranges))
  where
    pick : (b : Bool) → (if b then s else s) ≡ s
    pick true = refl
    pick false = refl

remove_window :
    (s : RangeSet) (r : ByteRange)
    → r.start < r.end
    → leb (window_end r s.ranges) (window_start r s.ranges) ≡ false
    → remove s r ≡ remove_hit s r
remove_window s r h k =
    let z = hit-is_nil r s.ranges k in
    (unfold remove remove_hit window_start window_end in rw (leb-false r.end r.start h, z, k))

pub remove_empty : (s : RangeSet) (r : ByteRange) → r.end ≤ r.start → remove s r ≡ s
unfolding remove
remove_empty s r h = rw (le→leb r.end r.start h)

-- On a valid set, removing a range that is not empty gives the ranges of the reference walk.
pub ranges-remove :
    (s : RangeSet) (r : ByteRange)
    → IsValid s
    → r.start < r.end
    → (remove s r).ranges ≡ cut r s.ranges
ranges-remove s r v h = elim (Bool-cases (leb (window_end r s.ranges) (window_start r s.ranges))) [
  | inl k ↦
      rw (remove_miss s r k, ← remove_at-eq 0 r s.ranges h v.normal) (unfold remove_at in rw k)
  | inr k ↦
      rw (remove_window s r h k, ← remove_at-eq 0 r s.ranges h v.normal)
        (unfold remove_at remove_hit in rw k)
]

remove_hit-IsValid :
    (s : RangeSet) (r : ByteRange)
    → IsValid s
    → Normal 0 (remove_hit s r).ranges
    → window_start r s.ranges ≤ window_end r s.ranges
    → IsValid (remove_hit s r)
unfolding remove_hit
remove_hit-IsValid s r v n l =
    let lo = window_start r s.ranges in
    let hi = window_end r s.ranges in
    let with = replacement_at lo hi r s.ranges in
    let m =
      Normal-append_left 0 with (drop hi s.ranges)
        (Normal-append_right 0 (take lo s.ranges) (with ++ drop hi s.ranges) n) in
    record {
      normal = n;
      counted =
          rw (v.counted, sum_len-eq 0 with m) (covered-splice lo hi with s.ranges l v.normal n);
    }

-- `remove` keeps a valid set normalized and its counter exact.
pub remove-IsValid : (s : RangeSet) (r : ByteRange) → IsValid s → IsValid (remove s r)
remove-IsValid s r v = elim (dec_lt r.start r.end) [
  | yes h ↦
      let n : Normal 0 (remove s r).ranges =
        rw (ranges-remove s r v h) (cut-Normal 0 r s.ranges h v.normal) in
      elim (Bool-cases (leb (window_end r s.ranges) (window_start r s.ranges))) [
        | inl k ↦ rw (remove_miss s r k) v
        | inr k ↦
            let e = remove_window s r h k in
            rw e (remove_hit-IsValid s r v (rw (← e) n) (ground arith))
      ]
  | no h ↦ rw (remove_empty s r (omega arith)) v
]

-- After `remove` from a valid set a byte is covered exactly if it was before and does not lie in `r`.
pub covers-remove :
    (s : RangeSet) (r : ByteRange) (off : ℕ)
    → IsValid s
    → covers (remove s r).ranges off ≡ (covers s.ranges off && not (holds r off))
covers-remove s r off v = elim (dec_lt r.start r.end) [
  | yes h ↦ rw (ranges-remove s r v h) (cut-covers 0 off r s.ranges h v.normal)
  | no h ↦ rw (remove_empty s r (omega arith)) (ground arith)
]
