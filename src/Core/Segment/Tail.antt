-- ===== src/Core/Segment/Tail.antt =====
-- Which bytes the loop of `rebalance_stragglers` gives back, out of crates/xde/src/core/segment.rs.
use xde.Prelude.{
  ℕ, suc, ◌≤◌, ◌<◌, min, max, ◌≡◌, Bool, true, false, not, ◌&&◌, List, [], ◌∷◌, arith, ltb, leb,
  if◌then◌else◌, dec_lt, lt→ltb, ltb-false, le→leb, leb-false,
}
use xde.Core.Ranges
use xde.Core.Ranges.{ByteRange, RangeSet, range, holds, intersection}
use xde.Core.Ranges.Normal.{Normal, covers, IsValid, covers-below}
use xde.Core.Ranges.Remove.{remove-IsValid, covers-remove}
use xde.Core.Segment.Stragglers.{release_tail}

-- The bytes from `pos` on that lie below `end` and, but for the last round, before the next range.
stop : ℕ → ℕ → RangeSet → RangeSet
stop pos end c = if ltb pos end then Ranges.remove c (range pos end) else c

hole : ℕ → ℕ → ℕ → RangeSet → RangeSet
hole pos start end c = if ltb pos start then Ranges.remove c (range pos (min start end)) else c

remove_if-IsValid :
    (b : Bool) (r : ByteRange) (c : RangeSet)
    → IsValid c
    → IsValid (if b then Ranges.remove c r else c)
remove_if-IsValid true r c v = remove-IsValid c r v
remove_if-IsValid false r c v = v

stop-IsValid : (pos end : ℕ) (c : RangeSet) → IsValid c → IsValid (stop pos end c)
unfolding stop
stop-IsValid pos end c v = remove_if-IsValid (ltb pos end) (range pos end) c v

hole-IsValid : (pos start end : ℕ) (c : RangeSet) → IsValid c → IsValid (hole pos start end c)
unfolding hole
hole-IsValid pos start end c v = remove_if-IsValid (ltb pos start) (range pos (min start end)) c v

stop-covers :
    (pos end : ℕ) (c : RangeSet) (off : ℕ)
    → IsValid c
    → covers (stop pos end c).ranges off ≡ (covers c.ranges off && not (leb pos off && ltb off end))
unfolding stop
stop-covers pos end c off v = elim (dec_lt pos end) [
  | yes h ↦ rw (lt→ltb pos end h) (covers-remove c (range pos end) off v)
  | no h ↦ rw (ltb-false pos end (omega arith)) (ground arith)
]

hole-covers :
    (pos start end : ℕ) (c : RangeSet) (off : ℕ)
    → IsValid c
    → covers (hole pos start end c).ranges off
      ≡ (covers c.ranges off && not (leb pos off && (ltb off start && ltb off end)))
unfolding hole
hole-covers pos start end c off v = elim (dec_lt pos start) [
  | yes h ↦
      rw (lt→ltb pos start h, covers-remove c (range pos (min start end)) off v) (ground arith)
  | no h ↦ rw (ltb-false pos start (omega arith)) (ground arith)
]

-- The cases of one round.
tail-skip :
    (x : ByteRange) (cs : List ByteRange) (pos end : ℕ) (c : RangeSet)
    → x.end ≤ pos
    → release_tail (x ∷ cs) pos end c ≡ release_tail cs pos end c
unfolding release_tail
tail-skip x cs pos end c h = rw (le→leb x.end pos h)

tail-stop :
    (x : ByteRange) (cs : List ByteRange) (pos end : ℕ) (c : RangeSet)
    → pos < x.end
    → end ≤ x.start
    → release_tail (x ∷ cs) pos end c ≡ stop pos end c
unfolding release_tail stop
tail-stop x cs pos end c h k = rw (leb-false x.end pos h, le→leb end x.start k)

tail-last :
    (x : ByteRange) (cs : List ByteRange) (pos end : ℕ) (c : RangeSet)
    → pos < x.end
    → x.start < end
    → end ≤ x.end
    → release_tail (x ∷ cs) pos end c ≡ hole pos x.start end c
unfolding release_tail hole
tail-last x cs pos end c h k l =
    rw (leb-false x.end pos h, leb-false end x.start k, le→leb end (max pos x.end) (omega arith))

tail-onward :
    (x : ByteRange) (cs : List ByteRange) (pos end : ℕ) (c : RangeSet)
    → pos < x.end
    → x.start < end
    → x.end < end
    → release_tail (x ∷ cs) pos end c ≡ release_tail cs x.end end (hole pos x.start end c)
unfolding release_tail hole
tail-onward x cs pos end c h k l =
    let m : max pos x.end ≡ x.end = omega arith in
    rw (leb-false x.end pos h, leb-false end x.start k, m, leb-false end x.end l)

-- A fact about every round's result holds of the loop's result.
tail_induction :
    (P : RangeSet → List ByteRange → ℕ → RangeSet → Type 0) (end : ℕ)
    → ((pos : ℕ) (c : RangeSet) → P c [] pos (stop pos end c))
    → ((x : ByteRange) (cs : List ByteRange) (pos : ℕ) (c : RangeSet)
        → pos < x.end
        → end ≤ x.start
        → P c (x ∷ cs) pos (stop pos end c))
    → ((x : ByteRange) (cs : List ByteRange) (pos : ℕ) (c : RangeSet)
        → pos < x.end
        → x.start < end
        → end ≤ x.end
        → P c (x ∷ cs) pos (hole pos x.start end c))
    → ((x : ByteRange) (cs : List ByteRange) (pos : ℕ) (c r : RangeSet)
        → x.end ≤ pos
        → P c cs pos r
        → P c (x ∷ cs) pos r)
    → ((x : ByteRange) (cs : List ByteRange) (pos : ℕ) (c r : RangeSet)
        → pos < x.end
        → x.start < end
        → x.end < end
        → P (hole pos x.start end c) cs x.end r
        → P c (x ∷ cs) pos r)
    → (cs : List ByteRange) (pos : ℕ) (c : RangeSet) → P c cs pos (release_tail cs pos end c)
tail_induction P end nil far last skip on [] pos c = (unfold release_tail stop in nil pos c)
tail_induction P end nil far last skip on (x ∷ cs) pos c = elim (dec_lt pos x.end) [
  | no h ↦
      rw (tail-skip x cs pos end c (omega arith))
        (skip x cs pos c _ (omega arith) (tail_induction P end nil far last skip on cs pos c))
  | yes h ↦ elim (dec_lt x.start end) [
    | no k ↦ rw (tail-stop x cs pos end c h (omega arith)) (far x cs pos c h (omega arith))
    | yes k ↦ elim (dec_lt x.end end) [
      | no l ↦ rw (tail-last x cs pos end c h k (omega arith)) (last x cs pos c h k (omega arith))
      | yes l ↦ rw (tail-onward x cs pos end c h k l) (
          on x cs pos c _ h k l
            (tail_induction P end nil far last skip on cs x.end (hole pos x.start end c)))
    ]
  ]
]

pub release_tail-IsValid :
    (cs : List ByteRange) (pos end : ℕ) (c : RangeSet)
    → IsValid c
    → IsValid (release_tail cs pos end c)
release_tail-IsValid cs pos end c =
    tail_induction (λ c cs pos r. IsValid c → IsValid r) end (λ pos c v. stop-IsValid pos end c v)
      (λ x cs pos c h k v. stop-IsValid pos end c v)
      (λ x cs pos c h k l v. hole-IsValid pos x.start end c v) (λ x cs pos c r h ih v. ih v)
      (λ x cs pos c r h k l ih v. ih (hole-IsValid pos x.start end c v)) cs pos c

-- What is not completed between `pos` and `end`.
abbrev pub loose : List ByteRange → ℕ → ℕ → ℕ → Bool
loose cs pos end off = (leb pos off && ltb off end) && not (covers cs off)

-- The loop releases exactly the bytes between `pos` and `end` that are not completed.
pub release_tail-covers :
    (cs : List ByteRange) (pos end : ℕ) (c : RangeSet) (off lo : ℕ)
    → Normal lo cs
    → IsValid c
    → covers (release_tail cs pos end c).ranges off
      ≡ (covers c.ranges off && not (loose cs pos end off))
release_tail-covers cs pos end c off =
    tail_induction
      (λ c cs pos r.
        (lo : ℕ)
        → Normal lo cs
        → IsValid c
        → covers r.ranges off ≡ (covers c.ranges off && not (loose cs pos end off)))
      end (λ pos c lo n v. ground (arith, stop-covers pos end c off v))
      (λ x cs pos c h k lo n v.
        ground (arith, stop-covers pos end c off v, covers-below (suc x.end) off cs n.3))
      (λ x cs pos c h k l lo n v.
        ground (arith, hole-covers pos x.start end c off v, covers-below (suc x.end) off cs n.3))
      (λ x cs pos c r h ih lo n v. ground (arith, ih (suc x.end) n.3 v))
      (λ x cs pos c r h k l ih lo n v. ground (
        arith,
        ih (suc x.end) n.3 (hole-IsValid pos x.start end c v),
        hole-covers pos x.start end c off v,
        covers-below (suc x.end) off cs n.3,
      ))
      cs pos c
