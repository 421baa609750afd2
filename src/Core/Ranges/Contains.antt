-- ===== src/Core/Ranges/Contains.antt =====
-- `RangeSet::contains_range` of crates/xde/src/core/ranges.rs against the offsets that the set covers.
use xde.Prelude.{
  ℕ, suc, ◌≤◌, ◌<◌, ◌≡◌, refl, Bool, true, false, ◌&&◌, List, [], ◌∷◌, arith, leb, Bool-cases, inl,
  inr, some, none, partition_point, get_elem?, le→leb, leb-false, dec_lt,
}
use xde.Core.Ranges.{ByteRange, RangeSet, contains_range}
use xde.Core.Ranges.Normal.{Normal, covers, covers-below, IsValid}

-- `contains_range` on the ranges, past the test for emptiness.
spans : List ByteRange → ByteRange → Bool
spans rs r = elim (get_elem? rs (partition_point (λ x. leb x.end r.start) rs)) [
  | none ↦ false
  | some x ↦ leb x.start r.start && leb r.end x.end
]

spans_sound :
    (lo off : ℕ) (r : ByteRange) (rs : List ByteRange)
    → Normal lo rs
    → spans rs r ≡ true
    → r.start ≤ off
    → off < r.end
    → covers rs off ≡ true
unfolding spans
spans_sound lo off r [] n h a b = cc
spans_sound lo off r (x ∷ xs) n h a b = ground (arith, spans_sound (suc x.end) off r xs n.3)

spans_complete :
    (lo : ℕ) (r : ByteRange) (rs : List ByteRange)
    → Normal lo rs
    → r.start < r.end
    → ((off : ℕ) → r.start ≤ off → off < r.end → covers rs off ≡ true)
    → spans rs r ≡ true
unfolding spans
spans_complete lo r [] n l h = cc (h r.start (omega arith) l)
spans_complete lo r (x ∷ xs) n l h = elim (Bool-cases (leb x.end r.start)) [
  | inl p ↦
      rw (p, spans) (spans_complete (suc x.end) r xs n.3 l λ off a b. ground (arith, h off a b))
  | inr p ↦
      rw (p, spans)
        (ground (
          arith,
          h r.start (omega arith) l,
          h x.end,
          covers-below (suc x.end) r.start xs n.3,
          covers-below (suc x.end) x.end xs n.3,
        ))
]

-- On a valid set `contains_range` holds exactly if every byte of the range is covered.
contains_range_iff :
    (s : RangeSet) (r : ByteRange)
    → IsValid s
    → (contains_range s r ≡ true
        → (off : ℕ) → r.start ≤ off
        → off < r.end
        → covers s.ranges off ≡ true)
      × (((off : ℕ) → r.start ≤ off → off < r.end → covers s.ranges off ≡ true)
          → contains_range s r ≡ true)
unfolding contains_range spans
contains_range_iff s r v = elim (dec_lt r.start r.end) [
  | yes h ↦
      rw (leb-false r.end r.start h)
        ((λ e off. spans_sound 0 off r s.ranges v.normal e), spans_complete 0 r s.ranges v.normal h)
  | no h ↦ rw (le→leb r.end r.start (omega arith)) ((λ e off a b. absurd (omega arith)), λ k. refl)
]
