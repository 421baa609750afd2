-- ===== src/Core/Ranges/Shape.antt =====
-- `is_complete`, `contiguous_prefix` and `assert_normalized` of `RangeSet`, and the helpers of
-- `ByteRange`.
use xde.Prelude.{
  Bool, ℕ, suc, zero, ◌≤◌, ◌<◌, ◌≡◌, refl, true, false, ◌&&◌, List, [], ◌∷◌, arith, Option, none,
  some, ◌↔◌,
}
use xde.Core.Ranges.{
  ByteRange, RangeSet, holds, is_complete, complete_ranges, contiguous_prefix, prefix_of,
  assert_normalized, normalized_from, intersection,
}
use xde.Core.Ranges.Normal.{Normal, covers, covers-below, IsValid, sum_len-eq}
use xde.Core.Ranges.Canonical.{Bounded}

complete_sound :
    (off total : ℕ) (rs : List ByteRange)
    → complete_ranges rs total ≡ true
    → off < total
    → covers rs off ≡ true
unfolding complete_ranges
complete_sound off total [] h l = ground arith
complete_sound off total (x ∷ []) h l = ground arith
complete_sound off total (x ∷ y ∷ ys) h l = cc

-- Every end of the list is at most `total`.
abbrev pub Within : ℕ → List ByteRange → Type 0
Within total [] = Unit {0}
Within total (r ∷ rs) = (r.end ≤ total) × Within total rs

complete_complete :
    (total : ℕ) (rs : List ByteRange)
    → Normal 0 rs
    → Within total rs
    → ((off : ℕ) → off < total → covers rs off ≡ true)
    → complete_ranges rs total ≡ true
unfolding complete_ranges
complete_complete zero [] n w h = refl
complete_complete (suc t) [] n w h = cc (h 0 (omega arith))
complete_complete total (x ∷ []) n w h = ground (arith, h 0, h x.end)
complete_complete total (x ∷ y ∷ ys) n w h =
    ground (arith, h x.end, covers-below (suc y.end) x.end ys n.3.3)

-- On a valid set inside the artifact `is_complete` holds exactly if every byte of it is covered.
pub is_complete_iff :
    (s : RangeSet) (total : ℕ)
    → IsValid s
    → Within total s.ranges
    → (is_complete s total ≡ true) ↔ ((off : ℕ) → off < total → covers s.ranges off ≡ true)
unfolding is_complete
is_complete_iff s total v w =
    ((λ h off. complete_sound off total s.ranges h), complete_complete total s.ranges v.normal w)

prefix_of-lem :
    (lo off : ℕ) (rs : List ByteRange)
    → Normal lo rs
    → (off < prefix_of rs → covers rs off ≡ true) × (covers rs (prefix_of rs) ≡ false)
unfolding prefix_of
prefix_of-lem lo off [] n = ((λ h. absurd (omega arith)), refl)
prefix_of-lem lo off (x ∷ xs) n =
    ground (arith, covers-below (suc x.end) x.end xs n.3, covers-below (suc x.end) 0 xs n.3)

-- On a valid set `contiguous_prefix` is the first byte that is not covered.
pub contiguous_prefix_lem :
    (s : RangeSet)
    → IsValid s
    → ((off : ℕ) → off < contiguous_prefix s → covers s.ranges off ≡ true)
      × (covers s.ranges (contiguous_prefix s) ≡ false)
unfolding contiguous_prefix
contiguous_prefix_lem s v =
    ((λ off. (prefix_of-lem 0 off s.ranges v.normal).0), (prefix_of-lem 0 0 s.ranges v.normal).1)

-- The lowest start that the assertion allows after `prev`.
abbrev after : Option ByteRange → ℕ
after none = 0
after (some p) = suc p.end

normalized_from_sound :
    (prev : Option ByteRange) (rs : List ByteRange)
    → Bounded rs
    → normalized_from prev rs ≡ true
    → Normal (after prev) rs
unfolding normalized_from
normalized_from_sound prev [] b h = tt
normalized_from_sound none (x ∷ xs) b h = ground (arith, normalized_from_sound (some x) xs b.1)
normalized_from_sound (some p) (x ∷ xs) b h = ground (arith, normalized_from_sound (some x) xs b.1)

normalized_from_complete :
    (prev : Option ByteRange) (rs : List ByteRange)
    → Normal (after prev) rs
    → normalized_from prev rs ≡ true
unfolding normalized_from
normalized_from_complete prev [] n = refl
normalized_from_complete none (x ∷ xs) n = ground (arith, normalized_from_complete (some x) xs n.3)
normalized_from_complete (some p) (x ∷ xs) n =
    ground (arith, normalized_from_complete (some x) xs n.3)

-- On ranges that end below 2^64, the assertions of `assert_normalized` pass exactly on the valid sets.
pub assert_normalized_iff :
    (s : RangeSet) → Bounded s.ranges → (assert_normalized s ≡ true) ↔ IsValid s
unfolding assert_normalized
assert_normalized_iff s b = (sound, complete)
  where
    sound : assert_normalized s ≡ true → IsValid s
    sound h =
        let n = normalized_from_sound none s.ranges b (ground arith) in
        record { normal = n; counted = ground (arith, sum_len-eq 0 s.ranges n) }

    complete : IsValid s → assert_normalized s ≡ true
    complete v = ground (
      arith,
      normalized_from_complete none s.ranges v.normal,
      sum_len-eq 0 s.ranges v.normal,
      v.counted,
    )

-- The bytes of an optional range.
abbrev pub held : Option ByteRange → ℕ → Bool
held none off = false
held (some g) off = holds g off

-- `intersection` holds exactly the common bytes, and is never an empty range.
pub intersection_lem :
    (r o : ByteRange)
    → ((off : ℕ) → held (intersection r o) off ≡ (holds r off && holds o off))
      × ((g : ByteRange) → intersection r o ≡ some g → g.start < g.end)
unfolding intersection
intersection_lem r o = ((λ off. ground arith), λ g h. ground arith)
