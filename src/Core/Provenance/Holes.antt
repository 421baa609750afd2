-- ===== src/Core/Provenance/Holes.antt =====
-- What is left of a range that is written, after the bytes that have a writer are carved out.
use xde.Prelude.{
  ℕ, ◌≤◌, ◌<◌, ◌≡◌, refl, sym, ◌∙◌, max, min, Bool, true, false, not, ◌&&◌, Option, none, some,
  List, [], ◌∷◌, ◌++◌, arith, ltb, if◌then◌else◌, is_nil, Bool-cases, inl, inr,
}
use xde.Core.Ranges.{ByteRange, holds, intersection}
use xde.Core.Ranges.Normal.{covers, covers-append}
use xde.Core.Provenance.{Span, carve_one, carve, carve_all}
use xde.Core.Provenance.Writers.{writer_at}

abbrev pub is_written : Option ℕ → Bool
is_written none = false
is_written (some w) = true

-- Holes are not empty, in order, and do not overlap; they may touch.
abbrev pub Apart : ℕ → List ByteRange → Type 0
Apart lo [] = Unit {0}
Apart lo (h ∷ hs) = (lo ≤ h.start) × (h.start < h.end) × Apart h.end hs

pub covers-before :
    (lo off : ℕ) (hs : List ByteRange) → Apart lo hs → off < lo → covers hs off ≡ false
covers-before lo off [] a l = refl
covers-before lo off (h ∷ hs) a l = ground (arith, a.0, a.1, covers-before h.end off hs a.2)

Apart-mono : (a b : ℕ) (hs : List ByteRange) → a ≤ b → Apart b hs → Apart a hs
Apart-mono a b [] l h = tt
Apart-mono a b (x ∷ xs) l h = (omega (arith, h.0), h.1, h.2)

covers-carve_one :
    (owned h : ByteRange) (off : ℕ)
    → covers (carve_one owned h) off ≡ (holds h off && not (holds owned off))
unfolding carve_one intersection
covers-carve_one owned h off = ground arith

covers-carve :
    (owned : ByteRange) (hs : List ByteRange) (off : ℕ)
    → covers (carve owned hs) off ≡ (covers hs off && not (holds owned off))
unfolding carve
covers-carve owned [] off = refl
covers-carve owned (h ∷ hs) off =
    covers-append (carve_one owned h) (carve owned hs) off
    ∙ ground (arith, covers-carve_one owned h off, covers-carve owned hs off)

carve_one-Apart :
    (lo : ℕ) (owned h : ByteRange) (hs : List ByteRange)
    → lo ≤ h.start
    → h.start < h.end
    → Apart h.end hs
    → Apart lo (carve_one owned h ++ hs)
unfolding carve_one intersection
carve_one-Apart lo owned h hs l m a =
    let from = max h.start owned.start in
    let to = min h.end owned.end in
    elim (Bool-cases (ltb from to)) [
      | inr e ↦ rw (e, Apart) (l, m, a)
      | inl e ↦ elim (Bool-cases (ltb h.start from)) [
        | inl f ↦ elim (Bool-cases (ltb to h.end)) [
          | inl g ↦
              rw (e, f, g, Apart) (l, ground (arith, f), (ground (arith, e), ground (arith, g), a))
          | inr g ↦
              rw (e, f, g, Apart)
                (l, ground (arith, f), Apart-mono from h.end hs (ground (arith, e)) a)
        ]
        | inr f ↦ elim (Bool-cases (ltb to h.end)) [
          | inl g ↦ rw (e, f, g, Apart) (ground (arith, e, l), ground (arith, g), a)
          | inr g ↦ rw (e, f, g, Apart) (Apart-mono lo h.end hs (omega (arith, l, m)) a)
        ]
      ]
    ]

carve-Apart :
    (lo : ℕ) (owned : ByteRange) (hs : List ByteRange) → Apart lo hs → Apart lo (carve owned hs)
unfolding carve
carve-Apart lo owned [] a = tt
carve-Apart lo owned (h ∷ hs) a =
    carve_one-Apart lo owned h (carve owned hs) a.0 a.1 (carve-Apart h.end owned hs a.2)

carve_all-nil : (xs : List Span) → carve_all xs [] ≡ []
unfolding carve_all carve
carve_all-nil [] = refl
carve_all-nil (x ∷ xs) = refl

-- Stopping when no hole is left changes nothing.
carve_all-cons :
    (x : Span) (xs : List Span) (hs : List ByteRange)
    → carve_all (x ∷ xs) hs ≡ carve_all xs (carve x.bytes hs)
unfolding carve_all
carve_all-cons x xs hs = stop (carve x.bytes hs)
  where
    stop :
        (left : List ByteRange)
        → (if is_nil left then left else carve_all xs left) ≡ carve_all xs left
    stop [] = sym (carve_all-nil xs)
    stop (h ∷ left) = refl

pub covers-carve_all :
    (xs : List Span) (hs : List ByteRange) (off : ℕ)
    → covers (carve_all xs hs) off ≡ (covers hs off && not (is_written (writer_at xs off)))
unfolding carve_all
covers-carve_all [] hs off = ground arith
covers-carve_all (x ∷ xs) hs off =
    rw (carve_all-cons x xs hs)
      (ground (arith, covers-carve_all xs (carve x.bytes hs) off, covers-carve x.bytes hs off))

pub carve_all-Apart :
    (lo : ℕ) (xs : List Span) (hs : List ByteRange) → Apart lo hs → Apart lo (carve_all xs hs)
unfolding carve_all
carve_all-Apart lo [] hs a = a
carve_all-Apart lo (x ∷ xs) hs a =
    rw (carve_all-cons x xs hs)
      (carve_all-Apart lo xs (carve x.bytes hs) (carve-Apart lo x.bytes hs a))
