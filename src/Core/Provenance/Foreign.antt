-- ===== src/Core/Provenance/Foreign.antt =====
-- The spans of a range that other sources wrote first.
use xde.Prelude.{
  ℕ, ◌≤◌, ◌<◌, ◌≡◌, refl, ◌∙◌, min, max, Bool, true, false, not, ◌&&◌, Option, none, some, List, [],
  ◌∷◌, ◌++◌, arith, leb, ltb, ◌==◌, Bool-cases, inl, inr,
}
use xde.Core.Ranges.{ByteRange, holds, intersection}
use xde.Core.Ranges.Normal.{covers, covers-append}
use xde.Core.Provenance.{Span, ArtifactProvenance, foreign_loop, foreign_spans}
use xde.Core.Provenance.Writers.{Ordered, writer_at, writer_at-below}

-- Whether a byte has a first writer, and it is another source.
abbrev pub is_foreign : Option ℕ → ℕ → Bool
is_foreign none source = false
is_foreign (some w) source = not (w == source)

-- The part of one span that lies in the range.
abbrev part : ByteRange → ByteRange → List ByteRange
part x r = elim (intersection x r) [ none ↦ [] | some g ↦ g ∷ [] ]

covers-part : (x r : ByteRange) (off : ℕ) → covers (part x r) off ≡ (holds x off && holds r off)
unfolding intersection
covers-part x r off = ground arith

covers-foreign_loop :
    (lo : ℕ) (r : ByteRange) (source : ℕ) (xs : List Span) (off : ℕ)
    → Ordered lo xs
    → covers (foreign_loop r source xs) off ≡ (holds r off && is_foreign (writer_at xs off) source)
unfolding foreign_loop
covers-foreign_loop lo r source [] off o = ground arith
covers-foreign_loop lo r source (x ∷ xs) off o = elim (Bool-cases (x.writer == source)) [
  | inl e ↦
      rw (e, covers)
        (covers-foreign_loop x.bytes.end r source xs off o.2
          ∙ elim (Bool-cases (holds x.bytes off)) [
            | inl h ↦ rw (h, unwritten h, e) (ground arith)
            | inr h ↦ rw h refl
          ])
  | inr e ↦ elim (Bool-cases (leb r.end x.bytes.start)) [
    | inl f ↦
        rw (e, f, covers)
          (covers-part x.bytes r off ∙ elim (Bool-cases (holds r off)) [
            | inl g ↦
                let h : holds x.bytes off ≡ false = ground (arith, f, g) in
                let w : writer_at xs off ≡ none =
                  writer_at-below x.bytes.end off xs o.2 (ground (arith, f, g, o.1)) in
                rw (g, h, w) refl
            | inr g ↦ rw g (ground arith)
          ])
    | inr f ↦
        rw (e, f, covers)
          (covers-append (part x.bytes r) (foreign_loop r source xs) off
            ∙ rw (covers-part x.bytes r off, covers-foreign_loop x.bytes.end r source xs off o.2)
                (elim (Bool-cases (holds x.bytes off)) [
                  | inl h ↦ rw (h, e, unwritten h) (ground arith)
                  | inr h ↦ rw h refl
                ]))
  ]
]
  where
    unwritten : holds x.bytes off ≡ true → writer_at xs off ≡ none
    unwritten h = writer_at-below x.bytes.end off xs o.2 (ground (arith, h))

-- On spans in order, foreign_spans holds exactly the bytes of the range that another source wrote
-- first, once two sources have written, and nothing before.
pub foreign_spans_lem :
    (p : ArtifactProvenance) (r : ByteRange) (source off : ℕ)
    → Ordered 0 p.spans
    → covers (foreign_spans p r source) off
      ≡ (p.multi_writer && holds r off && is_foreign (writer_at p.spans off) source)
unfolding foreign_spans
foreign_spans_lem p r source off o = elim (Bool-cases p.multi_writer) [
  | inl e ↦ rw e (covers-foreign_loop 0 r source p.spans off o)
  | inr e ↦ rw e refl
]

-- Ranges that are not empty and lie in the given one.
abbrev pub Inside : ByteRange → List ByteRange → Type 0
Inside r [] = Unit {0}
Inside r (c ∷ cs) = ((r.start ≤ c.start) × (c.start < c.end) × (c.end ≤ r.end)) × Inside r cs

part-Inside : (x r : ByteRange) (cs : List ByteRange) → Inside r cs → Inside r (part x r ++ cs)
unfolding intersection
part-Inside x r cs i = elim (Bool-cases (ltb (max x.start r.start) (min x.end r.end))) [
  | inl e ↦ rw (e, Inside) ((omega arith, ground (arith, e), omega arith), i)
  | inr e ↦ rw (e, Inside) i
]

part_alone-Inside : (x r : ByteRange) → Inside r (part x r)
unfolding intersection
part_alone-Inside x r = elim (Bool-cases (ltb (max x.start r.start) (min x.end r.end))) [
  | inl e ↦ rw (e, Inside) ((omega arith, ground (arith, e), omega arith), tt)
  | inr e ↦ rw (e, Inside) tt
]

foreign_loop-Inside :
    (r : ByteRange) (source : ℕ) (xs : List Span) → Inside r (foreign_loop r source xs)
unfolding foreign_loop
foreign_loop-Inside r source [] = tt
foreign_loop-Inside r source (x ∷ xs) = elim (Bool-cases (x.writer == source)) [
  | inl e ↦ rw (e, Inside) (foreign_loop-Inside r source xs)
  | inr e ↦ elim (Bool-cases (leb r.end x.bytes.start)) [
    | inl f ↦ rw (e, f, Inside) (part_alone-Inside x.bytes r)
    | inr f ↦ rw (e, f, Inside) (part-Inside x.bytes r _ (foreign_loop-Inside r source xs))
  ]
]

pub foreign_spans-Inside :
    (p : ArtifactProvenance) (r : ByteRange) (source : ℕ) → Inside r (foreign_spans p r source)
unfolding foreign_spans
foreign_spans-Inside p r source = elim (Bool-cases p.multi_writer) [
  | inl e ↦ rw (e, Inside) (foreign_loop-Inside r source p.spans)
  | inr e ↦ rw (e, Inside) tt
]
