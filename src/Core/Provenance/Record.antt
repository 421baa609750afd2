-- ===== src/Core/Provenance/Record.antt =====
-- Recording a write keeps the spans in order, and every byte keeps its first writer.
use xde.Prelude.{
  ℕ, ◌≤◌, ◌≡◌, refl, sym, ◌∙◌, max, Bool, true, false, not, ◌&&◌, ◌||◌, Option, none, some, List,
  [], ◌∷◌, arith, leb, ◌==◌, if◌then◌else◌, is_nil, Bool-cases, inl, inr,
}
use xde.Core.Ranges.{ByteRange, range, is_empty, holds}
use xde.Core.Ranges.Normal.{covers}
use xde.Core.Provenance.{
  Span, ArtifactProvenance, extend_last, carve_all, insert_span, insert_spans, record_spans,
  record_write,
}
use xde.Core.Provenance.Writers.{
  Ordered, writer_at, ApartFrom, insert_span-Ordered, writer_at-insert_span,
}
use xde.Core.Provenance.Holes.{is_written, Apart, covers-before, carve_all-Apart, covers-carve_all}

-- The writer of a byte after a write by a source: the one it has, or else the source.
abbrev pub first_writer_of : Option ℕ → Bool → ℕ → Option ℕ
first_writer_of (some w) written source = some w
first_writer_of none written source = if written then some source else none

-- No hole has a byte with a writer.
abbrev Free : List ByteRange → List Span → Type 0
Free hs xs = (off : ℕ) → covers hs off ≡ true → writer_at xs off ≡ none

Free-insert_span :
    (h : ByteRange) (hs : List ByteRange) (source : ℕ) (xs : List Span)
    → Ordered 0 xs
    → Free (h ∷ hs) xs
    → Apart h.end hs
    → Free hs (insert_span h source xs)
Free-insert_span h hs source xs o f a off e =
    let free : writer_at xs off ≡ none = ground (arith, f off, e) in
    let apart : holds h off ≡ false = ground (arith, covers-before h.end off hs a, e) in
    writer_at-insert_span 0 off h source xs o (omega arith) (λ p q. f p (ground (arith, q)))
    ∙ rw (apart, free) refl

insert_spans_lem :
    (hs : List ByteRange) (source : ℕ) (xs : List Span) (lo : ℕ)
    → Ordered 0 xs
    → Free hs xs
    → Apart lo hs
    → Ordered 0 (insert_spans hs source xs)
      × ((off : ℕ)
          → writer_at (insert_spans hs source xs) off
            ≡ (if covers hs off then some source else writer_at xs off))
unfolding insert_spans
insert_spans_lem [] source xs lo o f a = (o, λ off. refl)
insert_spans_lem (h ∷ hs) source xs lo o f a =
    let apart : ApartFrom h xs = λ p q. f p (ground (arith, q)) in
    let rest =
      insert_spans_lem hs source (insert_span h source xs) h.end
        (insert_span-Ordered 0 h source xs o (omega arith) apart)
        (Free-insert_span h hs source xs o f a.2) a.2 in
    (
      rest.0,
      λ off.
          rest.1 off
          ∙ rw (writer_at-insert_span 0 off h source xs o (omega arith) apart) (ground arith),
    )

-- What holds of the spans after a write, compared with the spans before it.
abbrev Recorded : ByteRange → ℕ → ℕ → List Span → List Span → Type 0
Recorded r source lo xs ys =
    Ordered lo ys
    × ((off : ℕ) → writer_at ys off ≡ first_writer_of (writer_at xs off) (holds r off) source)

abbrev Extended : ByteRange → ℕ → ℕ → List Span → Option (List Span) → Type 0
Extended r source lo xs none = Unit {0}
Extended r source lo xs (some ys) = Recorded r source lo xs ys

Extended-cons :
    (r : ByteRange) (source lo : ℕ) (x : Span) (xs : List Span) (m : Option (List Span))
    → Ordered lo (x ∷ xs)
    → Extended r source x.bytes.end xs m
    → Extended r source lo (x ∷ xs) (elim m [ none ↦ none | some ys ↦ some (x ∷ ys) ])
Extended-cons r source lo x xs none o h = tt
Extended-cons r source lo x xs (some ys) o h = (
  (o.0, o.1, h.0),
  λ off. elim (Bool-cases (holds x.bytes off)) [ inl e ↦ rw e refl | inr e ↦ rw e (h.1 off) ],
)

extended_last :
    (r : ByteRange) (source lo : ℕ) (x : Span)
    → is_empty r ≡ false
    → Ordered lo (x ∷ [])
    → x.writer ≡ source
    → x.bytes.start ≤ r.start
    → r.start ≤ x.bytes.end
    → Recorded r source lo
        (x ∷ [])
        (record x { bytes = range x.bytes.start (max x.bytes.end r.end) } ∷ [])
extended_last r source lo x e o w l m = (
  (o.0, omega (arith, o.1), tt),
  λ off. rw (sym w) (elim (Bool-cases (holds x.bytes off)) [
    | inl f ↦ rw f (ground (arith, f))
    | inr f ↦ rw f (ground (arith, f, l, m))
  ]),
)

extend_last_lem :
    (r : ByteRange) (source lo : ℕ) (xs : List Span)
    → is_empty r ≡ false
    → Ordered lo xs
    → Extended r source lo xs (extend_last r source xs)
unfolding extend_last
extend_last_lem r source lo [] e o = tt
extend_last_lem r source lo (x ∷ []) e o =
    elim (Bool-cases (x.writer == source && leb x.bytes.start r.start && leb r.start x.bytes.end)) [
      | inl f ↦
          rw (f, Extended)
            (extended_last r source lo x e o (ground (arith, f)) (ground (arith, f))
              (ground (arith, f)))
      | inr f ↦ rw (f, Extended) tt
    ]
extend_last_lem r source lo (x ∷ y ∷ xs) e o =
    Extended-cons r source lo x (y ∷ xs) (extend_last r source (y ∷ xs)) o
      (extend_last_lem r source x.bytes.end (y ∷ xs) e o.2)

-- The slow path: what has no writer yet is inserted.
insert_holes_lem :
    (r : ByteRange) (source : ℕ) (xs : List Span)
    → is_empty r ≡ false
    → Ordered 0 xs
    → Recorded r source 0 xs (insert_spans (carve_all xs (r ∷ [])) source xs)
insert_holes_lem r source xs e o =
    let holes = covers-carve_all xs (r ∷ []) in
    let free : Free (carve_all xs (r ∷ [])) xs =
      λ off h. unwritten (holds r off) (writer_at xs off) (sym (holes off) ∙ h) in
    let apart = carve_all-Apart r.start xs (r ∷ []) (omega arith, ground (arith, e), tt) in
    let inserted = insert_spans_lem (carve_all xs (r ∷ [])) source xs r.start o free apart in
    (inserted.0, λ off. inserted.1 off ∙ rw (holes off) (first (writer_at xs off) (holds r off)))
  where
    unwritten : (c : Bool) (w : Option ℕ) → ((c || false) && not (is_written w)) ≡ true → w ≡ none
    unwritten c none h = refl
    unwritten c (some w) h = ground (arith, h)

    first :
        (w : Option ℕ) (c : Bool)
        → (if (c || false) && not (is_written w) then some source else w)
          ≡ first_writer_of w c source
    first none c = ground arith
    first (some w) c = ground arith

record_spans_lem :
    (r : ByteRange) (source : ℕ) (xs : List Span)
    → is_empty r ≡ false
    → Ordered 0 xs
    → Recorded r source 0 xs (record_spans r source xs)
unfolding record_spans
record_spans_lem r source xs e o =
    path (extend_last r source xs) xs o (extend_last_lem r source 0 xs e o)
  where
    path :
        (m : Option (List Span)) (ys : List Span)
        → Ordered 0 ys
        → Extended r source 0 ys m
        → Recorded r source 0 ys (elim m [
          | some zs ↦ zs
          | none ↦
              if is_nil ys
              then record { bytes = r; writer = source } ∷ []
              else insert_spans (carve_all ys (r ∷ [])) source ys
        ])
    path (some zs) ys h k = k
    path none [] h k = ((omega arith, ground (arith, e), tt), λ off. refl)
    path none (y ∷ ys) h k = insert_holes_lem r source (y ∷ ys) e h

-- Recording a write keeps the spans in order and apart; a byte that had a writer keeps it, and the
-- other bytes of the range get the source.
pub record_write_lem :
    (p : ArtifactProvenance) (r : ByteRange) (source : ℕ)
    → Ordered 0 p.spans
    → Ordered 0 (record_write p r source).spans
      × ((off : ℕ)
          → writer_at (record_write p r source).spans off
            ≡ first_writer_of (writer_at p.spans off) (holds r off) source)
unfolding record_write
record_write_lem p r source o = elim (Bool-cases (is_empty r)) [
  | inl e ↦ rw e (o, λ off. nothing (writer_at p.spans off) (ground (arith, e)))
  | inr e ↦ rw e (record_spans_lem r source p.spans e o)
]
  where
    nothing : {b : Bool} (w : Option ℕ) → b ≡ false → w ≡ first_writer_of w b source
    nothing none h = rw h refl
    nothing (some w) h = refl
