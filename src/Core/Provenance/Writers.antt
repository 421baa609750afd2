-- ===== src/Core/Provenance/Writers.antt =====
-- Who wrote a byte first, according to a list of spans.
use xde.Prelude.{
  ℕ, ◌≤◌, ◌<◌, ◌≡◌, refl, sym, ap, ◌∙◌, max, true, false, ◌&&◌, Option, none, some, List, [], ◌∷◌,
  ◌++◌, arith, leb, ltb, ◌==◌, if◌then◌else◌, Bool-cases, inl, inr,
}
use xde.Core.Ranges.{ByteRange, range, is_empty, holds}
use xde.Core.Provenance.{Span, sort_insert, sort_by_start, merge_from, merge_spans, insert_span}

-- Spans are not empty, in order, and do not overlap.
abbrev pub Ordered : ℕ → List Span → Type 0
Ordered lo [] = Unit {0}
Ordered lo (x ∷ xs) = (lo ≤ x.bytes.start) × (x.bytes.start < x.bytes.end) × Ordered x.bytes.end xs

abbrev pub writer_at : List Span → ℕ → Option ℕ
writer_at [] off = none
writer_at (x ∷ xs) off = if holds x.bytes off then some x.writer else writer_at xs off

pub Ordered-mono : (a b : ℕ) (xs : List Span) → a ≤ b → Ordered b xs → Ordered a xs
Ordered-mono a b [] h o = tt
Ordered-mono a b (x ∷ xs) h o = (omega arith, o.1, o.2)

pub writer_at-below :
    (lo off : ℕ) (xs : List Span) → Ordered lo xs → off < lo → writer_at xs off ≡ none
writer_at-below lo off [] o h = refl
writer_at-below lo off (x ∷ xs) o h = ground (arith, writer_at-below x.bytes.end off xs o.2)

-- Where the sort puts one more span.
abbrev place : Span → List Span → List Span
place h [] = h ∷ []
place h (x ∷ xs) = if ltb h.bytes.start x.bytes.start then h ∷ x ∷ xs else x ∷ place h xs

sort_insert-first :
    (x : Span) (xs : List Span)
    → Ordered x.bytes.end xs
    → x.bytes.start ≤ x.bytes.end
    → sort_insert x xs ≡ x ∷ xs
unfolding sort_insert
sort_insert-first x [] o h = refl
sort_insert-first x (y ∷ ys) o h =
    let e : leb x.bytes.start y.bytes.start ≡ true = ground (arith, o.0) in rw e refl

place-first :
    (lo : ℕ) (h : Span) (xs : List Span) → Ordered lo xs → h.bytes.start < lo → place h xs ≡ h ∷ xs
place-first lo h [] o l = refl
place-first lo h (x ∷ xs) o l =
    let e : ltb h.bytes.start x.bytes.start ≡ true = ground (arith, o.0) in rw e refl

sort_insert-place :
    (x h : Span) (xs : List Span)
    → Ordered x.bytes.end xs
    → x.bytes.start ≤ x.bytes.end
    → x.bytes.start ≤ h.bytes.start
    → sort_insert x (place h xs) ≡ x ∷ place h xs
unfolding sort_insert
sort_insert-place x h [] o m l =
    let e : leb x.bytes.start h.bytes.start ≡ true = ground arith in rw e refl
sort_insert-place x h (y ∷ ys) o m l =
    let e : leb x.bytes.start h.bytes.start ≡ true = ground arith in
    let f : leb x.bytes.start y.bytes.start ≡ true = ground (arith, o.0) in
    elim (Bool-cases (ltb h.bytes.start y.bytes.start)) [
      | inl g ↦ rw (g, sort_insert) (rw e refl)
      | inr g ↦ rw (g, sort_insert) (rw f refl)
    ]

sort-place_step :
    (lo : ℕ) (h x : Span) (xs : List Span)
    → Ordered lo (x ∷ xs)
    → sort_insert x (place h xs) ≡ place h (x ∷ xs)
unfolding sort_insert
sort-place_step lo h x xs o = elim (Bool-cases (ltb h.bytes.start x.bytes.start)) [
  | inl g ↦
      let l : h.bytes.start < x.bytes.end = ground (arith, o.1, g) in
      let e : leb x.bytes.start h.bytes.start ≡ false = ground (arith, g) in
      let m : x.bytes.start ≤ x.bytes.end = omega (arith, o.1) in
      ap (sort_insert x) (place-first x.bytes.end h xs o.2 l)
      ∙ rw (e, sort_insert) (rw g (ap (h ∷◌) (sort_insert-first x xs o.2 m)))
  | inr g ↦
      let l : x.bytes.start ≤ h.bytes.start = ground (arith, g) in
      let m : x.bytes.start ≤ x.bytes.end = omega (arith, o.1) in
      sort_insert-place x h xs o.2 m l ∙ rw g refl
]

sort-place :
    (lo : ℕ) (h : Span) (xs : List Span) → Ordered lo xs → sort_by_start (xs ++ h ∷ []) ≡ place h xs
unfolding sort_by_start
sort-place lo h [] o = refl
sort-place lo h (x ∷ xs) o =
    ap (sort_insert x) (sort-place x.bytes.end h xs o.2) ∙ sort-place_step lo h x xs o

-- A span is apart from others if they hold none of its bytes.
abbrev pub ApartFrom : ByteRange → List Span → Type 0
ApartFrom h xs = (off : ℕ) → holds h off ≡ true → writer_at xs off ≡ none

apart-head :
    (h : ByteRange) (x : Span) (xs : List Span) (off : ℕ)
    → ApartFrom h (x ∷ xs)
    → holds h off ≡ true
    → holds x.bytes off ≡ false
apart-head h x xs off a e = ground (arith, a off e)

apart-tail : (h : ByteRange) (x : Span) (xs : List Span) → ApartFrom h (x ∷ xs) → ApartFrom h xs
apart-tail h x xs a off e = ground (arith, a off e)

place-Ordered :
    (lo : ℕ) (h : Span) (xs : List Span)
    → Ordered lo xs
    → lo ≤ h.bytes.start
    → h.bytes.start < h.bytes.end
    → ApartFrom h.bytes xs
    → Ordered lo (place h xs)
place-Ordered lo h [] o l m a = (l, m, tt)
place-Ordered lo h (x ∷ xs) o l m a = elim (Bool-cases (ltb h.bytes.start x.bytes.start)) [
  | inl e ↦
      let before : h.bytes.end ≤ x.bytes.start =
        ground (arith, apart-head h.bytes x xs x.bytes.start a, o.1, e) in
      rw (e, Ordered) (l, m, (before, o.1, o.2))
  | inr e ↦
      let behind : x.bytes.end ≤ h.bytes.start =
        ground (arith, apart-head h.bytes x xs h.bytes.start a, m, e) in
      rw (e, Ordered)
        (o.0, o.1, place-Ordered x.bytes.end h xs o.2 behind m (apart-tail h.bytes x xs a))
]

writer_at-place :
    (h : Span) (xs : List Span) (off : ℕ)
    → ApartFrom h.bytes xs
    → writer_at (place h xs) off ≡ (if holds h.bytes off then some h.writer else writer_at xs off)
writer_at-place h [] off a = refl
writer_at-place h (x ∷ xs) off a = elim (Bool-cases (ltb h.bytes.start x.bytes.start)) [
  | inl e ↦ rw (e, writer_at) refl
  | inr e ↦
      let before = writer_at-place h xs off (apart-tail h.bytes x xs a) in
      rw (e, writer_at)
        (elim (Bool-cases (holds h.bytes off)) [
          | inl f ↦ let g = apart-head h.bytes x xs off a f in rw g (rw f (before ∙ rw f refl))
          | inr f ↦ rw (before, f) refl
        ])
]

-- The span that two touching spans of one source are merged to.
abbrev joined : Span → Span → Span
joined x y = record x { bytes = range x.bytes.start (max x.bytes.end y.bytes.end) }

joined-Ordered :
    (lo : ℕ) (x y : Span) (ys : List Span) → Ordered lo (x ∷ y ∷ ys) → Ordered lo (joined x y ∷ ys)
joined-Ordered lo x y ys o =
    let e : max x.bytes.end y.bytes.end ≡ y.bytes.end = omega (arith, o.2.0, o.2.1) in
    (o.0, omega (arith, o.1), rw e o.2.2)

merge_from-Ordered :
    (lo : ℕ) (x : Span) (xs : List Span) → Ordered lo (x ∷ xs) → Ordered lo (merge_from x xs)
unfolding merge_from
merge_from-Ordered lo x [] o = o
merge_from-Ordered lo x (y ∷ ys) o =
    elim (Bool-cases (x.writer == y.writer && leb y.bytes.start x.bytes.end)) [
      | inl e ↦
          rw (e, merge_from) (merge_from-Ordered lo (joined x y) ys (joined-Ordered lo x y ys o))
      | inr e ↦ rw (e, merge_from) (o.0, o.1, merge_from-Ordered x.bytes.end y ys o.2)
    ]

writer_at-joined :
    (lo off : ℕ) (x y : Span) (ys : List Span)
    → Ordered lo (x ∷ y ∷ ys)
    → (x.writer == y.writer && leb y.bytes.start x.bytes.end) ≡ true
    → writer_at (joined x y ∷ ys) off ≡ writer_at (x ∷ y ∷ ys) off
writer_at-joined lo off x y ys o e =
    let w : x.writer ≡ y.writer = ground (arith, e) in
    let t : y.bytes.start ≤ x.bytes.end = ground (arith, e) in
    rw (sym w) (ground (arith, o.1, o.2.0, o.2.1))

writer_at-merge_from :
    (lo off : ℕ) (x : Span) (xs : List Span)
    → Ordered lo (x ∷ xs)
    → writer_at (merge_from x xs) off ≡ writer_at (x ∷ xs) off
unfolding merge_from
writer_at-merge_from lo off x [] o = refl
writer_at-merge_from lo off x (y ∷ ys) o =
    elim (Bool-cases (x.writer == y.writer && leb y.bytes.start x.bytes.end)) [
      | inl e ↦
          rw (e, merge_from)
            (writer_at-merge_from lo off (joined x y) ys (joined-Ordered lo x y ys o))
          ∙ writer_at-joined lo off x y ys o e
      | inr e ↦
          rw (e, merge_from)
            (ap (λ w. if holds x.bytes off then some x.writer else w)
              (writer_at-merge_from x.bytes.end off y ys o.2))
    ]

merge_spans-Ordered : (lo : ℕ) (xs : List Span) → Ordered lo xs → Ordered lo (merge_spans xs)
unfolding merge_spans
merge_spans-Ordered lo [] o = o
merge_spans-Ordered lo (x ∷ xs) o = merge_from-Ordered lo x xs o

writer_at-merge_spans :
    (lo off : ℕ) (xs : List Span)
    → Ordered lo xs
    → writer_at (merge_spans xs) off ≡ writer_at xs off
unfolding merge_spans
writer_at-merge_spans lo off [] o = refl
writer_at-merge_spans lo off (x ∷ xs) o = writer_at-merge_from lo off x xs o

pub insert_span-Ordered :
    (lo : ℕ) (r : ByteRange) (w : ℕ) (xs : List Span)
    → Ordered lo xs
    → lo ≤ r.start
    → ApartFrom r xs
    → Ordered lo (insert_span r w xs)
unfolding insert_span
insert_span-Ordered lo r w xs o l a = elim (Bool-cases (is_empty r)) [
  | inl e ↦ rw e o
  | inr e ↦
      let h : Span = record { bytes = r; writer = w } in
      rw (e, sort-place lo h xs o)
        (merge_spans-Ordered lo (place h xs) (place-Ordered lo h xs o l (ground (arith, e)) a))
]

pub writer_at-insert_span :
    (lo off : ℕ) (r : ByteRange) (w : ℕ) (xs : List Span)
    → Ordered lo xs
    → lo ≤ r.start
    → ApartFrom r xs
    → writer_at (insert_span r w xs) off ≡ (if holds r off then some w else writer_at xs off)
unfolding insert_span
writer_at-insert_span lo off r w xs o l a = elim (Bool-cases (is_empty r)) [
  | inl e ↦ let f : holds r off ≡ false = ground (arith, e) in rw (e, f) refl
  | inr e ↦
      let h : Span = record { bytes = r; writer = w } in
      let m : r.start < r.end = ground (arith, e) in
      rw (e, sort-place lo h xs o)
        (writer_at-merge_spans lo off (place h xs) (place-Ordered lo h xs o l m a)
          ∙ writer_at-place h xs off a)
]
