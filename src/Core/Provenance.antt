-- ===== src/Core/Provenance.antt =====
-- crates/xde/src/core/provenance.rs: which source wrote a byte of the artifact first. A source is
-- known by its key, a number.
pub mod Holes
pub mod Writers
pub mod Record
pub mod Foreign
pub mod Sole
pub mod Examples
use xde.Prelude.{
  ℕ, max, Bool, true, false, not, ◌&&◌, ◌||◌, Option, none, some, List, [], ◌∷◌, ◌++◌, leb, ltb,
  ◌==◌, if◌then◌else◌, is_nil,
}
use xde.Core.Ranges.{ByteRange, range, is_empty, intersection}

pub record Span : Type 0 where
  pub bytes : ByteRange
  pub writer : ℕ

pub record ArtifactProvenance : Type 0 where
  pub spans : List Span
  pub first_writer : Option ℕ
  pub multi_writer : Bool

unfoldable pub provenance_new : ArtifactProvenance
provenance_new = record { spans = []; first_writer = none; multi_writer = false }

-- The loop of `foreign_spans`; it stops behind the range.
unfoldable pub foreign_loop : ByteRange → ℕ → List Span → List ByteRange
foreign_loop r source [] = []
foreign_loop r source (x ∷ xs) =
    let rest = foreign_loop r source xs in
    let here : List ByteRange = elim (intersection x.bytes r) [ none ↦ [] | some g ↦ g ∷ [] ] in
    if x.writer == source then rest else if leb r.end x.bytes.start then here else here ++ rest

unfoldable pub foreign_spans : ArtifactProvenance → ByteRange → ℕ → List ByteRange
unfolding foreign_loop
foreign_spans p r source = if not p.multi_writer then [] else foreign_loop r source p.spans

-- The fast path: the last span, of the same source, is extended; `none` when it does not apply.
unfoldable pub extend_last : ByteRange → ℕ → List Span → Option (List Span)
extend_last r source [] = none
extend_last r source (x ∷ []) =
    if x.writer == source && leb x.bytes.start r.start && leb r.start x.bytes.end
    then some (record x { bytes = range x.bytes.start (max x.bytes.end r.end) } ∷ [])
    else none
extend_last r source (x ∷ y ∷ xs) = elim (extend_last r source (y ∷ xs)) [
  | none ↦ none
  | some ys ↦ some (x ∷ ys)
]

-- What one owned range leaves of a hole, and of all holes.
unfoldable pub carve_one : ByteRange → ByteRange → List ByteRange
carve_one owned h = elim (intersection h owned) [
  | none ↦ h ∷ []
  | some i ↦
      (if ltb h.start i.start then range h.start i.start ∷ [] else [])
      ++ (if ltb i.end h.end then range i.end h.end ∷ [] else [])
]

unfoldable pub carve : ByteRange → List ByteRange → List ByteRange
unfolding carve_one
carve owned [] = []
carve owned (h ∷ hs) = carve_one owned h ++ carve owned hs

-- The loop over the spans, which stops when no hole is left.
unfoldable pub carve_all : List Span → List ByteRange → List ByteRange
unfolding carve
carve_all [] holes = holes
carve_all (x ∷ xs) holes =
    let left = carve x.bytes holes in
    let rest = carve_all xs left in if is_nil left then left else rest

-- `sort_by_key(|(r, _)| r.start)`, which is stable.
unfoldable pub sort_insert : Span → List Span → List Span
sort_insert x [] = x ∷ []
sort_insert x (y ∷ ys) =
    if leb x.bytes.start y.bytes.start then x ∷ y ∷ ys else y ∷ sort_insert x ys

unfoldable pub sort_by_start : List Span → List Span
unfolding sort_insert
sort_by_start [] = []
sort_by_start (x ∷ xs) = sort_insert x (sort_by_start xs)

-- The loop that merges neighbours of one source, with the last merged span in hand.
unfoldable pub merge_from : Span → List Span → List Span
merge_from last [] = last ∷ []
merge_from last (x ∷ xs) = elim (last.writer == x.writer && leb x.bytes.start last.bytes.end) [
  | true ↦
      merge_from (record last { bytes = range last.bytes.start (max last.bytes.end x.bytes.end) })
        xs
  | false ↦ last ∷ merge_from x xs
]

unfoldable pub merge_spans : List Span → List Span
unfolding merge_from
merge_spans [] = []
merge_spans (x ∷ xs) = merge_from x xs

unfoldable pub insert_span : ByteRange → ℕ → List Span → List Span
unfolding sort_by_start merge_spans
insert_span r source spans =
    if is_empty r
    then spans
    else merge_spans (sort_by_start (spans ++ record { bytes = r; writer = source } ∷ []))

unfoldable pub insert_spans : List ByteRange → ℕ → List Span → List Span
unfolding insert_span
insert_spans [] source spans = spans
insert_spans (h ∷ hs) source spans = insert_spans hs source (insert_span h source spans)

-- The slow path of `record`.
unfoldable pub record_spans : ByteRange → ℕ → List Span → List Span
unfolding extend_last carve_all insert_spans
record_spans r source spans = elim (extend_last r source spans) [
  | some xs ↦ xs
  | none ↦
      if is_nil spans
      then record { bytes = r; writer = source } ∷ []
      else insert_spans (carve_all spans (r ∷ [])) source spans
]

-- `record`, which is a keyword here.
unfoldable pub record_write : ArtifactProvenance → ByteRange → ℕ → ArtifactProvenance
unfolding record_spans
record_write p r source = if is_empty r then p else record {
  spans = record_spans r source p.spans;
  first_writer = elim p.first_writer [ none ↦ some source | some w ↦ some w ];
  multi_writer = elim p.first_writer [
    | none ↦ p.multi_writer
    | some w ↦ p.multi_writer || not (w == source)
  ];
}
