-- ===== src/Http/Range.antt =====
-- crates/xde/src/http/range.rs: the `Content-Range` of a response, and its comparison with the range
-- that was asked for.
pub mod Grammar
pub mod Sound
pub mod Pieces
pub mod Reading
pub mod Examples
use xde.Prelude.{
  ℕ, ◌+◌, ◌-◌, Bool, true, false, ◌&&◌, ◌||◌, Option, none, some, List, [], ◌∷◌, leb, ltb, ◌==◌,
  if◌then◌else◌, u64_max,
}
use xde.Core.Ranges.{ByteRange, range}
use xde.Http.Text.{Text, codes, trim, strip_prefix, split_once, same_text, parse_u64}

pub record ContentRange : Type 0 where
  pub first : ℕ
  pub last : ℕ
  pub complete_length : Option ℕ

-- The protocol errors; each stands for one message of the code.
pub data RangeError : Type 0 where
  wrong_start : RangeError
  last_overflow : RangeError
  beyond_requested : RangeError
  last_before_first : RangeError
  last_beyond_complete : RangeError
  unsupported_unit : RangeError
  malformed : RangeError
  unsatisfied : Option ℕ → RangeError
  malformed_span : RangeError
  bad_start : RangeError
  bad_end : RangeError
  bad_complete : RangeError
  zero_complete : RangeError

pub data Checked (A : Type 0) : Type 0 where
  ok : A → Checked A
  err : RangeError → Checked A

unfoldable pub len : ContentRange → ℕ
len c =
    if leb c.first c.last
    then (if ltb (c.last - c.first) u64_max then c.last - c.first + 1 else 0)
    else 0

unfoldable pub is_empty : ContentRange → Bool
is_empty c = ltb c.last c.first

unfoldable pub as_range : ContentRange → Checked ByteRange
as_range c = if c.last == u64_max then err last_overflow else ok (range c.first (c.last + 1))

-- The test of the last guard: `last` is not below the complete length.
abbrev pub beyond : ℕ → Option ℕ → Bool
beyond last none = false
beyond last (some total) = leb total last

unfoldable pub validate_against : ContentRange → ByteRange → Checked (Unit {0})
validate_against c requested =
    if c.first == requested.start
    then (if c.last == u64_max
        then err last_overflow
        else if ltb requested.end (c.last + 1)
        then err beyond_requested
        else if ltb c.last c.first
        then err last_before_first
        else if beyond c.last c.complete_length
        then err last_beyond_complete
        else ok tt)
    else err wrong_start

-- `strip_prefix("bytes ").or_else(|| strip_prefix("bytes="))`.
unfoldable pub strip_unit : Text → Option Text
unfolding strip_prefix
strip_unit v = elim (strip_prefix (codes "bytes ") v) [
  | some rest ↦ some rest
  | none ↦ strip_prefix (codes "bytes=") v
]

unfoldable pub parse_complete : Text → Checked (Option ℕ)
unfolding parse_u64
parse_complete t = if same_text t (codes "*") then ok none else elim (parse_u64 t) [
  | none ↦ err bad_complete
  | some n ↦ if n == 0 then err zero_complete else ok (some n)
]

-- From the two ends and the text after the slash.
unfoldable pub parse_ends : ℕ → ℕ → Text → Checked ContentRange
unfolding parse_complete trim
parse_ends first last total =
    if ltb last first
    then err last_before_first
    else if last == u64_max
    then err last_overflow
    else (elim (parse_complete (trim total)) [
      | err e ↦ err e
      | ok c ↦ ok (record { first = first; last = last; complete_length = c })
    ])

unfoldable pub parse_span : Text → Text → Text → Checked ContentRange
unfolding parse_ends parse_u64 trim
parse_span a b total = elim (parse_u64 (trim a)) [
  | none ↦ err bad_start
  | some first ↦ elim (parse_u64 (trim b)) [
    | none ↦ err bad_end
    | some last ↦ parse_ends first last total
  ]
]

-- The two parts of the span around the dash, and the text after the slash.
unfoldable pub parse_dash : Option (Text × Text) → Text → Checked ContentRange
unfolding parse_span
parse_dash none total = err malformed_span
parse_dash (some q) total = parse_span q.0 q.1 total

-- The two parts around the slash; `bytes */146515` is the unsatisfied form.
unfoldable pub parse_slash : Option (Text × Text) → Checked ContentRange
unfolding parse_dash split_once parse_u64 trim
parse_slash none = err malformed
parse_slash (some p) =
    if same_text (trim p.0) (codes "*")
    then err (unsatisfied (parse_u64 (trim p.1)))
    else parse_dash (split_once b'-' (trim p.0)) p.1

-- What is left after the unit.
unfoldable pub parse_rest : Option Text → Checked ContentRange
unfolding parse_slash split_once
parse_rest none = err unsupported_unit
parse_rest (some rest) = parse_slash (split_once b'/' rest)

unfoldable pub parse_content_range : Text → Checked ContentRange
unfolding parse_rest strip_unit trim
parse_content_range v = parse_rest (strip_unit (trim v))
