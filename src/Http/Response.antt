-- ===== src/Http/Response.antt =====
-- crates/xde/src/http/fetch.rs: what `fetch_range` and `observe_identity` ask of a response before
-- its body is read. The headers are the values that the header map has for their names; a date is an
-- instant.
pub mod Checks
pub mod Examples
use xde.Prelude.{ℕ, Bool, true, false, not, ◌&&◌, Option, none, some, ◌==◌, if◌then◌else◌}
use xde.Core.Ranges.{ByteRange}
use xde.Core.Disposition.{Disposition, classify_status}
use xde.Core.Disposition.Statuses.{is_accept}
use xde.Core.Representation.{RepresentationLock, Change, validate}
use xde.Http.Text.{Text, codes, same_text}
use xde.Http.Range.{
  ContentRange, RangeError, Checked, ok, err, validate_against, parse_content_range,
}

pub record Request : Type 0 where
  pub wire_range : ByteRange
  pub is_resume : Bool
  pub allow_compressed : Bool

pub record Headers : Type 0 where
  pub status : ℕ
  pub retry_after : Option ℕ
  pub content_range : Option Text
  pub content_encoding : Option Text
  pub etag : Option Text
  pub last_modified : Option ℕ

pub data ResponseError : Type 0 where
  dispositioned : Disposition → ℕ → ResponseError
  no_content_range : ResponseError
  bad_content_range : RangeError → ResponseError
  range_capability_lost : ResponseError
  compressed_payload : ResponseError
  representation_changed : Change → ResponseError

-- The complete length that a response names, or an error.
pub data Observed : Type 0 where
  observed_total : Option ℕ → Observed
  refused : ResponseError → Observed

unfoldable pub within : ContentRange → Checked (Unit {0}) → Observed
within c (ok u) = observed_total c.complete_length
within c (err e) = refused (bad_content_range e)

unfoldable pub validated : ByteRange → Checked ContentRange → Observed
unfolding within
validated r (ok c) = within c (validate_against c r)
validated r (err e) = refused (bad_content_range e)

unfoldable pub observe_range : ByteRange → Option Text → Observed
unfolding validated
observe_range r none = refused no_content_range
observe_range r (some value) = validated r (parse_content_range value)

-- Any coding but `identity`.
unfoldable pub is_compressed : Option Text → Bool
is_compressed none = false
is_compressed (some value) = not (same_text value (codes "identity"))

unfoldable pub observe_identity :
    Option Change × RepresentationLock → Option ResponseError × RepresentationLock
observe_identity v = (elim v.0 [ none ↦ none | some c ↦ some (representation_changed c) ], v.1)

unfoldable pub check_observed :
    Request → Headers → RepresentationLock → Observed → Option ResponseError × RepresentationLock
unfolding is_compressed observe_identity
check_observed q h l (refused e) = (some e, l)
check_observed q h l (observed_total total) =
    if not q.allow_compressed && is_compressed h.content_encoding
    then (some compressed_payload, l)
    else observe_identity (validate l h.etag h.last_modified total)

-- The error, if there is one, and the lock of the job.
unfoldable pub check_response :
    Request → Headers → RepresentationLock → Option ResponseError × RepresentationLock
unfolding check_observed observe_range
check_response q h l =
    let d = classify_status h.status (some q.wire_range) h.retry_after q.is_resume in
    if not (is_accept d)
    then (some (dispositioned d h.status), l)
    else if not (h.status == 206)
    then (some range_capability_lost, l)
    else check_observed q h l (observe_range q.wire_range h.content_range)
