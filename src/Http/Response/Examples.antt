-- ===== src/Http/Response/Examples.antt =====
-- A response to a range request, and a 200 to one.
use xde.Prelude.{◌≡◌, ◌↔◌, refl, false, none, some}
use xde.Core.Ranges.{range}
use xde.Core.Disposition.{classify_status}
use xde.Core.Representation.{RepresentationLock, validate, settle, conclude}
use xde.Http.Text.{codes, is_white}
use xde.Http.Range.{parse_content_range, validate_against}
use xde.Http.Response.{
  Request, Headers, range_capability_lost, check_response, check_observed, observe_range,
  observe_identity, is_compressed, validated, within,
}
use xde.Http.Response.Checks.{Passed, check_response_iff}

abbrev request : Request
request = record { wire_range = range 0 1024; is_resume = false; allow_compressed = false }

abbrev partial : Headers
partial = record {
  status = 206;
  retry_after = none;
  content_range = some (codes "bytes 0-1023/4096");
  content_encoding = none;
  etag = some (codes "\"a\"");
  last_modified = none;
}

abbrev empty_lock : RepresentationLock
empty_lock = record { etag = none; last_modified = none; total_length = none }

passed_test : (check_response request partial empty_lock).0 ≡ none
unfolding check_response check_observed observe_range observe_identity is_compressed validated
    within classify_status validate settle conclude parse_content_range is_white validate_against
passed_test = refl

whole_test :
    (check_response request (record partial { status = 200 }) empty_lock).0
    ≡ some range_capability_lost
unfolding check_response classify_status
whole_test = refl

check_response_iff_example :
    ((check_response request partial empty_lock).0 ≡ none) ↔ Passed request partial empty_lock
check_response_iff_example = check_response_iff request partial empty_lock
