-- ===== src/Core/Representation/Examples.antt =====
-- Responses with and without tags.
use xde.Prelude.{◌≡◌, ◌↔◌, refl, true, none, some, []}
use xde.Http.Text.{codes, strip_prefix}
use xde.Core.Representation.{
  JournaledFingerprint, strong_match, starts_with, matches, RepresentationLock,
  total_length_changed, settle, conclude, validate, if_range_value, validator_strength,
}
use xde.Core.Representation.Lock.{
  Response, verdict, lock_after, after, agree, accepted-agree, validate-adopts,
}
use xde.Core.Representation.Matches.{matches-strong, SameStrongTag}

abbrev fingerprint : JournaledFingerprint
fingerprint = record {
  content_length = some 8;
  etag = some (codes "\"a\"");
  last_modified_unix = none;
  final_url = codes "https://example.test/artifact";
  redirect_chain = [];
  header_identity = 0;
  content_coding = none;
}

matches-strong_example : (matches fingerprint fingerprint ≡ strong_match) ↔ (
    (fingerprint.header_identity ≡ fingerprint.header_identity)
    × SameStrongTag fingerprint.etag fingerprint.etag)
matches-strong_example = matches-strong fingerprint fingerprint

if_range_test :
    if_range_value (record { etag = some (codes "W/\"a\""); last_modified = none }) ≡ none
unfolding if_range_value validator_strength starts_with strip_prefix
if_range_test = refl

abbrev empty_lock : RepresentationLock
empty_lock = record { etag = none; last_modified = none; total_length = some 1000 }

abbrev first : Response
first = record { etag = some (codes "a"); last_modified = none; total_length = none }

abbrev second : Response
second = record { etag = some (codes "a"); last_modified = none; total_length = some 1000 }

first_test : verdict empty_lock first ≡ none
unfolding validate settle conclude
first_test = refl

second_test : verdict (after (lock_after empty_lock first) []) second ≡ none
unfolding validate settle conclude
second_test = refl

accepted-agree_example : agree first second ≡ true
accepted-agree_example = accepted-agree empty_lock first second [] first_test second_test

validate-adopts_example :
    ((validate empty_lock (some (codes "b")) none (some 2000)).0 ≡ some total_length_changed)
    × ((validate empty_lock (some (codes "b")) none (some 2000)).1.etag ≡ some (codes "b"))
validate-adopts_example = validate-adopts empty_lock (codes "b") none (some 2000) refl refl refl
