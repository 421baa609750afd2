-- ===== src/Core/Representation.antt =====
-- crates/xde/src/core/representation.rs: the evidence that two responses are about the same bytes.
-- Instants are seconds; the hash of the request headers is a number.
pub mod Lock
pub mod Matches
pub mod Examples
use Prim.Native.String.{String}
use xde.Prelude.{
  ℕ, Bool, true, false, not, ◌&&◌, ◌||◌, Option, none, some, List, [], ◌∷◌, ◌==◌, if◌then◌else◌,
}
use xde.Http.Text.{Text, codes, same_text, strip_prefix}

abbrev pub is_some : {A : Type 0} → Option A → Bool
is_some none = false
is_some (some a) = true

unfoldable pub starts_with : Text → Text → Bool
unfolding strip_prefix
starts_with p s = is_some (strip_prefix p s)

pub data ValidatorStrength : Type 0 where
  strong : ValidatorStrength
  weak : ValidatorStrength
  absent : ValidatorStrength

-- The fields of `RemoteFingerprint` that `validator_strength` and `if_range_value` read.
pub record RemoteFingerprint : Type 0 where
  pub etag : Option Text
  pub last_modified : Option ℕ

unfoldable pub validator_strength : RemoteFingerprint → ValidatorStrength
unfolding starts_with
validator_strength f = elim f.etag [
  | some e ↦ if not (starts_with (codes "W/") e) && starts_with (codes "\"") e then strong else weak
  | none ↦ if is_some f.last_modified then weak else absent
]

unfoldable pub if_range_value : RemoteFingerprint → Option Text
unfolding validator_strength
if_range_value f = elim (validator_strength f) [ strong ↦ f.etag | weak ↦ none | absent ↦ none ]

pub record JournaledFingerprint : Type 0 where
  pub content_length : Option ℕ
  pub etag : Option Text
  pub last_modified_unix : Option ℕ
  pub final_url : Text
  pub redirect_chain : List Text
  pub header_identity : ℕ
  pub content_coding : Option Text

pub data ValidatorMatch : Type 0 where
  strong_match : ValidatorMatch
  weak_match : ValidatorMatch
  unknown : ValidatorMatch
  mismatch : ValidatorMatch

-- The arms on the lengths, when the dates are equal and when they are not.
unfoldable pub lengths_with_date : Option ℕ → Option ℕ → ValidatorMatch
lengths_with_date (some x) (some y) = if x == y then weak_match else mismatch
lengths_with_date (some x) none = weak_match
lengths_with_date none m = weak_match

unfoldable pub lengths_alone : Option ℕ → Option ℕ → ValidatorMatch
lengths_alone (some x) (some y) = if not (x == y) then mismatch else unknown
lengths_alone (some x) none = unknown
lengths_alone none m = unknown

-- The arms without two entity tags.
unfoldable pub dates_and_lengths : Option ℕ → Option ℕ → Option ℕ → Option ℕ → ValidatorMatch
unfolding lengths_with_date lengths_alone
dates_and_lengths (some a) (some b) x y =
    if a == b then lengths_with_date x y else lengths_alone x y
dates_and_lengths (some a) none x y = lengths_alone x y
dates_and_lengths none b x y = lengths_alone x y

unfoldable pub tags : Option Text → Option Text → ValidatorMatch → ValidatorMatch
unfolding starts_with
tags (some a) (some b) otherwise =
    if same_text a b && not (starts_with (codes "W/") a)
    then strong_match
    else (if same_text a b then weak_match else mismatch)
tags (some a) none otherwise = otherwise
tags none b otherwise = otherwise

unfoldable pub matches : JournaledFingerprint → JournaledFingerprint → ValidatorMatch
unfolding tags dates_and_lengths
matches f other =
    if not (f.header_identity == other.header_identity)
    then unknown
    else tags f.etag other.etag (
        dates_and_lengths f.last_modified_unix other.last_modified_unix f.content_length
          other.content_length)

pub record RepresentationLock : Type 0 where
  pub etag : Option Text
  pub last_modified : Option ℕ
  pub total_length : Option ℕ

unfoldable pub lock_new : Option Text → Option ℕ → Option ℕ → RepresentationLock
lock_new etag last_modified total_length = record {
  etag = etag;
  last_modified = last_modified;
  total_length = total_length;
}

-- One field of the lock against one of a response: `none` for a difference, or the field
-- afterwards. A field that the lock lacks is adopted.
unfoldable pub settle : {A : Type 0} → (A → A → Bool) → Option A → Option A → Option (Option A)
settle same (some expected) (some actual) =
    if same expected actual then some (some expected) else none
settle same (some expected) none = some (some expected)
settle same none actual = some actual

-- `Error::RepresentationChanged`, with what changed.
pub data Change : Type 0 where
  etag_changed : Change
  last_modified_changed : Change
  total_length_changed : Change

-- The error, if there is one, and the lock: what was adopted before a difference stays adopted.
unfoldable pub conclude :
    RepresentationLock
    → Option (Option Text)
    → Option (Option ℕ)
    → Option (Option ℕ)
    → Option Change × RepresentationLock
conclude l none m t = (some etag_changed, l)
conclude l (some e) none t = (some last_modified_changed, record l { etag = e })
conclude l (some e) (some m) none =
    (some total_length_changed, record l { etag = e; last_modified = m })
conclude l (some e) (some m) (some t) =
    (none, record { etag = e; last_modified = m; total_length = t })

unfoldable pub validate :
    RepresentationLock → Option Text → Option ℕ → Option ℕ → Option Change × RepresentationLock
unfolding settle conclude
validate l etag last_modified total_length =
    conclude l (settle same_text l.etag etag) (settle (◌==◌) l.last_modified last_modified)
      (settle (◌==◌) l.total_length total_length)
