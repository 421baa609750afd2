-- ===== src/Storage/Journal.antt =====
-- crates/xde/src/storage/journal.rs: the record that a transfer resumes from. The codec of the
-- payload (`postcard`) and the checksum (`crc32c`) are parameters; a file that cannot be read is
-- left out, and the clock is an argument.
pub mod Sets
pub mod Framing
pub mod Examples
use xde.Prelude.{
  ℕ, zero, ◌+◌, ◌*◌, ◌/◌, ◌%◌, ◌≤◌, ◌<◌, ◌^◌, ◌≡◌, Bool, true, false, not, Option, none, some, List,
  [], ◌∷◌, ◌++◌, ltb, leb, ◌==◌, if◌then◌else◌, length, get_or, take, drop,
}
use xde.Core.Ranges.{ByteRange, RangeSet, new, insert, remove, covered_len}
use xde.Core.Representation.{JournaledFingerprint}
use xde.Http.Text.{Text, same_text}

abbrev pub magic : List ℕ
magic = 120 ∷ 100 ∷ 101 ∷ 74 ∷ 82 ∷ 78 ∷ 76 ∷ 49 ∷ []

abbrev pub format_version : ℕ
format_version = 2

pub record JournalPayload : Type 0 where
  pub format_version : ℕ
  pub fingerprint : JournaledFingerprint
  pub completed : RangeSet
  pub durable : RangeSet
  pub total : Option ℕ
  pub bytes_written : ℕ
  pub created_unix : ℕ
  pub updated_unix : ℕ
  pub overlap_bytes : ℕ
  pub source_urls : List Text

unfoldable pub payload_new : JournaledFingerprint → Option ℕ → ℕ → ℕ → JournalPayload
payload_new fingerprint total overlap_bytes now = record {
  format_version = format_version;
  fingerprint = fingerprint;
  completed = new;
  durable = new;
  total = total;
  bytes_written = 0;
  created_unix = now;
  updated_unix = now;
  overlap_bytes = overlap_bytes;
  source_urls = [];
}

pub record Journal : Type 0 where
  pub payload : JournalPayload
  pub dirty : Bool

unfoldable pub create : JournalPayload → Journal
create payload = record { payload = payload; dirty = true }

unfoldable pub mark_dirty : Journal → Journal
mark_dirty j = record j { dirty = true }

unfoldable pub record_completed : ℕ → ByteRange → Journal → Journal
unfolding insert covered_len
record_completed now r j =
    let completed = insert j.payload.completed r in
    record {
      payload = record j.payload {
        completed = completed;
        bytes_written = covered_len completed;
        updated_unix = now;
      };
      dirty = true;
    }

unfoldable pub mark_completed_durable : Journal → Journal
mark_completed_durable j = record {
  payload = record j.payload { durable = j.payload.completed };
  dirty = true;
}

unfoldable pub invalidate : ByteRange → Journal → Journal
unfolding remove covered_len
invalidate r j =
    let completed = remove j.payload.completed r in
    record {
      payload = record j.payload {
        completed = completed;
        durable = remove j.payload.durable r;
        bytes_written = covered_len completed;
      };
      dirty = true;
    }

unfoldable pub clear_ranges : Journal → Journal
clear_ranges j = record {
  payload = record j.payload { completed = new; durable = new; bytes_written = 0 };
  dirty = true;
}

-- What the crates provide.
pub record Codec : Type 0 where
  pub to_allocvec : JournalPayload → Option (List ℕ)
  pub from_bytes : List ℕ → Option JournalPayload
  pub crc32c : List ℕ → ℕ

-- `to_le_bytes` of a u16 and a u32, and `u32::from_le_bytes`.
unfoldable pub le16 : ℕ → List ℕ
le16 n = n % 256 ∷ n / 256 % 256 ∷ []

unfoldable pub le32 : ℕ → List ℕ
le32 n = n % 256 ∷ n / 256 % 256 ∷ n / 65536 % 256 ∷ n / 16777216 % 256 ∷ []

unfoldable pub from_le16 : ℕ → ℕ → ℕ
from_le16 a b = a + b * 256

unfoldable pub from_le32 : ℕ → ℕ → ℕ → ℕ → ℕ
from_le32 a b c d = a + b * 256 + c * 65536 + d * 16777216

pub data JournalError : Type 0 where
  truncated_header : JournalError
  bad_magic : JournalError
  unsupported_version : ℕ → JournalError
  truncated_body : JournalError
  crc_mismatch : JournalError
  undecodable : JournalError

pub data Loaded : Type 0 where
  no_journal : Loaded
  loaded : Journal → Loaded
  corrupt : JournalError → Loaded

module _ (codec : Codec) where
  -- The record on disk; the length is cut to 32 bits.
  unfoldable pub frame : List ℕ → List ℕ
  unfolding le16 le32
  frame body =
      magic
      ++ (le16 format_version
          ++ (le32 (length body % 2 ^ 32) ++ (le32 (codec.crc32c body) ++ body)))

  -- What `persist_blocking` writes, if the journal is dirty; `none` when the payload cannot be
  -- encoded.
  unfoldable pub persisted : JournalPayload → Option (List ℕ)
  unfolding frame
  persisted p = elim (codec.to_allocvec p) [ none ↦ none | some body ↦ some (frame body) ]

  unfoldable pub decode_body : Option (List ℕ) → ℕ → Loaded
  decode_body none crc = corrupt truncated_body
  decode_body (some body) crc =
      if not (codec.crc32c body == crc)
      then corrupt crc_mismatch
      else elim (codec.from_bytes body) [
        | none ↦ corrupt undecodable
        | some payload ↦ loaded (record { payload = payload; dirty = false })
      ]

  -- `raw.get(18..18 + len)`.
  unfoldable pub body_of : List ℕ → ℕ → Option (List ℕ)
  body_of raw len = if leb (18 + len) (length raw) then some (take len (drop 18 raw)) else none

  unfoldable pub load_raw : List ℕ → Loaded
  unfolding from_le16 from_le32 body_of decode_body
  load_raw raw =
      let at : ℕ → ℕ = λ i. get_or raw i 0 in
      let version = from_le16 (at 8) (at 9) in
      let len = from_le32 (at 10) (at 11) (at 12) (at 13) in
      let crc = from_le32 (at 14) (at 15) (at 16) (at 17) in
      if ltb (length raw) 18
      then corrupt truncated_header
      else if not (same_text (take 8 raw) magic)
      then corrupt bad_magic
      else if not (version == format_version)
      then corrupt (unsupported_version version)
      else decode_body (body_of raw len) crc

  -- The file, if there is one.
  unfoldable pub load_blocking : Option (List ℕ) → Loaded
  unfolding load_raw
  load_blocking none = no_journal
  load_blocking (some raw) = load_raw raw
