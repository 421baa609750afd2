-- ===== src/Storage/Journal/Examples.antt =====
-- A journal of an artifact of eight bytes.
use xde.Prelude.{◌≡◌, refl, false, none, some, [], ◌∷◌, take, length, arith}
use xde.Core.Ranges.{range}
use xde.Core.Representation.{JournaledFingerprint}
use xde.Http.Text.{codes}
use xde.Storage.Journal.{
  JournalPayload, Journal, Codec, le16, le32, frame, persisted, load_raw, loaded, corrupt,
  truncated_body, payload_new, record_completed, mark_completed_durable, invalidate,
}
use xde.Storage.Journal.Sets.{
  IsSound, Run, records, marks, invalidates, done, step, begun, Run-begun-IsSound,
}
use xde.Storage.Journal.Framing.{load_raw-frame, load_raw-torn}

abbrev fingerprint : JournaledFingerprint
fingerprint = record {
  content_length = some 8;
  etag = none;
  last_modified_unix = none;
  final_url = codes "https://example.test/artifact";
  redirect_chain = [];
  header_identity = 0;
  content_coding = none;
}

abbrev payload : JournalPayload
payload = payload_new fingerprint (some 8) 0 100

abbrev new_journal : Journal
new_journal = begun fingerprint (some 8) 0 100

abbrev written : Journal
written = record_completed 101 (range 0 8) new_journal

abbrev partly_invalid : Journal
partly_invalid = invalidate (range 2 6) (mark_completed_durable written)

-- A codec that knows one payload only, as one byte.
abbrev toy : Codec
toy = record { to_allocvec = λ p. some (1 ∷ []); from_bytes = λ b. some payload; crc32c = λ b. 7 }

new-partly_invalid : Run new_journal partly_invalid
new-partly_invalid =
    step new_journal written partly_invalid (records 101 (range 0 8) new_journal (omega arith)) (
      step written _ partly_invalid (marks written) (
        step _ partly_invalid partly_invalid
          (invalidates (range 2 6) (mark_completed_durable written)) (done partly_invalid)))

Run-begun-IsSound_example : IsSound partly_invalid.payload
Run-begun-IsSound_example =
    Run-begun-IsSound fingerprint (some 8) 0 100 partly_invalid new-partly_invalid

length_test : length (frame toy (1 ∷ 2 ∷ [])) ≡ 20
unfolding frame le16 le32
length_test = refl

load_raw-torn_example : load_raw toy (take 19 (frame toy (1 ∷ 2 ∷ []))) ≡ corrupt truncated_body
load_raw-torn_example =
    load_raw-torn toy (1 ∷ 2 ∷ []) 19 (omega arith) (omega arith) (omega (arith, length_test))

load_raw-frame_example :
    (persisted toy payload ≡ some (frame toy (1 ∷ [])))
    × (load_raw toy (frame toy (1 ∷ [])) ≡ loaded (record { payload = payload; dirty = false }))
load_raw-frame_example = load_raw-frame toy (1 ∷ []) payload refl refl (omega arith) (omega arith)
