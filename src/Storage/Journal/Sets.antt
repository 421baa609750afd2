-- ===== src/Storage/Journal/Sets.antt =====
-- What a journal says is written, and what it says survives a crash.
use xde.Prelude.{ℕ, ◌<◌, ◌^◌, ◌≡◌, refl, true, Option, arith}
use xde.Core.Ranges.{ByteRange, covered_len}
use xde.Core.Ranges.Normal.{covers, IsValid}
use xde.Core.Ranges.Canonical.{new-IsValid}
use xde.Core.Ranges.Insert.{insert-IsValid, covers-insert}
use xde.Core.Ranges.Remove.{remove-IsValid, covers-remove}
use xde.Core.Representation.{JournaledFingerprint}
use xde.Storage.Journal.{
  Journal, JournalPayload, record_completed, mark_completed_durable, invalidate, clear_ranges,
  create, payload_new,
}

-- Both sets are valid, what is durable is completed, and the counter is the size of the completed
-- set.
pub record IsSound (p : JournalPayload) : Type 0 where
  pub completed_valid : IsValid p.completed
  pub durable_valid : IsValid p.durable
  pub durable_completed :
      (off : ℕ) → covers p.durable.ranges off ≡ true → covers p.completed.ranges off ≡ true
  pub counted : p.bytes_written ≡ covered_len p.completed

-- What may happen to a journal.
pub data Step : Journal → Journal → Type 0 where
  records :
      (now : ℕ) (r : ByteRange) (j : Journal) → r.end < 2 ^ 64 → Step j (record_completed now r j)
  marks : (j : Journal) → Step j (mark_completed_durable j)
  invalidates : (r : ByteRange) (j : Journal) → Step j (invalidate r j)
  clears : (j : Journal) → Step j (clear_ranges j)

pub data Run : Journal → Journal → Type 0 where
  done : (j : Journal) → Run j j
  step : (j k m : Journal) → Step j k → Run k m → Run j m

Step-IsSound : (j k : Journal) → Step j k → IsSound j.payload → IsSound k.payload
unfolding record_completed mark_completed_durable invalidate clear_ranges covered_len
Step-IsSound j k (records now r _ l) s = record {
  completed_valid = insert-IsValid j.payload.completed r s.completed_valid l;
  durable_valid = s.durable_valid;
  durable_completed = λ off e.
      ground (
        arith,
        covers-insert j.payload.completed r off s.completed_valid,
        s.durable_completed off e,
      );
  counted = refl;
}
Step-IsSound j k (marks _) s = record {
  completed_valid = s.completed_valid;
  durable_valid = s.completed_valid;
  durable_completed = λ off e. e;
  counted = s.counted;
}
Step-IsSound j k (invalidates r _) s = record {
  completed_valid = remove-IsValid j.payload.completed r s.completed_valid;
  durable_valid = remove-IsValid j.payload.durable r s.durable_valid;
  durable_completed = λ off e. ground (
    arith,
    e,
    covers-remove j.payload.completed r off s.completed_valid,
    covers-remove j.payload.durable r off s.durable_valid,
    s.durable_completed off,
  );
  counted = refl;
}
Step-IsSound j k (clears _) s = record {
  completed_valid = new-IsValid;
  durable_valid = new-IsValid;
  durable_completed = λ off e. e;
  counted = refl;
}

Run-IsSound : (j k : Journal) → Run j k → IsSound j.payload → IsSound k.payload
Run-IsSound j k (done _) s = s
Run-IsSound j k (step _ m _ a r) s = Run-IsSound m k r (Step-IsSound j m a s)

-- A new journal.
abbrev pub begun : JournaledFingerprint → Option ℕ → ℕ → ℕ → Journal
begun fingerprint total overlap now = create (payload_new fingerprint total overlap now)

-- Whatever ranges below 2^64 are recorded, marked durable and invalidated in a new journal, its
-- sets stay valid, what is durable is completed, and the counter is the size of what is completed.
pub Run-begun-IsSound :
    (fingerprint : JournaledFingerprint) (total : Option ℕ) (overlap now : ℕ) (j : Journal)
    → Run (begun fingerprint total overlap now) j
    → IsSound j.payload
unfolding payload_new create covered_len
Run-begun-IsSound fingerprint total overlap now j r =
    Run-IsSound (begun fingerprint total overlap now) j r (record {
      completed_valid = new-IsValid;
      durable_valid = new-IsValid;
      durable_completed = λ off e. e;
      counted = refl;
    })
