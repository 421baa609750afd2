-- ===== src/Shard/Sink/Foreign.antt =====
-- What the accesses of sinks do to a byte that another source wrote first.
use xde.Prelude.{
  ℕ, ◌+◌, ◌-◌, ◌≡◌, refl, ◌∙◌, Bool, true, false, ◌&&◌, Option, none, some, List, [], ◌∷◌, arith,
  leb, ltb, length, get_or, wadd, Bool-cases, inl, inr, not, ◌||◌, ◌==◌,
}
use xde.Core.Ranges.{ByteRange, range, holds, is_empty}
use xde.Core.Provenance.{ArtifactProvenance, record_write}
use xde.Core.Provenance.Writers.{Ordered, writer_at}
use xde.Core.Provenance.Record.{first_writer_of, record_write_lem}
use xde.Core.Provenance.Foreign.{is_foreign}
use xde.Shard.Sink.{
  Artifact, Delivery, Call, entered, listing, comparing, writing, recording, accepted,
  overlap_mismatch, write_chunk, record_written, accept_step,
}

-- Where the chunk of a delivery lies.
abbrev pub extent : Delivery → ByteRange
extent d = range d.offset (d.offset + length d.bytes)

write_chunk-outside :
    (file : ℕ → ℕ) (offset : ℕ) (bytes : List ℕ) (off : ℕ)
    → holds (range offset (offset + length bytes)) off ≡ false
    → write_chunk file offset bytes off ≡ file off
unfolding write_chunk
write_chunk-outside file offset bytes off h =
    let e : (leb offset off && ltb off (offset + length bytes)) ≡ false = ground (arith, h) in
    rw e refl

pub write_chunk-inside :
    (file : ℕ → ℕ) (offset : ℕ) (bytes : List ℕ) (off : ℕ)
    → holds (range offset (offset + length bytes)) off ≡ true
    → write_chunk file offset bytes off ≡ get_or bytes (off - offset) 0
unfolding write_chunk
write_chunk-inside file offset bytes off h =
    let e : (leb offset off && ltb off (offset + length bytes)) ≡ true = ground (arith, h) in
    rw e refl

record_write-multi_writer :
    (p : ArtifactProvenance) (r : ByteRange) (source : ℕ)
    → p.multi_writer ≡ true
    → (record_write p r source).multi_writer ≡ true
unfolding record_write
record_write-multi_writer p r source h = elim (Bool-cases (is_empty r)) [
  | inl e ↦ rw e h
  | inr e ↦ rw e (flag p.first_writer)
]
  where
    flag :
        (w : Option ℕ)
        → (elim w [ none ↦ p.multi_writer | some v ↦ p.multi_writer || not (v == source) ]) ≡ true
    flag none = h
    flag (some v) = ground (arith, h)

-- A byte with value `v` that another source than `source` wrote first, once two have written.
pub record Foreign (source off v : ℕ) (a : Artifact) : Type 0 where
  pub ordered : Ordered 0 a.provenance.spans
  pub mixed : a.provenance.multi_writer ≡ true
  pub foreign : is_foreign (writer_at a.provenance.spans off) source ≡ true
  pub value : a.file off ≡ v

first_writer_of-foreign :
    (w : Option ℕ) (written : Bool) (by source : ℕ)
    → is_foreign w source ≡ true
    → is_foreign (first_writer_of w written by) source ≡ true
first_writer_of-foreign none written by source h = cc h
first_writer_of-foreign (some w) written by source h = h

pub record_written-Foreign :
    (source off v by offset n : ℕ) (a : Artifact)
    → Foreign source off v a
    → Foreign source off v (record_written a by offset n)
unfolding record_written
record_written-Foreign source off v by offset n a f =
    let r = range offset (wadd offset n) in
    let w = record_write_lem a.provenance r by f.ordered in
    record {
      ordered = w.0;
      mixed = record_write-multi_writer a.provenance r by f.mixed;
      foreign = rw (w.1 off) (
          first_writer_of-foreign (writer_at a.provenance.spans off) (holds r off) by source
            f.foreign);
      value = f.value;
    }

-- No access for a chunk that lies apart changes it.
pub other-Foreign :
    (source off v : ℕ) (e : Delivery) (m : Call) (a : Artifact)
    → holds (extent e) off ≡ false
    → Foreign source off v a
    → Foreign source off v (accept_step e a m).0
unfolding accept_step
other-Foreign source off v e entered a h f = f
other-Foreign source off v e listing a h f = f
other-Foreign source off v e (comparing []) a h f = f
other-Foreign source off v e (comparing (c ∷ cs)) a h f = f
other-Foreign source off v e writing a h f = record {
  ordered = f.ordered;
  mixed = f.mixed;
  foreign = f.foreign;
  value = write_chunk-outside a.file e.offset e.bytes off h ∙ f.value;
}
other-Foreign source off v e recording a h f =
    record_written-Foreign source off v e.source e.offset (length e.bytes) a f
other-Foreign source off v e accepted a h f = f
other-Foreign source off v e (overlap_mismatch at) a h f = f
