-- ===== src/Shard/Sink/Race.antt =====
-- Two sinks that accept a chunk at the same byte at the same time.
use xde.Prelude.{
  ℕ, ◌+◌, ◌<◌, ◌^◌, ◌≡◌, refl, ap, ◌∙◌, true, false, none, some, List, [], ◌∷◌, arith, wadd,
  wadd-eq, if◌then◌else◌,
}
use xde.Core.Ranges.{ByteRange, range, holds}
use xde.Core.Ranges.Normal.{covers}
use xde.Core.Provenance.{ArtifactProvenance, foreign_spans}
use xde.Core.Provenance.Writers.{Ordered, writer_at}
use xde.Core.Provenance.Record.{first_writer_of, record_write_lem}
use xde.Core.Provenance.Foreign.{Inside, foreign_spans_lem, foreign_spans-Inside}
use xde.Shard.Sink.{
  Artifact, Delivery, entered, listing, comparing, writing, accepted, chunk_range, accept_step,
  accept_steps, record_written,
}
use xde.Shard.Sink.Foreign.{write_chunk-inside}

-- A chunk of one byte.
abbrev pub single : ℕ → ℕ → ℕ → Delivery
single source offset byte = record { source = source; offset = offset; bytes = byte ∷ [] }

Inside-nil :
    (off : ℕ) (cs : List ByteRange)
    → Inside (range off (off + 1)) cs
    → covers cs off ≡ false
    → cs ≡ []
Inside-nil off [] i h = refl
Inside-nil off (c ∷ cs) i h =
    let e : holds c off ≡ true = ground (arith, i.0) in ground (arith, e, h)

unwritten-foreign_spans :
    (p : ArtifactProvenance) (source off byte : ℕ)
    → Ordered 0 p.spans
    → off + 1 < 2 ^ 64
    → writer_at p.spans off ≡ none
    → foreign_spans p (chunk_range off (byte ∷ [])) source ≡ []
unwritten-foreign_spans p source off byte o b w =
    let r = range off (off + 1) in
    let e : wadd off 1 ≡ off + 1 = wadd-eq off 1 b in
    let free : covers (foreign_spans p r source) off ≡ false =
      foreign_spans_lem p r source off o ∙ rw w (ground arith) in
    rw e (Inside-nil off (foreign_spans p r source) (foreign_spans-Inside p r source) free)

-- A byte that nobody wrote passes the check.
unwritten-checked :
    (a : Artifact) (source off byte : ℕ)
    → Ordered 0 a.provenance.spans
    → off + 1 < 2 ^ 64
    → a.provenance.multi_writer ≡ true
    → writer_at a.provenance.spans off ≡ none
    → accept_steps 3 (single source off byte) a entered ≡ (a, writing)
unfolding accept_steps accept_step
unwritten-checked a source off byte o b m w =
    let d = single source off byte in
    let read : accept_step d a entered ≡ (a, listing) =
      ap (λ flag. (a, if flag then listing else writing)) m in
    let listed : accept_step d a listing ≡ (a, comparing []) =
      ap (λ cs. (a, comparing cs)) (unwritten-foreign_spans a.provenance source off byte o b w) in
    ap (λ s. accept_steps 2 d s.0 s.1) read ∙ ap (λ s. accept_steps 1 d s.0 s.1) listed

-- The artifact after a chunk was written and recorded.
abbrev pub written : Delivery → Artifact → Artifact
written d a = (accept_steps 2 d a writing).0

written_file :
    (a : Artifact) (source off byte : ℕ) → (written (single source off byte) a).file off ≡ byte
unfolding accept_steps accept_step record_written
written_file a source off byte =
    write_chunk-inside a.file off (byte ∷ []) off (ground arith) ∙ ground arith

written_writer :
    (a : Artifact) (source off byte : ℕ)
    → Ordered 0 a.provenance.spans
    → off + 1 < 2 ^ 64
    → Ordered 0 (written (single source off byte) a).provenance.spans
      × (writer_at (written (single source off byte) a).provenance.spans off
          ≡ first_writer_of (writer_at a.provenance.spans off) true source)
unfolding accept_steps accept_step record_written
written_writer a source off byte o b =
    let e : wadd off 1 ≡ off + 1 = wadd-eq off 1 b in
    let h : holds (range off (off + 1)) off ≡ true = ground arith in
    let w = record_write_lem a.provenance (range off (wadd off 1)) source o in
    (w.0, w.1 off ∙ rw (e, h) refl)

-- Two sinks with a byte each for an offset below 2^64 - 1 that nobody has written, after two sources
-- have written: if both check before either writes, both go on, and then both are accepted; the
-- file has the byte of the one that writes last, and the other one counts as its writer.
pub accept-race :
    (a : Artifact) (source rival off byte other : ℕ)
    → Ordered 0 a.provenance.spans
    → off + 1 < 2 ^ 64
    → a.provenance.multi_writer ≡ true
    → writer_at a.provenance.spans off ≡ none
    → let d = single source off byte in
      let e = single rival off other in
      let b = written e a in
      let c = written d b in
      (accept_steps 3 d a entered ≡ (a, writing))
      × (accept_steps 3 e a entered ≡ (a, writing))
      × (accept_steps 2 e a writing ≡ (b, accepted))
      × (accept_steps 2 d b writing ≡ (c, accepted))
      × (c.file off ≡ byte)
      × (writer_at c.provenance.spans off ≡ some rival)
unfolding accept_steps accept_step
accept-race a source rival off byte other o l m w =
    let d = single source off byte in
    let e = single rival off other in
    let b = written e a in
    let first = written_writer a rival off other o l in
    let next = written_writer b source off byte first.0 l in
    let won : writer_at b.provenance.spans off ≡ some rival = first.1 ∙ rw w refl in
    (
      unwritten-checked a source off byte o l m w,
      unwritten-checked a rival off other o l m w,
      refl,
      refl,
      written_file b source off byte,
      next.1 ∙ rw won refl,
    )
