-- ===== src/Shard/Sink.antt =====
-- crates/xde/src/shard.rs: LaneSink, which writes the chunks of one source to the artifact and
-- compares them with what other sources wrote. The file is a function from offsets to bytes; reads
-- and writes of the lane succeed here, each of them at once, and credits are taken and given back
-- around the write. Between two accesses to the file or to the provenance, other sinks have theirs.
pub mod Attribution
pub mod Foreign
pub mod Interleaved
pub mod Race
pub mod Examples
use xde.Prelude.{
  ℕ, zero, suc, ◌+◌, ◌-◌, Bool, true, false, ◌&&◌, Option, none, some, List, [], ◌∷◌, leb, ltb,
  if◌then◌else◌, length, get_or, take, drop, wadd,
}
use xde.Core.Ranges.{ByteRange, range, len, holds}
use xde.Core.Provenance.{ArtifactProvenance, foreign_spans, record_write}
use xde.Http.Text.{same_text}

pub record Artifact : Type 0 where
  pub file : ℕ → ℕ
  pub provenance : ArtifactProvenance

-- `lane.read_back(start, len)`.
unfoldable pub read_back : (ℕ → ℕ) → ℕ → ℕ → List ℕ
read_back file start zero = []
read_back file start (suc n) = file start ∷ read_back file (suc start) n

-- `lane.write_chunk(chunk)`.
unfoldable pub write_chunk : (ℕ → ℕ) → ℕ → List ℕ → ℕ → ℕ
write_chunk file offset bytes off =
    if leb offset off && ltb off (offset + length bytes)
    then get_or bytes (off - offset) 0
    else file off

abbrev pub chunk_range : ℕ → List ℕ → ByteRange
chunk_range offset bytes = range offset (wadd offset (length bytes))

-- The part of the chunk that a conflict is about.
unfoldable pub mine : ℕ → List ℕ → ByteRange → List ℕ
mine offset bytes conflict = take (len conflict) (drop (conflict.start - offset) bytes)

-- The loop over the conflicts, with the offset of the first one that disagrees, when nothing is
-- written meanwhile.
unfoldable pub check_conflicts : (ℕ → ℕ) → ℕ → List ℕ → List ByteRange → Option ℕ
unfolding read_back mine
check_conflicts file offset bytes [] = none
check_conflicts file offset bytes (c ∷ cs) =
    let rest = check_conflicts file offset bytes cs in
    if same_text (read_back file c.start (len c)) (mine offset bytes c) then rest else some c.start

unfoldable pub check_cross_source : Artifact → ℕ → ℕ → List ℕ → Option ℕ
unfolding check_conflicts
check_cross_source a source offset bytes =
    check_conflicts a.file offset bytes
      (foreign_spans a.provenance (chunk_range offset bytes) source)

unfoldable pub record_written : Artifact → ℕ → ℕ → ℕ → Artifact
record_written a source offset n = record a {
  provenance = record_write a.provenance (range offset (wadd offset n)) source;
}

-- A chunk and the source that delivers it.
pub record Delivery : Type 0 where
  pub source : ℕ
  pub offset : ℕ
  pub bytes : List ℕ

-- Where a call of `accept` is: each state is left by one access to what the sinks share, and other
-- sinks go on between the accesses.
pub data Call : Type 0 where
  entered : Call
  listing : Call
  comparing : List ByteRange → Call
  writing : Call
  recording : Call
  accepted : Call
  overlap_mismatch : ℕ → Call

-- One access of `accept`: it reads the flag, takes the foreign spans, reads one conflict back,
-- writes the chunk or records it.
unfoldable pub accept_step : Delivery → Artifact → Call → Artifact × Call
unfolding read_back mine write_chunk record_written
accept_step d a entered = (a, if a.provenance.multi_writer then listing else writing)
accept_step d a listing =
    (a, comparing (foreign_spans a.provenance (chunk_range d.offset d.bytes) d.source))
accept_step d a (comparing []) = (a, writing)
accept_step d a (comparing (c ∷ cs)) = (
  a,
  if same_text (read_back a.file c.start (len c)) (mine d.offset d.bytes c)
      then comparing cs
      else overlap_mismatch c.start,
)
accept_step d a writing = (record a { file = write_chunk a.file d.offset d.bytes }, recording)
accept_step d a recording = (record_written a d.source d.offset (length d.bytes), accepted)
accept_step d a accepted = (a, accepted)
accept_step d a (overlap_mismatch at) = (a, overlap_mismatch at)

-- Some accesses in a row, without those of other sinks.
unfoldable pub accept_steps : ℕ → Delivery → Artifact → Call → Artifact × Call
unfolding accept_step
accept_steps zero d a k = (a, k)
accept_steps (suc n) d a k = let s = accept_step d a k in accept_steps n d s.0 s.1
