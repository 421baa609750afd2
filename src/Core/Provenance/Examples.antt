-- ===== src/Core/Provenance/Examples.antt =====
-- A file that two sources have written.
use xde.Prelude.{ℕ, ◌≡◌, refl, true, false, some, [], ◌∷◌, arith, ◌&&◌}
use xde.Core.Ranges.{range, holds, intersection}
use xde.Core.Ranges.Normal.{covers}
use xde.Core.Provenance.{
  ArtifactProvenance, record_write, record_spans, extend_last, carve_all, carve, carve_one,
  insert_spans, insert_span, sort_by_start, sort_insert, merge_spans, merge_from, foreign_spans,
}
use xde.Core.Provenance.Writers.{Ordered, writer_at}
use xde.Core.Provenance.Record.{first_writer_of, record_write_lem}
use xde.Core.Provenance.Foreign.{is_foreign, foreign_spans_lem}
use xde.Core.Provenance.Sole.{SoleWriter}

abbrev alone : ArtifactProvenance
alone = record {
  spans = record { bytes = range 0 1000; writer = 1 } ∷ [];
  first_writer = some 1;
  multi_writer = false;
}

abbrev shared : ArtifactProvenance
shared = record {
  spans =
      record { bytes = range 0 1000; writer = 1 }
      ∷ record { bytes = range 1000 1500; writer = 2 }
      ∷ [];
  first_writer = some 1;
  multi_writer = true;
}

record_test : record_write alone (range 500 1500) 2 ≡ shared
unfolding record_write record_spans extend_last carve_all carve carve_one insert_spans insert_span
    sort_by_start sort_insert merge_spans merge_from intersection
record_test = refl

alone-Ordered : Ordered 0 alone.spans
alone-Ordered = (omega arith, omega arith, tt)

shared-Ordered : Ordered 0 shared.spans
shared-Ordered = (omega arith, omega arith, (omega arith, omega arith, tt))

alone-SoleWriter : SoleWriter alone
alone-SoleWriter off w e h = ground (arith, h)

record_write_example :
    Ordered 0 (record_write alone (range 500 1500) 2).spans
    × ((off : ℕ)
        → writer_at (record_write alone (range 500 1500) 2).spans off
          ≡ first_writer_of (writer_at alone.spans off) (holds (range 500 1500) off) 2)
record_write_example = record_write_lem alone (range 500 1500) 2 alone-Ordered

foreign_spans_example :
    covers (foreign_spans shared (range 400 800) 2) 500
    ≡ (true && holds (range 400 800) 500 && is_foreign (writer_at shared.spans 500) 2)
foreign_spans_example = foreign_spans_lem shared (range 400 800) 2 500 shared-Ordered
