-- ===== src/Shard/Sink/Examples.antt =====
-- A file that source 1 began and source 2 goes on with.
use xde.Prelude.{
  ℕ, ◌≡◌, ◌↔◌, refl, true, none, some, [], ◌∷◌, arith, ◌&&◌, ◌-◌, List, get_or, wadd, wsub,
}
use xde.Core.Ranges.{range, holds, intersection, len}
use xde.Core.Provenance.{foreign_spans, foreign_loop}
use xde.Core.Provenance.Writers.{Ordered, writer_at}
use xde.Core.Provenance.Foreign.{is_foreign}
use xde.Shard.Sink.{
  Artifact, Delivery, entered, listing, writing, accepted, overlap_mismatch, accept_step,
  accept_steps, check_cross_source, read_back, mine,
}
use xde.Shard.Sink.Attribution.{check_cross_source_iff}
use xde.Shard.Sink.Interleaved.{Run, own, other, done, Passed, Run-accept-foreign}
use xde.Shard.Sink.Race.{single, written, accept-race}

abbrev begun : Artifact
begun = record {
  file = λ off. 7;
  provenance = record {
    spans =
        record { bytes = range 0 4; writer = 1 } ∷ record { bytes = range 4 6; writer = 2 } ∷ [];
    first_writer = some 1;
    multi_writer = true;
  };
}

begun-Ordered : Ordered 0 begun.provenance.spans
begun-Ordered = (omega arith, omega arith, (omega arith, omega arith, tt))

abbrev sevens : List ℕ
sevens = 7 ∷ 7 ∷ 8 ∷ []

abbrev resumed : Delivery
resumed = record { source = 2; offset = 2; bytes = sevens }

abbrev finished : Artifact
finished = (accept_steps 6 resumed begun entered).0

-- The chunk is compared with bytes 2 and 3, and written.
accepted_test : accept_steps 6 resumed begun entered ≡ (finished, accepted)
unfolding accept_steps accept_step foreign_spans foreign_loop read_back mine wadd intersection len
    wsub
accepted_test = refl

-- Another byte at offset 3 is a mismatch at the start of the conflict.
mismatch_test :
    (accept_steps 6 (record resumed { bytes = 7 ∷ 9 ∷ [] }) begun entered).1 ≡ overlap_mismatch 2
unfolding accept_steps accept_step foreign_spans foreign_loop read_back mine wadd intersection len
    wsub
mismatch_test = refl

check_cross_source_example : (check_cross_source begun 2 2 sevens ≡ none) ↔ (
    (off : ℕ)
    → (true && holds (range 2 5) off && is_foreign (writer_at begun.provenance.spans off) 2) ≡ true
    → 7 ≡ get_or sevens (off - 2) 0)
check_cross_source_example = check_cross_source_iff begun 2 2 sevens begun-Ordered (omega arith)

-- A source that writes behind the chunk.
abbrev elsewhere : Delivery
elsewhere = record { source = 3; offset = 9; bytes = 1 ∷ [] }

abbrev disturbed : Artifact
disturbed = (accept_step elsewhere begun writing).0

abbrev ended : Artifact
ended = (accept_steps 5 resumed disturbed listing).0

-- The other source writes after the flag was read, and the call goes on to its end.
disturbed-Run : Run resumed begun entered ended accepted
unfolding accept_steps accept_step foreign_spans foreign_loop read_back mine wadd intersection len
    wsub
disturbed-Run = own begun _ entered _ (
    other elsewhere writing _ _ _ _ (omega arith, λ off h. ground (arith, h))
      (own _ _ _ _ (own _ _ _ _ (own _ _ _ _ (own _ _ _ _ (own _ _ _ _ (done _ _)))))))

Run-accept-foreign_example :
    (ended.file 3 ≡ begun.file 3)
    × (is_foreign (writer_at ended.provenance.spans 3) 2 ≡ true)
    × Passed resumed 3 (begun.file 3) accepted
Run-accept-foreign_example =
    Run-accept-foreign resumed begun ended accepted 3 begun-Ordered (omega arith) refl refl refl
      disturbed-Run

accept-race_example :
    let d = single 2 6 8 in
    let e = single 1 6 9 in
    let b = written e begun in
    let c = written d b in
    (accept_steps 3 d begun entered ≡ (begun, writing))
    × (accept_steps 3 e begun entered ≡ (begun, writing))
    × (accept_steps 2 e begun writing ≡ (b, accepted))
    × (accept_steps 2 d b writing ≡ (c, accepted))
    × (c.file 6 ≡ 8)
    × (writer_at c.provenance.spans 6 ≡ some 1)
accept-race_example = accept-race begun 2 1 6 8 9 begun-Ordered (omega arith) refl refl
