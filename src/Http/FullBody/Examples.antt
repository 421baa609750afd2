-- ===== src/Http/FullBody/Examples.antt =====
-- A body of three bytes in two frames, of declared and of unknown length.
use xde.Prelude.{ℕ, ◌≡◌, refl, true, some, List, [], ◌∷◌, arith}
use xde.Http.Fetch.Whole.{joined}
use xde.Http.FullBody.{
  FullBodyFetch, premature_eof, fetch_full_body, deliver_frames, deliver_loop, conclude,
}
use xde.Http.FullBody.Whole.{Outcome, fetch_full_body-Outcome}

abbrev fetch : FullBodyFetch
fetch = record { memory_limit = 100; max_chunk_size = 1; accepts = λ chunks c. true }

abbrev body : List (List ℕ)
body = (1 ∷ 2 ∷ []) ∷ (3 ∷ []) ∷ []

premature_test : fetch_full_body fetch (some 4) body ≡ premature_eof 3 4
unfolding fetch_full_body deliver_frames deliver_loop conclude
premature_test = refl

fetch_full_body-Outcome_example :
    Outcome (some 3) (joined body) (fetch_full_body fetch (some 3) body)
fetch_full_body-Outcome_example =
    fetch_full_body-Outcome fetch (some 3) body (omega arith) (omega arith)
