-- ===== src/Http/Fetch/Examples.antt =====
-- A range of four bytes, from a body in two frames.
use xde.Prelude.{ℕ, zero, suc, ◌≡◌, refl, true, false, none, some, List, [], ◌∷◌, arith, wsub}
use xde.Core.Ranges.{range, len}
use xde.Http.Fetch.{
  RangeFetch, fully_consumed, intentionally_truncated, premature_eof, fetch_body, receive, conclude,
  deliver_range_bytes, deliver_loop, deliver_round, amount_of, dynamic_end, advance,
}
use xde.Http.Fetch.Whole.{Outcome, joined, fetch_body-Outcome}

abbrev four : RangeFetch
four = record {
  wire_range = range 10 14;
  owned = range 10 14;
  memory_limit = 100;
  max_chunk_size = 2;
  end_offset = none;
  accepts = λ chunks c. true;
}

-- The boundary is lowered to 12 before the second round.
abbrev stolen : RangeFetch
stolen = record four { end_offset = some (λ round. if_first round) }
  where
    if_first : ℕ → ℕ
    if_first zero = 14
    if_first (suc n) = 12

abbrev body : List (List ℕ)
body = (1 ∷ 2 ∷ 3 ∷ []) ∷ (4 ∷ []) ∷ []

whole_test :
    fetch_body four body
    ≡ fully_consumed (record {
      offset = 14;
      received = 4;
      useful_received = 4;
      truncated = false;
      rounds = 3;
      chunks =
          record { offset = 10; payload = 1 ∷ 2 ∷ [] }
          ∷ record { offset = 12; payload = 3 ∷ [] }
          ∷ record { offset = 13; payload = 4 ∷ [] }
          ∷ [];
    })
unfolding fetch_body receive conclude deliver_range_bytes deliver_loop deliver_round amount_of
    dynamic_end advance len wsub
whole_test = refl

stolen_test :
    fetch_body stolen body
    ≡ intentionally_truncated (record {
      offset = 12;
      received = 2;
      useful_received = 2;
      truncated = true;
      rounds = 2;
      chunks = record { offset = 10; payload = 1 ∷ 2 ∷ [] } ∷ [];
    })
unfolding fetch_body receive conclude deliver_range_bytes deliver_loop deliver_round amount_of
    dynamic_end advance len wsub
stolen_test = refl

short_test : fetch_body four ((1 ∷ []) ∷ []) ≡ premature_eof 1 4
unfolding fetch_body receive conclude deliver_range_bytes deliver_loop deliver_round amount_of
    dynamic_end advance len wsub
short_test = refl

fetch_body-Outcome_example : Outcome four (joined body) (fetch_body four body)
fetch_body-Outcome_example =
    fetch_body-Outcome four body (omega arith, omega arith, omega arith) (omega arith)
