-- ===== src/Http/FullBody.antt =====
-- crates/xde/src/http/fetch.rs: `fetch_full_body`, the body of a response without a range, which is
-- cut into chunks for the sink from offset 0.
pub mod Whole
pub mod Examples
use xde.Prelude.{
  ℕ, zero, suc, ◌+◌, Bool, Option, none, some, List, [], ◌∷◌, ◌++◌, min, ltb, ◌==◌, if◌then◌else◌,
  length, take, drop,
}
use xde.Storage.Reorder.{Chunk}

pub record FullBodyFetch : Type 0 where
  pub memory_limit : ℕ
  pub max_chunk_size : ℕ
  pub accepts : List (Chunk ℕ) → Chunk ℕ → Bool

pub record Position : Type 0 where
  pub offset : ℕ
  pub chunks : List (Chunk ℕ)

abbrev pub amount_of : FullBodyFetch → List ℕ → ℕ
amount_of f bytes = min (min (length bytes) f.memory_limit) f.max_chunk_size

abbrev pub next_chunk : FullBodyFetch → List ℕ → Position → Chunk ℕ
next_chunk f bytes p = record { offset = p.offset; payload = take (amount_of f bytes) bytes }

abbrev pub advance : FullBodyFetch → List ℕ → Position → Position
advance f bytes p = record {
  offset = p.offset + amount_of f bytes;
  chunks = p.chunks ++ next_chunk f bytes p ∷ [];
}

-- The loop over one frame; `none` when the sink fails.
unfoldable pub deliver_loop : FullBodyFetch → ℕ → List ℕ → Position → Option Position
deliver_loop f fuel [] p = some p
deliver_loop f zero (b ∷ bs) p = some p
deliver_loop f (suc fuel) (b ∷ bs) p =
    let bytes = b ∷ bs in
    let rest = deliver_loop f fuel (drop (amount_of f bytes) bytes) (advance f bytes p) in
    if f.accepts p.chunks (next_chunk f bytes p) then rest else none

unfoldable pub deliver_frames : FullBodyFetch → List (List ℕ) → Position → Option Position
unfolding deliver_loop
deliver_frames f [] p = some p
deliver_frames f (bytes ∷ frames) p = elim (deliver_loop f (length bytes) bytes p) [
  | none ↦ none
  | some q ↦ deliver_frames f frames q
]

pub data FullBodyFetched : Type 0 where
  completed : Position → FullBodyFetched
  oversized : ℕ → ℕ → FullBodyFetched
  premature_eof : ℕ → ℕ → FullBodyFetched
  failed : FullBodyFetched

-- The end: the offset against the length that the response declared, if it did.
unfoldable pub conclude : Option ℕ → Option Position → FullBodyFetched
conclude expected none = failed
conclude none (some p) = completed p
conclude (some expected) (some p) =
    if p.offset == expected
    then completed p
    else (if ltb expected p.offset
        then oversized p.offset expected
        else premature_eof p.offset expected)

unfoldable pub fetch_full_body : FullBodyFetch → Option ℕ → List (List ℕ) → FullBodyFetched
unfolding deliver_frames conclude
fetch_full_body f expected frames =
    conclude expected (deliver_frames f frames (record { offset = 0; chunks = [] }))
