-- ===== src/Http/Fetch.antt =====
-- crates/xde/src/http/fetch.rs: the body of a range response, as it is cut into chunks for the
-- sink. The frames of the body are given; the sink is asked whether it takes a chunk after those
-- that it has, and its live boundary is read anew in every round, since another worker may lower
-- it. Memory is always granted in the end, for no chunk exceeds the limit.
pub mod Rounds
pub mod Whole
pub mod Examples
use xde.Prelude.{
  ℕ, zero, suc, ◌+◌, ◌-◌, Bool, true, false, not, ◌&&◌, Option, none, some, List, [], ◌∷◌, ◌++◌,
  min, max, ltb, leb, ◌==◌, if◌then◌else◌, length, take, drop, wadd,
}
use xde.Core.Ranges.{ByteRange, len}
use xde.Storage.Reorder.{Chunk}

pub record RangeFetch : Type 0 where
  pub wire_range : ByteRange
  pub owned : ByteRange
  pub memory_limit : ℕ
  pub max_chunk_size : ℕ
  pub end_offset : Option (ℕ → ℕ)
  pub accepts : List (Chunk ℕ) → Chunk ℕ → Bool

-- What the loops keep, with the rounds and the chunks that the sink took.
pub record Progress : Type 0 where
  pub offset : ℕ
  pub received : ℕ
  pub useful_received : ℕ
  pub truncated : Bool
  pub rounds : ℕ
  pub chunks : List (Chunk ℕ)

pub data Delivery : Type 0 where
  delivered : Progress → Delivery
  oversized_body : ℕ → ℕ → Delivery
  sink_failed : Delivery

pub data Round : Type 0 where
  finished : Delivery → Round
  again : List ℕ → Progress → Round

abbrev pub is_none : {A : Type 0} → Option A → Bool
is_none none = true
is_none (some a) = false

unfoldable pub dynamic_end : RangeFetch → Progress → ℕ
dynamic_end f p = elim f.end_offset [
  | none ↦ f.wire_range.end
  | some read ↦ min (read p.rounds) f.wire_range.end
]

unfoldable pub amount_of : RangeFetch → List ℕ → Progress → ℕ
unfolding dynamic_end
amount_of f bytes p =
    min (min (min (length bytes) (dynamic_end f p - p.offset)) f.memory_limit) f.max_chunk_size

-- The bookkeeping after the sink took a chunk of the given size.
unfoldable pub advance : RangeFetch → ℕ → Chunk ℕ → Progress → Progress
advance f amount chunk p = record {
  offset = p.offset + amount;
  received = p.received + amount;
  useful_received =
      p.useful_received + (min (p.offset + amount) f.owned.end - max p.offset f.owned.start);
  truncated = p.truncated;
  rounds = suc p.rounds;
  chunks = p.chunks ++ chunk ∷ [];
}

-- A round of the loop of `deliver_range_bytes`.
unfoldable pub deliver_round : RangeFetch → List ℕ → Progress → Round
unfolding amount_of advance len dynamic_end
deliver_round f [] p = finished (delivered p)
deliver_round f (b ∷ bs) p =
    let bytes = b ∷ bs in
    let end = dynamic_end f p in
    let amount = amount_of f bytes p in
    let chunk : Chunk ℕ = record { offset = p.offset; payload = take amount bytes } in
    if leb end p.offset
    then finished
        (delivered (record p { truncated = ltb end f.wire_range.end; rounds = suc p.rounds }))
    else if ltb (f.wire_range.end - p.offset) (length bytes) && is_none f.end_offset
    then finished (oversized_body (p.received + length bytes) (len f.wire_range))
    else if f.accepts p.chunks chunk
    then again (drop amount bytes) (advance f amount chunk p)
    else finished sink_failed

unfoldable pub deliver_loop : RangeFetch → ℕ → List ℕ → Progress → Delivery
unfolding deliver_round
deliver_loop f zero bytes p = delivered p
deliver_loop f (suc fuel) bytes p = elim (deliver_round f bytes p) [
  | finished d ↦ d
  | again rest q ↦ deliver_loop f fuel rest q
]

-- Every round but the last takes a byte at least.
unfoldable pub deliver_range_bytes : RangeFetch → List ℕ → Progress → Delivery
unfolding deliver_loop
deliver_range_bytes f bytes p = deliver_loop f (suc (length bytes)) bytes p

pub data Fetched : Type 0 where
  fully_consumed : Progress → Fetched
  intentionally_truncated : Progress → Fetched
  oversized : ℕ → ℕ → Fetched
  premature_eof : ℕ → ℕ → Fetched
  failed : Fetched

-- The end of `fetch_range`.
unfoldable pub conclude : RangeFetch → Progress → Fetched
unfolding len
conclude f p =
    if not p.truncated && not (p.received == len f.wire_range)
    then (if ltb (len f.wire_range) p.received
        then oversized p.received (len f.wire_range)
        else premature_eof p.received (len f.wire_range))
    else (if p.truncated then intentionally_truncated p else fully_consumed p)

-- The loop of `fetch_range` over the frames of the body.
unfoldable pub receive : RangeFetch → List (List ℕ) → Progress → Fetched
unfolding deliver_range_bytes conclude
receive f [] p = conclude f p
receive f (bytes ∷ frames) p = elim (deliver_range_bytes f bytes p) [
  | delivered q ↦ if q.truncated then conclude f q else receive f frames q
  | oversized_body received expected ↦ oversized received expected
  | sink_failed ↦ failed
]

unfoldable pub fetch_body : RangeFetch → List (List ℕ) → Fetched
unfolding receive
fetch_body f frames = receive f frames (record {
  offset = f.wire_range.start;
  received = 0;
  useful_received = 0;
  truncated = false;
  rounds = 0;
  chunks = [];
})
