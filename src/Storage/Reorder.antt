-- ===== src/Storage/Reorder.antt =====
-- `SequentialAdapter` of crates/xde/src/storage/reorder.rs: workers deliver chunks in any order, and
-- an ordered sink gets them in order. The `BTreeMap` of pending chunks is a list sorted by offset.
pub mod Bytes
pub mod Order
pub mod Stuck
pub mod Examples
use xde.Prelude.{
  ℕ, ◌+◌, ◌-◌, Bool, true, false, Option, none, some, List, [], ◌∷◌, ltb, leb, ◌==◌, if◌then◌else◌,
  any, length, drop, wadd, wsub,
}

-- `SequentialDestination`, as far as the adapter uses it: `push` says whether it succeeded, and
-- leaves a state in both cases. A push that failed may have emitted a part of its bytes.
pub record Sink : Type 1 where
  pub Byte : Type 0
  pub State : Type 0
  pub push : State → List Byte → Bool × State

-- `TransferChunk`, without the memory permit that it carries.
pub record Chunk (B : Type 0) : Type 0 where
  pub offset : ℕ
  pub payload : List B

pub data Outcome : Type 0 where
  accepted : Outcome
  duplicate : ℕ → Outcome
  refused : Outcome

pub record SequentialAdapter (B S : Type 0) : Type 0 where
  pub inner : S
  pub next_offset : ℕ
  pub pending : List (Chunk B)
  pub buffered_bytes : ℕ
  pub max_buffered : ℕ

unfoldable pub trim_prefix : {B : Type 0} → ℕ → Chunk B → Chunk B
trim_prefix n c = record { offset = wadd c.offset n; payload = drop n c.payload }

unfoldable pub insert_pending : {B : Type 0} → Chunk B → List (Chunk B) → List (Chunk B)
insert_pending c [] = c ∷ []
insert_pending c (d ∷ ds) = if ltb c.offset d.offset then c ∷ d ∷ ds else d ∷ insert_pending c ds

module _ ⦃sink : Sink⦄ where
  abbrev pub Adapter : Type 0
  Adapter = SequentialAdapter sink.Byte sink.State

  unfoldable pub adapter_new : sink.State → ℕ → ℕ → Adapter
  adapter_new inner start_offset max_buffered = record {
    inner = inner;
    next_offset = start_offset;
    pending = [];
    buffered_bytes = 0;
    max_buffered = max_buffered;
  }

  unfoldable pub has_room : Adapter → ℕ → Bool
  has_room a n = leb (wadd a.buffered_bytes n) a.max_buffered

  unfoldable pub push_now : Adapter → Chunk sink.Byte → Outcome × Adapter
  push_now a c =
      let r = sink.push a.inner c.payload in
      if r.0
      then (accepted, record a { inner = r.1; next_offset = wadd a.next_offset (length c.payload) })
      else (refused, record a { inner = r.1 })

  -- The loop that drains what is contiguous, over the pending chunks.
  unfoldable pub drain : List (Chunk sink.Byte) → Adapter → Outcome × Adapter
  unfolding push_now
  drain [] a = (accepted, record a { pending = [] })
  drain (c ∷ cs) a =
      if c.offset == a.next_offset
      then (let r = sink.push a.inner c.payload in
          let left = wsub a.buffered_bytes (length c.payload) in
          let rest = drain cs (record a {
            inner = r.1;
            next_offset = wadd a.next_offset (length c.payload);
            buffered_bytes = left;
          }) in
          if r.0
          then rest
          else (refused, record a { inner = r.1; pending = cs; buffered_bytes = left }))
      else (accepted, record a { pending = c ∷ cs })

  -- After a push, unless it failed.
  unfoldable pub drain_after : Outcome × Adapter → Outcome × Adapter
  unfolding drain
  drain_after (accepted, a) = drain a.pending a
  drain_after (duplicate n, a) = (duplicate n, a)
  drain_after (refused, a) = (refused, a)

  unfoldable pub push_and_drain : Adapter → Chunk sink.Byte → Outcome × Adapter
  unfolding push_now drain_after
  push_and_drain a c = drain_after (push_now a c)

  unfoldable pub accept : Adapter → Chunk sink.Byte → Outcome × Adapter
  unfolding push_and_drain insert_pending trim_prefix
  accept a c =
      if ltb c.offset a.next_offset
      then (let skip = a.next_offset - c.offset in
          if leb (length c.payload) skip
          then (accepted, a)
          else push_and_drain a (trim_prefix skip c))
      else if c.offset == a.next_offset
      then push_and_drain a c
      else if any (λ d. d.offset == c.offset) a.pending
      then (duplicate c.offset, a)
      else let b = record a {
        buffered_bytes = wadd a.buffered_bytes (length c.payload);
        pending = insert_pending c a.pending;
      } in
        drain b.pending b
