-- ===== src/Storage/Reorder/Examples.antt =====
-- An adapter over a sink that keeps everything, and the theorems applied there.
use xde.Prelude.{ℕ, ◌≡◌, refl, true, false, take, List, [], ◌∷◌, ◌++◌, arith, wadd}
use xde.Storage.Reorder.{Sink, Chunk, accepted, refused, adapter_new, accept, Adapter}
use xde.Storage.Reorder.Order.{IsLog, IsFaithful, Delivered, accept-Delivered}
use xde.Storage.Reorder.Stuck.{Overtaken, accept-Overtaken}

abbrev recorder : Sink
recorder = record { Byte = ℕ; State = List ℕ; push = λ s bs. (true, s ++ bs) }

recorder-IsLog : IsLog recorder
recorder-IsLog = record { log = λ s. s; log-push = λ s bs e. refl }

-- The byte at an offset is the offset.
abbrev count : ℕ → ℕ
count o = o

abbrev empty_adapter : Adapter ⦃sink = recorder⦄
empty_adapter = adapter_new ⦃sink = recorder⦄ [] 0 100

abbrev late_chunk : Chunk ℕ
late_chunk = record { offset = 2; payload = 2 ∷ 3 ∷ [] }

-- A chunk that comes too early waits.
waiting_test :
    accept ⦃sink = recorder⦄ empty_adapter late_chunk
    ≡ (accepted, record empty_adapter { pending = late_chunk ∷ []; buffered_bytes = 2 })
unfolding accept adapter_new wadd
waiting_test = refl

empty_adapter-IsFaithful : IsFaithful ⦃sink = recorder⦄ recorder-IsLog count 0 empty_adapter
unfolding adapter_new recorder-IsLog
empty_adapter-IsFaithful = record {
  sent = record { reached = omega arith; delivered = refl };
  waiting = tt;
}

accept-Delivered_example :
    Delivered ⦃sink = recorder⦄ recorder-IsLog count 0
      (accept ⦃sink = recorder⦄ empty_adapter late_chunk)
accept-Delivered_example =
    accept-Delivered ⦃sink = recorder⦄ recorder-IsLog count 0 empty_adapter late_chunk
      empty_adapter-IsFaithful (refl, omega arith)

-- A pipe that closes: it emits the first byte of what it is given, and fails.
abbrev closing : Sink
closing = record { Byte = ℕ; State = List ℕ; push = λ s bs. (false, s ++ take 1 bs) }

closing_test :
    accept ⦃sink = closing⦄
      (adapter_new ⦃sink = closing⦄ [] 0 100)
      (record { offset = 0; payload = 0 ∷ 1 ∷ [] })
    ≡ (refused, adapter_new ⦃sink = closing⦄ (0 ∷ []) 0 100)
unfolding accept adapter_new
closing_test = refl

-- The bytes up to 3 were pushed while the chunk at 2 waits.
abbrev stuck_adapter : Adapter ⦃sink = recorder⦄
stuck_adapter = record {
  inner = 0 ∷ 1 ∷ 2 ∷ [];
  next_offset = 3;
  pending = late_chunk ∷ [];
  buffered_bytes = 2;
  max_buffered = 100;
}

-- The chunk that overlaps it pushes byte 2, and the rest of the waiting chunk is not delivered.
overtaken_test :
    (accept ⦃sink = recorder⦄
      (accept ⦃sink = recorder⦄ empty_adapter late_chunk).1
      (record { offset = 0; payload = 0 ∷ 1 ∷ 2 ∷ [] })).1
    ≡ stuck_adapter
unfolding accept adapter_new wadd
overtaken_test = refl

accept-Overtaken_example :
    (es : List (Chunk ℕ)) × Overtaken ⦃sink = recorder⦄
      (accept ⦃sink = recorder⦄ stuck_adapter (record { offset = 3; payload = 3 ∷ [] })).1
      late_chunk
      es
accept-Overtaken_example =
    accept-Overtaken ⦃sink = recorder⦄ stuck_adapter (record { offset = 3; payload = 3 ∷ [] })
      late_chunk [] (omega arith) (refl, omega arith)
