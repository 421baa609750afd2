-- ===== src/Storage/Budget/Room.antt =====
-- When a request for memory is given room.
use xde.Prelude.{
  total, ℕ, ◌+◌, ◌-◌, ◌≤◌, ◌<◌, ◌^◌, ◌≡◌, refl, ◌∙◌, ◌⊎◌, inl, inr, true, false, some, arith, leb,
  ltb,
}
use xde.Storage.Budget.{
  MemoryBudget, ProgressClass, frontier, speculative, effective_limit, admit, try_acquire, acquire,
  Tasks, Run,
}
use xde.Storage.Budget.Held.{
  held, held_speculatively, counted_speculatively, total-speculative, idle, Run-idle-IsFair,
}

acquire-fits :
    (b : MemoryBudget) (class : ProgressClass) (bytes : ℕ)
    → bytes ≤ b.limit
    → bytes ≤ effective_limit b class bytes - b.used
    → acquire b class bytes ≡ some (record b { used = b.used + bytes })
unfolding acquire admit try_acquire
acquire-fits b class bytes l m =
    let e : ltb b.limit bytes ≡ false = ground (arith, l) in
    let f : leb bytes (effective_limit b class bytes - b.used) ≡ true = ground (arith, m) in
    rw (e, f) refl

room_when_free :
    (b : MemoryBudget) (class : ProgressClass) (bytes : ℕ)
    → b.used ≡ 0
    → bytes ≤ b.limit
    → bytes ≤ effective_limit b class bytes - b.used
unfolding effective_limit
room_when_free b frontier bytes u l = omega (arith, u, l)
room_when_free b speculative bytes u l = ground (arith, u, l)

-- After any run from an idle budget below 2^64, when the permits that are left hold nothing, every
-- request within the limit is given room.
pub acquire-succeeds :
    (limit reserve : ℕ) (s : Tasks) (class : ProgressClass) (bytes : ℕ)
    → limit < 2 ^ 64
    → Run (idle limit reserve) s
    → total held s.permits ≡ 0
    → bytes ≤ s.budget.limit
    → acquire s.budget class bytes ≡ some (record s.budget { used = s.budget.used + bytes })
acquire-succeeds limit reserve s class bytes l r z m =
    let fair = Run-idle-IsFair limit reserve s l r in
    acquire-fits s.budget class bytes m (room_when_free s.budget class bytes (fair.0 ∙ z) m)

-- After any run from an idle budget below 2^64, a frontier request that fits into the reserve
-- together with what frontier permits hold is given room, unless a single speculative permit is
-- left that holds anything.
pub acquire-frontier :
    (limit reserve : ℕ) (s : Tasks) (bytes : ℕ)
    → limit < 2 ^ 64
    → Run (idle limit reserve) s
    → total held s.permits - total held_speculatively s.permits + bytes ≤ s.budget.reserve
    → ¬ (total counted_speculatively s.permits ≡ 1)
    → acquire s.budget frontier bytes ≡ some (record s.budget { used = s.budget.used + bytes })
unfolding effective_limit
acquire-frontier limit reserve s bytes l r m n =
    let fair = Run-idle-IsFair limit reserve s l r in
    let shared = total-speculative s.permits in
    acquire-fits s.budget frontier bytes (omega (arith, fair.3, m)) (room fair.4)
  where
    room :
        (total held_speculatively s.permits ≤ s.budget.limit - s.budget.reserve)
          ⊎ (total counted_speculatively s.permits ≡ 1)
        → bytes ≤ s.budget.limit - s.budget.used
    room (inl h) =
        let fair = Run-idle-IsFair limit reserve s l r in
        omega (arith, h, m, fair.0, fair.3, (total-speculative s.permits).0)
    room (inr h) = absurd (n h)
