-- ===== src/Storage/Budget.antt =====
-- crates/xde/src/storage/transfer.rs: MemoryBudget, the bytes that payloads may hold together.
-- A task that finds no room waits for a release and tries again; a round of its loop is `try_acquire`,
-- whose compare-and-exchange succeeds as one step. A permit is dropped with the last payload that
-- shares it.
pub mod Held
pub mod Room
pub mod Examples
use xde.Prelude.{
  ℕ, ◌+◌, ◌-◌, ◌≡◌, Option, none, some, List, [], ◌∷◌, ◌++◌, min, max, leb, ltb, if◌then◌else◌,
  wsub, ◌>>=◌,
}

pub record MemoryBudget : Type 0 where
  pub limit : ℕ
  pub used : ℕ
  pub reserve : ℕ

pub data ProgressClass : Type 0 where
  frontier : ProgressClass
  speculative : ProgressClass

pub record MemoryPermit : Type 0 where
  pub class : ProgressClass
  pub bytes : ℕ

unfoldable pub with_reserve : ℕ → ℕ → MemoryBudget
with_reserve limit reserve = record { limit = max limit 1; used = 0; reserve = min reserve limit }

unfoldable pub budget_new : ℕ → MemoryBudget
unfolding with_reserve
budget_new limit = with_reserve limit 0

unfoldable pub available : MemoryBudget → ℕ
available b = b.limit - b.used

-- What a class may use; an oversized speculative request is upgraded.
unfoldable pub effective_limit : MemoryBudget → ProgressClass → ℕ → ℕ
effective_limit b frontier bytes = b.limit
effective_limit b speculative bytes =
    let usable = b.limit - b.reserve in if ltb usable bytes then bytes else usable

-- The guard of `acquire_classed`: a payload beyond the whole budget is a configuration error.
unfoldable pub admit : MemoryBudget → ProgressClass → ℕ → Option ℕ
unfolding effective_limit
admit b class bytes = if ltb b.limit bytes then none else some (effective_limit b class bytes)

-- One round of the loop, with the effective limit.
unfoldable pub try_acquire : MemoryBudget → ℕ → ℕ → Option MemoryBudget
try_acquire b ceiling bytes =
    if leb bytes (ceiling - b.used) then some (record b { used = b.used + bytes }) else none

-- A request that is admitted and finds room.
unfoldable pub acquire : MemoryBudget → ProgressClass → ℕ → Option MemoryBudget
unfolding admit try_acquire
acquire b class bytes = do ceiling ← admit b class bytes; try_acquire b ceiling bytes

-- Dropping a permit.
unfoldable pub release : MemoryBudget → MemoryPermit → MemoryBudget
unfolding wsub
release b p = record b { used = wsub b.used p.bytes }

-- A budget and the permits that are held.
pub record Tasks : Type 0 where
  pub budget : MemoryBudget
  pub permits : List MemoryPermit

-- What tasks do: one acquires, or one drops a permit.
pub data Step : Tasks → Tasks → Type 0 where
  acquires :
      (s : Tasks) (class : ProgressClass) (bytes : ℕ) (b : MemoryBudget)
      → acquire s.budget class bytes ≡ some b
      → Step s
          (record { budget = b; permits = record { class = class; bytes = bytes } ∷ s.permits })
  drops :
      (b : MemoryBudget) (xs ys : List MemoryPermit) (p : MemoryPermit)
      → Step
          (record { budget = b; permits = xs ++ p ∷ ys })
          (record { budget = release b p; permits = xs ++ ys })

pub data Run : Tasks → Tasks → Type 0 where
  done : (s : Tasks) → Run s s
  step : (s t u : Tasks) → Step s t → Run t u → Run s u
