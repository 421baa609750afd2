-- ===== src/Storage/Budget/Examples.antt =====
-- A budget of 100 bytes, of which 20 are reserved.
use xde.Prelude.{◌≡◌, refl, none, some, [], ◌∷◌, arith}
use xde.Storage.Budget.{
  frontier, speculative, with_reserve, effective_limit, admit, try_acquire, acquire, Tasks,
  acquires, Run, done, step,
}
use xde.Storage.Budget.Held.{IsFair, idle, Run-idle-IsFair}
use xde.Storage.Budget.Room.{acquire-succeeds, acquire-frontier}

abbrev filled : Tasks
filled = record {
  budget = record { limit = 100; used = 80; reserve = 20 };
  permits =
      record { class = speculative; bytes = 50 } ∷ record { class = speculative; bytes = 30 } ∷ [];
}

abbrev first_filled : Tasks
first_filled = record {
  budget = record { limit = 100; used = 30; reserve = 20 };
  permits = record { class = speculative; bytes = 30 } ∷ [];
}

idle-filled : Run (idle 100 20) filled
unfolding with_reserve acquire admit try_acquire effective_limit
idle-filled =
    step (idle 100 20) first_filled filled
      (acquires (idle 100 20) speculative 30 first_filled.budget refl)
      (step first_filled filled filled (acquires first_filled speculative 50 filled.budget refl)
        (done filled))

full_test : acquire filled.budget speculative 1 ≡ none
unfolding acquire admit try_acquire effective_limit
full_test = refl

Run-idle-IsFair_example : IsFair filled
Run-idle-IsFair_example = Run-idle-IsFair 100 20 filled (omega arith) idle-filled

acquire-succeeds_example :
    acquire (idle 100 20).budget speculative 90 ≡ some (record (idle 100 20).budget { used = 90 })
unfolding with_reserve
acquire-succeeds_example =
    acquire-succeeds 100 20 (idle 100 20) speculative 90 (omega arith) (done (idle 100 20)) refl
      (omega arith)

acquire-frontier_example :
    acquire filled.budget frontier 20 ≡ some (record filled.budget { used = 100 })
acquire-frontier_example =
    acquire-frontier 100 20 filled 20 (omega arith) idle-filled (omega arith)
      (λ e. omega (arith, e))
