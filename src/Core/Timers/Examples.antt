-- ===== src/Core/Timers/Examples.antt =====
-- Three timers, two of which are due.
use xde.Prelude.{◌≡◌, refl, [], ◌∷◌}
use xde.Core.Timers.{
  TimerQueue, job_deadline, checkpoint_due, adaptive_tick, drain_expired, drain_loop, pop_expired,
  greatest, keep_greatest,
}
use xde.Core.Timers.Drain.{Drained, drain_expired-Drained}

abbrev three : TimerQueue
three = record {
  heap =
      record { at = 5; seq = 2; event = adaptive_tick 3 }
      ∷ record { at = 9; seq = 1; event = checkpoint_due 2 }
      ∷ record { at = 5; seq = 0; event = job_deadline 1 }
      ∷ [];
  next_seq = 3;
}

drain_test : (drain_expired 5 three).0 ≡ job_deadline 1 ∷ adaptive_tick 3 ∷ []
unfolding drain_expired drain_loop pop_expired greatest keep_greatest
drain_test = refl

drain_expired-Drained_example : Drained 5 three.heap (drain_expired 5 three)
drain_expired-Drained_example = drain_expired-Drained 5 three
