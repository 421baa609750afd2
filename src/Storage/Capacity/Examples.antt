-- ===== src/Storage/Capacity/Examples.antt =====
-- Credits for a MiB and two operations.
use xde.Prelude.{◌+◌, ◌/◌, ◌≡◌, refl, true, false, [], max, arith, any, length, total}
use xde.Storage.Capacity.{
  byte_unit, units_for, permits_new, receive, CapacityCredits, credits_new, Guard, guard_new,
  can_move, Pool, take_op, begins, takes_op, cancels, Run, done, step, cancel, ops_of,
}
use xde.Storage.Capacity.Ceilings.{units_held, fresh, Run-fresh-Account}
use xde.Storage.Capacity.Deadlock.{deadlock}

units_for_test : units_for 262145 4 ≡ 2
unfolding units_for
units_for_test = refl

-- A future that has an operation is dropped.
abbrev mib : CapacityCredits
mib = credits_new 1048576 2

abbrev begun : Guard
begun = guard_new mib 300000

abbrev dropped : Pool
dropped = record { credits = take_op mib; guards = [] }

fresh-dropped : Run (fresh 1048576 2) dropped 0 1
unfolding credits_new permits_new guard_new units_for take_op receive
fresh-dropped = step (fresh 1048576 2) _ dropped 0 1 (begins (fresh 1048576 2) 300000) (
    step _ _ dropped 0 1 (takes_op mib [] [] begun refl (omega arith)) (
      cancel _ dropped dropped 0 1 0 0
        (cancels (take_op mib) [] [] (record begun { ops_held = true }) refl) (done dropped)))

Run-fresh-Account_example :
    (dropped.credits.bytes.ready + total units_held dropped.guards + 0
      ≡ max (1048576 / byte_unit) 1)
    × (dropped.credits.ops.ready + total ops_of dropped.guards + 1 ≡ max 2 1)
Run-fresh-Account_example = Run-fresh-Account 1048576 2 dropped 0 1 fresh-dropped

deadlock_example :
    (p : Pool) × Run (fresh 1048576 2) p 0 0
    × (length p.guards ≡ 2)
    × (any (can_move p.credits) p.guards ≡ false)
deadlock_example = deadlock 1048576 2 (omega arith) (omega arith)
