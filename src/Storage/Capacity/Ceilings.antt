-- ===== src/Storage/Capacity/Ceilings.antt =====
-- The permits of a pool: ready, held or lost.
use xde.Prelude.{
  ℕ, suc, ◌+◌, ◌*◌, ◌/◌, ◌≤◌, ◌<◌, ◌≡◌, refl, ◌∙◌, true, [], min, max, arith, total, total-middle,
}
use xde.Storage.Capacity.{
  byte_unit, units_for, permits_new, release, receive, credits_new, Guard, guard_new, Pool, take_op,
  take_unit, drop_guard, ops_of, Step, begins, takes_op, takes_unit, drops, Cancel, cancels, Run,
  done, step, cancel,
}

-- An operation that is not empty takes a unit at least and no more than there are; unless it is
-- clamped to all of them, its units cover it.
pub units_for-bounds :
    (bytes total_units : ℕ)
    → 0 < bytes
    → 0 < total_units
    → (1 ≤ units_for bytes total_units)
      × (units_for bytes total_units ≤ total_units)
      × (min bytes (total_units * byte_unit) ≤ units_for bytes total_units * byte_unit)
      × (units_for bytes total_units * byte_unit < bytes + byte_unit)
unfolding units_for
units_for-bounds bytes total_units l m = ground (arith, l, m)

abbrev pub units_held : Guard → ℕ
units_held g = g.byte_units_held

-- Every permit is ready, held by a guard, or lost.
abbrev pub Account : Pool → ℕ → ℕ → Type 0
Account p units ops =
    (p.credits.bytes.ready + total units_held p.guards + units ≡ p.credits.bytes.capacity)
    × (p.credits.ops.ready + total ops_of p.guards + ops ≡ p.credits.ops.capacity)

-- Steps keep the capacities.
abbrev pub SameCapacity : Pool → Pool → Type 0
SameCapacity p q =
    (q.credits.bytes.capacity ≡ p.credits.bytes.capacity)
    × (q.credits.ops.capacity ≡ p.credits.ops.capacity)

Step-SameCapacity : (p q : Pool) → Step p q → SameCapacity p q
unfolding take_op take_unit receive drop_guard release
Step-SameCapacity p q (begins _ len) = (refl, refl)
Step-SameCapacity p q (takes_op c xs ys g e l) = (refl, refl)
Step-SameCapacity p q (takes_unit c xs ys g e l m) = (refl, refl)
Step-SameCapacity p q (drops c xs ys g e) = (refl, ground arith)

Step-Account : (p q : Pool) (units ops : ℕ) → Step p q → Account p units ops → Account q units ops
unfolding take_op take_unit receive drop_guard release guard_new
Step-Account p q units ops (begins _ len) a = (omega (arith, a.0), omega (arith, a.1))
Step-Account p q units ops (takes_op c xs ys g e l) a =
    let t : Guard = record g { ops_held = true } in
    (
      ground (arith, a.0, total-middle units_held xs ys g, total-middle units_held xs ys t),
      ground (arith, a.1, l, e, total-middle ops_of xs ys g, total-middle ops_of xs ys t),
    )
Step-Account p q units ops (takes_unit c xs ys g e l m) a =
    let t : Guard = record g { byte_units_held = suc g.byte_units_held } in
    (
      ground (arith, a.0, m, total-middle units_held xs ys g, total-middle units_held xs ys t),
      ground (arith, a.1, total-middle ops_of xs ys g, total-middle ops_of xs ys t),
    )
Step-Account p q units ops (drops c xs ys g e) a = (
  ground (arith, a.0, total-middle units_held xs ys g),
  ground (arith, a.1, e, total-middle ops_of xs ys g),
)

Cancel-Account :
    (p q : Pool) (u o units ops : ℕ)
    → Cancel p q u o
    → Account p units ops
    → Account q (u + units) (o + ops)
Cancel-Account p q u o units ops (cancels c xs ys g e) a = (
  omega (arith, a.0, total-middle units_held xs ys g),
  omega (arith, a.1, total-middle ops_of xs ys g),
)

Run-Account :
    (p q : Pool) (u o units ops : ℕ)
    → Run p q u o
    → Account p units ops
    → Account q (u + units) (o + ops)
Run-Account p q u o units ops (done _) a = (omega (arith, a.0), omega (arith, a.1))
Run-Account p q u o units ops (step _ m _ _ _ s r) a =
    Run-Account m q u o units ops r (Step-Account p m units ops s a)
Run-Account p q u o units ops (cancel _ m _ v w x y c r) a =
    let rest = Run-Account m q x y (v + units) (w + ops) r (Cancel-Account p m v w units ops c a) in
    (omega (arith, rest.0), omega (arith, rest.1))

Cancel-SameCapacity : (p q : Pool) (u o : ℕ) → Cancel p q u o → SameCapacity p q
Cancel-SameCapacity p q u o (cancels c xs ys g e) = (refl, refl)

Run-SameCapacity : (p q : Pool) (u o : ℕ) → Run p q u o → SameCapacity p q
Run-SameCapacity p q u o (done _) = (refl, refl)
Run-SameCapacity p q u o (step _ m _ _ _ s r) =
    let here = Step-SameCapacity p m s in
    let rest = Run-SameCapacity m q u o r in (rest.0 ∙ here.0, rest.1 ∙ here.1)
Run-SameCapacity p q u o (cancel _ m _ v w x y c r) =
    let here = Cancel-SameCapacity p m v w c in
    let rest = Run-SameCapacity m q x y r in (rest.0 ∙ here.0, rest.1 ∙ here.1)

abbrev pub fresh : ℕ → ℕ → Pool
fresh max_bytes max_ops = record { credits = credits_new max_bytes max_ops; guards = [] }

-- After any run from new credits, the permits that are ready, those that guards hold and those
-- that went with dropped futures make up the ceilings.
pub Run-fresh-Account :
    (max_bytes max_ops : ℕ) (p : Pool) (units ops : ℕ)
    → Run (fresh max_bytes max_ops) p units ops
    → (p.credits.bytes.ready + total units_held p.guards + units ≡ max (max_bytes / byte_unit) 1)
      × (p.credits.ops.ready + total ops_of p.guards + ops ≡ max max_ops 1)
unfolding credits_new permits_new
Run-fresh-Account max_bytes max_ops p units ops r =
    let same = Run-SameCapacity (fresh max_bytes max_ops) p units ops r in
    let start : Account (fresh max_bytes max_ops) 0 0 = (omega arith, omega arith) in
    let all = Run-Account (fresh max_bytes max_ops) p units ops 0 0 r start in
    (omega (arith, all.0, same.0), omega (arith, all.1, same.1))
