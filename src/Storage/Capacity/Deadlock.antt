-- ===== src/Storage/Capacity/Deadlock.antt =====
-- Two operations that wait for each other's units.
use xde.Prelude.{
  ℕ, zero, suc, ◌+◌, ◌-◌, ◌*◌, ◌≤◌, ◌<◌, ◌≡◌, refl, sym, ◌∙◌, true, false, List, [], ◌∷◌, ◌++◌,
  arith, any, length,
}
use xde.Storage.Capacity.{
  byte_unit, units_for, permits_new, receive, CapacityCredits, credits_new, Guard, guard_new,
  can_move, Pool, take_op, take_unit, begins, takes_op, takes_unit, Run, done, step,
}
use xde.Storage.Capacity.Ceilings.{fresh}

-- Credits without some units, and a guard with some more.
taken : ℕ → CapacityCredits → CapacityCredits
taken zero c = c
taken (suc n) c = taken n (take_unit c)

gained : ℕ → Guard → Guard
gained zero g = g
gained (suc n) g = gained n (record g { byte_units_held = suc g.byte_units_held })

taken-ready : (n : ℕ) (c : CapacityCredits) → (taken n c).bytes.ready ≡ c.bytes.ready - n
unfolding taken take_unit receive
taken-ready zero c = omega arith
taken-ready (suc n) c = omega (arith, taken-ready n (take_unit c))

gained_lem :
    (n : ℕ) (g : Guard)
    → ((gained n g).byte_units_held ≡ g.byte_units_held + n)
      × ((gained n g).wanted ≡ g.wanted)
      × ((gained n g).ops_held ≡ g.ops_held)
unfolding gained
gained_lem zero g = (omega arith, refl, refl)
gained_lem (suc n) g =
    let rest = gained_lem n (record g { byte_units_held = suc g.byte_units_held }) in
    (omega (arith, rest.0), rest.1, rest.2)

-- A guard receives some units in a row, and then the run goes on.
takes_units :
    (n : ℕ) (c : CapacityCredits) (xs ys : List Guard) (g : Guard) (r : Pool)
    → g.ops_held ≡ true
    → g.byte_units_held + n ≤ g.wanted
    → n ≤ c.bytes.ready
    → Run (record { credits = taken n c; guards = xs ++ gained n g ∷ ys }) r 0 0
    → Run (record { credits = c; guards = xs ++ g ∷ ys }) r 0 0
unfolding taken gained take_unit receive
takes_units zero c xs ys g r e l m t = t
takes_units (suc n) c xs ys g r e l m t =
    step _ _ _ 0 0 (takes_unit c xs ys g e (omega (arith, l)) (omega (arith, m))) (
      takes_units n (take_unit c) xs ys (record g { byte_units_held = suc g.byte_units_held }) r e
        (omega (arith, l)) (omega (arith, m)) t)

-- A guard that has its operation, waits for a unit and finds none.
waits :
    (c : CapacityCredits) (g : Guard)
    → g.ops_held ≡ true
    → g.byte_units_held < g.wanted
    → c.bytes.ready ≡ 0
    → can_move c g ≡ false
waits c g e l m = ground (arith, e, l, m)

-- Two guards that have their operation: the second takes all units but one, the first takes that
-- one, and both want more.
stuck_pair :
    (c : CapacityCredits) (g : Guard)
    → g.ops_held ≡ true
    → g.byte_units_held ≡ 0
    → 2 ≤ g.wanted
    → c.bytes.ready ≡ g.wanted
    → (p : Pool) × Run (record { credits = c; guards = g ∷ g ∷ [] }) p 0 0
      × (length p.guards ≡ 2)
      × (any (can_move p.credits) p.guards ≡ false)
unfolding take_unit receive
stuck_pair c g e z l m =
    let n = g.wanted - 1 in
    let left = taken n c in
    let one : Guard = record g { byte_units_held = suc g.byte_units_held } in
    let last : Pool = record { credits = take_unit left; guards = one ∷ gained n g ∷ [] } in
    let ready = taken-ready n c in
    let most = gained_lem n g in
    let empty : (take_unit left).bytes.ready ≡ 0 = omega (arith, ready, m, l) in
    (
      last,
      takes_units n c (g ∷ []) [] g last e (omega (arith, z, l)) (omega (arith, m)) (
          step _ _ _ 0 0
            (takes_unit left [] (gained n g ∷ []) g e (omega (arith, z, l))
              (omega (arith, ready, m, l)))
            (done last)),
      refl,
      rw
          (
            waits (take_unit left) one e (omega (arith, z, l)) empty,
            waits (take_unit left) (gained n g) (most.2 ∙ e) (omega (arith, most.0, most.1, z, l))
                empty,
          )
          refl,
    )

-- With ceilings of two units and two operations at least, there is a run without dropped futures
-- to a pool of two guards of which none can go on.
pub deadlock :
    (max_bytes max_ops : ℕ)
    → 2 * byte_unit ≤ max_bytes
    → 2 ≤ max_ops
    → (p : Pool) × Run (fresh max_bytes max_ops) p 0 0
      × (length p.guards ≡ 2)
      × (any (can_move p.credits) p.guards ≡ false)
unfolding credits_new permits_new guard_new units_for take_op receive
deadlock max_bytes max_ops l m =
    let c = credits_new max_bytes max_ops in
    let g : Guard = guard_new c max_bytes in
    let ready : Guard = record g { ops_held = true } in
    let wanted : g.wanted ≡ c.bytes.ready = ground (arith, l) in
    let pair =
      stuck_pair (take_op (take_op c)) ready refl refl (ground (arith, wanted, l)) (sym wanted) in
    (
      pair.0,
      step _ _ _ 0 0 (begins (fresh max_bytes max_ops) max_bytes) (
          step _ _ _ 0 0 (begins (record { credits = c; guards = g ∷ [] }) max_bytes) (
            step _ _ _ 0 0 (takes_op c (g ∷ []) [] g refl (omega (arith, m))) (
              step _ _ _ 0 0 (takes_op (take_op c) [] (ready ∷ []) g refl (omega (arith, m)))
                pair.1))),
      pair.2,
      pair.3,
    )
