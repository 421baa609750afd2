-- ===== src/Storage/Capacity.antt =====
-- crates/xde/src/storage/capacity.rs: credits that bound what is in flight to one destination. A
-- pool is a channel of unit messages, so its state is how many are in it; a guard takes its credits
-- one by one. `len` stands for the length of an operation.
pub mod Ceilings
pub mod Deadlock
pub mod Examples
use xde.Prelude.{
  ℕ, suc, ◌+◌, ◌-◌, ◌*◌, ◌/◌, ◌≤◌, ◌<◌, ◌≡◌, Bool, true, false, List, [], ◌∷◌, ◌++◌, min, max, leb,
  ltb, ◌==◌, if◌then◌else◌,
}

abbrev pub byte_unit : ℕ
byte_unit = 262144

-- `div_ceil` of a 64-bit number.
unfoldable pub units_for : ℕ → ℕ → ℕ
units_for bytes total_units =
    if bytes == 0 then 0 else max (min ((bytes + 262143) / byte_unit) total_units) 1

-- A bounded channel with its capacity and the permits in it.
pub record Permits : Type 0 where
  pub capacity : ℕ
  pub ready : ℕ

unfoldable pub permits_new : ℕ → Permits
permits_new count = record { capacity = count; ready = count }

-- `try_send` drops a permit that the channel has no room for.
unfoldable pub release : Permits → ℕ → Permits
release p n = record p { ready = min p.capacity (p.ready + n) }

-- One `recv`.
unfoldable pub receive : Permits → Permits
receive p = record p { ready = p.ready - 1 }

pub record CapacityCredits : Type 0 where
  pub max_inflight_bytes : ℕ
  pub byte_units : ℕ
  pub bytes : Permits
  pub ops : Permits

unfoldable pub credits_new : ℕ → ℕ → CapacityCredits
unfolding permits_new
credits_new max_inflight_bytes max_inflight_ops =
    let units = max (max_inflight_bytes / byte_unit) 1 in
    record {
      max_inflight_bytes = max_inflight_bytes;
      byte_units = units;
      bytes = permits_new units;
      ops = permits_new (max max_inflight_ops 1);
    }

-- A guard, or the future that acquires one: whether it has its operation, and how many of its
-- units it has.
pub record Guard : Type 0 where
  pub wanted : ℕ
  pub byte_units_held : ℕ
  pub ops_held : Bool

unfoldable pub guard_new : CapacityCredits → ℕ → Guard
unfolding units_for
guard_new c len = record {
  wanted = units_for len c.byte_units;
  byte_units_held = 0;
  ops_held = false;
}

abbrev pub is_complete : Guard → Bool
is_complete g = if g.ops_held then g.byte_units_held == g.wanted else false

pub record Pool : Type 0 where
  pub credits : CapacityCredits
  pub guards : List Guard

unfoldable pub take_op : CapacityCredits → CapacityCredits
unfolding receive
take_op c = record c { ops = receive c.ops }

unfoldable pub take_unit : CapacityCredits → CapacityCredits
unfolding receive
take_unit c = record c { bytes = receive c.bytes }

-- Dropping a guard.
unfoldable pub drop_guard : CapacityCredits → Guard → CapacityCredits
unfolding release
drop_guard c g = record c {
  bytes = release c.bytes g.byte_units_held;
  ops = if g.ops_held then release c.ops 1 else c.ops;
}

-- A future can go on if it needs an operation and one is ready, or a unit and one is ready; a guard
-- that is complete can be dropped.
abbrev pub can_move : CapacityCredits → Guard → Bool
can_move c g =
    if g.ops_held
    then (if ltb g.byte_units_held g.wanted then ltb 0 c.bytes.ready else true)
    else ltb 0 c.ops.ready

-- What happens to a pool, apart from futures that are dropped before they have their guard.
pub data Step : Pool → Pool → Type 0 where
  begins : (p : Pool) (len : ℕ) → Step p (record p { guards = guard_new p.credits len ∷ p.guards })
  takes_op :
      (c : CapacityCredits) (xs ys : List Guard) (g : Guard)
      → g.ops_held ≡ false
      → 0 < c.ops.ready
      → Step
          (record { credits = c; guards = xs ++ g ∷ ys })
          (record { credits = take_op c; guards = xs ++ record g { ops_held = true } ∷ ys })
  takes_unit :
      (c : CapacityCredits) (xs ys : List Guard) (g : Guard)
      → g.ops_held ≡ true
      → g.byte_units_held < g.wanted
      → 0 < c.bytes.ready
      → Step
          (record { credits = c; guards = xs ++ g ∷ ys })
          (record {
            credits = take_unit c;
            guards = xs ++ record g { byte_units_held = suc g.byte_units_held } ∷ ys;
          })
  drops :
      (c : CapacityCredits) (xs ys : List Guard) (g : Guard)
      → is_complete g ≡ true
      → Step
          (record { credits = c; guards = xs ++ g ∷ ys })
          (record { credits = drop_guard c g; guards = xs ++ ys })

abbrev pub ops_of : Guard → ℕ
ops_of g = if g.ops_held then 1 else 0

-- A future that is dropped while it waits: the permits that it has received are gone with it. They
-- are counted as lost, units first.
pub data Cancel : Pool → Pool → ℕ → ℕ → Type 0 where
  cancels :
      (c : CapacityCredits) (xs ys : List Guard) (g : Guard)
      → is_complete g ≡ false
      → Cancel
          (record { credits = c; guards = xs ++ g ∷ ys })
          (record { credits = c; guards = xs ++ ys })
          g.byte_units_held
          (ops_of g)

-- Runs of steps and cancellations, with the permits that were lost.
pub data Run : Pool → Pool → ℕ → ℕ → Type 0 where
  done : (p : Pool) → Run p p 0 0
  step : (p q r : Pool) (units ops : ℕ) → Step p q → Run q r units ops → Run p r units ops
  cancel :
      (p q r : Pool) (u o units ops : ℕ)
      → Cancel p q u o
      → Run q r units ops
      → Run p r (u + units) (o + ops)
