-- ===== src/Core/Timers.antt =====
-- crates/xde/src/core/timers.rs: timed events, which leave in the order of their instants, and for
-- one instant in the order in which they were scheduled. Instants are nanoseconds; identifiers of
-- the controller are numbers. The heap is the list of its items, and its greatest item by `cmp` is
-- what `BinaryHeap` peeks and pops.
pub mod Drain
pub mod Examples
use Prim.Native.String.{String}
use xde.Prelude.{
  ℕ, zero, suc, ◌+◌, Bool, true, false, Option, none, some, List, [], ◌∷◌, leb, ltb, ◌==◌,
  if◌then◌else◌, is_nil, length, wadd,
}
use xde.Core.Ranges.{ByteRange}

pub data TimerEvent : Type 0 where
  job_deadline : ℕ → TimerEvent
  retry_ready : (assignment : ℕ) (span : ByteRange) (attempt : ℕ) → TimerEvent
  resolve_retry : (origin : ℕ) (host : String) (port : ℕ) → TimerEvent
  origin_cooldown_expired : ℕ → TimerEvent
  checkpoint_due : ℕ → TimerEvent
  endpoint_stagger : (origin : ℕ) (rank : ℕ) → TimerEvent
  adaptive_tick : (origin : ℕ) → TimerEvent
  drain_connection : (connection : ℕ) → TimerEvent
  rebalance_tick : (origin : ℕ) → TimerEvent

pub record ScheduledItem : Type 0 where
  pub at : ℕ
  pub seq : ℕ
  pub event : TimerEvent

pub data Ordering : Type 0 where
  less : Ordering
  equal : Ordering
  greater : Ordering

abbrev pub compare_numbers : ℕ → ℕ → Ordering
compare_numbers a b = if ltb a b then less else if a == b then equal else greater

abbrev pub then_with : Ordering → Ordering → Ordering
then_with less o = less
then_with equal o = o
then_with greater o = greater

-- The order of the heap: the earliest instant is the greatest.
abbrev pub cmp : ScheduledItem → ScheduledItem → Ordering
cmp x y = then_with (compare_numbers y.at x.at) (compare_numbers y.seq x.seq)

pub record TimerQueue : Type 0 where
  pub heap : List ScheduledItem
  pub next_seq : ℕ

unfoldable pub queue_new : TimerQueue
queue_new = record { heap = []; next_seq = 0 }

unfoldable pub schedule : ℕ → TimerEvent → TimerQueue → TimerQueue
unfolding wadd
schedule at event q = record {
  heap = record { at = at; seq = q.next_seq; event = event } ∷ q.heap;
  next_seq = wadd q.next_seq 1;
}

-- The greater of an item and the greatest of others, with what is left.
unfoldable pub keep_greatest :
    Ordering
    → ScheduledItem
    → ScheduledItem × List ScheduledItem
    → ScheduledItem × List ScheduledItem
keep_greatest less x best = (best.0, x ∷ best.1)
keep_greatest equal x best = (x, best.0 ∷ best.1)
keep_greatest greater x best = (x, best.0 ∷ best.1)

-- The greatest item of a heap that is not empty, and the other items.
unfoldable pub greatest : ScheduledItem → List ScheduledItem → ScheduledItem × List ScheduledItem
unfolding keep_greatest
greatest x [] = (x, [])
greatest x (y ∷ ys) = let best = greatest y ys in keep_greatest (cmp x best.0) x best

unfoldable pub next_deadline : TimerQueue → Option ℕ
unfolding greatest
next_deadline q = elim q.heap [ [] ↦ none | x ∷ xs ↦ some (greatest x xs).0.at ]

unfoldable pub pop_expired : ℕ → TimerQueue → Option (TimerEvent × TimerQueue)
unfolding greatest
pop_expired now q = elim q.heap [
  | [] ↦ none
  | x ∷ xs ↦
      let top = greatest x xs in
      if leb top.0.at now then some (top.0.event, record q { heap = top.1 }) else none
]

-- The `while` loop of `drain_expired`, which pops an item in every round.
unfoldable pub drain_loop : ℕ → ℕ → TimerQueue → List TimerEvent × TimerQueue
unfolding pop_expired
drain_loop now zero q = ([], q)
drain_loop now (suc fuel) q = elim (pop_expired now q) [
  | none ↦ ([], q)
  | some p ↦ let rest = drain_loop now fuel p.1 in (p.0 ∷ rest.0, rest.1)
]

unfoldable pub drain_expired : ℕ → TimerQueue → List TimerEvent × TimerQueue
unfolding drain_loop
drain_expired now q = drain_loop now (length q.heap) q

unfoldable pub queue_is_empty : TimerQueue → Bool
queue_is_empty q = is_nil q.heap

unfoldable pub queue_len : TimerQueue → ℕ
queue_len q = length q.heap
