-- ===== src/Core/Segment/Progress.antt =====
-- The progress and end of an assignment in crates/xde/src/core/segment.rs.
use xde.Prelude.{
  ℕ, ◌-◌, Option, none, some, List, [], ◌∷◌, ltb, ◌==◌, if◌then◌else◌, u64_max, sat_add,
}
use xde.Core.Ranges
use xde.Core.Ranges.{ByteRange, RangeSet, range, is_empty, intersection}
use xde.Core.Units.{Float}
use xde.Core.Ewma.{observe}
use xde.Core.SlotMap.{SlotMap}
use xde.Core.Segment.Plan.{Assignment, cursor, Plan}

-- The part of `r` inside the span, or an empty range at its start.
unfoldable pub inside : ByteRange → ByteRange → ByteRange
unfolding intersection
inside r span = elim (intersection r span) [ none ↦ range span.start span.start | some g ↦ g ]

-- `for r in gaps { if let Some(x) = r.intersection(span) { claimed.remove(x) } }`.
unfoldable pub release_gaps : List ByteRange → ByteRange → RangeSet → RangeSet
unfolding intersection
release_gaps [] span claimed = claimed
release_gaps (g ∷ gs) span claimed =
    release_gaps gs span
      (elim (intersection g span) [ none ↦ claimed | some x ↦ Ranges.remove claimed x ])

-- The tail of `finish_verified` and of `abandon`: what of the span is not completed is released.
unfoldable pub release_span : RangeSet → RangeSet → ByteRange → RangeSet
unfolding release_gaps
release_span completed claimed span =
    if span.end == u64_max
    then claimed
    else release_gaps (Ranges.gaps completed span.end) span claimed

module _ ⦃fl : Float⦄ ⦃sm : SlotMap (Assignment fl.F)⦄ where
  -- A write through `get_mut`.
  unfoldable pub modify : Plan → sm.Key → (Assignment fl.F → Assignment fl.F) → Plan
  modify p id f = elim (sm.get p.assignments id) [
    | none ↦ p
    | some a ↦ record p { assignments = sm.put p.assignments id (f a) }
  ]

  unfoldable pub on_wire_received : Plan → sm.Key → ℕ → Plan
  unfolding modify
  on_wire_received p id n = modify p id λ a. record a { wire_received = sat_add a.wire_received n }

  unfoldable pub on_submitted : Plan → sm.Key → ℕ → Plan
  unfolding modify
  on_submitted p id n =
      modify p id λ a. record a { destination_submitted = sat_add a.destination_submitted n }

  -- What `on_destination_committed` does to the assignment. The rate is measured only after 20 ms.
  unfoldable pub commit_range : ByteRange → ℕ → Assignment fl.F → Assignment fl.F
  unfolding inside cursor observe
  commit_range r now a =
      let committed = Ranges.insert a.committed_ranges (inside r a.span) in
      let b = record a {
        committed_ranges = committed;
        destination_committed = Ranges.covered_len committed;
      } in
      let advanced = cursor b - cursor a in
      if advanced == 0
      then b
      else let dt = now - a.last_progress in
        record b {
          rate =
              if ltb 20_000_000 dt
              then observe a.rate (fl.div (fl.of_u64 advanced) (fl.as_secs dt)) dt
              else a.rate;
          last_progress = now;
        }

  unfoldable pub on_destination_committed : Plan → sm.Key → ByteRange → ℕ → Plan
  unfolding modify commit_range
  on_destination_committed p id r now = if is_empty r then p else modify p id (commit_range r now)

  unfoldable pub on_response_verified : Plan → sm.Key → ByteRange → Plan
  unfolding inside
  on_response_verified p id r = if is_empty r then p else elim (sm.get p.assignments id) [
    | none ↦ p
    | some a ↦
        let part = inside r a.span in
        if is_empty part then p else record p {
          completed = Ranges.insert p.completed part;
          claimed = Ranges.insert p.claimed part;
        }
  ]

  unfoldable pub finish_verified : Plan → sm.Key → Option (Assignment fl.F) × Plan
  unfolding release_span
  finish_verified p id = elim (sm.get p.assignments id) [
    | none ↦ (none, p)
    | some a ↦
        let completed = Ranges.insert_all p.completed a.committed_ranges.ranges in
        let claimed = Ranges.insert_all p.claimed a.committed_ranges.ranges in
        (
          some a,
          record p {
            completed = completed;
            claimed = release_span completed claimed a.span;
            assignments = sm.remove p.assignments id;
          },
        )
  ]

  unfoldable pub finish : Plan → sm.Key → Option (Assignment fl.F) × Plan
  unfolding finish_verified
  finish p id = finish_verified p id

  unfoldable pub abandon : Plan → sm.Key → Option (Assignment fl.F) × Plan
  unfolding release_span
  abandon p id = elim (sm.get p.assignments id) [
    | none ↦ (none, p)
    | some a ↦ (
      some a,
      record p {
        claimed = release_span p.completed p.claimed a.span;
        assignments = sm.remove p.assignments id;
      },
    )
  ]

  unfoldable pub invalidate : Plan → ByteRange → Plan
  invalidate p r = record p {
    completed = Ranges.remove p.completed r;
    claimed = Ranges.remove p.claimed r;
  }
