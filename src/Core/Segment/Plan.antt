-- ===== src/Core/Segment/Plan.antt =====
-- The data of crates/xde/src/core/segment.rs, and the operations that read the plan or change its
-- settings.
use xde.Prelude.{
  ℕ, ◌+◌, ◌-◌, ◌*◌, ◌/◌, ◌%◌, min, max, Bool, false, not, ◌&&◌, ◌||◌, Option, none, some, List, [],
  ◌∷◌, ◌++◌, ltb, leb, ◌==◌, if◌then◌else◌, length, any, is_nil, u64_max, u64_mod, wadd,
}
use xde.Core.Ranges
use xde.Core.Ranges.{ByteRange, RangeSet, range, is_empty, intersects}
use xde.Core.Units.{Float}
use xde.Core.Ewma.{EwmaWithVariance, ewma_new}
use xde.Core.Policy.{SegmentationPolicy}
use xde.Core.SlotMap.{SlotMap}

-- `struct Assignment`. Times are nanoseconds; a connection is an opaque number.
pub record Assignment (F : Type 0) : Type 0 where
  pub span : ByteRange
  pub wire_received : ℕ
  pub destination_submitted : ℕ
  pub destination_committed : ℕ
  pub committed_ranges : RangeSet
  pub started : ℕ
  pub last_progress : ℕ
  pub rate : EwmaWithVariance F
  pub overlap : ℕ
  pub truncated : Bool
  pub connection : Option ℕ
  pub attempt : ℕ

-- `struct DeferredWork`.
pub record DeferredWork : Type 0 where
  pub span : ByteRange
  pub until : ℕ
  pub attempt : ℕ

-- `enum Claim`, over the keys of the slot map.
pub data Claim (K : Type 0) : Type 0 where
  fresh : K → Claim K
  stolen : K → K → Claim K
  saturated : Claim K
  complete : Claim K

-- `struct SegmentPlan`.
pub record SegmentPlan (F Store : Type 0) : Type 0 where
  pub total : Option ℕ
  pub completed : RangeSet
  pub claimed : RangeSet
  pub assignments : Store
  pub cfg : SegmentationPolicy F
  pub piece_duration : ℕ
  pub overlap_bytes : ℕ
  pub single_stream : Bool
  pub deferred : List DeferredWork

module _ {F : Type 0} where
  -- `Assignment::cursor`: the first byte of the span that is not committed.
  unfoldable pub cursor : Assignment F → ℕ
  cursor a = elim (Ranges.first_gap a.committed_ranges a.span.start a.span.end) [
    | none ↦ a.span.end
    | some gap ↦ gap.start
  ]

  unfoldable pub remaining : Assignment F → ℕ
  unfolding cursor
  remaining a = a.span.end - cursor a

  unfoldable pub is_done : Assignment F → Bool
  unfolding cursor
  is_done a = leb a.span.end (cursor a)

  unfoldable pub wire_range : Assignment F → ByteRange
  unfolding cursor
  wire_range a = let start = cursor a in range (start - min a.overlap start) a.span.end

-- `align_up`; the product wraps.
unfoldable pub align_up : ℕ → ℕ → ℕ
align_up v align = if leb align 1 then v else ((v + align - 1) / align * align) % u64_mod

unfoldable pub snap_end : ByteRange → ℕ → ℕ → ByteRange
unfolding align_up
snap_end r align total =
    let end = min (min (align_up r.end align) total) (max r.end (wadd r.start 1)) in
    range r.start (min (max end (wadd r.start 1)) total)

-- `deferred.iter().filter(d.range.intersects(r)).map(attempt).max().unwrap_or(0)`.
unfoldable pub max_attempt : ByteRange → List DeferredWork → ℕ
max_attempt r [] = 0
max_attempt r (d ∷ ds) =
    if intersects d.span r then max d.attempt (max_attempt r ds) else max_attempt r ds

-- The furthest end of a waiting deferred range that meets the gap.
unfoldable pub max_end : ByteRange → ℕ → List DeferredWork → Option ℕ
max_end gap now [] = none
max_end gap now (d ∷ ds) =
    if ltb now d.until && intersects d.span gap
    then elim (max_end gap now ds) [ none ↦ some d.span.end | some e ↦ some (max d.span.end e) ]
    else max_end gap now ds

-- The loop of `release_due`: the claimed set, what stays deferred, and the highest attempt.
unfoldable pub release_loop :
    ℕ → List DeferredWork → RangeSet → List DeferredWork → ℕ → RangeSet × List DeferredWork × ℕ
release_loop now [] claimed keep top = (claimed, keep, top)
release_loop now (d ∷ ds) claimed keep top =
    let due = leb d.until now in
    release_loop now ds
      (if due && not (d.span.end == u64_max) then Ranges.remove claimed d.span else claimed)
      (if due then keep else keep ++ (d ∷ [])) (if due then max top d.attempt else top)

module _ ⦃fl : Float⦄ ⦃sm : SlotMap (Assignment fl.F)⦄ where
  abbrev pub Plan : Type 0
  Plan = SegmentPlan fl.F sm.Store

  -- `SegmentPlan::new`.
  unfoldable pub plan_new :
      Option ℕ → RangeSet → SegmentationPolicy fl.F → ℕ → ℕ → SegmentPlan fl.F sm.Store
  plan_new total completed cfg piece_duration overlap_bytes = record {
    total = total;
    completed = completed;
    claimed = completed;
    assignments = sm.empty;
    cfg = cfg;
    piece_duration = piece_duration;
    overlap_bytes = overlap_bytes;
    single_stream = false;
    deferred = [];
  }

  unfoldable pub set_single_stream : Plan → Bool → Plan
  set_single_stream p on = record p { single_stream = on }

  unfoldable pub set_total : Plan → ℕ → Plan
  set_total p total = record p { total = some total }

  unfoldable pub bytes_done : Plan → ℕ
  bytes_done p = Ranges.covered_len p.completed

  unfoldable pub bytes_remaining : Plan → Option ℕ
  bytes_remaining p = elim p.total [
    | none ↦ none
    | some t ↦ some (t - Ranges.covered_len p.completed)
  ]

  unfoldable pub in_flight : Plan → ℕ
  in_flight p = length (sm.entries p.assignments)

  abbrev pub no_assignments : Plan → Bool
  no_assignments p = is_nil (sm.entries p.assignments)

  unfoldable pub gap_is_deferred : List DeferredWork → ByteRange → ℕ → Bool
  gap_is_deferred ds gap now = any (λ d. ltb now d.until && intersects d.span gap) ds

  unfoldable pub has_unclaimed : Plan → ℕ → Bool
  unfolding gap_is_deferred
  has_unclaimed p now = elim p.total [
    | none ↦ false
    | some total ↦
        (elim (Ranges.first_gap p.claimed 0 total) [
          | none ↦ false
          | some gap ↦ not (gap_is_deferred p.deferred gap now)
        ])
        || any (λ d. leb d.until now) p.deferred
  ]

  unfoldable pub admits_worker : Plan → ℕ → Bool
  unfolding has_unclaimed
  admits_worker p now = elim p.total [
    | none ↦ no_assignments p
    | some total ↦
        if p.single_stream
        then no_assignments p && not (Ranges.is_complete p.completed total)
        else has_unclaimed p now && not (Ranges.is_complete p.completed total)
  ]

  -- `defer`: the range stays claimed until its backoff has elapsed.
  unfoldable pub defer : Plan → ByteRange → ℕ → ℕ → Plan
  defer p r until attempt = if is_empty r then p else record p {
    claimed = if r.end == u64_max then p.claimed else Ranges.insert p.claimed r;
    deferred = p.deferred ++ (record { span = r; until = until; attempt = attempt } ∷ []);
  }

  -- `release_due`, with the attempt that it returns.
  unfoldable pub release_due : Plan → ℕ → Plan × ℕ
  unfolding release_loop
  release_due p now =
      let (claimed, keep, top) = release_loop now p.deferred p.claimed [] 0 in
      (record p { claimed = claimed; deferred = keep }, top)

  unfoldable pub pending_attempt_for : Plan → ByteRange → ℕ
  unfolding max_attempt
  pending_attempt_for p r = max_attempt r p.deferred

  unfoldable pub clamp_max_piece : Plan → ℕ → Plan
  clamp_max_piece p max_piece =
      if ltb 0 max_piece
      then record p { cfg = record (p.cfg) { max_piece = min p.cfg.max_piece max_piece } }
      else p

  unfoldable pub is_complete : Plan → Bool
  is_complete p = elim p.total [ none ↦ false | some t ↦ Ranges.is_complete p.completed t ]

  -- `push_assignment`: the range is claimed, and the assignment starts with nothing received.
  unfoldable pub push_assignment : Plan → ByteRange → ℕ → ℕ → sm.Key × Plan
  push_assignment p r now overlap =
      let a : Assignment fl.F = record {
        span = r;
        wire_received = 0;
        destination_submitted = 0;
        destination_committed = 0;
        committed_ranges = Ranges.new;
        started = now;
        last_progress = now;
        rate = ewma_new 4_000_000_000;
        overlap = overlap;
        truncated = false;
        connection = none;
        attempt = 0;
      } in
      let (id, store) = sm.push p.assignments a in
      (
        id,
        record p {
          claimed = if r.end == u64_max then p.claimed else Ranges.insert p.claimed r;
          assignments = store;
        },
      )
