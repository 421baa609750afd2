-- ===== src/Core/Segment/Claim.antt =====
-- `claim_with`, `piece_len_for`, `next_claimable_gap` and `plan_steal` of
-- crates/xde/src/core/segment.rs: how a worker is given a range. `none` is a panic.
use xde.Prelude.{
  ℕ, zero, suc, ◌-◌, ◌/◌, min, max, Bool, true, false, not, ◌&&◌, Option, none, some, List, [], ◌∷◌,
  ltb, leb, if◌then◌else◌, u64_max, wadd, wsub, sat_add, sat_mul, clamp, ◌>>=◌,
}
use xde.Core.Ranges
use xde.Core.Ranges.{ByteRange, range}
use xde.Core.Units.{Float, bytes_in, nonzero, rate_floor}
use xde.Core.Ewma.{is_warm}
use xde.Core.SlotMap.{SlotMap}
use xde.Core.Segment.Plan.{
  Assignment, Claim, fresh, stolen, saturated, complete, cursor, remaining, align_up, snap_end,
  max_end, Plan, gap_is_deferred, no_assignments, bytes_remaining, in_flight, pending_attempt_for,
  push_assignment,
}
use xde.Core.Segment.Progress.{modify}

-- The gap of a loop that ended.
abbrev pub found : Option (Option ByteRange) → Option ByteRange
found none = none
found (some g) = g

module _ ⦃fl : Float⦄ ⦃sm : SlotMap (Assignment fl.F)⦄ where
  -- The loop of `next_claimable_gap` from `pos`; each round moves `pos` up. `none` is a loop that
  -- ran out of fuel, `some none` one that found no gap.
  unfoldable pub gap_loop : Plan → ℕ → ℕ → ℕ → ℕ → Option (Option ByteRange)
  unfolding gap_is_deferred max_end
  gap_loop p total now zero pos = none
  gap_loop p total now (suc fuel) pos =
      if ltb pos total
      then (elim (Ranges.first_gap p.claimed pos total) [
        | none ↦ some none
        | some gap ↦ elim (gap_is_deferred p.deferred gap now) [
          | false ↦ some (some gap)
          | true ↦
              let skip : ℕ = elim (max_end gap now p.deferred) [ none ↦ gap.end | some e ↦ e ] in
              gap_loop p total now fuel (max skip (sat_add gap.start 1))
        ]
      ])
      else some none

  unfoldable pub next_claimable_gap : Plan → ℕ → ℕ → Option ByteRange
  unfolding gap_loop
  next_claimable_gap p total now = found (gap_loop p total now (suc total) 0)

  unfoldable pub piece_len_for : Plan → fl.F → ℕ → Option ℕ
  unfolding bytes_in align_up clamp
  piece_len_for p est remaining_total =
      let by_duration = bytes_in est p.piece_duration in
      let tail = leb remaining_total p.cfg.tail_threshold in
      let low = if tail then p.cfg.tail_min_piece else p.cfg.min_piece in
      let high =
        if tail && ltb remaining_total p.cfg.max_piece
        then max (p.cfg.max_piece / 8) low
        else p.cfg.max_piece in
      (clamp by_duration low high >>= λ n. some (align_up n p.cfg.alignment))

  -- How much of a fresh gap a worker takes, given the piece for its speed.
  unfoldable pub take_len : Plan → ℕ → ℕ → Bool → ℕ → ℕ
  unfolding in_flight
  take_len p total piece solo peer_slots =
      let len = max piece 1 in
      if solo
      then len
      else let inflight = min (in_flight p) 255 in
        let slots_left = max (max peer_slots 1 - inflight) 1 in
        if ltb 1 slots_left
        then (let unclaimed = total - Ranges.covered_len p.claimed in
            if ltb (sat_mul p.cfg.min_piece 2) unclaimed
            then max (min len (unclaimed / slots_left)) p.cfg.min_piece
            else len)
        else len

  -- The overlap prefix: the bytes before the piece, if all of them are claimed.
  unfoldable pub overlap_for : Plan → ByteRange → ℕ
  overlap_for p take =
      let desired = min p.overlap_bytes take.start in
      if ltb 0 desired
        && Ranges.contains_range p.claimed (range (wsub take.start desired) take.start)
      then desired
      else 0

  -- Step 1 of `claim_with`: a piece of a fresh gap.
  unfoldable pub claim_gap : Plan → ByteRange → ℕ → ℕ → ℕ → Claim sm.Key × Plan
  unfolding overlap_for pending_attempt_for push_assignment snap_end modify
  claim_gap p gap total len now =
      let take = snap_end (Ranges.truncated_to gap len) p.cfg.alignment total in
      let attempt = pending_attempt_for p take in
      let (id, q) = push_assignment p take now (overlap_for p take) in
      (fresh id, modify q id λ a. record a { attempt = attempt })

  -- The key of `max_by_key`: microseconds until the assignment is done.
  eta_key : fl.F → Assignment fl.F → ℕ
  unfolding nonzero rate_floor remaining
  eta_key est a =
      let speed = if is_warm a.rate then fl.fmax a.rate.mean rate_floor else nonzero est in
      fl.to_u64
        (fl.mul (fl.div (fl.of_u64 (remaining a)) (fl.fmax speed (fl.lit 1 0))) (fl.lit 1000000 0))

  pub eligible : Plan → ℕ → Assignment fl.F → Bool
  eligible p now a = not a.truncated && leb p.cfg.straggler_grace (now - a.started)

  -- The step of `max_by_key`: of two equal keys the later one stays.
  unfoldable pub slower :
      fl.F → Option (sm.Key × Assignment fl.F) → sm.Key × Assignment fl.F → sm.Key × Assignment fl.F
  unfolding eta_key
  slower est none x = x
  slower est (some b) x = if ltb (eta_key est x.1) (eta_key est b.1) then b else x

  -- `iter().filter(..).max_by_key(..)`.
  unfoldable pub slowest :
      Plan
      → fl.F
      → ℕ
      → Option (sm.Key × Assignment fl.F)
      → List (sm.Key × Assignment fl.F)
      → Option (sm.Key × Assignment fl.F)
  unfolding eligible slower
  slowest p est now best [] = best
  slowest p est now best (x ∷ rest) =
      slowest p est now (if eligible p now x.1 then some (slower est best x) else best) rest

  -- The cut point in the victim's range. The outer `none` is a panic of `clamp`, the inner one
  -- means that nothing is worth splitting.
  unfoldable pub cut_point : Plan → fl.F → Assignment fl.F → Option (Option ℕ)
  unfolding nonzero rate_floor align_up clamp cursor bytes_remaining
  cut_point p est a =
      let protected = sat_add a.span.start (max a.wire_received a.destination_submitted) in
      let rem = a.span.end - protected in
      let tail : Bool = elim (bytes_remaining p) [
        | none ↦ false
        | some r ↦ leb r p.cfg.tail_threshold
      ] in
      let min_piece = if tail then p.cfg.tail_min_piece else p.cfg.min_piece in
      if ltb rem (sat_mul min_piece 2)
      then some none
      else let v1 = fl.fmax (if is_warm a.rate then a.rate.mean else nonzero est) rate_floor in
        let v2 = nonzero est in
        let share = fl.to_u64 (fl.mul (fl.of_u64 rem) (fl.div v1 (fl.add v1 v2))) in
        (clamp share min_piece (wsub rem min_piece) >>= λ keep.
        let cut =
          min (align_up (wadd protected keep) p.cfg.alignment) (wsub a.span.end min_piece) in
        some (if ltb (cursor a) cut && ltb cut a.span.end then some cut else none))

  -- `plan_steal`: the victim's key, the victim and the cut.
  unfoldable pub plan_steal : Plan → fl.F → ℕ → Option (Option (sm.Key × Assignment fl.F × ℕ))
  unfolding slowest cut_point
  plan_steal p est now = elim (slowest p est now none (sm.entries p.assignments)) [
    | none ↦ some none
    | some (k, a) ↦ cut_point p est a >>= λ found.
        some (elim found [ none ↦ none | some cut ↦ some (k, a, cut) ])
  ]

  -- Step 2 of `claim_with`: the victim keeps its range up to the cut.
  unfoldable pub steal_at : Plan → sm.Key → Assignment fl.F → ℕ → ℕ → Claim sm.Key × Plan
  unfolding push_assignment
  steal_at p victim a cut now =
      let kept = record a { span = range a.span.start cut; truncated = true } in
      let q = record p { assignments = sm.put p.assignments victim kept } in
      let (id, r) = push_assignment q (range cut a.span.end) now 0 in (stolen id victim, r)

  claim_whole : Plan → ℕ → ℕ → ℕ → Claim sm.Key × Plan
  unfolding push_assignment
  claim_whole p start end now =
      let (id, q) = push_assignment p (range start end) now 0 in (fresh id, q)

  unfoldable pub steal_found :
      Plan → ℕ → Option (sm.Key × Assignment fl.F × ℕ) → Claim sm.Key × Plan
  unfolding steal_at
  steal_found p now none = (saturated, p)
  steal_found p now (some (victim, a, cut)) = steal_at p victim a cut now

  unfoldable pub claim_stolen : Plan → fl.F → ℕ → Option (Claim sm.Key × Plan)
  unfolding plan_steal steal_found
  claim_stolen p est now = plan_steal p est now >>= λ found. some (steal_found p now found)

  -- A piece of the claimable gap, if there is one, else a stolen tail.
  unfoldable pub claim_piece :
      Plan → ℕ → fl.F → ℕ → Bool → ℕ → ℕ → Option ByteRange → Option (Claim sm.Key × Plan)
  unfolding take_len claim_gap claim_stolen
  claim_piece p total est now solo peer_slots piece (some gap) =
      some (claim_gap p gap total (take_len p total piece solo peer_slots) now)
  claim_piece p total est now solo peer_slots piece none =
      if solo then some (saturated, p) else claim_stolen p est now

  -- `claim_with` on a source that serves ranges, of a transfer that is not complete.
  unfoldable pub claim_ranged : Plan → ℕ → fl.F → ℕ → Bool → ℕ → Option (Claim sm.Key × Plan)
  unfolding piece_len_for next_claimable_gap claim_piece
  claim_ranged p total est now solo peer_slots = do
    piece ← piece_len_for p est (wsub total (Ranges.covered_len p.completed))
    claim_piece p total est now solo peer_slots piece (next_claimable_gap p total now)

  -- The branches of `claim_with` for a length that is known and one that is not.
  unfoldable pub claim_for : Plan → Option ℕ → fl.F → ℕ → Bool → ℕ → Option (Claim sm.Key × Plan)
  unfolding claim_ranged claim_whole
  claim_for p none est now solo peer_slots =
      if not (no_assignments p)
      then some (saturated, p)
      else some (claim_whole p (Ranges.contiguous_prefix p.completed) u64_max now)
  claim_for p (some total) est now solo peer_slots =
      if Ranges.is_complete p.completed total
      then some (complete, p)
      else if p.single_stream
      then (if not (no_assignments p)
          then some (saturated, p)
          else let start = Ranges.contiguous_prefix p.completed in
            if leb total start then some (complete, p) else some (claim_whole p start total now))
      else claim_ranged p total est now solo peer_slots

  unfoldable pub claim_with : Plan → fl.F → ℕ → Bool → ℕ → Option (Claim sm.Key × Plan)
  unfolding claim_for
  claim_with p est now solo peer_slots = claim_for p p.total est now solo peer_slots

  unfoldable pub claim : Plan → fl.F → ℕ → Option (Claim sm.Key × Plan)
  unfolding claim_with
  claim p est now = claim_with p est now false 2
