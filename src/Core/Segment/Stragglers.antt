-- ===== src/Core/Segment/Stragglers.antt =====
-- Stragglers, stalls, the rebalance and the time estimates of crates/xde/src/core/segment.rs.
use xde.Prelude.{
  ℕ, ◌-◌, min, max, Bool, true, not, ◌&&◌, ◌||◌, Option, none, some, List, [], ◌∷◌, ◌++◌, ltb, leb,
  ◌==◌, if◌then◌else◌, length, is_nil, all, u64_max, sat_mul, wadd,
}
use xde.Core.Ranges
use xde.Core.Ranges.{ByteRange, RangeSet, range, is_empty}
use xde.Core.Units.{Float, from_bps, time_for, rate_floor}
use xde.Core.Ewma.{EwmaWithVariance, ewma_new, observe, is_warm}
use xde.Core.SlotMap.{SlotMap}
use xde.Core.Segment.Plan.{Assignment, cursor, remaining, align_up, Plan, in_flight}

-- The loop of `rebalance_stragglers` that releases the tail from `pos` to `end`, but for what is
-- completed.
unfoldable pub release_tail : List ByteRange → ℕ → ℕ → RangeSet → RangeSet
release_tail [] pos end claimed =
    if ltb pos end then Ranges.remove claimed (range pos end) else claimed
release_tail (c ∷ cs) pos end claimed =
    let skip = release_tail cs pos end claimed in
    let onward =
      release_tail cs (max pos c.end) end (
        if ltb pos c.start then Ranges.remove claimed (range pos (min c.start end)) else claimed) in
    let stop = if ltb pos end then Ranges.remove claimed (range pos end) else claimed in
    let last =
      if ltb pos c.start then Ranges.remove claimed (range pos (min c.start end)) else claimed in
    if leb c.end pos
    then skip
    else if leb end c.start
    then stop
    else if leb end (max pos c.end)
    then last
    else onward

-- `duration.max` over the assignments.
unfoldable pub max_of : List ℕ → ℕ
max_of [] = 0
max_of (x ∷ xs) = max x (max_of xs)

module _ ⦃fl : Float⦄ ⦃sm : SlotMap (Assignment fl.F)⦄ where
  -- The mean rates of the warm workers, in the order of `values`.
  unfoldable pub warm_rates : List (sm.Key × Assignment fl.F) → List fl.F
  warm_rates [] = []
  warm_rates ((k, a) ∷ rest) =
      if is_warm a.rate then a.rate.mean ∷ warm_rates rest else warm_rates rest

  sum_rates : fl.F → List fl.F → fl.F
  sum_rates acc [] = acc
  sum_rates acc (x ∷ xs) = sum_rates (fl.add acc x) xs

  sum_squares : fl.F → fl.F → List fl.F → fl.F
  sum_squares mean acc [] = acc
  sum_squares mean acc (x ∷ xs) = sum_squares mean (fl.add acc (fl.powi (fl.sub x mean) 2)) xs

  observe_all : EwmaWithVariance fl.F → List fl.F → EwmaWithVariance fl.F
  unfolding observe
  observe_all e [] = e
  observe_all e (x ∷ xs) = observe_all (observe e x 1_000_000_000) xs

  unfoldable pub rate_stats : Plan → EwmaWithVariance fl.F
  unfolding observe_all warm_rates ewma_new
  rate_stats p = observe_all (ewma_new 4_000_000_000) (warm_rates (sm.entries p.assignments))

  -- Mean and standard deviation of the warm rates.
  unfoldable pub fleet_stats : Plan → Option (fl.F × fl.F)
  unfolding warm_rates sum_rates sum_squares
  fleet_stats p =
      let rates = warm_rates (sm.entries p.assignments) in
      if is_nil rates
      then none
      else let n = fl.of_u64 (length rates) in
        let mean = fl.div (sum_rates (fl.lit 0 0) rates) n in
        let var = fl.div (sum_squares mean (fl.lit 0 0) rates) n in
        some (mean, fl.sqrt (fl.fmax var (fl.lit 0 0)))

  -- The tests that make one worker a straggler of a fleet with this mean and deviation.
  unfoldable pub is_straggler : Plan → ℕ → fl.F → fl.F → Assignment fl.F → Bool
  unfolding remaining
  is_straggler p now mean sd a =
      let z =
        if fl.lt sd (fl.lit 1 9)
        then (if fl.lt a.rate.mean (fl.mul mean (fl.lit 5 1)) then fl.lit 4 0 else fl.lit 0 0)
        else fl.div (fl.sub mean a.rate.mean) sd in
      leb p.cfg.straggler_grace (now - a.started)
      && (is_warm a.rate
          && (leb p.cfg.tail_min_piece (remaining a)
              && (fl.le p.cfg.straggler_z z
                  || fl.lt a.rate.mean (fl.mul mean p.cfg.straggler_share))))

  pick_stragglers : Plan → ℕ → fl.F → fl.F → List (sm.Key × Assignment fl.F) → List sm.Key
  unfolding is_straggler
  pick_stragglers p now mean sd [] = []
  pick_stragglers p now mean sd ((k, a) ∷ rest) =
      let more = pick_stragglers p now mean sd rest in
      if is_straggler p now mean sd a then k ∷ more else more

  unfoldable pub stragglers : Plan → ℕ → List sm.Key
  unfolding fleet_stats pick_stragglers in_flight
  stragglers p now = if ltb (in_flight p) 2 then [] else elim (fleet_stats p) [
    | none ↦ []
    | some (mean, sd) ↦ pick_stragglers p now mean sd (sm.entries p.assignments)
  ]

  pick_stalled : ℕ → ℕ → List (sm.Key × Assignment fl.F) → List sm.Key
  pick_stalled now limit [] = []
  pick_stalled now limit ((k, a) ∷ rest) =
      let more = pick_stalled now limit rest in
      if ltb limit (now - a.last_progress) then k ∷ more else more

  unfoldable pub stalled : Plan → ℕ → ℕ → List sm.Key
  unfolding pick_stalled
  stalled p now limit = pick_stalled now limit (sm.entries p.assignments)

  -- Where a straggler is cut, if it is worth it.
  unfoldable pub rebalance_cut : Plan → Assignment fl.F → Option ℕ
  unfolding cursor align_up rate_floor
  rebalance_cut p a =
      let speed = fl.fmax a.rate.mean rate_floor in
      let keep =
        max (max (fl.to_u64 (fl.mul speed (fl.as_secs p.piece_duration))) p.cfg.min_piece)
          p.cfg.tail_min_piece in
      let end = a.span.end in
      let at = cursor a in
      if not (is_warm a.rate) || leb (end - at) (sat_mul keep 2)
      then none
      else let new_end = min (align_up (wadd at keep) p.cfg.alignment) end in
        if leb end new_end || leb new_end at then none else some new_end

  -- One round of the loop: the plan, and the cut that is passed on to the connection.
  unfoldable pub rebalance_one : Plan → sm.Key → Plan × List (sm.Key × ℕ)
  unfolding rebalance_cut release_tail
  rebalance_one p id = elim (sm.get p.assignments id) [
    | none ↦ (p, [])
    | some a ↦ elim (rebalance_cut p a) [
      | none ↦ (p, [])
      | some new_end ↦ (
        record p {
          assignments =
              sm.put p.assignments id
                (record a { span = range a.span.start new_end; truncated = true });
          claimed = release_tail p.completed.ranges new_end a.span.end p.claimed;
        },
        (id, new_end) ∷ [],
      )
    ]
  ]

  unfoldable pub rebalance_all : Plan → List sm.Key → Plan × List (sm.Key × ℕ)
  unfolding rebalance_one
  rebalance_all p [] = (p, [])
  rebalance_all p (id ∷ ids) =
      let (q, cut) = rebalance_one p id in let (r, cuts) = rebalance_all q ids in (r, cut ++ cuts)

  unfoldable pub rebalance_stragglers : Plan → ℕ → Plan × List (sm.Key × ℕ)
  unfolding rebalance_all stragglers in_flight
  rebalance_stragglers p now =
      if ltb (in_flight p) 2 then (p, []) else rebalance_all p (stragglers p now)

  -- `Assignment::eta`.
  unfoldable pub assignment_eta : Assignment fl.F → ℕ
  unfolding remaining from_bps time_for
  assignment_eta a = time_for (from_bps a.rate.mean) (remaining a)

  etas : List (sm.Key × Assignment fl.F) → List ℕ
  unfolding assignment_eta
  etas [] = []
  etas ((k, a) ∷ rest) = assignment_eta a ∷ etas rest

  unfoldable pub eta : Plan → fl.F → Option ℕ
  unfolding etas max_of time_for
  eta p spare = elim p.total [
    | none ↦ none
    | some total ↦
        if leb total (Ranges.covered_len p.completed)
        then some 0
        else some (
            max (max_of (etas (sm.entries p.assignments)))
              (time_for spare (Ranges.sum_len (Ranges.gaps p.claimed total))))
  ]

  -- The assertions of `assert_invariants` on one assignment.
  unfoldable pub assignment_ok : RangeSet → Assignment fl.F → Bool
  unfolding cursor
  assignment_ok claimed a =
      (leb a.destination_committed (Ranges.len a.span) || a.span.end == u64_max)
      && (a.span.end == u64_max
          || Ranges.contains_range claimed (range a.span.start (max (cursor a) a.span.start)))

  unfoldable pub assert_invariants : Plan → Bool
  unfolding assignment_ok
  assert_invariants p =
      Ranges.assert_normalized p.completed
      && (Ranges.assert_normalized p.claimed
          && (all (λ e. assignment_ok p.claimed e.1) (sm.entries p.assignments)
              && all (λ r. Ranges.contains_range p.claimed r) p.completed.ranges))
