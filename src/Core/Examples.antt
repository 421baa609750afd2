-- ===== src/Core/Examples.antt =====
-- A small arithmetic and a transfer of a thousand bytes, and the theorems about plans and policies
-- applied there.
use xde.Prelude.{
  ℕ, zero, suc, ◌+◌, ◌-◌, ◌*◌, ◌/◌, ◌≤◌, ◌<◌, ◌≡◌, ◌↔◌, ◌⊎◌, refl, true, false, Option, none, some,
  [], ◌∷◌, arith, ltb, leb, min, max, u64_max, u64_mod, wadd, wsub,
}
use xde.Core.Ranges
use xde.Core.Ranges.{ByteRange, RangeSet, range, holds}
use xde.Core.Ranges.Normal.{covers}
use xde.Core.Ranges.Canonical.{new-IsValid}
use xde.Core.Units.{Float}
use xde.Core.Policy.{
  SegmentationPolicy, TransferPolicy, EngineLimits, Concurrency, clamp_policy, default_policy,
  default_limits,
}
use xde.Core.Policy.Ceilings.{clamp_policy_bounds, clamp_policy-truncates}
use xde.Core.Slots.{slots, slots-IsLawful}
use xde.Core.Segment.Plan.{Assignment, Claim, fresh, Plan, plan_new, clamp_max_piece}
use xde.Core.Segment.Claim.{
  cut_point, gap_loop, next_claimable_gap, claim_with, claim_gap, piece_len_for, plan_steal,
}
use xde.Core.Segment.Progress.{on_response_verified}
use xde.Core.Segment.Owners.{owns, parked}
use xde.Core.Segment.Ownership.Steps.{IsOwned, plan_new-IsOwned}
use xde.Core.Segment.Ownership.Runs.{
  Run, stay, more, claimed, verified, Run-one_owner, Run-claimed_iff,
}
use xde.Core.Segment.Ownership.Claims.{new_assignment}
use xde.Core.Segment.Ownership.Attempts.{claim_gap-attempt}
use xde.Core.Segment.Ownership.Search.{gap_loop-enough, next_claimable_gap_lem}
use xde.Core.Segment.Ownership.Frontier.{cut_point_frontier}
use xde.Core.Segment.Pieces.{clamp_max_piece-panic}

-- Whole numbers in place of `f64`: enough to run the code on.
abbrev power : ℕ → ℕ → ℕ
power b zero = 1
power b (suc n) = b * power b n

abbrev whole : Float
whole = record {
  F = ℕ;
  lit = λ m k. m / power 10 k;
  of_u64 = λ n. n;
  to_u64 = λ x. min x u64_max;
  add = λ x y. x + y;
  sub = λ x y. x - y;
  mul = λ x y. x * y;
  div = λ x y. x / y;
  neg = λ x. x;
  fmin = min;
  fmax = max;
  lt = ltb;
  le = leb;
  is_finite = λ x. true;
  exp = λ x. 1;
  sqrt = λ x. x;
  powi = power;
  as_secs = λ n. n / 1_000_000_000;
  from_secs = λ x. x * 1_000_000_000;
}

abbrev small_pieces : SegmentationPolicy ℕ
small_pieces = record {
  min_piece = 100;
  max_piece = 400;
  tail_threshold = 200;
  tail_min_piece = 50;
  alignment = 1;
  straggler_z = 2;
  straggler_share = 0;
  straggler_grace = 5;
}

abbrev APlan : Type 0
APlan = Plan ⦃fl = whole⦄ ⦃sm = slots⦄

abbrev start : APlan
start = plan_new ⦃fl = whole⦄ ⦃sm = slots⦄ (some 1000) Ranges.new small_pieces 1_000_000_000 0

abbrev AKey : Type 0
AKey = ℕ

abbrev handed_out : Option (Claim AKey × APlan)
handed_out = claim_with ⦃fl = whole⦄ ⦃sm = slots⦄ start 300 0 true 1

abbrev second : APlan
second = elim handed_out [ none ↦ start | some (c, q) ↦ q ]

-- The first worker gets the bytes up to 300, the piece for one second.
claim_test : (handed_out ≡ some (fresh 0, second)) × (second.claimed.ranges ≡ range 0 300 ∷ [])
unfolding claim_with plan_new Ranges.is_complete wsub Ranges.covered_len Ranges.first_gap
    Ranges.truncated_to wadd Ranges.insert
claim_test = (refl, refl)

start_test : (start.total ≡ some 1000) × (start.single_stream ≡ false)
unfolding plan_new
start_test = (refl, refl)

abbrev third : APlan
third = on_response_verified ⦃fl = whole⦄ ⦃sm = slots⦄ second 0 (range 0 100)

-- The worker is given a piece, and verifies the first hundred bytes of it.
third-Run : Run ⦃fl = whole⦄ ⦃sm = slots⦄ 1000 start third
third-Run =
    more
      (more stay
        (claimed {p = start} 300 0 true 1 (fresh 0) start_test.0 start_test.1 claim_test.0))
      (verified 0 (range 0 100))

owns_test : owns ⦃fl = whole⦄ ⦃sm = slots⦄ third.assignments 0 250 ≡ true
unfolding claim_with plan_new Ranges.is_complete wsub Ranges.covered_len Ranges.first_gap
    on_response_verified Ranges.truncated_to wadd
owns_test = refl

abbrev zero_key : AKey
zero_key = 0

Run-one_owner_example : (zero_key ≡ zero_key) × (parked third.deferred 250 ≡ false)
Run-one_owner_example =
    Run-one_owner ⦃fl = whole⦄ ⦃sm = slots⦄ slots-IsLawful 1000 Ranges.new small_pieces
      1_000_000_000 0 third new-IsValid (omega arith) (λ off e. cc e) third-Run 0 0 250 owns_test
      owns_test

Run-claimed_iff_example : (covers third.claimed.ranges 250 ≡ true) ↔ (
    (250 < 1000)
    × ((covers third.completed.ranges 250 ≡ true)
        ⊎ ((k : AKey) × (owns ⦃fl = whole⦄ ⦃sm = slots⦄ third.assignments k 250 ≡ true))
        ⊎ (parked third.deferred 250 ≡ true)))
Run-claimed_iff_example =
    Run-claimed_iff ⦃fl = whole⦄ ⦃sm = slots⦄ slots-IsLawful 1000 Ranges.new small_pieces
      1_000_000_000 0 third new-IsValid (omega arith) (λ off e. cc e) third-Run 250

start-IsOwned : IsOwned ⦃fl = whole⦄ ⦃sm = slots⦄ 1000 start
start-IsOwned =
    plan_new-IsOwned ⦃fl = whole⦄ ⦃sm = slots⦄ slots-IsLawful 1000 Ranges.new small_pieces
      1_000_000_000 0 new-IsValid (omega arith) (λ off e. cc e)

next_claimable_gap_example :
    next_claimable_gap ⦃fl = whole⦄ ⦃sm = slots⦄ start 1000 0
    ≡ Ranges.first_gap start.claimed 0 1000
next_claimable_gap_example =
    next_claimable_gap_lem ⦃fl = whole⦄ ⦃sm = slots⦄ 1000 start 0 start-IsOwned

gap_loop-enough_example :
    (r : Option ByteRange) × (gap_loop ⦃fl = whole⦄ ⦃sm = slots⦄ start 1000 0 (suc 1000) 0 ≡ some r)
gap_loop-enough_example =
    gap_loop-enough ⦃fl = whole⦄ ⦃sm = slots⦄ start 1000 0 1000 0 (omega arith) (omega arith)

abbrev gap_taken : Claim AKey × APlan
gap_taken = claim_gap ⦃fl = whole⦄ ⦃sm = slots⦄ start (range 0 1000) 1000 300 0

gap_taken_test : gap_taken ≡ (fresh 0, gap_taken.1)
unfolding claim_gap plan_new
gap_taken_test = refl

claim_gap-attempt_example :
    (a : Assignment ℕ) × (slots.get (gap_taken.1).assignments 0 ≡ some a) × (a.attempt ≡ 0)
claim_gap-attempt_example =
    claim_gap-attempt ⦃fl = whole⦄ ⦃sm = slots⦄ slots-IsLawful 1000 start (range 0 1000) 300 0 0
      gap_taken.1 start-IsOwned (omega arith) (omega arith) (λ off e. (unfold plan_new in refl))
      gap_taken_test

start_cfg : (64 < start.cfg.min_piece) × (start.cfg.tail_threshold < 1000)
unfolding plan_new
start_cfg = (omega arith, omega arith)

clamp_max_piece-panic_example :
    piece_len_for ⦃fl = whole⦄ ⦃sm = slots⦄
      (clamp_max_piece ⦃fl = whole⦄ ⦃sm = slots⦄ start 64)
      300
      1000
    ≡ none
clamp_max_piece-panic_example =
    clamp_max_piece-panic ⦃fl = whole⦄ ⦃sm = slots⦄ start 64 300 1000 (omega arith) start_cfg.0
      start_cfg.1

-- One worker has the whole artifact, and has received 300 bytes of it.
abbrev busy_worker : Assignment ℕ
busy_worker = record (new_assignment ⦃fl = whole⦄ ⦃sm = slots⦄ (range 0 1000) 0 0) {
  wire_received = 300;
}

abbrev busy : APlan
busy = record start {
  claimed = record { ranges = range 0 1000 ∷ []; covered = 1000 };
  assignments = some busy_worker ∷ [];
}

steal_test : plan_steal ⦃fl = whole⦄ ⦃sm = slots⦄ busy 300 100 ≡ some (some (0, busy_worker, 400))
unfolding plan_steal plan_new Ranges.covered_len wsub Ranges.first_gap wadd xde.Core.Ewma.ewma_new
steal_test = refl

busy_cfg :
    (0 < busy.cfg.alignment)
    × (0 < busy.cfg.min_piece)
    × (0 < busy.cfg.tail_min_piece)
    × (1000 + busy.cfg.alignment < u64_mod)
unfolding plan_new
busy_cfg = (omega arith, omega arith, omega arith, omega arith)

cut_test : cut_point ⦃fl = whole⦄ ⦃sm = slots⦄ busy 300 busy_worker ≡ some (some 400)
unfolding cut_point plan_new Ranges.covered_len wsub Ranges.first_gap wadd xde.Core.Ewma.ewma_new
cut_test = refl

cut_point_example :
    (busy_worker.span.start + max busy_worker.wire_received busy_worker.destination_submitted ≤ 400)
    × (400 + min busy.cfg.min_piece busy.cfg.tail_min_piece ≤ busy_worker.span.end)
cut_point_example =
    cut_point_frontier ⦃fl = whole⦄ ⦃sm = slots⦄ busy 300 busy_worker 400 busy_cfg.0 busy_cfg.1
      busy_cfg.2 busy_cfg.3 cut_test

abbrev a_policy : TransferPolicy ℕ
a_policy = default_policy ⦃fl = whole⦄

clamp_policy_example :
    let q = clamp_policy ⦃fl = whole⦄ default_limits a_policy in
    (q.transport.max_physical_connections ≤ a_policy.transport.max_physical_connections)
    × (q.transport.max_physical_connections ≤ max default_limits.max_connections_per_origin 1)
    × (q.transport.max_streams_per_connection ≡ a_policy.transport.max_streams_per_connection)
    × (q.initial_physical_connections ≤ q.transport.max_physical_connections)
    × (q.initial_streams_per_connection ≤ q.transport.max_streams_per_connection)
    × (0 < a_policy.transport.max_physical_connections → 0 < q.transport.max_physical_connections)
clamp_policy_example = clamp_policy_bounds ⦃fl = whole⦄ default_limits a_policy (omega arith)

abbrev wide_limits : EngineLimits
wide_limits = record default_limits { max_connections_per_origin = 512 }

clamp_policy-truncates_example :
    (clamp_policy ⦃fl = whole⦄ wide_limits a_policy).transport.max_physical_connections ≤ 1
clamp_policy-truncates_example = clamp_policy-truncates ⦃fl = whole⦄ wide_limits a_policy 2 refl

abbrev wish : Concurrency
wish = record { physical_connections = 0; logical_streams = 1000 }
