-- ===== src/Core/Policy/Ceilings.antt =====
-- The ceilings of a transfer policy: `EngineLimits::clamp_policy` and `Concurrency::clamped`.
use xde.Prelude.{ℕ, ◌≤◌, ◌<◌, ◌≡◌, refl, ◌*◌, ◌↔◌, ◌⊎◌, none, some, arith, max, clamp}
use xde.Core.Units.{Float}
use xde.Core.Policy.{EngineLimits, TransferPolicy, clamp_policy, Concurrency, clamped}

module _ ⦃fl : Float⦄ where
  -- Clamping a policy never raises a ceiling of the job: it has no more connections than the job
  -- asked for, no more than the engine allows an origin (when that fits in eight bits, and counting
  -- an allowance of 0 as 1), the initial counts are below the ceilings, and a job that allows a
  -- connection keeps one.
  pub clamp_policy_bounds :
      (l : EngineLimits) (p : TransferPolicy fl.F)
      → l.max_connections_per_origin < 256
      → let q = clamp_policy l p in
        (q.transport.max_physical_connections ≤ p.transport.max_physical_connections)
        × (q.transport.max_physical_connections ≤ max l.max_connections_per_origin 1)
        × (q.transport.max_streams_per_connection ≡ p.transport.max_streams_per_connection)
        × (q.initial_physical_connections ≤ q.transport.max_physical_connections)
        × (q.initial_streams_per_connection ≤ q.transport.max_streams_per_connection)
        × (0 < p.transport.max_physical_connections → 0 < q.transport.max_physical_connections)
  unfolding clamp_policy
  clamp_policy_bounds l p h =
      (ground arith, ground arith, refl, ground arith, ground arith, λ k. ground arith)

  -- The cast to eight bits: an allowance of 256 connections for an origin, or any multiple of 256,
  -- leaves a job at most one connection.
  pub clamp_policy-truncates :
      (l : EngineLimits) (p : TransferPolicy fl.F) (n : ℕ)
      → l.max_connections_per_origin ≡ n * 256
      → (clamp_policy l p).transport.max_physical_connections ≤ 1
  unfolding clamp_policy
  clamp_policy-truncates l p n h = ground arith

-- Clamped concurrency lies between 1 and the ceilings, and has no value exactly when a ceiling is 0.
pub clamped_lem :
    {F : Type 0} (c : Concurrency) (p : TransferPolicy F)
    → ((clamped c p ≡ none) ↔ (
        (p.transport.max_physical_connections ≡ 0) ⊎ (p.transport.max_streams_per_connection ≡ 0)))
      × ((d : Concurrency)
          → clamped c p ≡ some d
          → (1 ≤ d.physical_connections)
            × (d.physical_connections ≤ p.transport.max_physical_connections)
            × (1 ≤ d.logical_streams)
            × (d.logical_streams ≤ p.transport.max_streams_per_connection))
unfolding clamped clamp
clamped_lem c p = (((λ h. ground arith), (λ h. ground arith)), λ d h. ground arith)
