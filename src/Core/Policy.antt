-- ===== src/Core/Policy.antt =====
-- crates/xde/src/core/policy.rs: limits, their clamping, and the retry backoff.
pub mod Ceilings
use xde.Prelude.{
  ℕ, ◌*◌, ◌%◌, min, max, Bool, true, false, if◌then◌else◌, Option, some, clamp, ◌>>=◌,
}
use xde.Core.Units.{Float, mib, kib}

pub record SegmentationPolicy (F : Type 0) : Type 0 where
  pub min_piece : ℕ
  pub max_piece : ℕ
  pub tail_threshold : ℕ
  pub tail_min_piece : ℕ
  pub alignment : ℕ
  pub straggler_z : F
  pub straggler_share : F
  pub straggler_grace : ℕ

pub record TransportLimits : Type 0 where
  pub max_physical_connections : ℕ
  pub max_streams_per_connection : ℕ
  pub max_active_assignments : ℕ

pub record RetryPolicy : Type 0 where
  pub max_attempts_per_range : ℕ
  pub base_backoff : ℕ
  pub max_backoff : ℕ
  pub jitter : Bool

pub record RedirectPolicy : Type 0 where
  pub allow_https_to_http : Bool
  pub forward_credentials_cross_origin : Bool

pub data HttpVersionPolicy : Type 0 where
  auto http1_only http2_prior_knowledge : HttpVersionPolicy

pub record TransferPolicy (F : Type 0) : Type 0 where
  pub transport : TransportLimits
  pub initial_physical_connections : ℕ
  pub initial_streams_per_connection : ℕ
  pub segmentation : SegmentationPolicy F
  pub retry : RetryPolicy
  pub max_redirects : ℕ
  pub redirects : RedirectPolicy
  pub allow_compressed : Bool
  pub http_version : HttpVersionPolicy

pub record EngineLimits : Type 0 where
  pub memory_bytes : ℕ
  pub max_jobs : ℕ
  pub max_physical_connections : ℕ
  pub max_connections_per_origin : ℕ
  pub max_active_assignments : ℕ

-- The defaults; durations are nanoseconds.
abbrev pub default_transport : TransportLimits
default_transport = record {
  max_physical_connections = 8;
  max_streams_per_connection = 16;
  max_active_assignments = 8;
}

abbrev pub default_retry : RetryPolicy
default_retry = record {
  max_attempts_per_range = 6;
  base_backoff = 250_000_000;
  max_backoff = 30_000_000_000;
  jitter = true;
}

abbrev pub default_limits : EngineLimits
default_limits = record {
  memory_bytes = 256 * mib;
  max_jobs = 128;
  max_physical_connections = 64;
  max_connections_per_origin = 16;
  max_active_assignments = 32;
}

module _ ⦃fl : Float⦄ where
  abbrev pub default_segmentation : SegmentationPolicy fl.F
  default_segmentation = record {
    min_piece = 256 * kib;
    max_piece = 512 * mib;
    tail_threshold = 64 * mib;
    tail_min_piece = 64 * kib;
    alignment = 64 * kib;
    straggler_z = fl.lit 2 0;
    straggler_share = fl.lit 5 1;
    straggler_grace = 2_000_000_000;
  }

  abbrev pub default_policy : TransferPolicy fl.F
  default_policy = record {
    transport = default_transport;
    initial_physical_connections = 1;
    initial_streams_per_connection = 1;
    segmentation = default_segmentation;
    retry = default_retry;
    max_redirects = 10;
    redirects = record { allow_https_to_http = false; forward_credentials_cross_origin = false };
    allow_compressed = false;
    http_version = HttpVersionPolicy.auto;
  }

  -- `EngineLimits::clamp_policy`; `as u8` keeps the low eight bits.
  unfoldable pub clamp_policy : EngineLimits → TransferPolicy fl.F → TransferPolicy fl.F
  clamp_policy l p =
      let max_p = max (l.max_connections_per_origin % 256) 1 in
      let connections = min p.transport.max_physical_connections max_p in
      record p {
        transport = record (p.transport) { max_physical_connections = connections };
        initial_physical_connections = min p.initial_physical_connections connections;
        initial_streams_per_connection =
            min (max p.initial_streams_per_connection 1) p.transport.max_streams_per_connection;
      }

  -- `RetryPolicy::backoff`, with the draw of the random source as an argument.
  unfoldable pub backoff : RetryPolicy → ℕ → fl.F → ℕ
  backoff r attempt draw =
      let exp = fl.mul (fl.as_secs r.base_backoff) (fl.powi (fl.lit 2 0) (min attempt 16)) in
      let capped = fl.fmin exp (fl.as_secs r.max_backoff) in
      let v = if r.jitter then fl.mul capped draw else capped in
      fl.from_secs (fl.fmax v (fl.lit 1 3))

-- The setters of `TransferPolicyBuilder`.
unfoldable pub with_max_physical_connections :
    {F : Type 0} → ℕ → TransferPolicy F → TransferPolicy F
with_max_physical_connections v p = record p {
  transport = record (p.transport) { max_physical_connections = max v 1 };
}

unfoldable pub with_max_streams : {F : Type 0} → ℕ → TransferPolicy F → TransferPolicy F
with_max_streams v p = record p {
  transport = record (p.transport) { max_streams_per_connection = max v 1 };
}

unfoldable pub with_initial_streams : {F : Type 0} → ℕ → TransferPolicy F → TransferPolicy F
with_initial_streams v p = record p { initial_streams_per_connection = max v 1 }

unfoldable pub with_compressed : {F : Type 0} → Bool → TransferPolicy F → TransferPolicy F
with_compressed v p = record p { allow_compressed = v }

-- `struct Concurrency`.
pub record Concurrency : Type 0 where
  pub physical_connections : ℕ
  pub logical_streams : ℕ

-- `Concurrency::clamped`; `none` is the panic of `clamp` at a ceiling of 0.
unfoldable pub clamped : {F : Type 0} → Concurrency → TransferPolicy F → Option Concurrency
clamped c p = do
  physical ← clamp c.physical_connections 1 p.transport.max_physical_connections
  logical ← clamp c.logical_streams 1 p.transport.max_streams_per_connection
  some (record { physical_connections = physical; logical_streams = logical })
