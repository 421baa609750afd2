-- ===== src/Core/Units.antt =====
-- crates/xde/src/core/units.rs: rates, and the `f64` operations that the engine uses.
--
-- antt has no floating point, so `f64` is a parameter: a type with the operations of the language
-- that the source calls. No law of floating point is assumed. Times and durations are numbers of
-- nanoseconds.
use xde.Prelude.{ℕ, Bool, ◌*◌, if◌then◌else◌, ◌&&◌}

pub record Float : Type 1 where
  pub F : Type 0
  -- `lit m k` is the literal m · 10⁻ᵏ.
  pub lit : ℕ → ℕ → F
  pub of_u64 : ℕ → F
  -- `x as u64`, which saturates.
  pub to_u64 : F → ℕ
  pub add : F → F → F
  pub sub : F → F → F
  pub mul : F → F → F
  pub div : F → F → F
  pub neg : F → F
  pub fmin : F → F → F
  pub fmax : F → F → F
  pub lt : F → F → Bool
  pub le : F → F → Bool
  pub is_finite : F → Bool
  pub exp : F → F
  pub sqrt : F → F
  pub powi : F → ℕ → F
  -- `Duration::as_secs_f64` and `Duration::from_secs_f64`.
  pub as_secs : ℕ → F
  pub from_secs : F → ℕ

abbrev pub kib : ℕ
kib = 1024

abbrev pub mib : ℕ
mib = 1024 * kib

abbrev pub gib : ℕ
gib = 1024 * mib

-- `impl Rate`: a rate is its `f64` of bytes per second.
module _ ⦃fl : Float⦄ where
  unfoldable pub rate_zero : fl.F
  rate_zero = fl.lit 0 0

  unfoldable pub rate_floor : fl.F
  rate_floor = fl.lit 1024 0

  unfoldable pub cold_start : fl.F
  cold_start = fl.mul (fl.lit 128 0) (fl.mul (fl.lit 1024 0) (fl.lit 1024 0))

  unfoldable pub from_bps : fl.F → fl.F
  from_bps v = if fl.is_finite v && fl.lt (fl.lit 0 0) v then v else fl.lit 0 0

  unfoldable pub from_mbps : fl.F → fl.F
  unfolding from_bps
  from_mbps v = from_bps (fl.mul v (fl.lit 125000 0))

  unfoldable pub nonzero : fl.F → fl.F
  unfolding rate_floor
  nonzero r = fl.fmax r rate_floor

  unfoldable pub bytes_in : fl.F → ℕ → ℕ
  bytes_in r d = fl.to_u64 (fl.fmax (fl.mul r (fl.as_secs d)) (fl.lit 0 0))

  unfoldable pub time_for : fl.F → ℕ → ℕ
  unfolding nonzero
  time_for r n = fl.from_secs (fl.div (fl.of_u64 n) (nonzero r))

  unfoldable pub is_zero : fl.F → Bool
  is_zero r = fl.le r (fl.lit 0 0)

  -- `Rate::min`, `Rate::max` and the operators.
  unfoldable pub rate_min : fl.F → fl.F → fl.F
  rate_min a b = fl.fmin a b

  unfoldable pub rate_max : fl.F → fl.F → fl.F
  rate_max a b = fl.fmax a b

  unfoldable pub rate_add : fl.F → fl.F → fl.F
  rate_add a b = fl.add a b

  unfoldable pub rate_sub : fl.F → fl.F → fl.F
  rate_sub a b = fl.fmax (fl.sub a b) (fl.lit 0 0)

  unfoldable pub rate_mul : fl.F → fl.F → fl.F
  unfolding from_bps
  rate_mul a k = from_bps (fl.mul a k)
