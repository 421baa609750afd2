-- ===== src/Core/Ewma.antt =====
-- crates/xde/src/core/ewma.rs: time-decayed averages and the windowed rate meter, over `Float`.
use xde.Prelude.{
  ℕ, ◌+◌, ◌-◌, min, Bool, true, false, not, Option, none, some, leb, ltb, ◌==◌, if◌then◌else◌,
  u32_max, wadd,
}
use xde.Core.Units.{Float, from_bps, rate_zero}

-- `EwmaWithVariance`. The sample count is a `u32` that saturates.
pub record EwmaWithVariance (F : Type 0) : Type 0 where
  pub mean : F
  pub var : F
  pub tau : F
  pub samples : ℕ

-- `Ewma`, without a variance.
pub record Ewma (F : Type 0) : Type 0 where
  pub v : F
  pub tau : F
  pub init : Bool

pub record RateMeter (F : Type 0) : Type 0 where
  pub acc : ℕ
  pub window_start : ℕ
  pub window : ℕ
  pub ewma : EwmaWithVariance F
  pub last_instant_rate : F

module _ ⦃fl : Float⦄ where
  -- `f64::clamp(1e-4, 1.0)`.
  clamp_alpha : fl.F → fl.F
  clamp_alpha a =
      if fl.lt a (fl.lit 1 4) then fl.lit 1 4 else if fl.lt (fl.lit 1 0) a then fl.lit 1 0 else a

  alpha : fl.F → ℕ → fl.F
  unfolding clamp_alpha
  alpha tau dt = clamp_alpha (fl.sub (fl.lit 1 0) (fl.exp (fl.div (fl.neg (fl.as_secs dt)) tau)))

  unfoldable pub ewma_new : ℕ → EwmaWithVariance fl.F
  ewma_new tau = record {
    mean = fl.lit 0 0;
    var = fl.lit 0 0;
    tau = fl.fmax (fl.as_secs tau) (fl.lit 1 3);
    samples = 0;
  }

  unfoldable pub observe : EwmaWithVariance fl.F → fl.F → ℕ → EwmaWithVariance fl.F
  unfolding alpha
  observe e value dt =
      if not (fl.is_finite value)
      then e
      else if e.samples == 0
      then record e { mean = value; var = fl.lit 0 0; samples = 1 }
      else let a = alpha e.tau dt in
        let delta = fl.sub value e.mean in
        record e {
          mean = fl.add e.mean (fl.mul a delta);
          var = fl.mul (fl.sub (fl.lit 1 0) a) (fl.add e.var (fl.mul (fl.mul a delta) delta));
          samples = min (e.samples + 1) u32_max;
        }

  unfoldable pub stddev : EwmaWithVariance fl.F → fl.F
  stddev e = fl.sqrt (fl.fmax e.var (fl.lit 0 0))

  abbrev pub is_warm : EwmaWithVariance fl.F → Bool
  is_warm e = leb 3 e.samples

  unfoldable pub rate : EwmaWithVariance fl.F → fl.F
  unfolding from_bps
  rate e = from_bps e.mean

  unfoldable pub z_below : EwmaWithVariance fl.F → fl.F → fl.F
  unfolding stddev
  z_below e value =
      if fl.lt (stddev e) (fl.lit 1 9)
      then (if fl.lt value (fl.mul e.mean (fl.lit 5 1)) then fl.lit 4 0 else fl.lit 0 0)
      else fl.div (fl.sub e.mean value) (stddev e)

  unfoldable pub plain_new : ℕ → Ewma fl.F
  plain_new tau = record {
    v = fl.lit 0 0;
    tau = fl.fmax (fl.as_secs tau) (fl.lit 1 3);
    init = false;
  }

  unfoldable pub plain_observe : Ewma fl.F → fl.F → ℕ → Ewma fl.F
  unfolding alpha
  plain_observe e value dt =
      if not (fl.is_finite value)
      then e
      else if not e.init
      then record e { v = value; init = true }
      else record e { v = fl.add e.v (fl.mul (alpha e.tau dt) (fl.sub value e.v)) }

  -- `RateMeter::new`, at the time that `Instant::now` reads.
  unfoldable pub meter_new : ℕ → ℕ → ℕ → RateMeter fl.F
  unfolding ewma_new rate_zero
  meter_new window tau now = record {
    acc = 0;
    window_start = now;
    window = window;
    ewma = ewma_new tau;
    last_instant_rate = rate_zero;
  }

  unfoldable pub meter_add : RateMeter fl.F → ℕ → RateMeter fl.F
  meter_add m n = record m { acc = wadd m.acc n }

  -- `RateMeter::tick`: the instantaneous rate, if the window has elapsed.
  unfoldable pub tick : RateMeter fl.F → ℕ → RateMeter fl.F × Option fl.F
  unfolding observe from_bps
  tick m now =
      let dt = now - m.window_start in
      if ltb dt m.window
      then (m, none)
      else let r = from_bps (fl.div (fl.of_u64 m.acc) (fl.as_secs dt)) in
        (
          record m {
            acc = 0;
            window_start = now;
            ewma = observe m.ewma r dt;
            last_instant_rate = r;
          },
          some r,
        )
