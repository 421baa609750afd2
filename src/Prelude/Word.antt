-- ===== src/Prelude/Word.antt =====
-- The arithmetic of `u64`: wrapping `+` and `-`, and the saturating operations.
use Prim.Native.Nat.{ℕ, ◌+◌, ◌-◌, ◌*◌, ◌%◌, ◌^◌, ◌≤◌, ◌<◌, min}
use mathlib.Core.Path.{◌≡◌}
use mathlib.Core.Option.{Option, none, some}
use xde.Prelude.Tests.{ltb, leb, if◌then◌else◌}
use native.Mathlib.Omega.{arith}

-- The modulus of `u64`, and `u64::MAX`.
abbrev pub u64_mod : ℕ
u64_mod = 2 ^ 64

abbrev pub u64_max : ℕ
u64_max = 2 ^ 64 - 1

abbrev pub u32_max : ℕ
u32_max = 2 ^ 32 - 1

-- `a + b` and `a - b` of a release build, which wrap around.
unfoldable pub wadd : ℕ → ℕ → ℕ
wadd a b = (a + b) % u64_mod

unfoldable pub wsub : ℕ → ℕ → ℕ
wsub a b = (a + u64_mod - b) % u64_mod

-- `saturating_add`, `saturating_mul`; `saturating_sub` is the truncated `-` of ℕ.
abbrev pub sat_add : ℕ → ℕ → ℕ
sat_add a b = min (a + b) u64_max

abbrev pub sat_mul : ℕ → ℕ → ℕ
sat_mul a b = min (a * b) u64_max

pub wadd-eq : (a b : ℕ) → a + b < u64_mod → wadd a b ≡ a + b
unfolding wadd
wadd-eq a b h = omega arith

pub wsub-eq : (a b : ℕ) → b ≤ a → a < u64_mod → wsub a b ≡ a - b
unfolding wsub
wsub-eq a b h k = omega arith

pub wadd-lt : (a b : ℕ) → wadd a b < u64_mod
unfolding wadd
wadd-lt a b = omega arith

-- `Ord::clamp`, which panics (`none`) unless the bounds are in order.
unfoldable pub clamp : ℕ → ℕ → ℕ → Option ℕ
clamp v lo hi =
    if leb lo hi then some (if ltb v lo then lo else if ltb hi v then hi else v) else none
