-- ===== src/Common/Words.antt =====
-- The unsigned machine words of Rust: bounds, and saturating, checked and wrapping arithmetic.
use Prim.Native.Nat.{ℕ, ◌+◌, ◌-◌, ◌*◌, ◌%◌, ◌≤◌, ◌<◌, min}
use mathlib.Core.Path.{◌≡◌}
use mathlib.Core.Option.{Option, none, some}
use native.Mathlib.Omega.{arith}
use zeno_final_code.Common.Tests.{leb, if◌then◌else◌}

abbrev pub u16_max : ℕ
u16_max = 0xffff

abbrev pub u32_max : ℕ
u32_max = 0xffff_ffff

abbrev pub u64_max : ℕ
u64_max = 0xffff_ffff_ffff_ffff

abbrev pub u128_max : ℕ
u128_max = 0xffff_ffff_ffff_ffff_ffff_ffff_ffff_ffff

abbrev pub u128_mod : ℕ
u128_mod = u128_max + 1

-- `saturating_add`, `saturating_mul` and `saturating_sub` at the word whose last value is `top`.
abbrev pub saturating_add : ℕ → ℕ → ℕ → ℕ
saturating_add top a b = min (a + b) top

abbrev pub saturating_mul : ℕ → ℕ → ℕ → ℕ
saturating_mul top a b = min (a * b) top

abbrev pub saturating_sub : ℕ → ℕ → ℕ
saturating_sub a b = a - b

-- `checked_add` and `checked_sub`: `None` where the result is no value of the word.
abbrev pub checked_add : ℕ → ℕ → ℕ → Option ℕ
checked_add top a b = if leb (a + b) top then some (a + b) else none

abbrev pub checked_sub : ℕ → ℕ → Option ℕ
checked_sub a b = if leb b a then some (a - b) else none

-- `+=` and `-=` on u128 in a release build, which wraps.
abbrev pub wrapping_add128 : ℕ → ℕ → ℕ
wrapping_add128 a b = (a + b) % u128_mod

abbrev pub wrapping_sub128 : ℕ → ℕ → ℕ
wrapping_sub128 a b = (a + u128_mod - b) % u128_mod

pub wrapping_sub128_lem : (a b : ℕ) → b ≤ a → a ≤ u128_max → wrapping_sub128 a b ≡ a - b
wrapping_sub128_lem a b h k = omega arith

pub wrapping_sub128_below :
    (a b : ℕ) → a < b → b ≤ u128_max → wrapping_sub128 a b ≡ a + u128_mod - b
wrapping_sub128_below a b h k = omega arith
