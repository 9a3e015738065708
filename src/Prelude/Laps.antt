-- ===== src/Prelude/Laps.antt =====
-- Positions round a ring: two that fall on the same place are equal or at least a lap apart.
use Prim.Native.Nat.{ℕ, ◌+◌, ◌-◌, ◌*◌, ◌/◌, ◌%◌, ◌≤◌, ◌<◌}
use mathlib.Core.Path.{◌≡◌, sym}
use mathlib.Core.Logic.{◌≢◌}
use native.Mathlib.Nat.{mul-le-mul_left, div-add-mod, mod-eq-sub-mod}
use native.Mathlib.Decide.{dec_lt}
use native.Mathlib.Omega.{arith}

multiple_above : (c p q r : ℕ) → c * p + r < c * q + r → c * p + c ≤ c * q
multiple_above c p q r h = elim (dec_lt p q) [
  | yes lt ↦ let step : p + 1 ≤ q = omega arith in omega (arith, mul-le-mul_left c step)
  | no ge ↦ let back : q ≤ p = omega arith in absurd (omega (arith, mul-le-mul_left c back))
]

pub lap_above : (c p q : ℕ) → p % c ≡ q % c → p < q → p + c ≤ q
lap_above c p q e h =
    omega (arith, multiple_above c (p / c) (q / c) (q % c), div-add-mod p c, div-add-mod q c)

pub lap_apart : (c p q : ℕ) → 2 ≤ c → p % c ≡ q % c → p ≢ q + 1
lap_apart c p q large e h = omega (arith, lap_above c q p)

pub lap_back : (c p : ℕ) → c ≤ p → (p - c) % c ≡ p % c
lap_back c p h = sym (mod-eq-sub-mod h)
