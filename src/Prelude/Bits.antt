-- ===== src/Prelude/Bits.antt =====
-- `x & (2 ^ k - 1)` is `x % 2 ^ k`: the masks by which the queues wrap their indices.
use Prim.Native.Nat.{ℕ, zero, suc, ◌+◌, ◌-◌, ◌*◌, ◌/◌, ◌%◌, ◌^◌, ◌≤◌, ◌<◌, min}
use Prim.Native.Nat.{bit_and, digits, bit_and-bitwise}
use mathlib.Core.Path.{◌≡◌, refl, ap, ◌∙◌}
use native.Mathlib.Nat.{pow-suc, mod-lt, mod-eq_of_lt, div-add-mod, add-mul-mod_self_left}
use native.Mathlib.Decide.{ℕ_discrete}
use native.Mathlib.Omega.{arith}

-- What the native operation stands for, with the number of digits that it reads made explicit.
abbrev and_upto : ℕ → ℕ → ℕ → ℕ
and_upto fuel x y = digits (λ _. zero) min fuel x y

-- Any number of digits from `x` on gives the same value.
and_upto-stable : (m n x y : ℕ) → x ≤ m → x ≤ n → and_upto m x y ≡ and_upto n x y
and_upto-stable zero zero x y p q = refl
and_upto-stable zero (suc n) zero y p q = refl
and_upto-stable zero (suc n) (suc x) y p q = absurd (omega arith)
and_upto-stable (suc m) zero zero y p q = refl
and_upto-stable (suc m) zero (suc x) y p q = absurd (omega arith)
and_upto-stable (suc m) (suc n) zero y p q = refl
and_upto-stable (suc m) (suc n) (suc x) y p q =
    omega (arith, and_upto-stable m n (suc x / 2) (y / 2) (omega arith) (omega arith))

bit_and_zero_left : (y : ℕ) → bit_and 0 y ≡ 0
bit_and_zero_left y = bit_and-bitwise 0 y

-- The lowest digit apart from the others.
bit_and_halves : (x y : ℕ) → bit_and x y ≡ min (x % 2) (y % 2) + 2 * bit_and (x / 2) (y / 2)
bit_and_halves zero y = omega (arith, bit_and_zero_left y, bit_and_zero_left (y / 2))
bit_and_halves (suc x) y = omega (
  arith,
  and_upto-stable x (suc x / 2) (suc x / 2) (y / 2),
  bit_and-bitwise (suc x / 2) (y / 2),
  bit_and-bitwise (suc x) y,
)

bit_and_none : (bound x : ℕ) → x ≤ bound → bit_and x 0 ≡ 0
bit_and_none bound zero h = bit_and_zero_left 0
bit_and_none zero (suc x) h = absurd (omega arith)
bit_and_none (suc bound) (suc x) h =
    omega (arith, bit_and_halves (suc x) 0, bit_and_none bound (suc x / 2))

pub pow_pos : (k : ℕ) → 0 < 2 ^ k
pow_pos zero = omega arith
pow_pos (suc k) = rw pow-suc (omega (arith, pow_pos k))

mod_double : (x p : ℕ) → 0 < p → x % (2 * p) ≡ x % 2 + 2 * (x / 2 % p)
mod_double x p h =
    ap (λ (t : ℕ). t % (2 * p)) regroup
    ∙ add-mul-mod_self_left (x % 2 + 2 * (x / 2 % p)) (2 * p) (x / 2 / p)
    ∙ mod-eq_of_lt (omega (arith, mod-lt (x / 2) {m = p} h))
  where
    regroup : x ≡ x % 2 + 2 * (x / 2 % p) + 2 * p * (x / 2 / p)
    regroup = omega (arith, ap (λ (t : ℕ). 2 * t) (div-add-mod (x / 2) p))

-- Masking by `2 ^ k - 1` keeps the value modulo `2 ^ k`.
pub bit_and_mask : (k x : ℕ) → bit_and x (2 ^ k - 1) ≡ x % 2 ^ k
bit_and_mask zero x = omega (arith, bit_and_none x x)
bit_and_mask (suc k) x =
    let e : 2 ^ suc k ≡ 2 * 2 ^ k = rw pow-suc (omega arith) in
    let half : (2 ^ suc k - 1) / 2 ≡ 2 ^ k - 1 = omega (arith, e, pow_pos k) in
    let odd : (2 ^ suc k - 1) % 2 ≡ 1 = omega (arith, e, pow_pos k) in
    rw (bit_and_halves x (2 ^ suc k - 1), half, odd, bit_and_mask k (x / 2), e)
      (omega (arith, mod_double x (2 ^ k) (pow_pos k)))

-- What `(n & (n - 1)) == 0` is meant to test.
abbrev pub IsPowerOfTwo : ℕ → Type 0
IsPowerOfTwo n = (k : ℕ) × (n ≡ 2 ^ k)

bit_and_self : (bound x : ℕ) → x ≤ bound → bit_and x x ≡ x
bit_and_self bound zero h = bit_and_zero_left 0
bit_and_self zero (suc x) h = absurd (omega arith)
bit_and_self (suc bound) (suc x) h =
    omega (arith, bit_and_halves (suc x) (suc x), bit_and_self bound (suc x / 2))

power_of_mask_zero_upto : (bound n : ℕ) → n ≤ bound → 0 < n → bit_and n (n - 1) ≡ 0 → IsPowerOfTwo n
power_of_mask_zero_upto zero n b p h = absurd (omega arith)
power_of_mask_zero_upto (suc bound) n b p h = elim (ℕ_discrete (n % 2) 0) [
  | yes even ↦
      let below : (n - 1) / 2 ≡ n / 2 - 1 = omega arith in
      let (k, e) =
        power_of_mask_zero_upto bound (n / 2) (omega arith) (omega arith)
          (omega (arith, ap (λ (t : ℕ). bit_and (n / 2) t) below, bit_and_halves n (n - 1))) in
      (suc k, rw pow-suc (omega arith))
  | no odd ↦
      let below : (n - 1) / 2 ≡ n / 2 = omega arith in
      let one : n ≡ 1 = omega (
        arith,
        ap (λ (t : ℕ). bit_and (n / 2) t) below,
        bit_and_halves n (n - 1),
        bit_and_self (n / 2) (n / 2),
      ) in
      (0, rw one)
]

-- The test is right: only a power of two passes it.
pub power_of_mask_zero : (n : ℕ) → 0 < n → bit_and n (n - 1) ≡ 0 → IsPowerOfTwo n
power_of_mask_zero n = power_of_mask_zero_upto n n (omega arith)
