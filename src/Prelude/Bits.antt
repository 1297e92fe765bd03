-- ===== src/Prelude/Bits.antt =====
-- Laws of `bit_or` from the digit recursion that it stands for: joining disjoint bit fields adds.
use Prim.Native.Nat.{
  ℕ, zero, suc, ◌+◌, ◌*◌, ◌/◌, ◌%◌, ◌^◌, ◌≤◌, ◌<◌, max, bit_or, digits, bit_or-bitwise,
}
use mathlib.Core.Path.{◌≡◌, refl, ap₂, ◌∙◌}
use native.Mathlib.Omega.{arith}
use native.Mathlib.Nat.{pow-suc}

abbrev or_digits : ℕ → ℕ → ℕ → ℕ
or_digits n a b = digits (λ b. b) max n a b

or_digits_fuel : (n m a b : ℕ) → a ≤ n → a ≤ m → or_digits n a b ≡ or_digits m a b
or_digits_fuel zero zero a b p q = refl
or_digits_fuel zero (suc m) zero b p q = refl
or_digits_fuel zero (suc m) (suc a) b p q = absurd (omega arith)
or_digits_fuel (suc n) zero zero b p q = refl
or_digits_fuel (suc n) zero (suc a) b p q = absurd (omega arith)
or_digits_fuel (suc n) (suc m) zero b p q = refl
or_digits_fuel (suc n) (suc m) (suc a) b p q =
    omega (arith, or_digits_fuel n m (suc a / 2) (b / 2) (omega arith) (omega arith))

pub zero-bit_or : (b : ℕ) → bit_or 0 b ≡ b
zero-bit_or b = bit_or-bitwise 0 b

pub bit_or_step : (a b : ℕ) → bit_or a b ≡ bit_or (a / 2) (b / 2) * 2 + max (a % 2) (b % 2)
bit_or_step zero b = omega (arith, zero-bit_or b, zero-bit_or (b / 2))
bit_or_step (suc a) b = omega (
  arith,
  bit_or-bitwise (suc a) b,
  bit_or-bitwise (suc a / 2) (b / 2),
  or_digits_fuel a (suc a / 2) (suc a / 2) (b / 2) (omega arith) (omega arith),
)

bit_or-zero_fuel : (n a : ℕ) → a ≤ n → bit_or a 0 ≡ a
bit_or-zero_fuel n zero h = zero-bit_or 0
bit_or-zero_fuel zero (suc a) h = absurd (omega arith)
bit_or-zero_fuel (suc n) (suc a) h =
    omega (arith, bit_or_step (suc a) 0, bit_or-zero_fuel n (suc a / 2) (omega arith))

pub bit_or-zero : (a : ℕ) → bit_or a 0 ≡ a
bit_or-zero a = bit_or-zero_fuel a a (omega arith)

double_field : (q k : ℕ) → q * 2 ^ suc k ≡ q * 2 ^ k * 2
double_field q k = rw pow-suc (omega arith)

half_lt : (k r : ℕ) → r < 2 ^ suc k → r / 2 < 2 ^ k
half_lt k r h = let h' : r < 2 ^ k * 2 = rw pow-suc at h in omega arith

halve : (x : ℕ) → x * 2 / 2 ≡ x
halve x = omega arith

bit_or_double : (x r : ℕ) → bit_or (x * 2) r ≡ bit_or x (r / 2) * 2 + r % 2
bit_or_double x r =
    bit_or_step (x * 2) r ∙ ap₂ (λ a b. bit_or a (r / 2) * 2 + b) (halve x) (omega arith)

double-bit_or : (x r : ℕ) → bit_or r (x * 2) ≡ bit_or (r / 2) x * 2 + r % 2
double-bit_or x r =
    bit_or_step r (x * 2) ∙ ap₂ (λ a b. bit_or (r / 2) a * 2 + b) (halve x) (omega arith)

-- A field above `k` bits joins a number of `k` bits by addition, on either side.
pub bit_or_high : (k q r : ℕ) → r < 2 ^ k → bit_or (q * 2 ^ k) r ≡ q * 2 ^ k + r
bit_or_high zero q r h =
    let e : r ≡ 0 = omega arith in rw e (omega (arith, bit_or-zero (q * 2 ^ 0)))
bit_or_high (suc k) q r h =
    rw (double_field q k)
      (omega (arith, bit_or_double (q * 2 ^ k) r, bit_or_high k q (r / 2) (half_lt k r h)))

pub bit_or_low : (k q r : ℕ) → r < 2 ^ k → bit_or r (q * 2 ^ k) ≡ r + q * 2 ^ k
bit_or_low zero q r h = let e : r ≡ 0 = omega arith in rw e (omega (arith, zero-bit_or (q * 2 ^ 0)))
bit_or_low (suc k) q r h =
    rw (double_field q k)
      (omega (arith, double-bit_or (q * 2 ^ k) r, bit_or_low k q (r / 2) (half_lt k r h)))
