-- ===== src/Prelude/Bits.antt =====
-- Exclusive or at variables: the operation of the masking loops undoes itself and keeps bytes.
use Prim.Native.Nat.{
  ℕ, zero, suc, ◌+◌, ◌*◌, ◌/◌, ◌%◌, ◌^◌, ◌≤◌, ◌<◌, bit_xor, differ, digits, bit_xor-bitwise,
}
use mathlib.Core.Path.{◌≡◌, refl}
use native.Mathlib.Nat.{le_refl, pow-suc}
use native.Mathlib.Omega.{arith}

abbrev xor_digits : ℕ → ℕ → ℕ → ℕ
xor_digits n a b = digits (λ b'. b') differ n a b

xor_digits_fuel : (a b n m : ℕ) → a ≤ n → a ≤ m → xor_digits n a b ≡ xor_digits m a b
xor_digits_fuel zero b zero zero h k = refl
xor_digits_fuel zero zero zero (suc m) h k = refl
xor_digits_fuel zero (suc b) zero (suc m) h k = refl
xor_digits_fuel zero b (suc n) zero h k = refl
xor_digits_fuel zero b (suc n) (suc m) h k = refl
xor_digits_fuel (suc a) b zero m h k = absurd (omega arith)
xor_digits_fuel (suc a) b (suc n) zero h k = absurd (omega arith)
xor_digits_fuel (suc a) b (suc n) (suc m) h k =
    rw (xor_digits_fuel (suc a / 2) (b / 2) n m (omega arith) (omega arith))

differ_bound : (a b : ℕ) → a < 2 → b < 2 → differ a b < 2
differ_bound zero b h k = k
differ_bound (suc a) zero h k = h
differ_bound (suc a) (suc b) h k = differ_bound a b (omega arith) (omega arith)

differ_zero : (b : ℕ) → b < 2 → differ 0 b ≡ b
differ_zero b h = ground arith

differ_twice : (a b : ℕ) → a < 2 → b < 2 → differ (differ a b) b ≡ a
differ_twice zero zero h k = refl
differ_twice zero (suc zero) h k = refl
differ_twice (suc zero) zero h k = refl
differ_twice (suc zero) (suc zero) h k = refl
differ_twice (suc (suc a)) b h k = absurd (omega arith)
differ_twice zero (suc (suc b)) h k = absurd (omega arith)
differ_twice (suc zero) (suc (suc b)) h k = absurd (omega arith)

-- One equation for the lowest digit.
bit_xor_step : (a b : ℕ) → bit_xor a b ≡ bit_xor (a / 2) (b / 2) * 2 + differ (a % 2) (b % 2)
bit_xor_step zero b =
    ground (arith, bit_xor-bitwise 0 b, bit_xor-bitwise 0 (b / 2), differ_zero (b % 2))
bit_xor_step (suc a) b = omega (
  arith,
  bit_xor-bitwise (suc a) b,
  bit_xor-bitwise (suc a / 2) (b / 2),
  xor_digits_fuel (suc a / 2) (b / 2) a (suc a / 2) (omega arith) (le_refl _),
)

bit_xor_half : (a b : ℕ) → bit_xor a b / 2 ≡ bit_xor (a / 2) (b / 2)
bit_xor_half a b =
    omega (arith, bit_xor_step a b, differ_bound (a % 2) (b % 2) (omega arith) (omega arith))

bit_xor_low : (a b : ℕ) → bit_xor a b % 2 ≡ differ (a % 2) (b % 2)
bit_xor_low a b =
    omega (arith, bit_xor_step a b, differ_bound (a % 2) (b % 2) (omega arith) (omega arith))

bit_xor_twice_fuel : (n a m : ℕ) → a ≤ n → m ≤ n → bit_xor (bit_xor a m) m ≡ a
bit_xor_twice_fuel zero zero zero h k = refl
bit_xor_twice_fuel zero zero (suc m) h k = absurd (omega arith)
bit_xor_twice_fuel zero (suc a) m h k = absurd (omega arith)
bit_xor_twice_fuel (suc n) a m h k =
    rw (bit_xor_step (bit_xor a m) m, bit_xor_half a m, bit_xor_low a m)
      (omega (
        arith,
        bit_xor_twice_fuel n (a / 2) (m / 2) (omega arith) (omega arith),
        differ_twice (a % 2) (m % 2) (omega arith) (omega arith),
      ))

-- Masking twice with the same byte gives the byte back.
pub bit_xor_twice : (a m : ℕ) → bit_xor (bit_xor a m) m ≡ a
bit_xor_twice a m = bit_xor_twice_fuel (a + m) a m (omega arith) (omega arith)

bit_xor-lt-pow : (k a b : ℕ) → a < 2 ^ k → b < 2 ^ k → bit_xor a b < 2 ^ k
bit_xor-lt-pow zero zero zero h g = omega arith
bit_xor-lt-pow zero zero (suc b) h g = absurd (omega arith)
bit_xor-lt-pow zero (suc a) b h g = absurd (omega arith)
bit_xor-lt-pow (suc k) a b h g = omega (
  arith,
  pow-suc 2 k,
  bit_xor_step a b,
  differ_bound (a % 2) (b % 2) (omega arith) (omega arith),
  bit_xor-lt-pow k (a / 2) (b / 2) (omega (arith, pow-suc 2 k)) (omega (arith, pow-suc 2 k)),
)

pub bit_xor_byte : (a b : ℕ) → a < 256 → b < 256 → bit_xor a b < 256
bit_xor_byte a b h k = bit_xor-lt-pow 8 a b h k
