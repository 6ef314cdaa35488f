-- ===== src/Base/Bits.antt =====
-- Masks of flags: a set of flags is within another if its bits are.
use Prim.Native.Nat.{
  ℕ, zero, suc, ◌+◌, ◌*◌, ◌/◌, ◌%◌, ◌≤◌, min, max, digits, bit_and, bit_or, bit_and-bitwise,
  bit_or-bitwise,
}
use mathlib.Core.Path.{◌≡◌, refl, ap}
use native.Mathlib.Omega.{arith}
pub use Prim.Native.Nat.{bit_and, bit_or}

module _ (z : ℕ → ℕ) (f : ℕ → ℕ → ℕ) where
  -- Two counts of digits that are large enough give the same.
  digits_enough : (n m a b : ℕ) → a ≤ n → a ≤ m → digits z f n a b ≡ digits z f m a b
  digits_enough zero zero a b p q = refl
  digits_enough zero (suc m) zero b p q = refl
  digits_enough (suc n) zero zero b p q = refl
  digits_enough (suc n) (suc m) zero b p q = refl
  digits_enough zero (suc m) (suc a) b p q = absurd (omega arith)
  digits_enough (suc n) zero (suc a) b p q = absurd (omega arith)
  digits_enough (suc n) (suc m) (suc a) b p q =
      ap (λ r. r * 2 + f (suc a % 2) (b % 2))
        (digits_enough n m (suc a / 2) (b / 2) (omega arith) (omega arith))

  digits_halves :
      (a b : ℕ)
      → digits z f (suc a) (suc a) b
        ≡ digits z f (suc a / 2) (suc a / 2) (b / 2) * 2 + f (suc a % 2) (b % 2)
  digits_halves a b =
      ap (λ r. r * 2 + f (suc a % 2) (b % 2))
        (digits_enough a (suc a / 2) (suc a / 2) (b / 2) (omega arith) (omega arith))

bit_and-halves : (a b : ℕ) → bit_and a b ≡ bit_and (a / 2) (b / 2) * 2 + min (a % 2) (b % 2)
bit_and-halves zero b = omega (arith, bit_and-bitwise 0 b, bit_and-bitwise 0 (b / 2))
bit_and-halves (suc a) b = omega (
  arith,
  bit_and-bitwise (suc a) b,
  bit_and-bitwise (suc a / 2) (b / 2),
  digits_halves (λ b. zero) min a b,
)

bit_or-halves : (a b : ℕ) → bit_or a b ≡ bit_or (a / 2) (b / 2) * 2 + max (a % 2) (b % 2)
bit_or-halves zero b = omega (arith, bit_or-bitwise 0 b, bit_or-bitwise 0 (b / 2))
bit_or-halves (suc a) b = omega (
  arith,
  bit_or-bitwise (suc a) b,
  bit_or-bitwise (suc a / 2) (b / 2),
  digits_halves (λ b. b) max a b,
)

within_left : (n b x y : ℕ) → b ≤ n → bit_and b x ≡ b → bit_and b (bit_or x y) ≡ b
within_left n zero x y h e = bit_and-bitwise 0 (bit_or x y)
within_left zero (suc b) x y h e = absurd (omega arith)
within_left (suc n) (suc b) x y h e =
    let half : bit_or x y / 2 ≡ bit_or (x / 2) (y / 2) = omega (arith, bit_or-halves x y) in
    let ih =
      within_left n (suc b / 2) (x / 2) (y / 2) (omega arith)
        (omega (arith, e, bit_and-halves (suc b) x)) in
    omega (
      arith,
      e,
      bit_and-halves (suc b) x,
      bit_and-halves (suc b) (bit_or x y),
      bit_or-halves x y,
      ap (bit_and (suc b / 2)) half,
      ih,
    )

within_right : (n b x y : ℕ) → b ≤ n → bit_and b y ≡ b → bit_and b (bit_or x y) ≡ b
within_right n zero x y h e = bit_and-bitwise 0 (bit_or x y)
within_right zero (suc b) x y h e = absurd (omega arith)
within_right (suc n) (suc b) x y h e =
    let half : bit_or x y / 2 ≡ bit_or (x / 2) (y / 2) = omega (arith, bit_or-halves x y) in
    let ih =
      within_right n (suc b / 2) (x / 2) (y / 2) (omega arith)
        (omega (arith, e, bit_and-halves (suc b) y)) in
    omega (
      arith,
      e,
      bit_and-halves (suc b) y,
      bit_and-halves (suc b) (bit_or x y),
      bit_or-halves x y,
      ap (bit_and (suc b / 2)) half,
      ih,
    )

bit_and-self_fuel : (n b : ℕ) → b ≤ n → bit_and b b ≡ b
bit_and-self_fuel n zero h = bit_and-bitwise 0 0
bit_and-self_fuel zero (suc b) h = absurd (omega arith)
bit_and-self_fuel (suc n) (suc b) h =
    omega (arith, bit_and-halves (suc b) (suc b), bit_and-self_fuel n (suc b / 2) (omega arith))

-- Flags within a mask stay within it when flags are added.
pub bit_and-bit_or : (b x y : ℕ) → bit_and b x ≡ b → bit_and b (bit_or x y) ≡ b
bit_and-bit_or b x y = within_left b b x y (omega arith)

-- Flags are within a mask that they were added to.
pub bit_and-bit_or_self : (b x : ℕ) → bit_and b (bit_or x b) ≡ b
bit_and-bit_or_self b x = within_right b b x b (omega arith) (bit_and-self_fuel b b (omega arith))
