-- ===== src/Base/Xor.antt =====
-- Exclusive or of two words (`operator^`): the law for the lowest digit, and that the exclusive
-- or of a pair with one of the pair is the other.
use Prim.Native.Nat.{digits, differ, bit_xor-bitwise}
use kmx_sat.Base.{ℕ, zero, suc, ◌+◌, ◌*◌, ◌/◌, ◌%◌, ◌≤◌, ◌≡◌, ◌⊎◌, inl, inr, refl, arith, bit_xor}

abbrev xor_digits : ℕ → ℕ → ℕ → ℕ
xor_digits n a b = digits (λ b. b) differ n a b

xor_digits_fuel : (n m a b : ℕ) → a ≤ n → a ≤ m → xor_digits n a b ≡ xor_digits m a b
xor_digits_fuel zero zero a b p q = refl
xor_digits_fuel zero (suc m) zero b p q = refl
xor_digits_fuel zero (suc m) (suc a) b p q = absurd (omega arith)
xor_digits_fuel (suc n) zero zero b p q = refl
xor_digits_fuel (suc n) zero (suc a) b p q = absurd (omega arith)
xor_digits_fuel (suc n) (suc m) zero b p q = refl
xor_digits_fuel (suc n) (suc m) (suc a) b p q =
    omega (arith, xor_digits_fuel n m (suc a / 2) (b / 2) (omega arith) (omega arith))

digit_cases : (a : ℕ) → (a % 2 ≡ 0) ⊎ (a % 2 ≡ 1)
digit_cases a = omega arith

differ_mod : (a b : ℕ) → differ (a % 2) (b % 2) ≡ (a % 2 + b % 2) % 2
differ_mod a b = elim (digit_cases a) [
  | inl x ↦ elim (digit_cases b) [ inl y ↦ rw (x, y) refl | inr y ↦ rw (x, y) refl ]
  | inr x ↦ elim (digit_cases b) [ inl y ↦ rw (x, y) refl | inr y ↦ rw (x, y) refl ]
]

pub bit_xor_step : (a b : ℕ) → bit_xor a b ≡ bit_xor (a / 2) (b / 2) * 2 + (a % 2 + b % 2) % 2
bit_xor_step zero b = omega (arith, bit_xor-bitwise 0 b, bit_xor-bitwise 0 (b / 2))
bit_xor_step (suc a) b = omega (
  arith,
  bit_xor-bitwise (suc a) b,
  bit_xor-bitwise (suc a / 2) (b / 2),
  differ_mod (suc a) b,
  xor_digits_fuel a (suc a / 2) (suc a / 2) (b / 2) (omega arith) (omega arith),
)

bit_xor_fuel :
    (n a b : ℕ) → a ≤ n → b ≤ n → (bit_xor (bit_xor a b) a ≡ b) × (bit_xor (bit_xor a b) b ≡ a)
bit_xor_fuel zero zero zero p q = (refl, refl)
bit_xor_fuel zero (suc a) b p q = absurd (omega arith)
bit_xor_fuel zero zero (suc b) p q = absurd (omega arith)
bit_xor_fuel (suc n) a b p q =
    let half = bit_xor_fuel n (a / 2) (b / 2) (omega arith) (omega arith) in
    let low : bit_xor a b % 2 ≡ (a % 2 + b % 2) % 2 = omega (arith, bit_xor_step a b) in
    let high : bit_xor a b / 2 ≡ bit_xor (a / 2) (b / 2) = omega (arith, bit_xor_step a b) in
    (
      rw (bit_xor_step (bit_xor a b) a, high, low, half.0) (omega arith),
      rw (bit_xor_step (bit_xor a b) b, high, low, half.1) (omega arith),
    )

pub bit_xor-left : (a b : ℕ) → bit_xor (bit_xor a b) a ≡ b
bit_xor-left a b = (bit_xor_fuel (a + b) a b (omega arith) (omega arith)).0

pub bit_xor-right : (a b : ℕ) → bit_xor (bit_xor a b) b ≡ a
bit_xor-right a b = (bit_xor_fuel (a + b) a b (omega arith) (omega arith)).1
