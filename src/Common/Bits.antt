-- ===== src/Common/Bits.antt =====
-- When `|` and `^` of two numbers are zero, from the recursion on binary digits behind them.
use Prim.Native.Nat.{
  ℕ, zero, suc, ◌/◌, ◌%◌, ◌≤◌, max, bit_or, bit_xor, digits, differ, bit_or-bitwise,
  bit_xor-bitwise,
}
use mathlib.Core.Path.{◌≡◌, refl}
use mathlib.Core.Logic.{◌↔◌}
use native.Mathlib.Nat.{le_refl}
use native.Mathlib.Omega.{arith}

differ-eq-zero : (x y : ℕ) → differ x y ≡ 0 → x ≤ 1 → y ≤ 1 → x ≡ y
differ-eq-zero zero y h p q = omega arith
differ-eq-zero (suc zero) zero h p q = absurd (omega arith)
differ-eq-zero (suc zero) (suc zero) h p q = refl
differ-eq-zero (suc zero) (suc (suc y)) h p q = absurd (omega arith)
differ-eq-zero (suc (suc x)) y h p q = absurd (omega arith)

differ_self : (x : ℕ) → x ≤ 1 → differ x x ≡ 0
differ_self zero p = refl
differ_self (suc zero) p = refl
differ_self (suc (suc x)) p = absurd (omega arith)

eq_of_xor_digits : (n a b : ℕ) → a ≤ n → digits (λ b. b) differ n a b ≡ 0 → a ≡ b
eq_of_xor_digits zero zero b p h = omega arith
eq_of_xor_digits zero (suc a) b p h = absurd (omega arith)
eq_of_xor_digits (suc n) zero b p h = omega arith
eq_of_xor_digits (suc n) (suc a) b p h = omega (
  arith,
  eq_of_xor_digits n (suc a / 2) (b / 2) (omega arith) (omega arith),
  differ-eq-zero (suc a % 2) (b % 2) (omega arith) (omega arith) (omega arith),
)

xor_digits_self : (n a : ℕ) → a ≤ n → digits (λ b. b) differ n a a ≡ 0
xor_digits_self zero zero p = refl
xor_digits_self zero (suc a) p = absurd (omega arith)
xor_digits_self (suc n) zero p = refl
xor_digits_self (suc n) (suc a) p =
    omega
      (arith, xor_digits_self n (suc a / 2) (omega arith), differ_self (suc a % 2) (omega arith))

pub bit_xor-eq-zero_iff : (a b : ℕ) → (bit_xor a b ≡ 0) ↔ (a ≡ b)
bit_xor-eq-zero_iff a b = (
  λ h. eq_of_xor_digits a a b (le_refl a) (rw bit_xor-bitwise at h),
  λ e. rw (← e, bit_xor-bitwise) (xor_digits_self a a (le_refl a)),
)

or_digits-eq-zero : (n a b : ℕ) → a ≤ n → digits (λ b. b) max n a b ≡ 0 → (a ≡ 0) × (b ≡ 0)
or_digits-eq-zero zero zero b p h = (refl, h)
or_digits-eq-zero zero (suc a) b p h = absurd (omega arith)
or_digits-eq-zero (suc n) zero b p h = (refl, h)
or_digits-eq-zero (suc n) (suc a) b p h =
    let (l, r) = or_digits-eq-zero n (suc a / 2) (b / 2) (omega arith) (omega arith) in
    absurd (omega arith)

pub bit_or-eq-zero_iff : (a b : ℕ) → (bit_or a b ≡ 0) ↔ ((a ≡ 0) × (b ≡ 0))
bit_or-eq-zero_iff a b =
    (λ h. or_digits-eq-zero a a b (le_refl a) (rw bit_or-bitwise at h), λ e. rw (e.0, e.1))
