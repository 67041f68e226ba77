-- ===== src/Js/Decimal.antt =====
-- Printing a number in decimal and reading it back.
use sealed_sky_verification.Common.{
  ℕ, zero, suc, ◌+◌, ◌/◌, ◌%◌, ◌<◌, ◌≡◌, refl, ◌≢◌, true, false, some, [], ◌∷◌, arith, all,
}
use sealed_sky_verification.Common.Text.{Text}
use sealed_sky_verification.Js.{
  read_digits, parse_int, decimal_loop, to_string, is_digit, is_decimal,
}

read_digits-decimal_loop :
    (fuel n : ℕ) (out : Text)
    → n < fuel
    → read_digits 10 0 (decimal_loop fuel n out) ≡ read_digits 10 n out
unfolding read_digits decimal_loop
read_digits-decimal_loop zero n out h = absurd (omega arith)
read_digits-decimal_loop (suc fuel) n out h =
    ground (arith, read_digits-decimal_loop fuel (n / 10) ((n % 10 + 48) ∷ out))

decimal_loop-is_digit :
    (fuel n : ℕ) (out : Text)
    → all is_digit out ≡ true
    → all is_digit (decimal_loop fuel n out) ≡ true
unfolding decimal_loop
decimal_loop-is_digit zero n out h = h
decimal_loop-is_digit (suc fuel) n out h =
    ground (arith, decimal_loop-is_digit fuel (n / 10) ((n % 10 + 48) ∷ out))

decimal_loop-ne-nil : (fuel n : ℕ) (out : Text) → out ≢ [] → decimal_loop fuel n out ≢ []
unfolding decimal_loop
decimal_loop-ne-nil zero n out h = h
decimal_loop-ne-nil (suc fuel) n out h =
    ground (arith, decimal_loop-ne-nil fuel (n / 10) ((n % 10 + 48) ∷ out))

pub to_string-ne-nil : (n : ℕ) → to_string n ≢ []
unfolding to_string
to_string-ne-nil n = ground (arith, decimal_loop-ne-nil n (n / 10) ((n % 10 + 48) ∷ []))

is_decimal_of : (s : Text) → s ≢ [] → all is_digit s ≡ true → is_decimal s ≡ true
unfolding is_decimal
is_decimal_of [] h d = absurd (h refl)
is_decimal_of (c ∷ s) h d = d

-- The print of a number is a run of decimal digits.
pub to_string-is_decimal : (n : ℕ) → is_decimal (to_string n) ≡ true
unfolding to_string
to_string-is_decimal n =
    is_decimal_of (to_string n) (to_string-ne-nil n) (decimal_loop-is_digit (suc n) n [] refl)

-- On a run of decimal digits `parseInt` strips nothing.
parse_int_of_decimal :
    (s : Text)
    → is_decimal s ≡ true
    → parse_int 10 s ≡ some (record { minus = false; magnitude = read_digits 10 0 s })
unfolding parse_int is_decimal
parse_int_of_decimal [] h = cc
parse_int_of_decimal (c ∷ []) h = ground arith
parse_int_of_decimal (c ∷ d ∷ s) h = ground arith

pub read_digits-to_string : (n : ℕ) → read_digits 10 0 (to_string n) ≡ n
unfolding read_digits to_string
read_digits-to_string n = read_digits-decimal_loop (suc n) n [] (omega arith)

-- `parseInt(String(n), 10)` is `n`.
pub parse_int-to_string :
    (n : ℕ) → parse_int 10 (to_string n) ≡ some (record { minus = false; magnitude = n })
parse_int-to_string n =
    rw (parse_int_of_decimal (to_string n) (to_string-is_decimal n)) (rw (read_digits-to_string n))
