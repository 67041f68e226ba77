-- ===== src/Js/Numeric.antt =====
-- `Number(value)`: what a text or a JSON value is as a number. A value between two doubles is kept
-- as it is, not rounded.
use sealed_sky_verification.Common.{
  ◌<◌, ◌∙◌, arith, ℕ, ◌-◌, ◌*◌, ◌/◌, ◌%◌, ◌^◌, Bool, true, false, not, ◌||◌, Option, none, some, [],
  ◌∷◌, ◌++◌, ltb, leb, ◌==◌, if◌then◌else◌, length, all, ◌≡◌, refl,
}
use mathlib.Core.List.{append-nil}
use sealed_sky_verification.Common.Text.{Text, codes, text_eq}
use sealed_sky_verification.Js.{trim, is_digit, digit_value, read_digits, is_decimal, to_string}
use sealed_sky_verification.Js.Decimal.{to_string-is_decimal, read_digits-to_string}
use sealed_sky_verification.Json.{Json, null, bool, num, str, arr, obj, js_string}

-- A finite number by its sign, its whole part, and whether that is all of it.
pub data Numeric : Type 0 where
  nan : Numeric
  infinite : (minus : Bool) → Numeric
  finite : (minus : Bool) (whole : ℕ) (exact : Bool) → Numeric

-- The digits at the front, and what follows them.
span_digits : Text → Text × Text
span_digits [] = ([], [])
span_digits (c ∷ s) =
    let (ds, rest) = span_digits s in if is_digit c then (c ∷ ds, rest) else ([], c ∷ s)

abbrev fraction_part : Text → Text × Text
fraction_part [] = ([], [])
fraction_part (c ∷ s) = if c == b'.' then span_digits s else ([], c ∷ s)

-- Digits to the end of the text, one at least.
abbrev only_digits : Text → Option ℕ
only_digits [] = none
only_digits (c ∷ s) = if all is_digit (c ∷ s) then some (read_digits 10 0 (c ∷ s)) else none

abbrev signed_exponent : Text → Option (Bool × ℕ)
signed_exponent [] = none
signed_exponent (c ∷ s) = elim (only_digits (if c == b'-' || c == b'+' then s else c ∷ s)) [
  | some n ↦ some (c == b'-', n)
  | none ↦ none
]

-- `none` where something else follows; whether the exponent is negative, and its digits.
abbrev exponent_part : Text → Option (Bool × ℕ)
exponent_part [] = some (false, 0)
exponent_part (c ∷ s) = if c == b'e' || c == b'E' then signed_exponent s else none

-- The least value that rounds to infinity.
unfoldable pub overflow_bound : ℕ
overflow_bound = 2 ^ 1024 - 2 ^ 970

quotient : Bool → (over under : ℕ) → Numeric
unfolding overflow_bound
quotient minus over under =
    if leb (overflow_bound * under) over
    then infinite minus
    else finite minus (over / under) (over % under == 0)

scaled : Bool → (digits places : ℕ) → Option (Bool × ℕ) → Numeric
unfolding quotient
scaled minus digits places none = nan
scaled minus digits places (some (false, n)) = quotient minus (digits * 10 ^ n) (10 ^ places)
scaled minus digits places (some (true, n)) = quotient minus digits (10 ^ places * 10 ^ n)

abbrev is_nothing : Text → Bool
is_nothing [] = true
is_nothing (c ∷ s) = false

decimal : Bool → Text → Numeric
unfolding scaled span_digits
decimal minus s =
    let (whole, rest) = span_digits s in
    let (places, rest') = fraction_part rest in
    if is_nothing (whole ++ places)
    then nan
    else scaled minus (read_digits 10 0 (whole ++ places)) (length places) (exponent_part rest')

unsigned : Bool → Text → Numeric
unfolding decimal
unsigned minus s = if text_eq s (codes "Infinity") then infinite minus else decimal minus s

abbrev radix_of : ℕ → Option ℕ
radix_of c =
    if c == b'x' || c == b'X'
    then some 16
    else if c == b'o' || c == b'O'
    then some 8
    else if c == b'b' || c == b'B'
    then some 2
    else none

in_radix : ℕ → Text → Numeric
unfolding quotient
in_radix radix s =
    if is_nothing s || not (all (λ c. ltb (digit_value c) radix) s)
    then nan
    else quotient false (read_digits radix 0 s) 1

-- A literal with a prefix has no sign.
prefixed : Text → Option ℕ → Text → Numeric
unfolding in_radix unsigned
prefixed t none s = unsigned false t
prefixed t (some radix) s = in_radix radix s

literal : Text → Numeric
unfolding prefixed unsigned
literal [] = finite false 0 true
literal (a ∷ []) = unsigned false (a ∷ [])
literal (a ∷ b ∷ s) =
    if a == b'-'
    then unsigned true (b ∷ s)
    else if a == b'+'
    then unsigned false (b ∷ s)
    else if a == b'0'
    then prefixed (a ∷ b ∷ s) (radix_of b) s
    else unsigned false (a ∷ b ∷ s)

unfoldable pub number_of_text : Text → Numeric
unfolding literal
number_of_text s = literal (trim s)

-- `Number(value)`; `none` is undefined. An array counts as its text, and an object is no number.
unfoldable pub number_of : Option Json → Numeric
unfolding number_of_text
number_of none = nan
number_of (some null) = finite false 0 true
number_of (some (bool false)) = finite false 0 true
number_of (some (bool true)) = finite false 1 true
number_of (some (num n)) = finite false n true
number_of (some (str s)) = number_of_text s
number_of (some (arr vs)) = number_of_text (js_string (arr vs))
number_of (some (obj fs)) = nan

abbrev pub is_finite : Numeric → Bool
is_finite (finite minus whole exact) = true
is_finite _ = false

tests :
    (number_of_text (codes " 12 ") ≡ finite false 12 true)
    × (number_of_text (codes "-0.5") ≡ finite true 0 false)
    × (number_of_text (codes "1.5e2") ≡ finite false 150 true)
    × (number_of_text (codes "125e-1") ≡ finite false 12 false)
    × (number_of_text (codes "0x1F") ≡ finite false 31 true)
    × (number_of_text (codes "") ≡ finite false 0 true)
    × (number_of_text (codes "12a") ≡ nan)
    × (number_of_text (codes "-Infinity") ≡ infinite true)
    × (number_of_text (codes "1e400") ≡ infinite false)
    × (number_of_text (codes ".") ≡ nan)
unfolding number_of_text trim read_digits text_eq
tests = (refl, refl, refl, refl, refl, refl, refl, refl, refl, refl)

span_digits-all : (s : Text) → all is_digit s ≡ true → span_digits s ≡ (s, [])
unfolding span_digits
span_digits-all [] h = refl
span_digits-all (c ∷ s) h = ground (arith, span_digits-all s)

quotient_one :
    (n : ℕ) → n < overflow_bound → quotient false (n * 10 ^ 0) (10 ^ 0) ≡ finite false n true
unfolding quotient
quotient_one n h = ground arith

decimal_of_digits :
    (s : Text)
    → is_decimal s ≡ true
    → read_digits 10 0 s < overflow_bound
    → decimal false s ≡ finite false (read_digits 10 0 s) true
unfolding decimal scaled is_decimal
decimal_of_digits [] h bound = absurd (cc h)
decimal_of_digits (c ∷ s) h bound =
    rw (span_digits-all (c ∷ s) h, append-nil (c ∷ s))
      (quotient_one (read_digits 10 0 (c ∷ s)) bound)

literal_of_digits : (s : Text) → is_decimal s ≡ true → literal s ≡ decimal false s
unfolding literal prefixed unsigned is_decimal text_eq
literal_of_digits [] h = cc
literal_of_digits (c ∷ []) h = ground arith
literal_of_digits (c ∷ d ∷ s) h = ground arith

-- The digits of a number that a double holds, with blanks around them, are read as that number.
pub number_of_text_of_decimal :
    (s : Text) (n : ℕ)
    → trim s ≡ to_string n
    → n < overflow_bound
    → number_of_text s ≡ finite false n true
unfolding number_of_text
number_of_text_of_decimal s n h bound =
    let digits = read_digits-to_string n in
    rw (h, literal_of_digits (to_string n) (to_string-is_decimal n))
      (decimal_of_digits (to_string n) (to_string-is_decimal n) (rw digits bound) ∙ rw digits refl)
