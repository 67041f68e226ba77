-- ===== src/Js.antt =====
-- The functions on strings and numbers that the source takes from JavaScript: `parseInt`,
-- `padStart`, `trim`, `toString`. A string is the list of its UTF-16 code units.
pub mod Decimal
pub mod Numeric
use sealed_sky_verification.Common.{
  ℕ, zero, suc, ◌+◌, ◌-◌, ◌*◌, ◌/◌, ◌%◌, Bool, true, false, ◌&&◌, ◌||◌, Option, none, some, List,
  [], ◌∷◌, ◌++◌, ltb, leb, ◌==◌, if◌then◌else◌, length, replicate, all, ◌≡◌, refl,
}
use sealed_sky_verification.Common.Text.{Text, codes}
use mathlib.Core.List.{reverse}

-- White space and line ends of ECMAScript.
abbrev pub is_white : ℕ → Bool
is_white c =
    leb 9 c && leb c 13
    || c == 32
    || c == 160
    || c == 0x1680
    || leb 0x2000 c && leb c 0x200a
    || c == 0x2028
    || c == 0x2029
    || c == 0x202f
    || c == 0x205f
    || c == 0x3000
    || c == 0xfeff

unfoldable pub trim_start : Text → Text
trim_start [] = []
trim_start (c ∷ s) = let rest = trim_start s in if is_white c then rest else c ∷ s

unfoldable pub trim : Text → Text
unfolding trim_start
trim s = reverse (trim_start (reverse (trim_start s)))

-- The value of a digit below 36; 36 for any other code unit.
abbrev pub digit_value : ℕ → ℕ
digit_value c =
    if leb b'0' c && leb c b'9'
    then c - b'0'
    else if leb b'a' c && leb c b'z'
    then c - b'a' + 10
    else if leb b'A' c && leb c b'Z'
    then c - b'A' + 10
    else 36

-- The longest run of digits, read behind the number `n`.
unfoldable pub read_digits : ℕ → ℕ → Text → ℕ
read_digits radix n [] = n
read_digits radix n (c ∷ s) =
    let more = read_digits radix (n * radix + digit_value c) s in
    if ltb (digit_value c) radix then more else n

abbrev starts_digit : ℕ → Text → Bool
starts_digit radix [] = false
starts_digit radix (c ∷ s) = ltb (digit_value c) radix

-- `none` is NaN.
abbrev run_of_digits : ℕ → Text → Option ℕ
run_of_digits radix s = if starts_digit radix s then some (read_digits radix 0 s) else none

abbrev strip_0x : ℕ → Text → Text
strip_0x radix [] = []
strip_0x radix (z ∷ []) = z ∷ []
strip_0x radix (z ∷ x ∷ s) =
    if radix == 16 && z == b'0' && (x == b'x' || x == b'X') then s else z ∷ x ∷ s

-- The sign, `true` for minus, and the digits behind it.
abbrev signed : Text → Bool × Text
signed [] = (false, [])
signed (c ∷ s) = if c == b'-' then (true, s) else if c == b'+' then (false, s) else (false, c ∷ s)

pub record Integer : Type 0 where
  pub minus : Bool
  pub magnitude : ℕ

abbrev with_sign : Bool → Option ℕ → Option Integer
with_sign minus none = none
with_sign minus (some n) = some (record { minus = minus; magnitude = n })

-- `parseInt(s, radix)` for the radices 10 and 16; `none` is NaN.
unfoldable pub parse_int : ℕ → Text → Option Integer
unfolding trim_start read_digits
parse_int radix s =
    let (minus, digits) = signed (trim_start s) in
    with_sign minus (run_of_digits radix (strip_0x radix digits))

-- The number that a Uint8Array keeps of the result of `parseInt`: modulo 256, and 0 for NaN.
unfoldable pub to_uint8 : Option Integer → ℕ
to_uint8 none = 0
to_uint8 (some i) = if i.minus then (256 - i.magnitude % 256) % 256 else i.magnitude % 256

-- The digit of a number below 16.
abbrev pub hex_digit : ℕ → ℕ
hex_digit d = if ltb d 10 then d + b'0' else d - 10 + b'a'

-- `n.toString(16)` for n < 256.
unfoldable pub to_string_16 : ℕ → Text
to_string_16 n = if ltb n 16 then hex_digit n ∷ [] else hex_digit (n / 16) ∷ hex_digit (n % 16) ∷ []

-- `s.padStart(width, c)`, for a single code unit.
unfoldable pub pad_start : ℕ → ℕ → Text → Text
pad_start width c s = replicate (width - length s) c ++ s

-- `String(n)`: the decimal digits of `n`, from the last. A number below `fuel` has fewer digits.
decimal_loop : ℕ → ℕ → Text → Text
decimal_loop zero n out = out
decimal_loop (suc fuel) n out =
    let rest = decimal_loop fuel (n / 10) ((n % 10 + b'0') ∷ out) in
    if ltb n 10 then (n + b'0') ∷ out else rest

unfoldable pub to_string : ℕ → Text
unfolding decimal_loop
to_string n = decimal_loop (suc n) n []

abbrev pub is_digit : ℕ → Bool
is_digit c = leb b'0' c && leb c b'9'

-- `/^\d+$/.test(s)`
unfoldable pub is_decimal : Text → Bool
is_decimal [] = false
is_decimal (c ∷ s) = is_digit c && all is_digit s

tests :
    (parse_int 16 (codes " 1z") ≡ some (record { minus = false; magnitude = 1 }))
    × (parse_int 16 (codes "zz") ≡ none)
    × (to_uint8 (parse_int 16 (codes "-f")) ≡ 241)
    × (parse_int 10 (codes "1700000000") ≡ some (record { minus = false; magnitude = 1700000000 }))
    × (to_string 1700000000 ≡ codes "1700000000")
    × (to_string 0 ≡ codes "0")
    × (pad_start 2 b'0' (to_string_16 10) ≡ codes "0a")
    × (trim (codes "  a b ") ≡ codes "a b")
unfolding parse_int to_uint8 to_string to_string_16 pad_start trim
tests = (refl, refl, refl, refl, refl, refl, refl, refl)
