-- ===== src/Bytes/Hex.antt =====
-- Bytes to hexadecimal text and back.
use sealed_sky_verification.Common.{
  ℕ, ◌*◌, ◌/◌, ◌%◌, ◌<◌, ◌≡◌, refl, sym, ◌∙◌, some, [], ◌∷◌, ◌++◌, length, All, arith, Bool, true,
  ◌==◌, ==_iff, passes_below, passes_of_below,
}
use sealed_sky_verification.Common.Text.{Text, text_eq}
use sealed_sky_verification.Base64.Laws.{IsByte}
use sealed_sky_verification.Js.{parse_int, to_uint8, to_string_16, pad_start, hex_digit}
use sealed_sky_verification.Bytes.{Bytes, hex_loop, bytes_to_hex, clean, hex_pairs, hex_to_bytes}
use mathlib.Core.List.{append-nil, append_assoc}

abbrev hex_of : ℕ → Text
hex_of b = pad_start 2 48 (to_string_16 b)

abbrev pub hex_text : Bytes → Text
hex_text [] = []
hex_text (b ∷ bs) = hex_digit (b / 16) ∷ hex_digit (b % 16) ∷ hex_text bs

hex_of-digits : (b : ℕ) → b < 256 → hex_of b ≡ hex_digit (b / 16) ∷ hex_digit (b % 16) ∷ []
unfolding pad_start to_string_16
hex_of-digits b h = ground arith

hex_loop-append : (s : Text) (bs : Bytes) → All IsByte bs → hex_loop s bs ≡ s ++ hex_text bs
unfolding hex_loop
hex_loop-append s [] h = sym (append-nil s)
hex_loop-append s (b ∷ bs) (p, h) =
    hex_loop-append (s ++ hex_of b) bs h
    ∙ rw (hex_of-digits b p)
        (append_assoc s (hex_digit (b / 16) ∷ hex_digit (b % 16) ∷ []) (hex_text bs))

-- The hexadecimal text of bytes is two digits for each byte, the high one first.
bytes_to_hex-hex_text : (bs : Bytes) → All IsByte bs → bytes_to_hex bs ≡ hex_text bs
unfolding bytes_to_hex
bytes_to_hex-hex_text bs h = hex_loop-append [] bs h

-- Each of the 256 bytes, by evaluation.
is_read_back : ℕ → Bool
is_read_back b = to_uint8 (parse_int 16 (hex_digit (b / 16) ∷ hex_digit (b % 16) ∷ [])) == b

read_back_table : passes_below is_read_back 256 ≡ true
unfolding is_read_back passes_below parse_int to_uint8
read_back_table = refl

parse_pair :
    (b : ℕ) → b < 256 → to_uint8 (parse_int 16 (hex_digit (b / 16) ∷ hex_digit (b % 16) ∷ [])) ≡ b
unfolding is_read_back
parse_pair b h = (==_iff _ b).0 (passes_of_below is_read_back 256 b h read_back_table)

hex_pairs-hex_text : (bs : Bytes) → All IsByte bs → hex_pairs (hex_text bs) ≡ bs
unfolding hex_pairs
hex_pairs-hex_text [] h = refl
hex_pairs-hex_text (b ∷ bs) (p, h) = ground (arith, parse_pair b p, hex_pairs-hex_text bs h)

length-hex_text : (bs : Bytes) → length (hex_text bs) ≡ 2 * length bs
length-hex_text [] = refl
length-hex_text (b ∷ bs) = omega (arith, length-hex_text bs)

-- No digit is an `x`, so no prefix is taken off.
clean-hex_text : (bs : Bytes) → clean (hex_text bs) ≡ hex_text bs
unfolding text_eq
clean-hex_text [] = refl
clean-hex_text (b ∷ bs) = ground arith

-- A byte array comes back from its hexadecimal text unchanged.
pub hex_to_bytes-bytes_to_hex :
    (bs : Bytes) → All IsByte bs → hex_to_bytes (bytes_to_hex bs) ≡ some bs
unfolding hex_to_bytes
hex_to_bytes-bytes_to_hex bs h =
    rw (bytes_to_hex-hex_text bs h, clean-hex_text bs)
      (ground (arith, length-hex_text bs, hex_pairs-hex_text bs h))
