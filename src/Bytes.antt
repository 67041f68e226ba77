-- ===== src/Bytes.antt =====
-- sealed-sky-web/src/lib/bytes.ts. A Uint8Array is the list of its bytes.
pub mod Hex
pub mod Words
pub mod Concat
pub mod Laws
use sealed_sky_verification.Common.{
  ℕ, zero, suc, ◌+◌, ◌-◌, ◌*◌, ◌/◌, ◌%◌, Bool, true, false, ◌&&◌, Option, none, some, List, [], ◌∷◌,
  ◌++◌, map, ltb, leb, ◌==◌, if◌then◌else◌, length, take, drop, replicate, filter, ◌≡◌, refl,
}
use sealed_sky_verification.Common.Text.{Text, codes, text_eq}
use sealed_sky_verification.Js.{parse_int, to_uint8, to_string_16, pad_start}
use sealed_sky_verification.Base64.{btoa, atob, char_of}
use mathlib.Core.Option

abbrev pub Bytes : Type 0
Bytes = List ℕ

-- The loop of `bytesToB64`; `String.fromCharCode` of a byte is the byte.
bin_loop : Text → Bytes → Text
bin_loop bin [] = bin
bin_loop bin (b ∷ bs) = bin_loop (bin ++ (b ∷ [])) bs

-- `btoa` throws for a unit above 255 only, and a Uint8Array holds none.
unfoldable pub bytes_to_b64 : Bytes → Text
unfolding bin_loop
bytes_to_b64 bytes = btoa (bin_loop [] bytes)

-- `none` is the error that `atob` throws. A Uint8Array keeps a number modulo 256.
unfoldable pub b64_to_bytes : Text → Option Bytes
b64_to_bytes b64 = Option.map (map (λ c. c % 256)) (atob b64)

-- The loop that `bytesToHex`, `generateCapsuleLabel` and `sha256Utf8Hex0x` share.
unfoldable pub hex_loop : Text → Bytes → Text
hex_loop s [] = s
hex_loop s (b ∷ bs) = hex_loop (s ++ pad_start 2 b'0' (to_string_16 b)) bs

unfoldable pub bytes_to_hex : Bytes → Text
unfolding hex_loop
bytes_to_hex bytes = hex_loop [] bytes

abbrev pub clean : Text → Text
clean hex = if text_eq (take 2 hex) (codes "0x") then drop 2 hex else hex

-- The loop of `hexToBytes`, two units at a time.
hex_pairs : Text → Bytes
hex_pairs [] = []
hex_pairs (a ∷ []) = []
hex_pairs (a ∷ b ∷ s) = to_uint8 (parse_int 16 (a ∷ b ∷ [])) ∷ hex_pairs s

-- `none` is the error "hex length must be even".
unfoldable pub hex_to_bytes : Text → Option Bytes
unfolding hex_pairs
hex_to_bytes hex = if length (clean hex) % 2 == 0 then some (hex_pairs (clean hex)) else none

-- The loop of `u64BeBytes`: the bytes from the last to the first.
u64_loop : ℕ → ℕ → Bytes → Bytes
u64_loop zero v out = out
u64_loop (suc i) v out = u64_loop i (v / 256) ((v % 256) ∷ out)

unfoldable pub u64_be_bytes : ℕ → Bytes
unfolding u64_loop
u64_be_bytes n = u64_loop 8 n []

total_length : List Bytes → ℕ
total_length [] = 0
total_length (p ∷ parts) = length p + total_length parts

-- `out.set(p, off)`
set_at : Bytes → Bytes → ℕ → Bytes
set_at out p off = take off out ++ p ++ drop (off + length p) out

concat_loop : Bytes → ℕ → List Bytes → Bytes
unfolding set_at
concat_loop out off [] = out
concat_loop out off (p ∷ parts) = concat_loop (set_at out p off) (off + length p) parts

unfoldable pub concat : List Bytes → Bytes
unfolding total_length concat_loop
concat parts = concat_loop (replicate (total_length parts) 0) 0 parts

tests :
    (bytes_to_hex (0 ∷ 10 ∷ 255 ∷ []) ≡ codes "000aff")
    × (hex_to_bytes (codes "0x00f") ≡ none)
    × (hex_to_bytes (codes "0x0aFF") ≡ some (10 ∷ 255 ∷ []))
    × (u64_be_bytes 258 ≡ 0 ∷ 0 ∷ 0 ∷ 0 ∷ 0 ∷ 0 ∷ 1 ∷ 2 ∷ [])
    × (concat ((1 ∷ 2 ∷ []) ∷ [] ∷ (3 ∷ []) ∷ []) ≡ 1 ∷ 2 ∷ 3 ∷ [])
    × (b64_to_bytes (codes "aGkh") ≡ some (104 ∷ 105 ∷ 33 ∷ []))
unfolding bytes_to_hex hex_to_bytes u64_be_bytes concat b64_to_bytes parse_int to_uint8 to_string_16
    pad_start text_eq atob filter
tests = (refl, refl, refl, refl, refl, refl)
