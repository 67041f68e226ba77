-- ===== src/Codec.antt =====
-- The text codecs of the browser: JSON and UTF-8. Their operations are parameters of the modules
-- that use them, and `IsCodec` is what the standards document of them.
pub mod Simple
use sealed_sky_verification.Common.{
  if◌then◌else◌, some, Bool, true, false, not, ◌&&◌, Option, [], ◌∷◌, leb, ◌==◌, All, ◌≡◌, ℕ, ◌<◌,
}
use sealed_sky_verification.Common.Text.{Text}
use sealed_sky_verification.Base64.Laws.{IsByte}
use sealed_sky_verification.Bytes.{Bytes}
use sealed_sky_verification.Json.{Json, is_plain}

pub record Codec : Type 0 where
  -- JSON.stringify, and JSON.parse with `none` for its SyntaxError
  pub stringify : Json → Text
  pub parse : Text → Option Json
  -- TextEncoder and TextDecoder
  pub encode : Text → Bytes
  pub decode : Bytes → Text

-- Whether a text is well-formed UTF-16 from a place on where `low` tells that the second half of a
-- surrogate pair is due.
scalar_from : Bool → Text → Bool
scalar_from low [] = not low
scalar_from low (c ∷ s) =
    let is_low = leb 0xdc00 c && leb c 0xdfff in
    let is_high = leb 0xd800 c && leb c 0xdbff in
    let rest = scalar_from is_high s in if low then is_low && rest else not is_low && rest

abbrev starts_with_mark : Text → Bool
starts_with_mark [] = false
starts_with_mark (c ∷ s) = c == 0xfeff

-- Well-formed UTF-16 with no byte order mark before it, which TextDecoder would take off.
unfoldable pub is_scalar_text : Text → Bool
unfolding scalar_from
is_scalar_text t = scalar_from false t && not (starts_with_mark t)

-- The output of JSON.stringify is well-formed UTF-16 with no byte order mark before it, so UTF-8
-- carries it over.
pub record IsCodec (c : Codec) : Type 0 where
  pub parse-stringify : (v : Json) → is_plain v ≡ true → c.parse (c.stringify v) ≡ some v
  pub decode-encode : (v : Json) → c.decode (c.encode (c.stringify v)) ≡ c.stringify v
  pub decode-encode_text : (t : Text) → is_scalar_text t ≡ true → c.decode (c.encode t) ≡ t
  pub encode-IsByte : (t : Text) → All IsByte (c.encode t)

-- UTF-8 writes the code units below 128 as bytes of the same number.
abbrev pub IsAscii : ℕ → Type 0
IsAscii b = b < 128

pub record IsAsciiCodec (c : Codec) : Type 0 where
  pub encode_ascii : (t : Text) → All IsAscii t → c.encode t ≡ t
  pub decode_ascii : (t : Text) → All IsAscii t → c.decode t ≡ t
