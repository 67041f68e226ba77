-- ===== src/Share/Url.antt =====
-- URLSearchParams and encodeURIComponent, which share.ts and ens.ts call.
pub mod Params
pub mod Component
use sealed_sky_verification.Common.{
  ℕ, ◌+◌, ◌-◌, ◌*◌, ◌/◌, ◌%◌, Bool, ◌&&◌, ◌||◌, Option, none, some, List, [], ◌∷◌, ◌++◌, map, leb,
  ltb, ◌==◌, if◌then◌else◌, any,
}
use sealed_sky_verification.Common.Text.{Text, codes, text_eq}
use sealed_sky_verification.Bytes.{Bytes}
use sealed_sky_verification.Codec.{Codec}
use sealed_sky_verification.Js.{digit_value}

abbrev is_alphanumeric : ℕ → Bool
is_alphanumeric b = leb b'0' b && leb b b'9' || leb b'A' b && leb b b'Z' || leb b'a' b && leb b b'z'

-- The bytes that a form leaves as they are, and those that encodeURIComponent leaves.
abbrev pub is_form_safe : ℕ → Bool
is_form_safe b = is_alphanumeric b || any (λ s. s == b) (codes "*-._")

abbrev pub is_uri_safe : ℕ → Bool
is_uri_safe b = is_alphanumeric b || any (λ s. s == b) (codes "-_.!~*'()")

abbrev pub upper_digit : ℕ → ℕ
upper_digit d = if ltb d 10 then d + b'0' else d - 10 + b'A'

abbrev pub percent : ℕ → Text
percent b = b'%' ∷ upper_digit (b / 16) ∷ upper_digit (b % 16) ∷ []

abbrev pub form_byte : ℕ → Text
form_byte b = if is_form_safe b then b ∷ [] else if b == 32 then b'+' ∷ [] else percent b

abbrev pub uri_byte : ℕ → Text
uri_byte b = if is_uri_safe b then b ∷ [] else percent b

abbrev pub write_bytes : (ℕ → Text) → Bytes → Text
write_bytes f [] = []
write_bytes f (b ∷ bs) = f b ++ write_bytes f bs

-- A `%` with two hexadecimal digits is their byte; any other stays.
unfoldable pub percent_decode : Bytes → Bytes
percent_decode (p ∷ h ∷ l ∷ bs) =
    let short = percent_decode bs in
    let long = percent_decode (h ∷ l ∷ bs) in
    if p == b'%' && ltb (digit_value h) 16 && ltb (digit_value l) 16
    then (digit_value h * 16 + digit_value l) ∷ short
    else p ∷ long
percent_decode bs = bs

-- The pieces between the separators.
abbrev cons_first : ℕ → List Bytes → List Bytes
cons_first b [] = (b ∷ []) ∷ []
cons_first b (piece ∷ pieces) = (b ∷ piece) ∷ pieces

unfoldable pub split_on : ℕ → Bytes → List Bytes
split_on sep [] = [] ∷ []
split_on sep (b ∷ bs) =
    let rest = split_on sep bs in if b == sep then [] ∷ rest else cons_first b rest

-- What stands before the first `=` and behind it.
unfoldable pub name_value : Bytes → Bytes × Bytes
name_value [] = ([], [])
name_value (b ∷ bs) =
    let (name, value) = name_value bs in if b == b'=' then ([], bs) else (b ∷ name, value)

abbrev pub plus_to_space : ℕ → ℕ
plus_to_space b = if b == b'+' then 32 else b

-- A question mark before the first name is taken off.
abbrev pub strip_query : Text → Text
strip_query [] = []
strip_query (c ∷ s) = if c == b'?' then s else c ∷ s

module _ (c : Codec) where
  unfoldable pub encode_uri_component : Text → Text
  encode_uri_component t = write_bytes uri_byte (c.encode t)

  unfoldable pub form_encode : Text → Text
  form_encode t = write_bytes form_byte (c.encode t)

  unfoldable pub form_decode : Bytes → Text
  form_decode bs = c.decode (percent_decode (map plus_to_space bs))

  abbrev pub write_rest : List (Text × Text) → Text
  write_rest [] = []
  write_rest ((k, v) ∷ ps) = b'&' ∷ form_encode k ++ (b'=' ∷ form_encode v ++ write_rest ps)

  -- `params.toString()`
  unfoldable pub write_params : List (Text × Text) → Text
  write_params [] = []
  write_params ((k, v) ∷ ps) = form_encode k ++ (b'=' ∷ form_encode v ++ write_rest ps)

  abbrev pub read_pieces : List Bytes → List (Text × Text)
  read_pieces [] = []
  read_pieces ([] ∷ pieces) = read_pieces pieces
  read_pieces ((b ∷ bs) ∷ pieces) =
      (form_decode (name_value (b ∷ bs)).0, form_decode (name_value (b ∷ bs)).1)
      ∷ read_pieces pieces

  -- `new URLSearchParams(raw)`
  unfoldable pub search_params : Text → List (Text × Text)
  search_params raw = read_pieces (split_on b'&' (c.encode (strip_query raw)))

-- `params.get(key)`; `none` for null.
unfoldable pub get_param : Text → List (Text × Text) → Option Text
get_param key [] = none
get_param key ((k, v) ∷ ps) = let rest = get_param key ps in if text_eq k key then some v else rest
