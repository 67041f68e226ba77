-- ===== src/Server.antt =====
-- backend/server.js: the file of the validation history, the parts of a request, and the
-- configuration. The file's content, the environment and the request are arguments.
pub mod Log
pub mod Recent
pub mod Submit
pub mod Sign
pub mod Label
pub mod Publish
pub mod Lookup
use sealed_sky_verification.Common.{
  ℕ, zero, suc, ◌-◌, Bool, true, false, not, ◌&&◌, ◌||◌, Option, none, some, List, [], ◌∷◌, ◌++◌,
  map, ltb, leb, ◌==◌, if◌then◌else◌, length, drop,
}
use mathlib.Core.List.{reverse}
use sealed_sky_verification.Common.Text.{Text, codes, text_eq}
use sealed_sky_verification.Codec.{Codec}
use sealed_sky_verification.Errors.{Error, Result, ok, err, bad_json, type_error, or_throw, ◌>>=◌}
use sealed_sky_verification.Js.{trim}
use sealed_sky_verification.Js.Numeric.{Numeric, nan, infinite, finite, number_of, is_finite}
use sealed_sky_verification.Json.{
  Json, null, num, str, arr, obj, Items, nil, cons, Fields, end, field, member, option_string,
  truthy_value,
}

-- The content of the history file, `none` where there is no file.
abbrev pub File : Type 0
File = Option Text

abbrev pub to_list : Items → List Json
to_list nil = []
to_list (cons v vs) = v ∷ to_list vs

abbrev pub to_items : List Json → Items
to_items [] = nil
to_items (v ∷ vs) = cons v (to_items vs)

-- What a handler sends.
pub record Reply : Type 0 where
  pub status : ℕ
  pub body : Json

-- `req.body`, from which each handler takes its fields first: undefined and null throw.
abbrev pub body_of : Option Json → Result Json
body_of none = err type_error
body_of (some null) = err type_error
body_of (some v) = ok v

abbrev pub default_sealed_sky_text : Text
default_sealed_sky_text = codes "seal_sky_seal_box_text"

abbrev or_default : Text → Text
or_default [] = default_sealed_sky_text
or_default (c ∷ s) = c ∷ s

abbrev raw_text : Option Json → Option Json → Text
raw_text (some (str s)) legacy = s
raw_text _ (some (str s)) = s
raw_text _ _ = []

unfoldable pub sealed_sky_text_from_body : Json → Text
sealed_sky_text_from_body body =
    or_default
      (trim (raw_text (member (codes "sealedSkyText") body) (member (codes "result") body)))

-- `.replace(/^0x/i, "")`
abbrev pub strip_prefix : Text → Text
strip_prefix (a ∷ b ∷ s) = if a == b'0' && (b == b'x' || b == b'X') then s else a ∷ b ∷ s
strip_prefix s = s

abbrev pub text_or_empty : Option Json → Text
text_or_empty none = []
text_or_empty (some v) = option_string (some v)

-- `String(value || "")`
abbrev pub string_or_empty : Option Json → Text
string_or_empty v = text_or_empty (truthy_value v)

module _ (lower : Text → Text) where
  unfoldable pub normalize_proof_hex : Option Json → Text
  normalize_proof_hex proof = lower (strip_prefix (trim (string_or_empty proof)))

module _ (c : Codec) where
  abbrev parsed_history : Option Json → Result (List Json)
  parsed_history none = err bad_json
  parsed_history (some (arr vs)) = ok (to_list vs)
  parsed_history (some v) = ok []

  unfoldable pub read_history : File → Result (List Json)
  read_history none = ok []
  read_history (some content) = parsed_history (c.parse content)

  -- `pretty` is JSON.stringify with an indentation of two.
  module _ (pretty : Json → Text) where
    unfoldable pub append_history : Json → File → Result File
    unfolding read_history
    append_history row file = do
      history ← read_history file
      ok (some (pretty (arr (to_items (history ++ (row ∷ []))))))

    -- A row is appended, and then the reply is sent.
    unfoldable pub log_and_reply : Json → Reply → File → Result (Reply × File)
    unfolding append_history
    log_and_reply row reply file = do file' ← append_history row file; ok (reply, file')

-- `xs.slice(-n)`, which is all of the list for n = 0.
abbrev pub last_of : ℕ → List Json → List Json
last_of n xs = if n == 0 then xs else drop (length xs - n) xs

-- The limit of the query: a positive number is rounded down, and any other is 3.
unfoldable pub history_limit : Option Json → ℕ
history_limit limit = elim (number_of limit) [
  | finite false zero true ↦ 3
  | finite false whole exact ↦ whole
  | finite true whole exact ↦ 3
  | infinite minus ↦ 3
  | nan ↦ 3
]

unfoldable pub history_reply : Option Json → List Json → Reply
unfolding history_limit
history_reply limit history =
    let last_items = reverse (last_of (history_limit limit) history) in
    record {
      status = 200;
      body = obj (
          field (codes "total") (num (length history)) (
            field (codes "count") (num (length last_items))
              (field (codes "items") (arr (to_items last_items)) end)));
    }

unfoldable pub get_history : Codec → Option Json → File → Result Reply
unfolding read_history history_reply
get_history c limit file = do history ← read_history c file; ok (history_reply limit history)

-- The environment variables that are read, `none` where one is not set.
abbrev first_set : Option Text → Option Text → Text
first_set (some (c ∷ s)) other = c ∷ s
first_set _ none = []
first_set _ (some s) = s

pub record Config : Type 0 where
  pub api_key : Text
  pub parent_domain : Text

unfoldable pub namestone_config : (key vite_key domain vite_domain : Option Text) → Config
namestone_config key vite_key domain vite_domain = record {
  api_key = first_set key vite_key;
  parent_domain = first_set domain vite_domain;
}
