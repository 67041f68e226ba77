-- ===== src/Server/Publish.antt =====
-- backend/server.js, POST /publish-validation-ens: the newest rows that fit go into the text records
-- of a subname. The key, the owner, the time and the network's answer are arguments.
pub mod Fit
pub mod Total
pub mod Request
use sealed_sky_verification.Common.{
  ℕ, zero, suc, ◌-◌, Bool, true, false, not, ◌&&◌, ◌||◌, ◌==◌, ltb, Option, none, some, List, [],
  ◌∷◌, ◌++◌, length, if◌then◌else◌, min, max,
}
use sealed_sky_verification.Common.Text.{Text, codes, text_eq}
use sealed_sky_verification.Codec.{Codec}
use sealed_sky_verification.Errors.{Error, Result, ok, err, thrown, guard, ◌>>=◌, ◌>>◌}
use sealed_sky_verification.Http.{is_ok}
use sealed_sky_verification.Js.{trim, to_string}
use sealed_sky_verification.Js.Numeric.{Numeric, nan, infinite, finite, number_of}
use sealed_sky_verification.Json.{
  Json, null, bool, num, str, arr, obj, Fields, end, field, member, property, js_string,
  truthy_value,
}
use sealed_sky_verification.Namestone.{Answer, rejected, answered, or_status}
use sealed_sky_verification.Server.{
  Config, File, Reply, to_items, last_of, read_history, string_or_empty,
}
use sealed_sky_verification.Share.Url.{encode_uri_component}
use sealed_sky_verification.Server.Label.{sanitize_ens_label}

abbrev pub max_len : ℕ
max_len = 45000

abbrev pub rows_text : Codec → List Json → Text
rows_text c rows = c.stringify (arr (to_items rows))

abbrev pub is_long : Codec → List Json → Bool
is_long c rows = ltb max_len (length (rows_text c rows))

-- The loop that drops the oldest row while the text is too long and more than one row is left.
unfoldable pub fit : Codec → List Json → List Json
fit c [] = []
fit c (v ∷ []) = v ∷ []
fit c (v ∷ w ∷ rows) =
    let rest = fit c (w ∷ rows) in if is_long c (v ∷ w ∷ rows) then rest else v ∷ w ∷ rows

-- `Math.min(Math.max(Number(maxEntries) || 200, 1), 500)`; what `slice` makes of a fraction is its
-- whole part.
abbrev pub entries_of : Numeric → ℕ
entries_of nan = 200
entries_of (infinite false) = 500
entries_of (infinite true) = 1
entries_of (finite minus zero true) = 200
entries_of (finite false whole exact) = min (max whole 1) 500
entries_of (finite true whole exact) = 1

unfoldable pub max_entries : Option Json → ℕ
max_entries asked = entries_of (number_of asked)

pub data Scope : Type 0 where
  last full : Scope

abbrev is_text : Text → Option Json → Bool
is_text t (some (str s)) = text_eq s t
is_text t _ = false

abbrev scope_if : Bool → Scope
scope_if true = last
scope_if false = full

abbrev pub scope_of : Json → Scope
scope_of options = scope_if (is_text (codes "last") (member (codes "scope") options))

abbrev pub scope_text : Scope → Text
scope_text last = codes "last"
scope_text full = codes "full"

abbrev or_text : Text → Option Json → Text
or_text other none = other
or_text other (some v) = js_string v

abbrev pub last_row : List Json → Option Json
last_row [] = none
last_row (v ∷ []) = some v
last_row (v ∷ w ∷ rows) = last_row (w ∷ rows)

abbrev pub describe_last : Json → Result Text
describe_last row = do
  status ← property (codes "status") row
  received ← property (codes "receivedAt") row
  ok (
      codes "Trusted Edge Oracle — last validation ("
      ++ or_text (codes "unknown") (truthy_value status)
      ++ codes ", "
      ++ string_or_empty received
      ++ codes ")")

abbrev pub describe_all : (total published : ℕ) → Text
describe_all total published =
    codes "Trusted Edge Oracle validation history ("
    ++ to_string total
    ++ codes " events, last "
    ++ to_string published
    ++ codes " published)"

abbrev pub newest : Option Json → Result (List Json × Text)
newest none = err (thrown (codes "no validation history to publish"))
newest (some row) = do description ← describe_last row; ok (row ∷ [], description)

-- The rows to publish and their description.
unfoldable pub choose_rows : Codec → Scope → Json → List Json → Result (List Json × Text)
unfolding fit max_entries
choose_rows c last options history = newest (last_row history)
choose_rows c full options history =
    let rows = fit c (last_of (max_entries (member (codes "maxEntries") options)) history) in
    (guard (not (is_long c rows)) (
        thrown (
          codes
            "Validation history JSON is too large for one ENS text record; reduce maxEntries or shorten stored fields"))
      >> ok (rows, describe_all (length history) (length rows)))

-- What is sent, and what the reply says of it.
pub record Plan : Type 0 where
  pub scope : Scope
  pub rows : List Json
  pub payload : Text
  pub description : Text
  pub total : ℕ

unfoldable pub plan_of : Codec → Json → List Json → Result Plan
unfolding choose_rows
plan_of c options history = do
  (rows, description) ← choose_rows c (scope_of options) options history
  guard (not (is_long c rows))
      (thrown (codes "last validation record JSON is too large for one ENS text record"))
  ok (record {
    scope = scope_of options;
    rows = rows;
    payload = rows_text c rows;
    description = description;
    total = length history;
  })
