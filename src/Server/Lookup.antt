-- ===== src/Server/Lookup.antt =====
-- backend/server.js, GET /read-validation-ens: the text records of a subname, from NameStone or else
-- from the resolvers of the chain. The two networks and the environment are arguments.
pub mod Chain
pub mod Published
use sealed_sky_verification.Common.{
  ℕ, zero, suc, Bool, true, false, not, ◌&&◌, Option, none, some, List, [], ◌∷◌, ◌++◌, map, filter,
  find, length, if◌then◌else◌,
}
use sealed_sky_verification.Common.Text.{Text, codes, text_eq}
use sealed_sky_verification.Codec.{Codec}
use sealed_sky_verification.Errors.{Error, Result, ok, err, type_error, ◌>>=◌}
use sealed_sky_verification.Http.{is_ok}
use sealed_sky_verification.Js.{trim, to_string}
use sealed_sky_verification.Json.{
  Json, null, num, str, arr, obj, Fields, end, field, member, property, js_string, truthy_value,
}
use sealed_sky_verification.Namestone.{or_status}
use sealed_sky_verification.Server.{Config, Reply, to_list}
use sealed_sky_verification.Server.Label.{EnsParts, split_ens_subdomain_and_parent}

-- The text records that are published and read back.
abbrev pub validation_ens_text_keys : List Text
validation_ens_text_keys =
    codes "com.sealedsky.validation_history"
    ∷ codes "com.sealedsky.validation_total"
    ∷ codes "com.sealedsky.validation_slice"
    ∷ codes "com.sealedsky.validation_updated_at"
    ∷ codes "com.sealedsky.validation_app"
    ∷ codes "com.sealedsky.validation_scope"
    ∷ codes "description"
    ∷ []

-- What `get-names` answers: its status, its text where it is not ok, and its JSON where it is.
pub data Listing : Type 0 where
  rejected : Error → Listing
  answered : (status : ℕ) (text : Option Text) (status_text : Text) (json : Result Json) → Listing

-- `matched` with the records, or the fields of the object with `ok: false`.
pub data Lookup : Type 0 where
  found : (records : Fields) (matched : Text) → Lookup
  missing : (reason : Text) (status : Option ℕ) (detail : Option Text) → Lookup

abbrev name_matches : (lower : Text → Text) → Text → Option Json → Option Json → Bool
name_matches lower want (some (str name)) (some (str domain)) =
    text_eq (lower (name ++ (b'.' ∷ domain))) want
name_matches lower want name domain = false

-- A row that `find` takes; `member` is nothing on what is no object.
abbrev pub is_row : (lower : Text → Text) → Text → Json → Bool
is_row lower want item =
    name_matches lower want (member (codes "name") item) (member (codes "domain") item)

-- `tr[key] ?? null`
abbrev or_null : Option Json → Json
or_null none = null
or_null (some v) = v

abbrev records_at : List Text → (Text → Json) → Fields
records_at [] read = end
records_at (k ∷ ks) read = field k (read k) (records_at ks read)

abbrev text_records_of : Json → Json
text_records_of row = or_null (member (codes "text_records") row)

abbrev pub row_records : Json → Fields
row_records row =
    records_at validation_ens_text_keys (λ k. or_null (member k (text_records_of row)))

abbrev pub row_lookup : Text → ℕ → Option Json → Lookup
row_lookup want n (some row) = found (row_records row) want
row_lookup want n none =
    missing (codes "namestone_not_found") none
      (some (codes "no row for " ++ want ++ codes " in first " ++ to_string n ++ codes " names"))

abbrev pub find_row : (lower : Text → Text) → Text → Json → Lookup
find_row lower want (arr items) =
    row_lookup want (length (to_list items)) (find (is_row lower want) (to_list items))
find_row lower want other = missing (codes "namestone_bad_json") none none

abbrev read_listing : (lower : Text → Text) → Text → Listing → Result Lookup
read_listing lower want (rejected e) = err e
read_listing lower want (answered status text status_text json) =
    if not (is_ok status)
    then ok (missing (codes "namestone_http") (some status) (some (or_status text status_text)))
    else (do list ← json; ok (find_row lower want list))

module _ (lower : Text → Text) where
  -- `fetch` takes the domain of the query and the key of the header.
  abbrev look_up : Config → (Text → Text → Listing) → Text → Option EnsParts → Result Lookup
  look_up g fetch ens_name none = ok (missing (codes "not_a_subdomain") none (some ens_name))
  look_up g fetch ens_name (some parts) =
      read_listing lower parts.full (fetch parts.parent g.api_key)

  unfoldable pub read_validation_text_records_via_name_stone :
      Config → (Text → Text → Listing) → Text → Result Lookup
  unfolding split_ens_subdomain_and_parent
  read_validation_text_records_via_name_stone g fetch ens_name =
      look_up g fetch ens_name (split_ens_subdomain_and_parent lower ens_name)
