-- ===== src/Server/Label.antt =====
-- backend/server.js: the label of a subname, and the parts of a name.
pub mod Laws
pub mod Names
use sealed_sky_verification.Common.{
  ℕ, Bool, true, false, not, ◌&&◌, ◌||◌, ◌==◌, leb, ltb, Option, none, some, List, [], ◌∷◌, ◌++◌,
  map, take, drop, length, ◌-◌, if◌then◌else◌,
}
use sealed_sky_verification.Common.Text.{Text, codes}
use sealed_sky_verification.Js.{trim}
use sealed_sky_verification.Json.{Json}
use sealed_sky_verification.Server.{string_or_empty}
use sealed_sky_verification.Share.Url.{split_on}

-- `[a-z0-9-]`
abbrev pub is_label_char : ℕ → Bool
is_label_char c = leb 97 c && leb c 122 || leb 48 c && leb c 57 || c == 45

abbrev pub to_label_char : ℕ → ℕ
to_label_char c = if is_label_char c then c else 45

-- `.replace(/-+/g, "-")`, after a dash or not.
unfoldable pub collapse_dashes : Bool → Text → Text
collapse_dashes after_dash [] = []
collapse_dashes after_dash (c ∷ s) =
    let rest = collapse_dashes (c == 45) s in if c == 45 && after_dash then rest else c ∷ rest

-- `.replace(/^-|-$/g, "")`, its two ends one after the other.
abbrev pub drop_first_dash : Text → Text
drop_first_dash [] = []
drop_first_dash (c ∷ s) = if c == 45 then s else c ∷ s

unfoldable pub drop_last_dash : Text → Text
drop_last_dash [] = []
drop_last_dash (c ∷ []) = if c == 45 then [] else c ∷ []
drop_last_dash (c ∷ d ∷ s) = c ∷ drop_last_dash (d ∷ s)

abbrev pub or_oracle_validation : Text → Text
or_oracle_validation [] = codes "oracle-validation"
or_oracle_validation (c ∷ s) = c ∷ s

-- `.join(".")`
unfoldable pub join_dots : List Text → Text
join_dots [] = []
join_dots (s ∷ []) = s
join_dots (s ∷ t ∷ rest) = s ++ (b'.' ∷ join_dots (t ∷ rest))

pub record EnsParts : Type 0 where
  pub label : Text
  pub parent : Text
  pub full : Text

abbrev pub parts_of : Text → Text → Option EnsParts
parts_of [] parent = none
parts_of (c ∷ s) [] = none
parts_of (c ∷ s) (d ∷ t) =
    some (record { label = c ∷ s; parent = d ∷ t; full = (c ∷ s) ++ (b'.' ∷ (d ∷ t)) })

module _ (lower : Text → Text) where
  unfoldable pub sanitize_ens_label : Option Json → Text
  unfolding collapse_dashes drop_last_dash
  sanitize_ens_label raw =
      let kept = map to_label_char (lower (string_or_empty raw)) in
      let tidy = drop_last_dash (drop_first_dash (collapse_dashes false kept)) in
      take 63 (or_oracle_validation tidy)

  unfoldable pub split_ens_subdomain_and_parent : Text → Option EnsParts
  unfolding split_on join_dots
  split_ens_subdomain_and_parent ens_name =
      let parts = split_on b'.' (lower (trim ens_name)) in
      let n = length parts in
      if ltb n 3
      then none
      else parts_of (join_dots (take (n - 2) parts)) (join_dots (drop (n - 2) parts))
