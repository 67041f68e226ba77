-- ===== src/Ens.antt =====
-- sealed-sky-web/src/lib/ens.ts: ENS names, addresses and text records, each behind a cache. What
-- viem answers is an argument, an error for a promise that rejects.
pub mod Caches
use sealed_sky_verification.Common.{
  ℕ, Bool, true, false, not, ◌&&◌, ◌||◌, Option, none, some, List, [], ◌∷◌, ◌++◌, map, leb, ◌==◌,
  if◌then◌else◌, all, any, length,
}
use sealed_sky_verification.Common.Text.{Text, codes, text_eq}
use sealed_sky_verification.Js.{trim}
use sealed_sky_verification.Codec.{Codec}
use sealed_sky_verification.Errors.{Result, ok, err}
use sealed_sky_verification.Share.Url.{encode_uri_component}

-- A map from texts to what was found, `some none` for a null that is kept.
abbrev pub Cache : Type 0
Cache = List (Text × Option Text)

unfoldable pub cached : Text → Cache → Option (Option Text)
cached key [] = none
cached key ((k, v) ∷ cache) = let rest = cached key cache in if text_eq k key then some v else rest

-- `map.set(key, value)`
abbrev pub set_cached : Text → Option Text → Cache → Cache
set_cached key value cache = (key, value) ∷ cache

-- A null of an error is kept like any other answer.
abbrev pub or_null : Result (Option Text) → Option Text
or_null (err e) = none
or_null (ok value) = value

-- The three reads share this: a cached answer is returned, another is kept.
unfoldable pub read_through : Text → Result (Option Text) → Cache → Cache × Option Text
unfolding cached
read_through key reply cache = elim (cached key cache) [
  | some value ↦ (cache, value)
  | none ↦ (set_cached key (or_null reply) cache, or_null reply)
]

module _ (lower : Text → Text) where
  unfoldable pub lookup_ens_name : Text → Result (Option Text) → Cache → Cache × Option Text
  unfolding read_through
  lookup_ens_name addr reply cache = read_through (lower addr) reply cache

  unfoldable pub text_key : Text → Text → Text
  text_key name key = lower name ++ (b'|' ∷ key)

  unfoldable pub read_ens_text : Text → Text → Result (Option Text) → Cache → Cache × Option Text
  unfolding read_through text_key
  read_ens_text name key reply cache = read_through (text_key name key) reply cache

-- The labels between the dots.
abbrev cons_label : ℕ → List Text → List Text
cons_label c [] = (c ∷ []) ∷ []
cons_label c (label ∷ labels) = (c ∷ label) ∷ labels

unfoldable pub labels_of : Text → List Text
labels_of [] = [] ∷ []
labels_of (c ∷ s) = let rest = labels_of s in if c == b'.' then [] ∷ rest else cons_label c rest

abbrev is_ascii_label_char : ℕ → Bool
is_ascii_label_char c = leb b'a' c && leb c b'z' || leb b'0' c && leb c b'9' || c == b'-'

-- The second test ignores case; 0xa1 to 0xffff are the other code units it allows.
abbrev is_label_char : ℕ → Bool
is_label_char c =
    is_ascii_label_char c || leb b'A' c && leb c b'Z' || c == b'_' || leb 0xa1 c && leb c 0xffff

abbrev is_label : (ℕ → Bool) → Text → Bool
is_label test [] = false
is_label test (c ∷ s) = all test (c ∷ s)

-- `/^[…]+(\.[…]+)+$/`: two labels at least.
abbrev are_labels : (ℕ → Bool) → List Text → Bool
are_labels test [] = false
are_labels test (l ∷ []) = false
are_labels test (l ∷ m ∷ ls) = all (is_label test) (l ∷ m ∷ ls)

abbrev is_nonempty : Text → Bool
is_nonempty [] = false
is_nonempty (c ∷ s) = true

module _ (lower : Text → Text) where
  unfoldable pub looks_like_ens : Text → Bool
  unfolding labels_of
  looks_like_ens name =
      let s = lower (trim name) in
      is_nonempty s
      && any (λ c. c == b'.') s
      && (are_labels is_ascii_label_char (labels_of s) || are_labels is_label_char (labels_of s))

  unfoldable pub resolve_ens_address : Text → Result (Option Text) → Cache → Cache × Option Text
  unfolding looks_like_ens read_through
  resolve_ens_address name reply cache =
      let trimmed = lower (trim name) in
      if not (is_nonempty trimmed) || not (looks_like_ens trimmed)
      then (cache, none)
      else read_through trimmed reply cache

unfoldable pub ens_app_url : Codec → Text → Text
ens_app_url c name = codes "https://app.ens.domains/" ++ encode_uri_component c name
