-- ===== src/Server/Label/Laws.antt =====
-- backend/server.js: the labels that sanitizeEnsLabel makes.
use sealed_sky_verification.Common.{
  ℕ, zero, suc, ap, ◌≡◌, ◌≤◌, ◌<◌, refl, Bool, true, false, not, ◌&&◌, ◌==◌, Bool-cases, inl, inr,
  Option, some, [], ◌∷◌, map, take, length, length-take, All, arith,
}
use sealed_sky_verification.Common.Text.{Text, codes}
use sealed_sky_verification.Json.{Json, str, js_string}
use sealed_sky_verification.Server.{string_or_empty}
use sealed_sky_verification.Server.Label.{
  is_label_char, to_label_char, collapse_dashes, drop_first_dash, drop_last_dash,
  or_oracle_validation, sanitize_ens_label,
}

-- No dash after a dash.
unfoldable pub is_tidy : Bool → Text → Bool
is_tidy after_dash [] = true
is_tidy after_dash (c ∷ s) = let rest = is_tidy (c == 45) s in not (after_dash && c == 45) && rest

unfoldable pub ends_with_dash : Text → Bool
ends_with_dash [] = false
ends_with_dash (c ∷ []) = c == 45
ends_with_dash (c ∷ d ∷ s) = ends_with_dash (d ∷ s)

abbrev pub IsLabelText : Text → Type 0
IsLabelText t = All (λ c. is_label_char c ≡ true) t

-- A label: letters, digits and dashes, 1 to 63 of them, with no dash first, no two dashes together,
-- and a dash at the end only where the text was cut.
pub record IsLabel (t : Text) : Type 0 where
  pub chars : IsLabelText t
  pub tidy : is_tidy true t ≡ true
  pub nonempty : 1 ≤ length t
  pub short : length t ≤ 63
  pub ends : length t < 63 → ends_with_dash t ≡ false

to_label_char-is_label_char : (c : ℕ) → is_label_char (to_label_char c) ≡ true
to_label_char-is_label_char c = elim (Bool-cases (is_label_char c)) [
  | inl e ↦ rw e e
  | inr e ↦ rw e refl
]

map-IsLabelText : (s : Text) → IsLabelText (map to_label_char s)
map-IsLabelText [] = tt
map-IsLabelText (c ∷ s) = (to_label_char-is_label_char c, map-IsLabelText s)

collapse_dashes-is_tidy : (b : Bool) (s : Text) → is_tidy b (collapse_dashes b s) ≡ true
unfolding collapse_dashes is_tidy
collapse_dashes-is_tidy b [] = refl
collapse_dashes-is_tidy b (c ∷ s) = ground (arith, collapse_dashes-is_tidy (c == 45) s)

collapse_dashes-IsLabelText :
    (b : Bool) (s : Text) → IsLabelText s → IsLabelText (collapse_dashes b s)
unfolding collapse_dashes
collapse_dashes-IsLabelText b [] h = tt
collapse_dashes-IsLabelText b (c ∷ s) (p, h) = elim (Bool-cases (c == 45 && b)) [
  | inl e ↦ rw e (collapse_dashes-IsLabelText (c == 45) s h)
  | inr e ↦ rw e (p, collapse_dashes-IsLabelText (c == 45) s h)
]

drop_first_dash-is_tidy :
    (s : Text) → is_tidy false s ≡ true → is_tidy true (drop_first_dash s) ≡ true
unfolding is_tidy
drop_first_dash-is_tidy [] h = refl
drop_first_dash-is_tidy (c ∷ s) h = ground arith

drop_last_dash-is_tidy :
    (b : Bool) (s : Text) → is_tidy b s ≡ true → is_tidy b (drop_last_dash s) ≡ true
unfolding is_tidy drop_last_dash
drop_last_dash-is_tidy b [] h = refl
drop_last_dash-is_tidy b (c ∷ []) h = ground arith
drop_last_dash-is_tidy b (c ∷ d ∷ s) h = ground (arith, drop_last_dash-is_tidy (c == 45) (d ∷ s))

drop_last_dash-ends_with_dash :
    (b : Bool) (s : Text) → is_tidy b s ≡ true → ends_with_dash (drop_last_dash s) ≡ false
unfolding is_tidy drop_last_dash ends_with_dash
drop_last_dash-ends_with_dash b [] h = refl
drop_last_dash-ends_with_dash b (c ∷ []) h = ground arith
drop_last_dash-ends_with_dash b (c ∷ d ∷ []) h = ground arith
drop_last_dash-ends_with_dash b (c ∷ d ∷ e ∷ s) h =
    drop_last_dash-ends_with_dash (c == 45) (d ∷ e ∷ s) (ground arith)

drop_first_dash-IsLabelText : (s : Text) → IsLabelText s → IsLabelText (drop_first_dash s)
drop_first_dash-IsLabelText [] h = tt
drop_first_dash-IsLabelText (c ∷ s) (p, h) = elim (Bool-cases (c == 45)) [
  | inl e ↦ rw e h
  | inr e ↦ rw e (p, h)
]

drop_last_dash-IsLabelText : (s : Text) → IsLabelText s → IsLabelText (drop_last_dash s)
unfolding drop_last_dash
drop_last_dash-IsLabelText [] h = tt
drop_last_dash-IsLabelText (c ∷ []) (p, h) = elim (Bool-cases (c == 45)) [
  | inl e ↦ rw e tt
  | inr e ↦ rw e (p, tt)
]
drop_last_dash-IsLabelText (c ∷ d ∷ s) (p, h) = (p, drop_last_dash-IsLabelText (d ∷ s) h)

take-IsLabelText : (n : ℕ) (s : Text) → IsLabelText s → IsLabelText (take n s)
take-IsLabelText zero s h = tt
take-IsLabelText (suc n) [] h = tt
take-IsLabelText (suc n) (c ∷ s) (p, h) = (p, take-IsLabelText n s h)

take_of_short : (n : ℕ) (s : Text) → length s ≤ n → take n s ≡ s
take_of_short zero [] h = refl
take_of_short zero (c ∷ s) h = absurd (omega arith)
take_of_short (suc n) [] h = refl
take_of_short (suc n) (c ∷ s) h = ap (λ r. c ∷ r) (take_of_short n s (omega arith))

take-is_tidy : (n : ℕ) (b : Bool) (s : Text) → is_tidy b s ≡ true → is_tidy b (take n s) ≡ true
unfolding is_tidy
take-is_tidy zero b s h = refl
take-is_tidy (suc n) b [] h = refl
take-is_tidy (suc n) b (c ∷ s) h = ground (arith, take-is_tidy n (c == 45) s)

cut-IsLabel :
    (s : Text)
    → IsLabelText s
    → is_tidy true s ≡ true
    → ends_with_dash s ≡ false
    → 1 ≤ length s
    → IsLabel (take 63 s)
cut-IsLabel s chars tidy ends long = record {
  chars = take-IsLabelText 63 s chars;
  tidy = take-is_tidy 63 true s tidy;
  nonempty = rw (length-take 63 s) (ground arith);
  short = rw (length-take 63 s) (ground arith);
  ends = λ h.
      let short : length s ≤ 63 = (let l = length-take 63 s in ground arith) in
      rw (take_of_short 63 s short) ends;
}

default-IsLabel :
    (s : Text)
    → IsLabelText s
    → is_tidy true s ≡ true
    → ends_with_dash s ≡ false
    → IsLabel (take 63 (or_oracle_validation s))
unfolding is_tidy ends_with_dash
default-IsLabel [] chars tidy ends =
    cut-IsLabel (codes "oracle-validation") (ground arith) refl refl (ground arith)
default-IsLabel (c ∷ s) chars tidy ends = cut-IsLabel (c ∷ s) chars tidy ends (ground arith)

map_of_label : (s : Text) → IsLabelText s → map to_label_char s ≡ s
map_of_label [] h = refl
map_of_label (c ∷ s) (p, h) = rw (p, map_of_label s h) refl

collapse_dashes_of_tidy : (b : Bool) (s : Text) → is_tidy b s ≡ true → collapse_dashes b s ≡ s
unfolding collapse_dashes is_tidy
collapse_dashes_of_tidy b [] h = refl
collapse_dashes_of_tidy b (c ∷ s) h = ground (arith, collapse_dashes_of_tidy (c == 45) s)

drop_first_dash_of_tidy : (s : Text) → is_tidy true s ≡ true → drop_first_dash s ≡ s
unfolding is_tidy
drop_first_dash_of_tidy [] h = refl
drop_first_dash_of_tidy (c ∷ s) h = ground arith

drop_last_dash_of_end : (s : Text) → ends_with_dash s ≡ false → drop_last_dash s ≡ s
unfolding drop_last_dash ends_with_dash
drop_last_dash_of_end [] h = refl
drop_last_dash_of_end (c ∷ []) h = rw h refl
drop_last_dash_of_end (c ∷ d ∷ s) h = ap (λ r. c ∷ r) (drop_last_dash_of_end (d ∷ s) h)

string_or_empty-str : (t : Text) → string_or_empty (some (str t)) ≡ t
unfolding js_string
string_or_empty-str [] = refl
string_or_empty-str (c ∷ t) = refl

or_oracle_validation_of : (t : Text) → 1 ≤ length t → or_oracle_validation t ≡ t
or_oracle_validation_of [] h = absurd (omega (arith, h))
or_oracle_validation_of (c ∷ t) h = refl

is_tidy-false : (s : Text) → is_tidy true s ≡ true → is_tidy false s ≡ true
unfolding is_tidy
is_tidy-false [] h = refl
is_tidy-false (c ∷ s) h = ground arith

module _ (lower : Text → Text) where
  -- A text that is a label and does not end with a dash is left as it is, where the lowercase of its
  -- characters is themselves.
  sanitize_ens_label_of_label :
      (t : Text)
      → IsLabel t
      → ends_with_dash t ≡ false
      → lower t ≡ t
      → sanitize_ens_label lower (some (str t)) ≡ t
  unfolding sanitize_ens_label
  sanitize_ens_label_of_label t label ends keeps =
      rw (string_or_empty-str t, keeps, map_of_label t label.chars)
        (rw (collapse_dashes_of_tidy false t (is_tidy-false t label.tidy)) (
          rw (drop_first_dash_of_tidy t label.tidy, drop_last_dash_of_end t ends)
            (rw (or_oracle_validation_of t label.nonempty) (take_of_short 63 t label.short))))

  -- Whatever the request gives, the label has 1 to 63 characters, all of them lowercase letters,
  -- digits and dashes, with no dash first and no two dashes together, and with one at the end only if
  -- it has 63 characters.
  pub sanitize_ens_label-IsLabel : (raw : Option Json) → IsLabel (sanitize_ens_label lower raw)
  unfolding sanitize_ens_label
  sanitize_ens_label-IsLabel raw =
      let kept = map to_label_char (lower (string_or_empty raw)) in
      let s = drop_first_dash (collapse_dashes false kept) in
      let tidy =
        drop_first_dash-is_tidy (collapse_dashes false kept) (collapse_dashes-is_tidy false kept) in
      default-IsLabel (drop_last_dash s)
        (drop_last_dash-IsLabelText s (
          drop_first_dash-IsLabelText (collapse_dashes false kept) (
            collapse_dashes-IsLabelText false kept
              (map-IsLabelText (lower (string_or_empty raw))))))
        (drop_last_dash-is_tidy true s tidy) (drop_last_dash-ends_with_dash true s tidy)
