-- ===== src/Server/Publish/Fit.antt =====
-- backend/server.js, POST /publish-validation-ens: which rows are chosen.
use sealed_sky_verification.Common.{
  ℕ, ◌≡◌, ◌≢◌, ◌≤◌, ◌⊎◌, inl, inr, refl, ap, sym, ◌∙◌, true, false, not, Bool-cases, Option, none,
  some, List, [], ◌∷◌, ◌++◌, length, length-append, arith,
}
use mathlib.Core.Path.{subst}
use mathlib.Core.List.{append_assoc}
use sealed_sky_verification.Js.Numeric.{Numeric, number_of}
use sealed_sky_verification.Common.Text.{Text, codes}
use sealed_sky_verification.Codec.{Codec}
use sealed_sky_verification.Errors.{ok, ok-injective, bind_ok, guard_ok}
use sealed_sky_verification.Json.{Json, member}
use sealed_sky_verification.Server.{last_of}
use sealed_sky_verification.Server.Recent.{last_of-parts}
use sealed_sky_verification.Server.Publish.{
  rows_text, is_long, fit, max_entries, Scope, last, full, scope_of, choose_rows, entries_of,
  newest, last_row, describe_last, Plan, plan_of,
}

-- The rows that are kept, `kept`, are the last ones, and one more never fits.
pub record IsFit (c : Codec) (rows kept : List Json) : Type 0 where
  pub dropped : List Json
  pub parts : rows ≡ dropped ++ kept
  pub fits : (is_long c kept ≡ false) ⊎ (length kept ≤ 1)
  pub longest :
      (older newer : List Json)
      → dropped ≡ older ++ newer
      → newer ≢ []
      → is_long c (newer ++ kept) ≡ true

keep_all :
    (c : Codec) (rows : List Json)
    → (is_long c rows ≡ false) ⊎ (length rows ≤ 1)
    → IsFit c rows rows
keep_all c rows h = record { dropped = []; parts = refl; fits = h; longest = nothing }
  where
    nothing :
        (older newer : List Json)
        → [] ≡ older ++ newer
        → newer ≢ []
        → is_long c (newer ++ rows) ≡ true
    nothing [] newer e n = absurd (n (sym e))
    nothing (v ∷ older) newer e n = absurd (cc e)

drop_one :
    (c : Codec) (v : Json) (rows kept : List Json)
    → is_long c (v ∷ rows) ≡ true
    → IsFit c rows kept
    → IsFit c (v ∷ rows) kept
drop_one c v rows kept h r = record {
  dropped = v ∷ r.dropped;
  parts = ap (λ xs. v ∷ xs) r.parts;
  fits = r.fits;
  longest = longest;
}
  where
    longest :
        (older newer : List Json)
        → v ∷ r.dropped ≡ older ++ newer
        → newer ≢ []
        → is_long c (newer ++ kept) ≡ true
    longest [] newer e n =
        let all : v ∷ rows ≡ newer ++ kept = ap (λ xs. v ∷ xs) r.parts ∙ ap (λ xs. xs ++ kept) e in
        subst (λ xs. is_long c xs ≡ true) all h
    longest (u ∷ older) newer e n = r.longest older newer (cc e) n

-- The loop keeps the longest run of the newest rows whose text is not too long, or one row.
fit-IsFit : (c : Codec) (rows : List Json) → IsFit c rows (fit c rows)
unfolding fit
fit-IsFit c [] = keep_all c [] (inr (ground arith))
fit-IsFit c (v ∷ []) = keep_all c (v ∷ []) (inr (ground arith))
fit-IsFit c (v ∷ w ∷ rows) = elim (Bool-cases (is_long c (v ∷ w ∷ rows))) [
  | inl e ↦ rw e (drop_one c v (w ∷ rows) (fit c (w ∷ rows)) e (fit-IsFit c (w ∷ rows)))
  | inr e ↦ rw e (keep_all c (v ∷ w ∷ rows) (inl e))
]

pub entries_of-bounds : (n : Numeric) → (1 ≤ entries_of n) × (entries_of n ≤ 500)
entries_of-bounds n = ground arith

last_row-parts :
    (rows : List Json) (row : Json)
    → last_row rows ≡ some row
    → (older : List Json) × (rows ≡ older ++ (row ∷ []))
last_row-parts [] row e = absurd (cc e)
last_row-parts (v ∷ []) row e = ([], cc e)
last_row-parts (v ∷ w ∷ rows) row e =
    let (older, same) = last_row-parts (w ∷ rows) row e in (v ∷ older, ap (λ xs. v ∷ xs) same)

newest-ok :
    (row : Option Json) (rows : List Json) (description : Text)
    → newest row ≡ ok (rows, description)
    → (v : Json) × (row ≡ some v) × (rows ≡ v ∷ [])
newest-ok none rows description e = absurd (cc e)
newest-ok (some v) rows description e =
    let (d, described, same) =
      bind_ok (describe_last v) (λ d. ok (v ∷ [], d)) (rows, description) e in
    (v, refl, cc same)

module _ (c : Codec) (options : Json) (history : List Json) where
  -- What may be sent: the newest rows, at most 500, in a text of at most 45000 characters. The scope
  -- `last` takes one row, and `full` all of the last `maxEntries` that fit.
  pub record IsPublishable (p : Plan) : Type 0 where
    pub payload_of : p.payload ≡ rows_text c p.rows
    pub fits : length p.payload ≤ 45000
    pub older : List Json
    pub parts : history ≡ older ++ p.rows
    pub few : length p.rows ≤ 500
    pub total_of : p.total ≡ length history
    pub one_of_last : scope_of options ≡ last → length p.rows ≡ 1
    pub longest_of_full :
        scope_of options ≡ full
        → IsFit c (last_of (max_entries (member (codes "maxEntries") options)) history) p.rows

  -- The rows that a scope chooses.
  record IsChosen (scope : Scope) (rows : List Json) : Type 0 where
    older : List Json
    parts : history ≡ older ++ rows
    few : length rows ≤ 500
    one_of_last : scope ≡ last → length rows ≡ 1
    longest_of_full :
        scope ≡ full
        → IsFit c (last_of (max_entries (member (codes "maxEntries") options)) history) rows

  abbrev entries : ℕ
  entries = max_entries (member (codes "maxEntries") options)

  full-IsChosen : {kept : List Json} → IsFit c (last_of entries history) kept → IsChosen full kept
  unfolding max_entries
  full-IsChosen {kept} r =
      let bounds = entries_of-bounds (number_of (member (codes "maxEntries") options)) in
      let (older, parts, few) = last_of-parts entries history (bounds.0) in
      record {
        older = older ++ r.dropped;
        parts = parts ∙ ap (λ xs. older ++ xs) r.parts ∙ sym (append_assoc older r.dropped kept);
        few =
            (let l = length-append r.dropped kept in
              let same = ap length r.parts in omega (arith, bounds.1, few, same, l));
        one_of_last = λ s. absurd (cc s);
        longest_of_full = λ s. r;
      }

  choose_rows-IsChosen :
      (scope : Scope) (rows : List Json) (description : Text)
      → choose_rows c scope options history ≡ ok (rows, description)
      → IsChosen scope rows
  unfolding choose_rows max_entries
  choose_rows-IsChosen last rows description e =
      let (v, found, one) = newest-ok (last_row history) rows description e in
      let (older, parts) = last_row-parts history v found in
      record {
        older = older;
        parts = parts ∙ ap (λ xs. older ++ xs) (sym one);
        few = rw one (omega arith);
        one_of_last = λ s. rw one refl;
        longest_of_full = λ s. absurd (cc s);
      }
  choose_rows-IsChosen full rows description e =
      let kept = fit c (last_of entries history) in
      let (small, same) = guard_ok (not (is_long c kept)) _ (ok _) (rows, description) e in
      let is_kept : kept ≡ rows = ap (λ d. d.0) (ok-injective _ (rows, description) same) in
      subst (IsChosen full) is_kept (full-IsChosen (fit-IsFit c (last_of entries history)))

  -- A plan that is made is publishable.
  pub plan_of-IsPublishable : (p : Plan) → plan_of c options history ≡ ok p → IsPublishable p
  unfolding plan_of
  plan_of-IsPublishable p e =
      let (chosen, choice, made) =
        bind_ok (choose_rows c (scope_of options) options history) _ p e in
      let (small, same) = guard_ok (not (is_long c (chosen.0))) _ (ok _) p made in
      let is_p = ok-injective _ p same in
      let it = choose_rows-IsChosen (scope_of options) (chosen.0) (chosen.1) choice in
      subst IsPublishable is_p (record {
        payload_of = refl;
        fits = ground arith;
        older = it.older;
        parts = it.parts;
        few = it.few;
        total_of = refl;
        one_of_last = it.one_of_last;
        longest_of_full = it.longest_of_full;
      })
