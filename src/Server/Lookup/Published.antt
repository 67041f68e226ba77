-- ===== src/Server/Lookup/Published.antt =====
-- backend/server.js: POST /publish-validation-ens, and then GET /read-validation-ens.
use sealed_sky_verification.Common.{
  All-suffix, ℕ, ◌≡◌, ◌≢◌, ◌≤◌, refl, ap, ◌∙◌, Bool, true, false, Option, none, some, List, [], ◌∷◌,
  ◌++◌, All, find, length,
}
use mathlib.Core.Path.{subst}
use sealed_sky_verification.Common.Text.{Text, codes, text_eq, text_eq_refl}
use sealed_sky_verification.Codec.{Codec, IsCodec}
use sealed_sky_verification.Errors.{Error, ok}
use sealed_sky_verification.Js.{trim}
use sealed_sky_verification.Json.{Json, str, arr, obj, get_field, member, truthy_value, js_string}
use sealed_sky_verification.Server.{Config, Reply, to_items}
use sealed_sky_verification.Server.Log.{IsPlain, arr-IsPlain, to_list-to_items}
use sealed_sky_verification.Server.Label.Laws.{IsLabel, sanitize_ens_label-IsLabel}
use sealed_sky_verification.Server.Label.Names.{count_dots, split_ens_subdomain_and_parent-full}
use sealed_sky_verification.Server.Publish.{Plan, plan_of, scope_of}
use sealed_sky_verification.Server.Publish.Request.{label_of, given_or, default_sub, set_name_body}
use sealed_sky_verification.Server.Publish.Fit.{IsPublishable, plan_of-IsPublishable}
use sealed_sky_verification.Server.Lookup.{
  Listing, answered, found, is_row, row_records, find_row,
  read_validation_text_records_via_name_stone,
}
use sealed_sky_verification.Server.Lookup.Chain.{
  Providers, found_reply, history_of, answer_of, answer_name, read_validation_ens,
}

find-first :
    (test : Json → Bool) (before : List Json) (row : Json) (rest : List Json)
    → All (λ v. test v ≡ false) before
    → test row ≡ true
    → find test (before ++ (row ∷ rest)) ≡ some row
unfolding find
find-first test [] row rest h e = rw e refl
find-first test (v ∷ before) row rest (p, h) e = rw p (find-first test before row rest h e)

truthy_of_text : (t : Text) → t ≢ [] → truthy_value (some (str t)) ≡ some (str t)
truthy_of_text [] n = absurd (n refl)
truthy_of_text (x ∷ t) n = refl

-- The name that is published.
abbrev pub ens_of : Text → Config → Text
ens_of label g = label ++ (b'.' ∷ g.parent_domain)

module _ (c : Codec) (lower : Text → Text) (g : Config) (owner now label : Text) (p : Plan)
    (keeps : lower (ens_of label g) ≡ ens_of label g) where
  abbrev pub published_row : Json
  published_row = set_name_body g owner now label p

  published-is_row : is_row lower (ens_of label g) published_row ≡ true
  unfolding text_eq get_field
  published-is_row = rw keeps (text_eq_refl (ens_of label g))

  published-found :
      (before after : List Json)
      → All (λ v. is_row lower (ens_of label g) v ≡ false) before
      → find_row lower (ens_of label g) (arr (to_items (before ++ (published_row ∷ after))))
        ≡ found (row_records published_row) (ens_of label g)
  published-found before after others = rw (to_list-to_items (before ++ (published_row ∷ after))) (
      rw
        (find-first (is_row lower (ens_of label g)) before published_row after others
          published-is_row)
        refl)

  published-listed :
      (fetch : Text → Text → Listing) (before after : List Json) (text : Option Text)
      (status : Text)
      → 1 ≤ length label
      → count_dots g.parent_domain ≡ 1
      → trim (ens_of label g) ≡ ens_of label g
      → All (λ v. is_row lower (ens_of label g) v ≡ false) before
      → fetch g.parent_domain g.api_key
        ≡ answered 200 text status (ok (arr (to_items (before ++ (published_row ∷ after)))))
      → read_validation_text_records_via_name_stone lower g fetch (ens_of label g)
        ≡ ok (found (row_records published_row) (ens_of label g))
  unfolding read_validation_text_records_via_name_stone
  published-listed fetch before after text status nonempty dots trimmed others answer =
      rw
        (split_ens_subdomain_and_parent-full lower label g.parent_domain nonempty dots
          (rw trimmed keeps))
        (rw answer (ap ok (published-found before after others)))

  -- The text record of the history is parsed again.
  published-history :
      (rows : List Json)
      → p.payload ≢ []
      → c.parse p.payload ≡ some (arr (to_items rows))
      → history_of c (
          truthy_value
            (member (codes "com.sealedsky.validation_history") (obj (row_records published_row))))
        ≡ arr (to_items rows)
  unfolding text_eq get_field js_string
  published-history rows n e = rw (truthy_of_text p.payload n) (rw e refl)

label_of-IsLabel :
    (c : Codec) (lower : Text → Text) (options : Json) → IsLabel (label_of c lower options)
unfolding label_of
label_of-IsLabel c lower options =
    sanitize_ens_label-IsLabel lower
      (given_or (default_sub (scope_of options)) (member (codes "subdomain") options))

append_nonempty : (s : Text) (x : ℕ) (t : Text) → s ++ (x ∷ t) ≢ []
append_nonempty [] x t e = cc e
append_nonempty (y ∷ s) x t e = cc e

-- The name under which the options publish.
abbrev pub ens_name_of : Codec → (lower : Text → Text) → Config → Json → Text
ens_name_of c lower g options = ens_of (label_of c lower options) g

module _ (c : Codec) (lower : Text → Text) (message : Error → Text) (g : Config)
    (fetch : Text → Text → Listing) (providers : Providers) (candidates : List Text) where
  answer_name_of :
      (name : Text)
      → name ≢ []
      → answer_name c lower message g fetch providers candidates name
        ≡ answer_of c lower message g fetch providers candidates name
            (read_validation_text_records_via_name_stone lower g fetch name)
  answer_name_of [] n = absurd (n refl)
  answer_name_of (x ∷ name) n = refl

  read_of_name :
      (name : Text)
      → name ≢ []
      → trim name ≡ name
      → read_validation_ens c lower message g fetch providers candidates (some (str name))
        ≡ ok (
            answer_of c lower message g fetch providers candidates name
              (read_validation_text_records_via_name_stone lower g fetch name))
  unfolding read_validation_ens
  read_of_name name n trimmed = rw (truthy_of_text name n) (
      ap (λ t. ok (answer_name c lower message g fetch providers candidates t)) trimmed
      ∙ ap ok (answer_name_of name n))

module _ (c : Codec) (laws : IsCodec c) (no_text : c.parse [] ≡ none) (lower : Text → Text)
    (message : Error → Text) (g : Config) (owner now : Text) (options : Json) (history : List Json)
    (plain : All IsPlain history) where
  payload-parsed :
      (p : Plan)
      → IsPublishable c options history p
      → (p.payload ≢ []) × (c.parse p.payload ≡ some (arr (to_items p.rows)))
  payload-parsed p is =
      let rows_plain = All-suffix IsPlain is.older p.rows (subst (All IsPlain) is.parts plain) in
      let parsed : c.parse p.payload ≡ some (arr (to_items p.rows)) =
        rw is.payload_of
          (laws.parse-stringify (arr (to_items p.rows)) (arr-IsPlain p.rows rows_plain)) in
      (λ none_there. absurd (cc (no_text, rw none_there at parsed)), parsed)

  -- What is published is read back: where NameStone lists the row that a publication has set, all
  -- rows before it having other names, a reading of the published name replies with the rows that
  -- were published, for a parent of two parts and where the lowercase and the trimmed form of the
  -- name are the name itself.
  pub plan_of-read_validation_ens :
      (p : Plan) (fetch : Text → Text → Listing) (providers : Providers) (candidates : List Text)
      → (before after : List Json) (text : Option Text) (status : Text)
      → plan_of c options history ≡ ok p
      → count_dots g.parent_domain ≡ 1
      → lower (ens_name_of c lower g options) ≡ (ens_name_of c lower g options)
      → trim (ens_name_of c lower g options) ≡ (ens_name_of c lower g options)
      → All (λ v. is_row lower (ens_name_of c lower g options) v ≡ false) before
      → fetch g.parent_domain g.api_key
        ≡ answered 200 text status (
            ok (
              arr (
                to_items
                  (before ++ (set_name_body g owner now (label_of c lower options) p ∷ after)))))
      → (reply : Reply) × (read_validation_ens c lower message g fetch providers candidates
            (some (str (ens_name_of c lower g options)))
          ≡ ok reply)
        × (reply.status ≡ 200)
        × (member (codes "history") reply.body ≡ some (arr (to_items p.rows)))
  unfolding read_validation_ens label_of text_eq get_field
  plan_of-read_validation_ens p fetch providers candidates before after text status made dots keeps
        trimmed others answer =
      let label = label_of c lower options in
      let is = plan_of-IsPublishable c options history p made in
      let listed =
        published-listed c lower g owner now label p keeps fetch before after text status
          ((label_of-IsLabel c lower options).nonempty) dots trimmed others answer in
      let (given, parsed) = payload-parsed p is in
      (
        found_reply c (ens_name_of c lower g options)
            (row_records (set_name_body g owner now label p)) (ens_name_of c lower g options),
        read_of_name c lower message g fetch providers candidates (ens_name_of c lower g options)
              (append_nonempty label b'.' g.parent_domain) trimmed
            ∙ ap
                (λ l. ok (
                  answer_of c lower message g fetch providers candidates
                    (ens_name_of c lower g options) l))
                listed,
        refl,
        ap some (published-history c lower g owner now label p keeps p.rows given parsed),
      )
