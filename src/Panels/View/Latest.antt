-- ===== src/Panels/View/Latest.antt =====
-- components/ValidationHistoryPanel.tsx over /history of backend/server.js: the latest row on the card
-- of a publication.
use sealed_sky_verification.Common.{
  Option-cases, ℕ, ◌^◌, ◌≡◌, ◌<◌, refl, ap, sym, ◌∙◌, Bool, true, false, Bool-cases, inl, inr,
  Option, none, some, List, [], ◌∷◌, All, All-reverse, All-suffix, All_of_Memᴰ, length, arith,
  if◌then◌else◌, min,
}
use sealed_sky_verification.Panels.View.Card.{
  is_accepted, latest_of, card_of, LatestView, CardView, latest_view, card_view,
}
use sealed_sky_verification.Panels.History.{
  first_of, set_ui_status, set_latest, publish_refused, body_or_empty, HistoryPanel, begin_publish,
  end_publish, latest_row,
}
use mathlib.Core.Path.{subst}
use mathlib.Core.List.{reverse, Memᴰ}
use sealed_sky_verification.Common.Text.{Text, codes, text_eq}
use sealed_sky_verification.Codec.{Codec, IsCodec}
use sealed_sky_verification.Errors.{Result, ok, err, ok-injective}
use sealed_sky_verification.Http.{Response, failed, replied, is_ok}
use sealed_sky_verification.Js.{trim, read_digits}
use sealed_sky_verification.Js.Numeric.{number_of}
use sealed_sky_verification.Json.{Json, str, arr, get_field, property, member, is_falsy}
use sealed_sky_verification.Panels.View.{Badge, accepted, device_signed, rejected}
use sealed_sky_verification.Panels.View.Shown.{over_wire, recent_reply-IsPlain, accepted_class}
use sealed_sky_verification.Server.{File, Reply, to_items, history_limit, get_history}
use sealed_sky_verification.Server.Log.{IsPlain, Holds}
use sealed_sky_verification.Server.Recent.{recent_reply, get_history-Holds}
use sealed_sky_verification.Server.Submit.{Pending, accepted_row}
use sealed_sky_verification.Server.Submit.Proofs.{IsProved, IsAuthentic}

-- HISTORY_LATEST_ENDPOINT
abbrev pub latest_limit_param : Json
latest_limit_param = str (codes "1")

one : history_limit (some latest_limit_param) ≡ 1
unfolding history_limit number_of trim read_digits text_eq
one = refl

set_latest-some :
    (r : Option Json) (q : HistoryPanel) (row : Json)
    → q.ens_publish_latest ≡ none
    → (set_latest r q).ens_publish_latest ≡ some row
    → r ≡ some row
set_latest-some none q row e h = absurd (cc (e, h))
set_latest-some (some x) q row e h = h

publish_refused-keeps :
    (status : ℕ) (r : Result (Option Json)) (q : HistoryPanel)
    → (publish_refused status r q).ens_publish_latest ≡ q.ens_publish_latest
unfolding set_ui_status
publish_refused-keeps status (err e) q = refl
publish_refused-keeps status (ok message) q = refl

-- The row that a publication leaves on the panel is what was read for it.
latest_row-end_publish :
    (reply latest : Response Json) (label : Text) (p : HistoryPanel) (row : Json)
    → (end_publish reply latest (begin_publish label p)).ens_publish_latest ≡ some row
    → latest_row latest ≡ some row
unfolding end_publish begin_publish set_ui_status
latest_row-end_publish (failed e) latest label p row h = absurd (cc h)
latest_row-end_publish (replied status body) latest label p row h =
    elim (Bool-cases (is_ok status)) [
      | inl e ↦
          set_latest-some (latest_row latest)
            (record (begin_publish label p) { ens_publish = some (body_or_empty body) }) row refl
            (rw (e, end_publish) at h)
      | inr e ↦ absurd (
          cc (
            publish_refused-keeps status (property (codes "error") (body_or_empty body))
                (begin_publish label p),
            rw (e, end_publish) at h,
          ))
    ]

first_of-to_items :
    (rows : List Json) (row : Json)
    → first_of (some (arr (to_items rows))) ≡ some row
    → Memᴰ row rows
first_of-to_items [] row h = absurd (cc h)
first_of-to_items (x ∷ rows) row h = elim (Bool-cases (is_falsy x)) [
  | inl e ↦ absurd (cc (rw e at h))
  | inr e ↦ Memᴰ.head (let same : x ≡ row = cc (rw e at h) in sym same)
]

latest_row-recent_reply :
    (c : Codec) (total : ℕ) (newest : List Json) (row : Json)
    → c.parse (c.stringify (recent_reply total newest).body) ≡ some (recent_reply total newest).body
    → latest_row (over_wire c (recent_reply total newest)) ≡ some row
    → Memᴰ row (reverse newest)
unfolding latest_row property get_field text_eq
latest_row-recent_reply c total newest row parsed h =
    first_of-to_items (reverse newest) row (rw (parsed, latest_row) at h)

accepted_badge : (b : Badge) → is_accepted b ≡ true → b ≡ accepted
accepted_badge accepted h = refl
accepted_badge device_signed h = absurd (cc h)
accepted_badge rejected h = absurd (cc h)

accepted_latest :
    (row : Json)
    → (latest_view row).accepted ≡ true
    → member (codes "status") row ≡ some (str (codes "accepted"))
unfolding latest_view
accepted_latest row h = accepted_class (member (codes "status") row) (accepted_badge _ h)

some_of_if : (b : Bool) (x card : CardView) → (if b then some x else none) ≡ some card → x ≡ card
some_of_if true x card h = cc h
some_of_if false x card h = absurd (cc h)

card_of-latest :
    (p : HistoryPanel) (v : Json) (card : CardView)
    → card_of p v ≡ some card
    → latest_of p.ens_publish_latest ≡ card.latest
card_of-latest p v card h = ap (λ x. x.latest) (some_of_if _ _ card h)

latest_of-some :
    (found : Option Json) (latest : LatestView)
    → latest_of found ≡ some latest
    → (row : Json) × (found ≡ some row) × (latest_view row ≡ latest)
latest_of-some none latest h = absurd (cc h)
latest_of-some (some row) latest h = (row, refl, cc h)

latest_of_card :
    (p : HistoryPanel) (card : CardView) (latest : LatestView)
    → card_view p ≡ some card
    → card.latest ≡ some latest
    → (row : Json) × (p.ens_publish_latest ≡ some row) × (latest_view row ≡ latest)
unfolding card_view
latest_of_card p card latest shown h = elim (Option-cases p.ens_publish) [
  | inl e ↦ absurd (cc (rw (e, card_view) at shown))
  | inr (v, e) ↦
      latest_of-some p.ens_publish_latest latest
        (card_of-latest p v card (rw (e, card_view) at shown) ∙ h)
]

module _ (c : Codec) (laws : IsCodec c) (file : File) (log : List Json) (holds : Holds c file log)
    (plain : All IsPlain log) (small : length log < 2 ^ 53) where
  -- A latest row that the card of a publication shows as accepted, read from a server whose log is
  -- authentic, is the row of a claim whose proof is the device's digest of its payload, and of a
  -- transaction.
  pub card_view-IsProved :
      (lower hmac : Text → Text) (p : HistoryPanel) (label : Text) (published : Response Json)
      (reply : Reply) (card : CardView) (latest : LatestView)
      → All (IsAuthentic lower hmac) log
      → get_history c (some latest_limit_param) file ≡ ok reply
      → card_view (end_publish published (over_wire c reply) (begin_publish label p)) ≡ some card
      → card.latest ≡ some latest
      → latest.accepted ≡ true
      → (q : Pending) × (tx : Text) × (latest ≡ latest_view (accepted_row q tx))
        × IsProved lower hmac q
  card_view-IsProved lower hmac p label published reply card latest authentic replies shown has
        yes_shown =
      let (older, newest, parts, few, replies') =
        get_history-Holds c (some latest_limit_param) file log holds (rw one (omega arith)) in
      let few1 : length newest ≡ min 1 (length log) = few ∙ ap (λ n. min n (length log)) one in
      let parsed = laws.parse-stringify (recent_reply (length log) newest).body (
        recent_reply-IsPlain (length log) newest (ground arith) (ground arith)
          (All-suffix IsPlain older newest (subst (All IsPlain) parts plain))) in
      let same : recent_reply (length log) newest ≡ reply =
        ok-injective _ reply (sym replies' ∙ replies) in
      let (row, there, viewed) =
        latest_of_card (end_publish published (over_wire c reply) (begin_publish label p)) card
          latest shown has in
      let read = latest_row-end_publish published (over_wire c reply) label p row there in
      let found =
        latest_row-recent_reply c (length log) newest row parsed
          (subst (λ r. latest_row (over_wire c r) ≡ some row) (sym same) read) in
      let newest_authentic = All-reverse (IsAuthentic lower hmac) newest (
        All-suffix (IsAuthentic lower hmac) older newest
          (subst (All (IsAuthentic lower hmac)) parts authentic)) in
      let (q, tx, e, proved) =
        All_of_Memᴰ (IsAuthentic lower hmac) (reverse newest) newest_authentic found
          (accepted_latest row (ap (λ v. v.accepted) viewed ∙ yes_shown)) in
      (q, tx, sym viewed ∙ ap latest_view e, proved)
