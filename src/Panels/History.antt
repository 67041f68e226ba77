-- ===== src/Panels/History.antt =====
-- sealed-sky-web/src/components/ValidationHistoryPanel.tsx: the loading of the history, and the
-- publication to ENS with the read of the latest row after it.
use sealed_sky_verification.Json.{
  is_falsy, js_string, Json, Items, nil, cons, arr, obj, end, property,
}
use sealed_sky_verification.Common.{
  ◌∙◌, ◌⊎◌, inl, inr, ℕ, Bool, true, false, Option, none, some, if◌then◌else◌, ◌≡◌, refl,
}
use sealed_sky_verification.Common.Text.{Text, codes}
use sealed_sky_verification.Errors.{Error, Result, ok, err, http, thrown, ◌>>=◌}
use sealed_sky_verification.Http.{Response, failed, replied, is_ok}

pub record HistoryPanel : Type 0 where
  pub items : Items
  pub busy : Bool
  pub status : Text
  pub status_err : Bool
  pub ens_publish : Option Json
  pub ens_publish_latest : Option Json
  pub ens_publish_error : Option Error
  pub ens_busy : Bool

unfoldable pub set_ui_status : Text → Bool → HistoryPanel → HistoryPanel
set_ui_status message is_error p = record p { status = message; status_err = is_error }

abbrev items_of : Option Json → Items
items_of (some (arr vs)) = vs
items_of _ = nil

unfoldable pub begin_load : HistoryPanel → HistoryPanel
unfolding set_ui_status
begin_load p = set_ui_status (codes "Loading…") false (record p { busy = true })

-- The items of a good reply; any failure is an error.
abbrev loaded_items : ℕ → Json → Result Items
loaded_items status value = do
  found ← property (codes "items") value
  if is_ok status then ok (items_of found) else err (http status)

abbrev reply_items : Response Json → Result Items
reply_items (failed e) = err e
reply_items (replied status body) = do value ← body; loaded_items status value

unfoldable pub end_load : Response Json → HistoryPanel → HistoryPanel
unfolding set_ui_status
end_load reply p = elim (reply_items reply) [
  | ok vs ↦ record (set_ui_status (codes "Done") false p) { items = vs; busy = false }
  | err e ↦ record (set_ui_status (codes "Load error") true p) { items = nil; busy = false }
]

unfoldable pub begin_publish : Text → HistoryPanel → HistoryPanel
unfolding set_ui_status
begin_publish label p = set_ui_status label false (record p {
  ens_publish = none;
  ens_publish_latest = none;
  ens_publish_error = none;
  ens_busy = true;
})

-- `data.error || "HTTP …"`
abbrev shown_error : ℕ → Option Json → Error
shown_error status none = http status
shown_error status (some v) = if is_falsy v then http status else thrown (js_string v)

abbrev publish_error : Error → HistoryPanel → HistoryPanel
publish_error e p = record (set_ui_status (codes "ENS publish error") true p) {
  ens_publish_error = some e;
}

abbrev pub publish_refused : ℕ → Result (Option Json) → HistoryPanel → HistoryPanel
publish_refused status (err e) p = publish_error e p
publish_refused status (ok message) p = record (set_ui_status (codes "ENS publish failed") true p) {
  ens_publish_error = some (shown_error status message);
}

abbrev pub first_of : Option Json → Option Json
first_of (some (arr (cons v vs))) = if is_falsy v then none else some v
first_of _ = none

abbrev or_nothing : Result (Option Json) → Option Json
or_nothing (err e) = none
or_nothing (ok v) = v

-- The latest row; whatever goes wrong with it is ignored.
unfoldable pub latest_row : Response Json → Option Json
latest_row (failed e) = none
latest_row (replied status body) =
    if is_ok status then first_of (or_nothing (do v ← body; property (codes "items") v)) else none

abbrev pub body_or_empty : Result Json → Json
body_or_empty (err e) = obj end
body_or_empty (ok v) = v

abbrev pub set_latest : Option Json → HistoryPanel → HistoryPanel
set_latest none p = p
set_latest (some row) p = record p { ens_publish_latest = some row }

abbrev publish_reply : Response Json → Response Json → HistoryPanel → HistoryPanel
publish_reply (failed e) latest p = publish_error e p
publish_reply (replied status body) latest p =
    let v = body_or_empty body in
    if is_ok status
    then set_ui_status (codes "Done") false
        (set_latest (latest_row latest) (record p { ens_publish = some v }))
    else publish_refused status (property (codes "error") v) p

-- The reply to the publication, and the one to the read of the latest row.
unfoldable pub end_publish : Response Json → Response Json → HistoryPanel → HistoryPanel
unfolding set_ui_status latest_row
end_publish reply latest p = record (publish_reply reply latest p) { ens_busy = false }

set_latest-keeps :
    (row : Option Json) (p : HistoryPanel)
    → ((set_latest row p).ens_publish ≡ p.ens_publish)
      × ((set_latest row p).ens_publish_error ≡ p.ens_publish_error)
set_latest-keeps none p = (refl, refl)
set_latest-keeps (some row) p = (refl, refl)

abbrev pub Published : HistoryPanel → Type 0
Published p = (v : Json) × (p.ens_publish ≡ some v) × (p.ens_publish_error ≡ none)

abbrev pub Refused : HistoryPanel → Type 0
Refused p =
    (e : Error) × (p.ens_publish ≡ none) × (p.ens_publish_error ≡ some e) × (p.status_err ≡ true)

publish_refused-Refused :
    (status : ℕ) (message : Result (Option Json)) (p : HistoryPanel)
    → p.ens_publish ≡ none
    → Refused (publish_refused status message p)
unfolding set_ui_status
publish_refused-Refused status (err e) p h = (e, h, refl, refl)
publish_refused-Refused status (ok message) p h = (shown_error status message, h, refl, refl)

chosen :
    (b : Bool) (status : ℕ) (v : Json) (latest : Response Json) (p : HistoryPanel)
    → p.ens_publish ≡ none
    → p.ens_publish_error ≡ none
    → let p' =
        if b
        then set_ui_status
            (codes "Done")
            false
            (set_latest (latest_row latest) (record p { ens_publish = some v }))
        else publish_refused status (property (codes "error") v) p in
      ((b ≡ true) × Published p') ⊎ ((b ≡ false) × Refused p')
unfolding set_ui_status
chosen true status v latest p h k =
    let q = record p { ens_publish = some v } in
    let (same, same_error) = set_latest-keeps (latest_row latest) q in
    inl (refl, (v, same, same_error ∙ k))
chosen false status v latest p h k =
    inr (refl, publish_refused-Refused status (property (codes "error") v) p h)

abbrev pub is_good_reply : Response Json → Bool
is_good_reply (failed e) = false
is_good_reply (replied status body) = is_ok status

-- After a publication the panel is not busy; after a good reply it shows a result and no error, and
-- otherwise an error and no result.
end_publish-cases :
    (label : Text) (reply latest : Response Json) (p : HistoryPanel)
    → let p' = end_publish reply latest (begin_publish label p) in
      (p'.ens_busy ≡ false)
      × (((is_good_reply reply ≡ true) × Published p')
          ⊎ ((is_good_reply reply ≡ false) × Refused p'))
unfolding end_publish begin_publish set_ui_status
end_publish-cases label (failed e) latest p = (refl, inr (refl, (e, refl, refl, refl)))
end_publish-cases label (replied status body) latest p = (
  refl,
  chosen (is_ok status) status (body_or_empty body) latest (begin_publish label p) refl refl,
)
