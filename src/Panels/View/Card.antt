-- ===== src/Panels/View/Card.antt =====
-- components/ValidationHistoryPanel.tsx: the card of a publication, with the latest row. A value that
-- the page renders as it is stands unprinted.
use sealed_sky_verification.Common.{
  Bool, true, false, ◌||◌, Option, none, some, [], ◌∷◌, if◌then◌else◌,
}
use sealed_sky_verification.Common.Text.{Text, codes}
use sealed_sky_verification.Json.{Json, num, str, truthy_value, member}
use sealed_sky_verification.Panels.History.{HistoryPanel}
use sealed_sky_verification.Panels.View.{Badge, accepted, status_class, fmt}

-- What the card says of the latest row.
pub record LatestView : Type 0 where
  pub badge : Badge
  pub status : Text
  pub accepted : Bool
  pub proof : Text
  pub tx : Text

pub record CardView : Type 0 where
  pub scope : Option Json
  pub ens : Option Json
  pub app : Option Json
  pub json : Option Json
  pub latest : Option LatestView
  pub published : Option Json
  pub truncated : Bool

-- `ensPublish.scope !== undefined && ensPublish.scope !== ""`
abbrev shown_scope : Option Json → Option Json
shown_scope none = none
shown_scope (some (str [])) = none
shown_scope (some v) = some v

abbrev shown_number : Option Json → Option Json
shown_number (some (num n)) = some (num n)
shown_number _ = none

abbrev is_there : Option Json → Bool
is_there none = false
is_there (some v) = true

abbrev or_dash : Text → Text
or_dash [] = codes "—"
or_dash (x ∷ s) = x ∷ s

abbrev or_unknown : Option Json → Option Json
or_unknown none = some (str (codes "unknown"))
or_unknown (some v) = some v

abbrev pub is_accepted : Badge → Bool
is_accepted accepted = true
is_accepted _ = false

unfoldable pub latest_view : Json → LatestView
unfolding status_class fmt
latest_view row = record {
  badge = status_class (member (codes "status") row);
  status = fmt (or_unknown (truthy_value (member (codes "status") row)));
  accepted = is_accepted (status_class (member (codes "status") row));
  proof = or_dash (fmt (member (codes "proof") row));
  tx = or_dash (fmt (member (codes "tx") row));
}

abbrev pub latest_of : Option Json → Option LatestView
latest_of none = none
latest_of (some row) = some (latest_view row)

abbrev pub card_of : HistoryPanel → Json → Option CardView
card_of p v =
    let ens = truthy_value (member (codes "ens") v) in
    let app = truthy_value (member (codes "ensAppUrl") v) in
    let json = truthy_value (member (codes "readApiUrl") v) in
    if is_there ens || is_there app || is_there json
    then some (record {
      scope = shown_scope (member (codes "scope") v);
      ens = ens;
      app = app;
      json = json;
      latest = latest_of p.ens_publish_latest;
      published = shown_number (member (codes "published") v);
      truncated = is_there (truthy_value (member (codes "truncated") v));
    })
    else none

unfoldable pub card_view : HistoryPanel → Option CardView
unfolding latest_view
card_view p = elim p.ens_publish [ none ↦ none | some v ↦ card_of p v ]
