-- ===== src/View.antt =====
-- What the page shows of the queue: components/Queue.tsx of sealed-sky-web/src, with the labels of
-- lib/backend.ts. A view is a value; how it is styled is left out.
pub mod Detail
pub mod Copying
pub mod Opened
use sealed_sky_verification.Common.{
  ℕ, ◌*◌, ◌-◌, Bool, true, false, ◌&&◌, Option, none, some, List, [], ◌∷◌, ◌++◌, map, length,
  if◌then◌else◌,
}
use sealed_sky_verification.Common.Text.{Text, codes, text_eq}
use sealed_sky_verification.Js.{to_string}
use sealed_sky_verification.Errors.{Error}
use sealed_sky_verification.Json.{Json}
use sealed_sky_verification.Codec.{Codec}
use sealed_sky_verification.Ctrng.{ctrng_gateways}
use sealed_sky_verification.Drand.{verify_url}
use sealed_sky_verification.Ens.{ens_app_url}
use sealed_sky_verification.Panels.{format_countdown, backend_badge}
use sealed_sky_verification.Queue.{
  Backend, drand, ctrng, ItemStatus, sealed, ready, unsealing, unsealed, failed, QueueItem,
  truncate,
}
use sealed_sky_verification.Share.{truthy}

pub record BackendInfo : Type 0 where
  pub kind : Backend
  pub label : Text
  pub short : Text

-- `BACKENDS`, without the taglines.
unfoldable pub backends : Backend → BackendInfo
backends ctrng = record {
  kind = ctrng;
  label = codes "SpaceComputer cTRNG (commit-reveal)";
  short = codes "cTRNG";
}
backends drand = record { kind = drand; label = codes "drand timelock"; short = codes "drand" }

unfoldable pub status_label : ItemStatus → Text
status_label sealed = codes "sealed"
status_label ready = codes "ready"
status_label unsealing = codes "unsealing…"
status_label unsealed = codes "unsealed"
status_label failed = codes "error"

pub data Button : Type 0 where
  unseal retry delete : Button

pub record RowView : Type 0 where
  pub id : Text
  pub selected : Bool
  pub status : Text
  pub backend : Text
  pub badge : Text
  pub countdown : Text
  pub from : Option Text
  pub to : Option Text
  pub preview : Option Text
  pub sealed_at : ℕ
  pub buttons : List Button

-- `unlock_unix * 1000 - now`, where a negative number counts as 0; NaN is printed as such.
abbrev time_left : ℕ → Option ℕ → Text
time_left now none = codes "NaNs"
time_left now (some unlock) = format_countdown (unlock * 1000 - now)

unfoldable pub countdown : ℕ → ItemStatus → Option ℕ → Text
unfolding format_countdown
countdown now unsealed unlock = codes "unlocked"
countdown now ready unlock = codes "ready"
countdown now unsealing unlock = codes "ready"
countdown now sealed unlock = codes "unlocks in " ++ time_left now unlock
countdown now failed unlock = codes "unlocks in " ++ time_left now unlock

-- The text of an item that is unsealed; `none` is the placeholder.
unfoldable pub preview : ItemStatus → Option Text → Option Text
unfolding truncate
preview unsealed (some plaintext) = some (truncate plaintext 60)
preview _ _ = none

unfoldable pub buttons : ItemStatus → List Button
buttons ready = unseal ∷ delete ∷ []
buttons failed = retry ∷ delete ∷ []
buttons _ = delete ∷ []

abbrev is_selected : Text → Option Text → Bool
is_selected id none = false
is_selected id (some s) = text_eq id s

unfoldable pub row_view : Option Text → ℕ → QueueItem → RowView
unfolding backends status_label backend_badge countdown preview buttons
row_view selected_id now it = record {
  id = it.id;
  selected = is_selected it.id selected_id;
  status = status_label it.status;
  backend = (backends it.backend).short;
  badge = backend_badge it;
  countdown = countdown now it.status it.unlock_unix;
  from = truthy it.sender_ens;
  to = truthy it.recipient_ens;
  preview = preview it.status it.plaintext;
  sealed_at = it.created_at;
  buttons = buttons it.status;
}

pub record QueueView : Type 0 where
  pub title : Text
  pub rows : List RowView

-- Without a row the panel says that nothing is sealed yet.
unfoldable pub queue_view : List QueueItem → Option Text → ℕ → QueueView
unfolding row_view
queue_view [] selected_id now = record { title = codes "Queue"; rows = [] }
queue_view (it ∷ items) selected_id now = record {
  title = codes "Queue (" ++ (to_string (length (it ∷ items)) ++ codes ")");
  rows = map (row_view selected_id now) (it ∷ items);
}
