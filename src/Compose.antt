-- ===== src/Compose.antt =====
-- sealed-sky-web/src/components/Compose.tsx: the form of a new capsule. The resolver of names, the
-- reading of the unlock field and its default are arguments.
pub mod Steps
pub mod View
use sealed_sky_verification.Common.{
  ℕ, Bool, true, false, not, ◌||◌, Option, none, some, List, [], ◌∷◌, map, if◌then◌else◌,
}
use sealed_sky_verification.Common.Text.{Text, codes, text_eq}
use sealed_sky_verification.Js.{trim}
use sealed_sky_verification.Ens.{looks_like_ens}
use sealed_sky_verification.Errors.{Error, Result, ok, err}
use sealed_sky_verification.Queue.{Backend}

pub data RecipientStatus : Type 0 where
  idle checking unresolved : RecipientStatus
  resolved : (address : Text) → RecipientStatus

-- A look-up of a name that has been started, by its timer, and is not answered yet.
pub record Search : Type 0 where
  pub name : Text
  pub cancelled : Bool

pub record Form : Type 0 where
  pub message : Text
  pub unlock_at : Text
  pub backend : Backend
  pub recipient : Text
  pub recipient_status : RecipientStatus
  pub searches : List Search
  pub busy : Bool
  pub failure : Option Text

-- The cleanup of the effect.
abbrev pub cancel : Search → Search
cancel s = record s { cancelled = true }

abbrev start_search : Text → Form → Form
start_search name f = record f {
  recipient_status = checking;
  searches = record { name = name; cancelled = false } ∷ f.searches;
}

module _ (lower : Text → Text) where
  -- The effect on a recipient that has changed, after its cleanup.
  unfoldable pub recipient_effect : Form → Form
  unfolding looks_like_ens
  recipient_effect f =
      let name = trim f.recipient in
      if text_eq name [] || not (looks_like_ens lower name)
      then record f { recipient_status = idle }
      else start_search name f

  -- A state that is set to what it is runs no effect.
  unfoldable pub set_recipient : Text → Form → Form
  unfolding recipient_effect
  set_recipient text f =
      if text_eq text f.recipient
      then f
      else recipient_effect (record f { recipient = text; searches = map cancel f.searches })

abbrev pub status_of : Option Text → RecipientStatus
status_of none = unresolved
status_of (some []) = unresolved
status_of (some (c ∷ s)) = resolved (c ∷ s)

-- A search is answered; `rest` are the other searches.
unfoldable pub search_answered : Search → Option Text → List Search → Form → Form
search_answered s address rest f =
    if s.cancelled
    then record f { searches = rest }
    else record f { searches = rest; recipient_status = status_of address }

-- What `onSeal` is called with.
pub record SealCall : Type 0 where
  pub message : Text
  pub unlock_unix : ℕ
  pub backend : Backend
  pub recipient_ens : Option Text

abbrev nonempty : Text → Option Text
nonempty [] = none
nonempty (c ∷ s) = some (c ∷ s)

abbrev seal_at : Option ℕ → Form → Form × Option SealCall
seal_at none f = (record f { failure = some (codes "Pick a valid unlock time.") }, none)
seal_at (some unix) f = (
  record f { busy = true },
  some (record {
    message = f.message;
    unlock_unix = unix;
    backend = f.backend;
    recipient_ens = nonempty (trim f.recipient);
  }),
)

-- `handleSeal` up to its call, if it calls; `to_unix` has no number for a field that is no time.
unfoldable pub begin_seal : (to_unix : Text → Option ℕ) → Form → Form × Option SealCall
begin_seal to_unix f =
    let cleared = record f { failure = none } in
    if text_eq (trim f.message) []
    then (record f { failure = some (codes "Message is empty.") }, none)
    else seal_at (to_unix f.unlock_at) cleared

-- And from its end on. Setting the recipient to nothing runs its effect where it was something.
unfoldable pub end_seal :
    (lower : Text → Text) (message : Error → Text) (default_unlock : Text)
    → Result (Unit {0})
    → Form
    → Form
unfolding set_recipient
end_seal lower message default_unlock (ok done) f =
    let reset = set_recipient lower [] f in
    record reset { message = []; unlock_at = default_unlock; recipient_status = idle; busy = false }
end_seal lower message default_unlock (err e) f = record f {
  failure = some (message e);
  busy = false;
}
