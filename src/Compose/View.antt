-- ===== src/Compose/View.antt =====
-- components/Compose.tsx: what the form shows, as a value. The page disables it until it has reached
-- drand.
use sealed_sky_verification.Common.{
  ◌-◌, Bool, true, false, ◌||◌, Option, List, [], ◌∷◌, ◌++◌, map, length, take, drop, if◌then◌else◌,
}
use sealed_sky_verification.Common.Text.{Text, codes}
use sealed_sky_verification.Queue.{Backend, drand, ctrng, backend_order}
use sealed_sky_verification.Share.{truthy}
use sealed_sky_verification.View.{BackendInfo, backends}
use sealed_sky_verification.Compose.{RecipientStatus, idle, checking, unresolved, resolved, Form}

pub record BackendOption : Type 0 where
  pub info : BackendInfo
  pub checked : Bool

pub record FormView : Type 0 where
  pub options : List BackendOption
  pub message : Text
  pub recipient : Text
  pub recipient_status : Text
  pub unlock_at : Text
  pub disabled : Bool
  pub seal_label : Text
  pub sender_hint : Option Text
  pub failure : Option Text

abbrev is_backend : Backend → Backend → Bool
is_backend drand drand = true
is_backend ctrng ctrng = true
is_backend _ _ = false

-- The first six and the last four units of an address.
abbrev shortened : Text → Text
shortened address = take 6 address ++ (0x2026 ∷ drop (length address - 4) address)

unfoldable pub recipient_text : RecipientStatus → Text
recipient_text idle = []
recipient_text checking = codes "resolving…"
recipient_text unresolved = codes "unresolved"
recipient_text (resolved address) = codes "→ " ++ shortened address

abbrev backend_option : Backend → Backend → BackendOption
backend_option chosen kind = record {
  info = backends kind;
  checked = is_backend chosen (backends kind).kind;
}

unfoldable pub form_view : (disabled : Bool) → (sender_ens : Option Text) → Form → FormView
unfolding backends recipient_text
form_view disabled sender_ens f = record {
  options = map (backend_option f.backend) backend_order;
  message = f.message;
  recipient = f.recipient;
  recipient_status = recipient_text f.recipient_status;
  unlock_at = f.unlock_at;
  disabled = f.busy || disabled;
  seal_label =
      if f.busy then codes "Sealing…" else codes "Seal with " ++ (backends f.backend).short;
  sender_hint = truthy sender_ens;
  failure = truthy f.failure;
}
