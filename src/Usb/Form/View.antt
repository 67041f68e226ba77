-- ===== src/Usb/Form/View.antt =====
-- components/UsbSignInference.tsx: what the form shows, as a value.
use sealed_sky_verification.Common.{Bool, true, false, Option, none, some, ◌++◌, if◌then◌else◌}
use sealed_sky_verification.Common.Text.{Text, codes}
use sealed_sky_verification.Errors.{Error}
use sealed_sky_verification.Json.{Json}
use sealed_sky_verification.Share.{truthy}
use sealed_sky_verification.Usb.{Status, busy, succeeded, failing, Proved, no_label}
use sealed_sky_verification.Usb.Form.{UsbForm, can_send}

-- A button with its label, and what stands beside it: a success or an error.
pub record ActionView : Type 0 where
  pub enabled : Bool
  pub label : Text
  pub failure : Option Error

pub record UsbView : Type 0 where
  pub text : Text
  pub timestamp : Text
  pub image_hash : Text
  pub sign : ActionView
  -- whether it says that the digest of the device is there
  pub received : Bool
  pub hmac : Option Text
  pub sign_raw : Option Json
  pub proof : Text
  pub submit : ActionView
  pub proved : Proved
  pub submitted_at : Option Text
  pub tx_url : Option Text
  pub submit_raw : Option Json

abbrev failure_of : Status → Option Error → Option Error
failure_of failing e = e
failure_of _ e = none

abbrev label_of : Status → (waiting ready : Text) → Text
label_of busy waiting ready = waiting
label_of _ waiting ready = ready

abbrev is_received : Status → Bool
is_received succeeded = true
is_received _ = false

abbrev proved_of : Status → Proved → Proved
proved_of succeeded p = p
proved_of _ p = no_label

abbrev tx_url_of : Option Text → Option Text
tx_url_of none = none
tx_url_of (some tx) = some (codes "https://sepolia.etherscan.io/tx/" ++ tx)

unfoldable pub usb_view : UsbForm → UsbView
usb_view f = record {
  text = f.sealed_sky_text;
  timestamp = f.timestamp;
  image_hash = if f.hash_busy then codes "computing…" else f.content_hash;
  sign = record {
    enabled = can_send f.sign.sign_status f.content_hash;
    label = label_of f.sign.sign_status (codes "Signing…") (codes "Send to USB (SignInference)");
    failure = failure_of f.sign.sign_status f.sign.sign_error;
  };
  received = is_received f.sign.sign_status;
  hmac = truthy (some f.sign.hmac_out);
  sign_raw = f.sign.raw_response;
  proof = f.proof;
  submit = record {
    enabled = can_send f.submit.submit_status f.content_hash;
    label =
        label_of f.submit.submit_status (codes "Submitting…") (codes "Verify & submit on Sepolia");
    failure = failure_of f.submit.submit_status f.submit.submit_error;
  };
  proved = proved_of f.submit.submit_status f.submit.proved;
  submitted_at = truthy (some f.lock_time);
  tx_url = tx_url_of (truthy (some f.submit.tx_hash));
  submit_raw = f.submit.submit_raw;
}
