-- ===== src/Usb/Form.antt =====
-- components/UsbSignInference.tsx: the whole form, with its three effects. The clock, the digest and
-- the replies are arguments.
pub mod Hashing
pub mod View
use sealed_sky_verification.Common.{
  ℕ, ◌/◌, Bool, true, false, not, ◌&&◌, ◌||◌, Option, none, some, List, [], ◌∷◌, map, if◌then◌else◌,
}
use sealed_sky_verification.Common.Text.{Text, codes, text_eq}
use sealed_sky_verification.Codec.{Codec}
use sealed_sky_verification.Symmetric.{Crypto}
use sealed_sky_verification.Js.{to_string}
use sealed_sky_verification.Usb.{
  Status, idle, busy, succeeded, failing, SignForm, SubmitForm, no_label, Reply, SignRequest,
  Submission, sha_256_utf8_hex_0x, normalize_proof_hex, sign_request, begin_sign, end_sign,
  begin_submit, end_submit,
}

-- `unixSecondsNowString`, at a time in milliseconds.
unfoldable pub unix_seconds_now_string : ℕ → Text
unix_seconds_now_string now = to_string (now / 1000)

-- A digest that is being computed.
pub record Run : Type 0 where
  pub text : Text
  pub cancelled : Bool

pub record UsbForm : Type 0 where
  pub item_id : Text
  pub plaintext : Text
  pub sealed_sky_text : Text
  pub timestamp : Text
  pub content_hash : Text
  pub hash_busy : Bool
  pub sign : SignForm
  pub proof : Text
  pub submit : SubmitForm
  pub lock_time : Text
  pub runs : List Run

abbrev no_signature : SignForm
no_signature = record { hmac_out = []; raw_response = none; sign_status = idle; sign_error = none }

abbrev no_submission : SubmitForm
no_submission = record {
  submit_status = idle;
  submit_error = none;
  proved = no_label;
  tx_hash = [];
  submit_raw = none;
}

abbrev pub cancel_run : Run → Run
cancel_run r = record r { cancelled = true }

-- The effect on a text that has changed, after its cleanup.
unfoldable pub start_hash : UsbForm → UsbForm
start_hash f = record f {
  hash_busy = true;
  runs = record { text = f.sealed_sky_text; cancelled = false } ∷ map cancel_run f.runs;
}

unfoldable pub set_sealed_sky_text : Text → UsbForm → UsbForm
unfolding start_hash
set_sealed_sky_text text f =
    if text_eq text f.sealed_sky_text then f else start_hash (record f { sealed_sky_text = text })

-- What the first effect sets beside the text.
unfoldable pub reset_form : ℕ → UsbForm → UsbForm
unfolding unix_seconds_now_string
reset_form now f = record f {
  timestamp = unix_seconds_now_string now;
  sign = no_signature;
  proof = [];
  submit = no_submission;
  lock_time = [];
}

-- The form as its states begin.
abbrev pub first_form : Text → Text → ℕ → UsbForm
first_form item_id plaintext now = record {
  item_id = item_id;
  plaintext = plaintext;
  sealed_sky_text = plaintext;
  timestamp = unix_seconds_now_string now;
  content_hash = [];
  hash_busy = false;
  sign = no_signature;
  proof = [];
  submit = no_submission;
  lock_time = [];
  runs = [];
}

-- The form when it is shown, its effects having run.
unfoldable pub mount : Text → Text → ℕ → UsbForm
unfolding start_hash
mount item_id plaintext now = start_hash (first_form item_id plaintext now)

-- Another item, or another plaintext of the same one.
unfoldable pub select_item : Text → Text → ℕ → UsbForm → UsbForm
unfolding reset_form set_sealed_sky_text
select_item item_id plaintext now f =
    if text_eq item_id f.item_id && text_eq plaintext f.plaintext
    then f
    else set_sealed_sky_text plaintext
        (reset_form now (record f { item_id = item_id; plaintext = plaintext }))

-- A digest is there, or could not be computed; `rest` are the other runs.
abbrev pub with_hash : Option Text → UsbForm → UsbForm
with_hash none f = record f { content_hash = []; hash_busy = false }
with_hash (some h) f = record f { content_hash = h; hash_busy = false }

unfoldable pub hash_ended : Run → Option Text → List Run → UsbForm → UsbForm
hash_ended r digest rest f =
    let left = record f { runs = rest } in if r.cancelled then left else with_hash digest left

abbrev is_busy : Status → Bool
is_busy busy = true
is_busy _ = false

abbrev is_ready : Status → Bool
is_ready succeeded = true
is_ready _ = false

abbrev is_idle : Status → Bool
is_idle idle = true
is_idle _ = false

-- Whether the status or the signature that an effect depends on has changed.
abbrev pub same_signature : SignForm → SignForm → Bool
same_signature a b =
    text_eq a.hmac_out b.hmac_out
    && (is_ready a.sign_status && is_ready b.sign_status
        || is_busy a.sign_status && is_busy b.sign_status
        || is_idle a.sign_status && is_idle b.sign_status)

abbrev pub fills : SignForm → Bool
fills s = is_ready s.sign_status && not (text_eq s.hmac_out [])

-- The effect that fills in the proof.
unfoldable pub fill_proof : SignForm → UsbForm → UsbForm
fill_proof before f =
    if not (same_signature before f.sign) && fills f.sign
    then record f { proof = normalize_proof_hex f.sign.hmac_out }
    else f

abbrev pub can_send : Status → Text → Bool
can_send status hash = not (is_busy status) && not (text_eq hash [])

-- A click on the first button, which is disabled while a signature is asked for or without a digest.
unfoldable pub click_sign : UsbForm → UsbForm × Option SignRequest
unfolding begin_sign sign_request
click_sign f =
    if can_send f.sign.sign_status f.content_hash
    then (
      record f { sign = begin_sign f.sign },
      some (sign_request f.sealed_sky_text f.timestamp f.content_hash),
    )
    else (f, none)

abbrev pub sent : Text → UsbForm → SubmitForm × Option Submission → UsbForm × Option Submission
sent time f (form, request) = (record f { submit = form; lock_time = time }, request)

-- A click on the second one.
unfoldable pub click_submit : Text → UsbForm → UsbForm × Option Submission
unfolding begin_submit
click_submit time f =
    if can_send f.submit.submit_status f.content_hash
    then sent time f (begin_submit f.sealed_sky_text f.timestamp f.content_hash f.proof)
    else (f, none)

module _ (c : Codec) where
  unfoldable pub sign_replied : Reply → UsbForm → UsbForm
  unfolding end_sign fill_proof
  sign_replied reply f = fill_proof f.sign (record f { sign = end_sign c reply f.sign })

  unfoldable pub submit_replied : Reply → UsbForm → UsbForm
  unfolding end_submit
  submit_replied reply f = record f { submit = end_submit c reply f.submit }
