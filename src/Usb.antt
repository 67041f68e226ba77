-- ===== src/Usb.antt =====
-- sealed-sky-web/src/components/UsbSignInference.tsx and lib/sha256Hex.ts: the form that has the
-- device sign an unsealed text and submits the proof. A handler is cut at its `await`: what it sets
-- before the request, and what the reply makes of the form.
pub mod Outcomes
pub mod Form
use sealed_sky_verification.Common.{
  ℕ, Bool, true, false, not, ◌&&◌, ◌||◌, Option, none, some, List, [], ◌∷◌, ◌++◌, ◌==◌,
  if◌then◌else◌,
}
use sealed_sky_verification.Common.Text.{Text, codes}
use sealed_sky_verification.Bytes.{Bytes, bytes_to_hex}
use sealed_sky_verification.Codec.{Codec}
use sealed_sky_verification.Symmetric.{Crypto}
use sealed_sky_verification.Js.{trim}
use sealed_sky_verification.Errors.{Error, Result, ok, err, http, thrown, ◌>>=◌}
use sealed_sky_verification.Http.{is_ok}
use sealed_sky_verification.Js.Numeric.{Numeric, number_of_text, is_finite}
use sealed_sky_verification.Json.{Json, bool, num, str, obj, end, field, property}

-- The digest of a text, whose loop is that of `bytesToHex`.
unfoldable pub sha_256_utf8_hex_0x : Codec → Crypto → Text → Text
sha_256_utf8_hex_0x c k message = codes "0x" ++ bytes_to_hex (k.sha_256 (c.encode message))

abbrev pub drop_0x : Text → Text
drop_0x (a ∷ b ∷ s) = if a == b'0' && (b == b'x' || b == b'X') then s else a ∷ b ∷ s
drop_0x s = s

unfoldable pub normalize_proof_hex : Text → Text
normalize_proof_hex p = drop_0x (trim p)

pub data Status : Type 0 where
  idle busy succeeded failing : Status

-- The signing half of the form; a failure is kept as the error whose message it shows.
pub record SignForm : Type 0 where
  pub hmac_out : Text
  pub raw_response : Option Json
  pub sign_status : Status
  pub sign_error : Option Error

-- The request rejects or its text cannot be read, or there are a status and a text.
pub data Reply : Type 0 where
  lost : Error → Reply
  received : (status : ℕ) (text : Text) → Reply

abbrev parsed_or_raw : Text → Option Json → Json
parsed_or_raw text none = obj (field (codes "raw") (str text) end)
parsed_or_raw text (some v) = v

abbrev error_of : ℕ → Option Json → Error
error_of status (some (str message)) = thrown message
error_of status _ = http status

abbrev text_of : Option Json → Text
text_of (some (str s)) = s
text_of _ = []

pub record SignRequest : Type 0 where
  pub sealed_sky_text : Text
  pub timestamp : Text
  pub image_hash : Text

unfoldable pub sign_request : Text → Text → Text → SignRequest
sign_request text timestamp hash = record {
  sealed_sky_text = trim text;
  timestamp = trim timestamp;
  image_hash = trim hash;
}

-- The body of the request.
unfoldable pub sign_body : SignRequest → Json
sign_body r = obj (
    field (codes "sealedSkyText") (str r.sealed_sky_text) (
      field (codes "timestamp") (str r.timestamp)
        (field (codes "imageHash") (str r.image_hash) end)))

unfoldable pub begin_sign : SignForm → SignForm
begin_sign form = record {
  hmac_out = [];
  raw_response = none;
  sign_status = busy;
  sign_error = none;
}

abbrev sign_failed : Error → SignForm → SignForm
sign_failed e form = record form { raw_response = none; sign_status = failing; sign_error = some e }

abbrev sign_refused : Json → Result (Option Json) → ℕ → SignForm → SignForm
sign_refused v (err e) status form = sign_failed e form
sign_refused v (ok message) status form = record form {
  raw_response = some v;
  sign_status = failing;
  sign_error = some (error_of status message);
}

abbrev sign_accepted : Json → Result (Option Json) → SignForm → SignForm
sign_accepted v (err e) form = sign_failed e form
sign_accepted v (ok hash) form = record form {
  raw_response = some v;
  hmac_out = text_of hash;
  sign_status = succeeded;
}

-- What the submission shows; `proved` is its label.
pub data Proved : Type 0 where
  no_label verified mismatch done : Proved

pub record SubmitForm : Type 0 where
  pub submit_status : Status
  pub submit_error : Option Error
  pub proved : Proved
  pub tx_hash : Text
  pub submit_raw : Option Json

abbrev bad_timestamp : Error
bad_timestamp =
    thrown
      (codes "Timestamp must be a valid number (Unix seconds), matching the SignInference payload.")

abbrev no_proof : Error
no_proof =
    thrown (codes "Paste the device HMAC proof (run SignInference first, or enter hex manually).")

abbrev cleared : SubmitForm
cleared = record {
  submit_status = busy;
  submit_error = none;
  proved = no_label;
  tx_hash = [];
  submit_raw = none;
}

pub record Submission : Type 0 where
  pub sealed_sky_text : Text
  pub timestamp : Numeric
  pub image_hash : Text
  pub proof : Text

-- `json_of` is how a number that is finite is sent.
unfoldable pub submit_body : (Numeric → Json) → Submission → Json
submit_body json_of s = obj (
    field (codes "sealedSkyText") (str s.sealed_sky_text) (
      field (codes "timestamp") (json_of s.timestamp)
        (field (codes "imageHash") (str s.image_hash) (field (codes "proof") (str s.proof) end))))

abbrev submit_failed : Error → SubmitForm → SubmitForm
submit_failed e form = record form { submit_status = failing; submit_error = some e }

-- The form and the request, if one is sent.
abbrev pub with_proof : Text → Numeric → Text → Text → SubmitForm × Option Submission
with_proof text timestamp hash [] = (submit_failed no_proof cleared, none)
with_proof text timestamp hash (c ∷ proof) = (
  cleared,
  some (record {
    sealed_sky_text = trim text;
    timestamp = timestamp;
    image_hash = trim hash;
    proof = c ∷ proof;
  }),
)

unfoldable pub begin_submit : Text → Text → Text → Text → SubmitForm × Option Submission
unfolding normalize_proof_hex
begin_submit text timestamp hash proof =
    let seconds = number_of_text (trim timestamp) in
    if not (is_finite seconds)
    then (submit_failed bad_timestamp cleared, none)
    else with_proof text seconds hash (normalize_proof_hex proof)

abbrev is_true : Option Json → Bool
is_true (some (bool b)) = b
is_true _ = false

abbrev is_false : Option Json → Bool
is_false (some (bool b)) = not b
is_false _ = false

abbrev failure_of : Option Json → Error
failure_of (some (str message)) = thrown message
failure_of _ = thrown (codes "verification failed")

-- The three fields are read before the status is looked at.
unfoldable pub settle_submit : ℕ → Option Json → Option Json → Option Json → SubmitForm → SubmitForm
settle_submit status success tx message form =
    if not (is_ok status)
    then record form {
      submit_status = failing;
      submit_error = some (error_of status message);
      proved = no_label;
      tx_hash = [];
    }
    else if is_true success
    then record form { submit_status = succeeded; proved = verified; tx_hash = text_of tx }
    else if is_false success
    then record form {
      submit_status = failing;
      submit_error = some (failure_of message);
      proved = mismatch;
      tx_hash = [];
    }
    else record form { submit_status = succeeded; proved = done; tx_hash = text_of tx }

abbrev settled : Result SubmitForm → SubmitForm → SubmitForm
settled (err e) form = submit_failed e form
settled (ok form') form = form'

unfoldable pub read_submit : ℕ → Json → SubmitForm → SubmitForm
unfolding settle_submit
read_submit status v form =
    let shown = record form { submit_raw = some v } in
    settled
      (do
        success ← property (codes "success") v
        tx ← property (codes "tx") v
        message ← property (codes "error") v
        ok (settle_submit status success tx message shown))
      shown

module _ (c : Codec) where
  unfoldable pub end_sign : Reply → SignForm → SignForm
  end_sign (lost e) form = sign_failed e form
  end_sign (received status text) form =
      let v = parsed_or_raw text (c.parse text) in
      if not (is_ok status)
      then sign_refused v (property (codes "error") v) status form
      else sign_accepted v (property (codes "hash") v) form

  unfoldable pub end_submit : Reply → SubmitForm → SubmitForm
  unfolding read_submit
  end_submit (lost e) form = submit_failed e form
  end_submit (received status text) form =
      read_submit status (parsed_or_raw text (c.parse text)) form
