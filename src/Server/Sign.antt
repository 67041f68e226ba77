-- ===== src/Server/Sign.antt =====
-- backend/server.js, POST /sign-inference: one request line to the device through `nc`, and what is
-- made of its answer. The device is a function from request lines to what `nc` ends with.
pub mod Rows
pub mod Device
pub mod Page
pub mod Stamp
use sealed_sky_verification.Common.{
  ℕ, Bool, true, false, not, ◌&&◌, ◌||◌, Option, none, some, List, [], ◌∷◌, ◌++◌, ◌==◌,
  if◌then◌else◌,
}
use sealed_sky_verification.Common.Text.{Text, codes}
use sealed_sky_verification.Codec.{Codec}
use sealed_sky_verification.Errors.{Result, ok, err, ◌>>=◌}
use sealed_sky_verification.Js.{trim}
use sealed_sky_verification.Json.{
  Json, null, str, obj, Fields, end, field, property, member, js_string, optional_field,
  truthy_value,
}
use sealed_sky_verification.Server.{
  File, Reply, body_of, sealed_sky_text_from_body, normalize_proof_hex, log_and_reply,
}
use sealed_sky_verification.Server.Submit.{
  Claim, is_timestamp_valid, canonical_payload, claim_fields, head_fields, read_claim,
}

-- How `nc` ends: its exit status, null for a signal or where it cannot run, and its two outputs.
pub record Ending : Type 0 where
  pub status : Option ℕ
  pub stdout : Option Text
  pub stderr : Option Text

abbrev pub is_string : Option Json → Bool
is_string (some (str s)) = true
is_string _ = false

unfoldable pub is_signable : Claim → Bool
is_signable q = is_string q.image_hash && is_timestamp_valid q.timestamp

abbrev pub sign_fields : Text → Text → Fields → Fields
sign_fields received_at status rest =
    head_fields received_at status (field (codes "stage") (str (codes "sign_inference")) rest)

-- The rows of the refusals: the reason, and what one of them adds.
abbrev pub refused_row : Claim → Text → (Fields → Fields) → Json
refused_row q reason more = obj (
    sign_fields q.received_at (codes "rejected")
      (field (codes "reason") (str reason) (more (claim_fields q end))))

abbrev pub signed_row : Claim → Json → Json
signed_row q proof = obj (
    sign_fields q.received_at (codes "device_signed") (
      field (codes "note") (str (codes "USB Armory SignInference HMAC"))
        (claim_fields q (field (codes "proof") proof end))))

abbrev pub error_reply : ℕ → Json → Fields → Reply
error_reply status e more = record { status = status; body = obj (field (codes "error") e more) }

abbrev pub or_exited : Option Text → Text
or_exited none = codes "nc exited with non-zero status"
or_exited (some []) = codes "nc exited with non-zero status"
or_exited (some (c ∷ s)) = c ∷ s

abbrev pub or_blank : Option Text → Text
or_blank none = []
or_blank (some s) = s

abbrev pub succeeded : Option ℕ → Bool
succeeded none = false
succeeded (some n) = n == 0

-- `parsed.Output || ""`
abbrev pub or_empty : Option Json → Json
or_empty none = str []
or_empty (some v) = v

-- `normalizeProofHex(outHash) || outHash`
abbrev pub proof_or : Text → Json → Json
proof_or [] v = v
proof_or (c ∷ s) v = str (c ∷ s)

unfoldable pub request_line : Codec → Text → Text
request_line c payload =
    c.stringify (
      obj (
        field (codes "Method") (str (codes "SignInference"))
          (field (codes "Input") (str payload) end)))
    ++ (b'\n' ∷ [])

module _ (c : Codec) (pretty : Json → Text) (lower : Text → Text) where
  abbrev pub refuse : Claim → Text → (Fields → Fields) → Reply → File → Result (Reply × File)
  refuse q reason more reply file = log_and_reply c pretty (refused_row q reason more) reply file

  abbrev pub signed : Claim → Json → File → Result (Reply × File)
  signed q out file =
      log_and_reply c pretty (signed_row q (proof_or (normalize_proof_hex lower (some out)) out))
        (record { status = 200; body = obj (field (codes "hash") out end) }) file

  abbrev pub device_error : Claim → Json → Option Json → File → Result (Reply × File)
  device_error q parsed (some e) file =
      refuse q (js_string e) (λ fs. fs) (error_reply 502 e end) file
  device_error q parsed none file =
      signed q (or_empty (truthy_value (member (codes "Output") parsed))) file

  -- A device that prints `null` makes the handler throw.
  abbrev pub read_answer : Claim → Text → Option Json → File → Result (Reply × File)
  read_answer q output none file =
      refuse q (codes "invalid response from device") (field (codes "raw") (str output))
        (error_reply 502 (str (codes "invalid response from device"))
          (field (codes "raw") (str output) end))
        file
  read_answer q output (some parsed) file = do
    e ← property (codes "Error") parsed
    device_error q parsed (truthy_value e) file

  abbrev pub read_output : Claim → Text → File → Result (Reply × File)
  read_output q [] file =
      refuse q (codes "device returned empty response") (λ fs. fs)
        (error_reply 502 (str (codes "device returned empty response")) end) file
  read_output q (x ∷ output) file = read_answer q (x ∷ output) (c.parse (x ∷ output)) file

  unfoldable pub read_ending : Claim → Ending → File → Result (Reply × File)
  read_ending q ending file =
      if not (succeeded ending.status)
      then refuse q (codes "failed to reach USB device")
          (field (codes "details") (str (or_exited ending.stderr)))
          (error_reply 502 (str (codes "failed to reach USB device"))
            (field (codes "details") (str (or_exited ending.stderr)) end))
          file
      else read_output q (trim (or_blank ending.stdout)) file

  unfoldable pub sign_claim : (Text → Ending) → Claim → File → Result (Reply × File)
  unfolding is_signable read_ending request_line
  sign_claim device q file =
      if not (is_signable q)
      then refuse q (codes "invalid input") (λ fs. fs)
          (error_reply 400 (str (codes "timestamp and imageHash are required")) end) file
      else read_ending q
          (device (request_line c (canonical_payload q.sealed_sky_text q.timestamp q.image_hash)))
          file

  unfoldable pub sign_inference :
      (Text → Ending) → Text → Option Json → File → Result (Reply × File)
  unfolding sign_claim
  sign_inference device received_at request file = do
    q ← read_claim received_at request
    sign_claim device q file
