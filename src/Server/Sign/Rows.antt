-- ===== src/Server/Sign/Rows.antt =====
-- backend/server.js, POST /sign-inference: the rows that it appends.
use sealed_sky_verification.Errors.{err, type_error, Result, ok}
use sealed_sky_verification.Common.{
  ◌⊎◌, true, false, sym, ◌∙◌, ◌≡◌, ◌≢◌, inl, inr, refl, Bool-cases, Option, none, some, List, [],
  ◌∷◌, ◌++◌, All, to_list,
}
use mathlib.Core.Path.{subst}
use sealed_sky_verification.Common.Text.{Text, codes, text_eq}
use sealed_sky_verification.Codec.{Codec}
use sealed_sky_verification.Js.{trim}
use sealed_sky_verification.Json.{
  Json, null, bool, num, arr, str, obj, field, end, member, get_field, property, is_falsy,
  truthy_value, is_plain, js_string,
}
use sealed_sky_verification.Server.{File, Reply, normalize_proof_hex, log_and_reply}
use sealed_sky_verification.Server.Log.{IsPlain, Holds, log_and_reply-Holds}
use sealed_sky_verification.Server.Submit.{Claim, canonical_payload}
use sealed_sky_verification.Server.Submit.Plain.{
  IsPlainClaim, member-IsPlain, refused_row-IsPlain, refused_row_details-IsPlain,
  refused_row_raw-IsPlain, signed_row-IsPlain,
}
use sealed_sky_verification.Server.Sign.{
  Ending, is_signable, succeeded, or_exited, or_blank, error_reply, or_empty, proof_or, refused_row,
  signed_row, signed, device_error, read_answer, read_output, read_ending, request_line, sign_claim,
}

-- What the device prints for a claim.
abbrev pub printed : Codec → (Text → Ending) → Claim → Text
printed c device q = trim (
    or_blank
      (device
        (request_line c (canonical_payload q.sealed_sky_text q.timestamp q.image_hash))).stdout)

null_or : (o : Option Json) → (o ≡ some null) ⊎ (o ≢ some null)
null_or (some null) = inl refl
null_or none = inr (λ e. cc)
null_or (some (bool b)) = inr (λ e. cc)
null_or (some (num n)) = inr (λ e. cc)
null_or (some (str s)) = inr (λ e. cc)
null_or (some (arr vs)) = inr (λ e. cc)
null_or (some (obj fs)) = inr (λ e. cc)

proof_or-IsPlain : (t : Text) (v : Json) → IsPlain v → IsPlain (proof_or t v)
unfolding is_plain
proof_or-IsPlain [] v h = h
proof_or-IsPlain (x ∷ t) v h = refl

or_empty-IsPlain : (o : Option Json) → All IsPlain (to_list o) → IsPlain (or_empty (truthy_value o))
unfolding is_plain
or_empty-IsPlain none h = refl
or_empty-IsPlain (some v) (h, _) = elim (Bool-cases (is_falsy v)) [
  | inl e ↦ rw e refl
  | inr e ↦ rw e h
]

module _ (c : Codec) (pretty : Json → Text) (lower : Text → Text) where
  -- A reply, and one more row in the log that does not say accepted.
  abbrev pub Logs : List Json → Result (Reply × File) → Type 0
  Logs log result =
      (reply : Reply) × (row : Json) × (file' : File) × (result ≡ ok (reply, file'))
      × (member (codes "status") row ≢ some (str (codes "accepted")))
      × Holds c file' (log ++ (row ∷ []))
      × All IsPlain (log ++ (row ∷ []))

  -- The device prints the JSON text null, and the handler throws a type error: the answer's `Error`
  -- is read of null.
  abbrev pub Crashes : Claim → (Text → Ending) → Result (Reply × File) → Type 0
  Crashes q device result =
      (is_signable q ≡ true)
      × (succeeded
            (device (
              request_line c (canonical_payload q.sealed_sky_text q.timestamp q.image_hash))).status
          ≡ true)
      × (printed c device q ≢ [])
      × (c.parse (printed c device q) ≡ some null)
      × (result ≡ err type_error)

  module _ (parse-pretty : (v : Json) → IsPlain v → c.parse (pretty v) ≡ some v) (q : Claim)
      (file : File) (log : List Json) (holds : Holds c file log) (plain : All IsPlain log)
      (plain_claim : IsPlainClaim q) where
    abbrev asked : (Text → Ending) → Ending
    asked device =
        device (request_line c (canonical_payload q.sealed_sky_text q.timestamp q.image_hash))

    logs :
        (row : Json) (reply : Reply)
        → IsPlain row
        → member (codes "status") row ≢ some (str (codes "accepted"))
        → Logs log (log_and_reply c pretty row reply file)
    logs row reply p other =
        let (file', done, holds', plain') =
          log_and_reply-Holds c pretty parse-pretty row reply file log holds plain p in
        (reply, row, file', done, other, holds', plain')

    signed-Logs : (v : Json) → IsPlain v → Logs log (signed c pretty lower q v file)
    unfolding text_eq get_field
    signed-Logs v h =
        logs (signed_row q (proof_or (normalize_proof_hex lower (some v)) v))
          (record { status = 200; body = obj (field (codes "hash") v end) })
          (signed_row-IsPlain q plain_claim (proof_or (normalize_proof_hex lower (some v)) v)
            (proof_or-IsPlain (normalize_proof_hex lower (some v)) v h))
          (λ e. cc)

    device_error-Logs :
        (parsed : Json) (e : Option Json)
        → IsPlain parsed
        → Logs log (device_error c pretty lower q parsed e file)
    unfolding text_eq get_field
    device_error-Logs parsed (some e) h =
        logs (refused_row q (js_string e) (λ fs. fs)) (error_reply 502 e end)
          (refused_row-IsPlain q plain_claim (js_string e)) (λ e. cc)
    device_error-Logs parsed none h =
        let out = or_empty (truthy_value (member (codes "Output") parsed)) in
        signed-Logs out (
          or_empty-IsPlain (member (codes "Output") parsed)
            (member-IsPlain (codes "Output") parsed h))

    -- The answer of the device, unless it is the JSON text null.
    read_answer-Logs :
        (output : Text) (answer : Option Json)
        → answer ≢ some null
        → All IsPlain (to_list answer)
        → Logs log (read_answer c pretty lower q output answer file)
    unfolding text_eq get_field property
    read_answer-Logs output none n h =
        logs
          (refused_row q (codes "invalid response from device") (field (codes "raw") (str output)))
          (error_reply 502 (str (codes "invalid response from device"))
            (field (codes "raw") (str output) end))
          (refused_row_raw-IsPlain q plain_claim (codes "invalid response from device") output)
          (λ e. cc)
    read_answer-Logs output (some null) n h = absurd (n refl)
    read_answer-Logs output (some (obj fs)) n (h, _) =
        device_error-Logs (obj fs) (truthy_value (get_field (codes "Error") fs)) h
    read_answer-Logs output (some v) n (h, _) = device_error-Logs v none h

    read_output-cases :
        (output : Text)
        → All IsPlain (to_list (c.parse output))
        → Logs log (read_output c pretty lower q output file)
          ⊎ ((output ≢ [])
              × (c.parse output ≡ some null)
              × (read_output c pretty lower q output file ≡ err type_error))
    unfolding text_eq get_field property
    read_output-cases [] h = inl (
        logs (refused_row q (codes "device returned empty response") (λ fs. fs))
          (error_reply 502 (str (codes "device returned empty response")) end)
          (refused_row-IsPlain q plain_claim (codes "device returned empty response")) (λ e. cc))
    read_output-cases (x ∷ output) h = elim (null_or (c.parse (x ∷ output))) [
      | inl e ↦ inr ((λ n. cc), e, rw e refl)
      | inr n ↦ inl (read_answer-Logs (x ∷ output) (c.parse (x ∷ output)) n h)
    ]

    unreached-Logs :
        (ending : Ending)
        → succeeded ending.status ≡ false
        → Logs log (read_ending c pretty lower q ending file)
    unfolding read_ending text_eq get_field
    unreached-Logs ending e =
        rw (e, read_ending)
          (logs
            (refused_row q (codes "failed to reach USB device")
              (field (codes "details") (str (or_exited ending.stderr))))
            (error_reply 502 (str (codes "failed to reach USB device"))
              (field (codes "details") (str (or_exited ending.stderr)) end))
            (refused_row_details-IsPlain q plain_claim (codes "failed to reach USB device")
              (or_exited ending.stderr))
            (λ e. cc))

    unsignable-Logs :
        (device : Text → Ending)
        → is_signable q ≡ false
        → Logs log (sign_claim c pretty lower device q file)
    unfolding sign_claim text_eq get_field
    unsignable-Logs device e =
        rw (e, sign_claim)
          (logs (refused_row q (codes "invalid input") (λ fs. fs))
            (error_reply 400 (str (codes "timestamp and imageHash are required")) end)
            (refused_row-IsPlain q plain_claim (codes "invalid input")) (λ e. cc))

    sign_claim_of_ending :
        (device : Text → Ending)
        → is_signable q ≡ true
        → succeeded (asked device).status ≡ true
        → sign_claim c pretty lower device q file
          ≡ read_output c pretty lower q (printed c device q) file
    unfolding sign_claim read_ending
    sign_claim_of_ending device e s = rw (e, sign_claim) (rw (s, read_ending) refl)

    sign_claim_of_failure :
        (device : Text → Ending)
        → is_signable q ≡ true
        → sign_claim c pretty lower device q file ≡ read_ending c pretty lower q (asked device) file
    unfolding sign_claim
    sign_claim_of_failure device e = rw (e, sign_claim) refl

    pub sign_claim-cases :
        (device : Text → Ending)
        → All IsPlain (to_list (c.parse (printed c device q)))
        → Logs log (sign_claim c pretty lower device q file)
          ⊎ Crashes q device (sign_claim c pretty lower device q file)
    sign_claim-cases device h = elim (Bool-cases (is_signable q)) [
      | inr e ↦ inl (unsignable-Logs device e)
      | inl e ↦ elim (Bool-cases (succeeded (asked device).status)) [
        | inr s ↦ inl (
            subst (Logs log) (sym (sign_claim_of_failure device e))
              (unreached-Logs (asked device) s))
        | inl s ↦ elim (read_output-cases (printed c device q) h) [
          | inl l ↦ inl (subst (Logs log) (sym (sign_claim_of_ending device e s)) l)
          | inr (n, p, t) ↦ inr (e, s, n, p, sign_claim_of_ending device e s ∙ t)
        ]
      ]
    ]

    -- Unless the device prints null there is a row.
    pub sign_claim-Logs :
        (device : Text → Ending)
        → c.parse (printed c device q) ≢ some null
        → All IsPlain (to_list (c.parse (printed c device q)))
        → Logs log (sign_claim c pretty lower device q file)
    sign_claim-Logs device n h = elim (sign_claim-cases device h) [
      | inl l ↦ l
      | inr (_, _, _, p, _) ↦ absurd (n p)
    ]
