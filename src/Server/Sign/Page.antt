-- ===== src/Server/Sign/Page.antt =====
-- The form of components/UsbSignInference.tsx together with /sign-inference and /submit of
-- backend/server.js.
use sealed_sky_verification.Common.{
  false, ℕ, ◌≡◌, ◌≢◌, refl, sym, ap, ◌∙◌, true, none, some, List, [], ◌∷◌, All, arith,
}
use sealed_sky_verification.Js.{trim, to_string}
use sealed_sky_verification.Common.Text.{Text, codes, text_eq}
use sealed_sky_verification.Codec.{Codec, IsCodec}
use sealed_sky_verification.Errors.{Result, ok}
use sealed_sky_verification.Js.Numeric.{Numeric, finite, number_of, number_of_text}
use sealed_sky_verification.Json.{Json, js_string, num, str, obj, field, end, get_field, is_plain}
use sealed_sky_verification.Server.{File, sealed_sky_text_from_body}
use sealed_sky_verification.Server.Log.{IsPlain, Holds}
use sealed_sky_verification.Server.Submit.{
  Claim, Pending, waits, is_claim_valid, is_filled, is_timestamp_valid, canonical_payload,
  read_claim, submit,
}
use sealed_sky_verification.Server.Submit.Plain.{IsPlainClaim}
use sealed_sky_verification.Server.Submit.Matching.{canonical_of}
use sealed_sky_verification.Server.Submit.Proofs.{IsProved, Waits, check_claim-Waits}
use sealed_sky_verification.Server.Sign.{Ending, is_signable, succeeded, sign_inference}
use sealed_sky_verification.Server.Sign.Rows.{printed}
use sealed_sky_verification.Server.Sign.Device.{
  is_hex, IsHex, trim-IsHex, normalize_proof_hex-IsHex, answer_of, asked, sign_claim_of_digest,
}
use sealed_sky_verification.Server.Sign.Stamp.{stamp_number}
use sealed_sky_verification.Usb.{
  SignRequest, sign_request, sign_body, Submission, submit_body, begin_submit, with_proof,
}
use sealed_sky_verification.Usb as Usb

-- What the server reads of the two requests.
abbrev pub page_text : Text → Text
page_text text = sealed_sky_text_from_body (sign_body (sign_request text [] []))

abbrev pub sign_claim_of : (at text stamp hash : Text) → Claim
sign_claim_of at text stamp hash = record {
  received_at = at;
  sealed_sky_text = page_text text;
  timestamp = some (str (trim stamp));
  image_hash = some (str (trim hash));
  proof = none;
}

abbrev pub submission_of : (text : Text) → ℕ → (hash proof : Text) → Submission
submission_of text n hash proof = record {
  sealed_sky_text = trim text;
  timestamp = finite false n true;
  image_hash = trim hash;
  proof = proof;
}

abbrev pub submit_claim_of : (at text : Text) → ℕ → (hash proof : Text) → Claim
submit_claim_of at text n hash proof = record {
  received_at = at;
  sealed_sky_text = page_text text;
  timestamp = some (num n);
  image_hash = some (str (trim hash));
  proof = some (str proof);
}

read_sign_body :
    (at text stamp hash : Text)
    → read_claim at (some (sign_body (sign_request text stamp hash)))
      ≡ ok (sign_claim_of at text stamp hash)
unfolding read_claim sign_body sign_request sealed_sky_text_from_body get_field text_eq
read_sign_body at text stamp hash = refl

read_submit_body :
    (at text : Text) (n : ℕ) (hash proof : Text)
    → (json_of : Numeric → Json) → json_of (finite false n true) ≡ num n
    → read_claim at (some (submit_body json_of (submission_of text n hash proof)))
      ≡ ok (submit_claim_of at text n hash proof)
unfolding read_claim submit_body sign_body sign_request sealed_sky_text_from_body get_field text_eq
read_submit_body at text n hash proof json_of sent = rw sent refl

drop_0x-IsHex : (c d : ℕ) (t : Text) → is_hex d ≡ true → Usb.drop_0x (c ∷ d ∷ t) ≡ c ∷ d ∷ t
drop_0x-IsHex c d t h = ground arith

page_normalize_proof_hex-IsHex : (t : Text) → IsHex t → Usb.normalize_proof_hex t ≡ t
unfolding Usb.normalize_proof_hex
page_normalize_proof_hex-IsHex [] h = rw (trim-IsHex [] h) refl
page_normalize_proof_hex-IsHex (c ∷ []) h = rw (trim-IsHex (c ∷ []) h) refl
page_normalize_proof_hex-IsHex (c ∷ d ∷ t) h =
    rw (trim-IsHex (c ∷ d ∷ t) h) (drop_0x-IsHex c d t (h.1.0))

begin_submit-IsHex :
    (text stamp : Text) (n : ℕ) (hash : Text) (x : ℕ) (d : Text)
    → IsHex (x ∷ d)
    → number_of_text (trim stamp) ≡ finite false n true
    → (begin_submit text stamp hash (x ∷ d)).1 ≡ some (submission_of text n hash (x ∷ d))
unfolding begin_submit
begin_submit-IsHex text stamp n hash x d hex number =
    rw (number, page_normalize_proof_hex-IsHex (x ∷ d) hex) refl

same_payload :
    (t0 t1 text stamp : Text) (n : ℕ) (hash proof : Text)
    → trim stamp ≡ to_string n
    → canonical_of (submit_claim_of t1 text n hash proof)
      ≡ canonical_of (sign_claim_of t0 text stamp hash)
unfolding canonical_payload js_string
same_payload t0 t1 text stamp n hash proof e = rw e refl

is_signable_of_text :
    (at text stamp hash : Text) → is_signable (sign_claim_of at text stamp hash) ≡ true
unfolding is_signable is_timestamp_valid
is_signable_of_text at text stamp hash = ground arith

module _ (c : Codec) (laws : IsCodec c) (pretty : Json → Text) (lower hmac : Text → Text)
    (keccak : Text → Result Text)
    (parse-pretty : (v : Json) → IsPlain v → c.parse (pretty v) ≡ some v)
    (keeps : (t : Text) → IsHex t → lower t ≡ t) (device : Text → Ending) (file : File)
    (log : List Json) (holds : Holds c file log) (plain : All IsPlain log)
    (json_of : Numeric → Json) (t0 t1 text stamp hash : Text) (n : ℕ)
    (sent : json_of (finite false n true) ≡ num n) (stamped : trim stamp ≡ to_string n)
    (small : IsPlain (num n)) where
  abbrev page_claim : Claim
  page_claim = sign_claim_of t0 text stamp hash

  sent_sign_body :
      c.parse (c.stringify (sign_body (sign_request text stamp hash)))
      ≡ some (sign_body (sign_request text stamp hash))
  unfolding sign_body is_plain text_eq
  sent_sign_body = laws.parse-stringify (sign_body (sign_request text stamp hash)) (ground arith)

  sent_submit_body :
      (proof : Text)
      → c.parse (c.stringify (submit_body json_of (submission_of text n hash proof)))
        ≡ some (submit_body json_of (submission_of text n hash proof))
  unfolding submit_body is_plain text_eq
  sent_submit_body proof =
      laws.parse-stringify (submit_body json_of (submission_of text n hash proof))
        (rw sent (ground (arith, small)))

  submitted_claim :
      (file' : File) (x : ℕ) (d h : Text)
      → hmac (canonical_of page_claim) ≡ x ∷ d
      → keccak (canonical_of page_claim) ≡ ok h
      → IsHex (x ∷ d)
      → is_filled (some (str (trim hash))) ≡ true
      → Waits c pretty lower hmac keccak (submit_claim_of t1 text n hash (x ∷ d)) file'
  unfolding is_claim_valid number_of
  submitted_claim file' x d h digest hashed hex filled =
      let q = submit_claim_of t1 text n hash (x ∷ d) in
      let same = same_payload t0 t1 text stamp n hash (x ∷ d) stamped in
      check_claim-Waits c pretty lower hmac keccak q file' h
        (rw (filled, trim-IsHex (x ∷ d) hex) refl)
        (normalize_proof_hex-IsHex lower keeps (x ∷ d) hex ∙ sym digest ∙ ap hmac (sym same))
        (ap keccak same ∙ hashed)

  -- What the page has signed, it may submit. The conditions: the timestamp field, less the blanks
  -- around it, holds the decimal digits of a number as `String` prints it, below 2 to the 53rd; the
  -- content hash is not blank; the device prints the digest of what it is asked, a text of lowercase
  -- hexadecimal digits; and the payload that it is asked to sign can be hashed. Then the server
  -- replies with the digest to the page's request for a signature; with the digest as its proof and
  -- the number that it reads of the field the page sends a submission, and the server lets the claim
  -- wait for the contract, with the hash of its payload.
  pub page_sign-submit :
      (x : ℕ) (d h : Text)
      → hmac (canonical_of page_claim) ≡ x ∷ d
      → keccak (canonical_of page_claim) ≡ ok h
      → IsHex (x ∷ d)
      → is_filled (some (str (trim hash))) ≡ true
      → succeeded (asked c device page_claim).status ≡ true
      → printed c device page_claim ≢ []
      → c.parse (printed c device page_claim) ≡ some (answer_of (x ∷ d))
      → (file' : File) × (s : Submission) × (p : Pending) × (sign_inference c pretty lower device t0
            (c.parse (c.stringify (sign_body (sign_request text stamp hash))))
            file
          ≡ ok
              (record { status = 200; body = obj (field (codes "hash") (str (x ∷ d)) end) }, file'))
        × ((begin_submit text stamp hash (x ∷ d)).1 ≡ some s)
        × (submit c pretty lower hmac keccak t1
              (c.parse (c.stringify (submit_body json_of s)))
              file'
            ≡ ok (waits p, file'))
        × IsProved lower hmac p
        × (keccak p.payload ≡ ok p.payload_hash)
  unfolding sign_inference submit is_plain
  page_sign-submit x d h digest hashed hex filled exited prints parses =
      let plain_claim : IsPlainClaim page_claim = ((refl, tt), (refl, tt), tt) in
      let (file', signs, holds', plain') =
        sign_claim_of_digest c pretty lower hmac keccak parse-pretty keeps device page_claim file
          log holds plain plain_claim x d hex (is_signable_of_text t0 text stamp hash) exited prints
          parses in
      let (p, admitted, proved, same, hashed') =
        submitted_claim file' x d h digest hashed hex filled in
      (
        file',
        submission_of text n hash (x ∷ d),
        p,
        rw sent_sign_body (rw (read_sign_body t0 text stamp hash) signs),
        begin_submit-IsHex text stamp n hash x d hex (stamp_number stamp n stamped small),
        rw (sent_submit_body (x ∷ d))
            (rw (read_submit_body t1 text n hash (x ∷ d) json_of sent) admitted),
        proved,
        hashed',
      )
