-- ===== src/Server/Sign/Device.antt =====
-- backend/server.js, POST /sign-inference, with a device that prints the digest of what it is asked,
-- and then POST /submit.
use sealed_sky_verification.Common.{
  ℕ, ◌≡◌, ◌≢◌, refl, sym, ◌∙◌, Bool, true, ◌&&◌, ◌||◌, leb, Option, some, List, [], ◌∷◌, ◌++◌, All,
  All-reverse, arith, to_list,
}
use mathlib.Core.List.{reverse, reverse-reverse}
use sealed_sky_verification.Common.Text.{Text, codes, text_eq}
use sealed_sky_verification.Codec.{Codec}
use sealed_sky_verification.Errors.{Result, ok}
use sealed_sky_verification.Js.{trim, trim_start}
use sealed_sky_verification.Json.{
  Json, js_string, str, obj, field, end, get_field, property, is_plain,
}
use sealed_sky_verification.Server.{File, strip_prefix, normalize_proof_hex}
use sealed_sky_verification.Server.Log.{IsPlain, Holds, log_and_reply-Holds}
use sealed_sky_verification.Server.Submit.{Claim, is_claim_valid, is_filled, is_timestamp_valid}
use sealed_sky_verification.Server.Submit.Plain.{IsPlainClaim, signed_row-IsPlain}
use sealed_sky_verification.Server.Submit.Matching.{canonical_of}
use sealed_sky_verification.Server.Submit.Proofs.{Waits, check_claim-Waits}
use sealed_sky_verification.Server.Sign.{
  Ending, is_signable, is_string, signed_row, succeeded, signed, read_output, read_ending,
  request_line, sign_claim,
}
use sealed_sky_verification.Server.Sign.Rows.{printed}

-- Lowercase hexadecimal digits.
abbrev pub is_hex : ℕ → Bool
is_hex c = (leb 48 c && leb c 57) || (leb 97 c && leb c 102)

abbrev pub IsHex : Text → Type 0
IsHex t = All (λ c. is_hex c ≡ true) t

trim_start-IsHex : (t : Text) → IsHex t → trim_start t ≡ t
unfolding trim_start
trim_start-IsHex [] h = refl
trim_start-IsHex (c ∷ t) (p, h) = ground arith

pub trim-IsHex : (t : Text) → IsHex t → trim t ≡ t
unfolding trim
trim-IsHex t h =
    rw (trim_start-IsHex t h, trim_start-IsHex (reverse t) (All-reverse (λ c. is_hex c ≡ true) t h))
      (reverse-reverse t)

strip_prefix-IsHex : (t : Text) → IsHex t → strip_prefix t ≡ t
strip_prefix-IsHex [] h = refl
strip_prefix-IsHex (c ∷ []) h = refl
strip_prefix-IsHex (c ∷ d ∷ t) (p, (q, h)) = ground arith

-- A lowercase hexadecimal text is its own normal form.
pub normalize_proof_hex-IsHex :
    (lower : Text → Text)
    → ((t : Text) → IsHex t → lower t ≡ t)
    → (t : Text) → IsHex t
    → normalize_proof_hex lower (some (str t)) ≡ t
unfolding normalize_proof_hex trim js_string
normalize_proof_hex-IsHex lower keeps [] h = rw (trim-IsHex [] h) (keeps [] h)
normalize_proof_hex-IsHex lower keeps (c ∷ t) h =
    rw (trim-IsHex (c ∷ t) h) (rw (strip_prefix-IsHex (c ∷ t) h) (keeps (c ∷ t) h))

pub is_string_of_filled : (v : Option Json) → is_filled v ≡ true → is_string v ≡ true
unfolding trim
is_string_of_filled (some (str s)) h = refl
is_string_of_filled v h = ground arith

-- The claim at a later time, with a proof in place of its own.
abbrev pub with_proof : Text → Claim → Text → Claim
with_proof later q t = record q { received_at = later; proof = some (str t) }

-- How `nc` ends for a claim.
abbrev pub asked : Codec → (Text → Ending) → Claim → Ending
asked c device q = device (request_line c (canonical_of q))

-- What the device answers: the digest of what it is asked to sign.
abbrev pub answer_of : Text → Json
answer_of digest = obj (field (codes "Output") (str digest) end)

module _ (c : Codec) (pretty : Json → Text) (lower hmac : Text → Text) (keccak : Text → Result Text)
    (parse-pretty : (v : Json) → IsPlain v → c.parse (pretty v) ≡ some v)
    (keeps : (t : Text) → IsHex t → lower t ≡ t) (device : Text → Ending) (q : Claim) (file : File)
    (log : List Json) (holds : Holds c file log) (plain : All IsPlain log)
    (plain_claim : IsPlainClaim q) where
  read_output_of_answer :
      (x : ℕ) (d output : Text)
      → output ≢ []
      → c.parse output ≡ some (answer_of (x ∷ d))
      → read_output c pretty lower q output file ≡ signed c pretty lower q (str (x ∷ d)) file
  unfolding text_eq get_field property
  read_output_of_answer x d [] n e = absurd (n refl)
  read_output_of_answer x d (y ∷ output) n e = rw e refl

  pub sign_claim_of_digest :
      (x : ℕ) (d : Text)
      → IsHex (x ∷ d)
      → is_signable q ≡ true
      → succeeded (asked c device q).status ≡ true
      → printed c device q ≢ []
      → c.parse (printed c device q) ≡ some (answer_of (x ∷ d))
      → (file' : File) × (sign_claim c pretty lower device q file
          ≡ ok
              (record { status = 200; body = obj (field (codes "hash") (str (x ∷ d)) end) }, file'))
        × Holds c file' (log ++ (signed_row q (str (x ∷ d)) ∷ []))
        × All IsPlain (log ++ (signed_row q (str (x ∷ d)) ∷ []))
  unfolding sign_claim read_ending text_eq get_field property is_plain
  sign_claim_of_digest x d hex signable exited prints parses =
      let (file', done, holds', plain') =
        log_and_reply-Holds c pretty parse-pretty (signed_row q (str (x ∷ d)))
          (record { status = 200; body = obj (field (codes "hash") (str (x ∷ d)) end) }) file log
          holds plain (signed_row-IsPlain q plain_claim (str (x ∷ d)) refl) in
      (
        file',
        rw (signable, sign_claim)
            (rw (exited, read_ending)
              (read_output_of_answer x d (printed c device q) prints parses
                ∙ rw (normalize_proof_hex-IsHex lower keeps (x ∷ d) hex) done)),
        holds',
        plain',
      )

  -- What the server signs, it lets through: where `nc` ends well and the device prints the digest of
  -- what it is asked, a text of lowercase hexadecimal digits, `/sign-inference` replies with that
  -- digest, and, where the payload can be hashed, the same claim sent to `/submit` with the reply's hash as its proof waits for the
  -- contract, whatever the time of its arrival.
  sign_claim-check_claim :
      (x : ℕ) (d : Text) (later h : Text)
      → hmac (canonical_of q) ≡ x ∷ d
      → IsHex (x ∷ d)
      → is_timestamp_valid q.timestamp ≡ true
      → is_filled q.image_hash ≡ true
      → succeeded (asked c device q).status ≡ true
      → printed c device q ≢ []
      → c.parse (printed c device q) ≡ some (answer_of (x ∷ d))
      → keccak (canonical_of q) ≡ ok h
      → (file' : File) × (sign_claim c pretty lower device q file
          ≡ ok
              (record { status = 200; body = obj (field (codes "hash") (str (x ∷ d)) end) }, file'))
        × Waits c pretty lower hmac keccak (with_proof later q (x ∷ d)) file'
  unfolding is_signable is_claim_valid trim is_plain
  sign_claim-check_claim x d later h digest hex timed filled exited prints parses hashed =
      let plain_refl : All IsPlain (to_list (some (str (x ∷ d)))) = (refl, tt) in
      let valid : is_claim_valid (with_proof later q (x ∷ d)) ≡ true =
        rw (timed, filled, trim-IsHex (x ∷ d) hex) refl in
      let (file', signs, holds', plain') =
        sign_claim_of_digest x d hex (rw (is_string_of_filled q.image_hash filled) timed) exited
          prints parses in
      (
        file',
        signs,
        check_claim-Waits c pretty lower hmac keccak (with_proof later q (x ∷ d)) file' h valid
            (normalize_proof_hex-IsHex lower keeps (x ∷ d) hex ∙ sym digest) hashed,
      )
