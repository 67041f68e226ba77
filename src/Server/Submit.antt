-- ===== src/Server/Submit.antt =====
-- backend/server.js, POST /submit: the proof is compared with the keyed digests of two payloads, and
-- what matches goes to the contract. The digest, the hash of a payload and the contract's answer are
-- arguments; the handler is cut where it waits for the contract.
pub mod Matching
pub mod Proofs
pub mod Plain
pub mod Histories
use sealed_sky_verification.Common.{
  ℕ, Bool, true, false, not, ◌&&◌, ◌||◌, Option, none, some, List, [], ◌∷◌, ◌++◌, if◌then◌else◌,
}
use sealed_sky_verification.Common.Text.{Text, codes, text_eq}
use sealed_sky_verification.Codec.{Codec}
use sealed_sky_verification.Errors.{Error, Result, ok, err, ◌>>=◌}
use sealed_sky_verification.Js.{trim}
use sealed_sky_verification.Js.Numeric.{number_of, is_finite}
use sealed_sky_verification.Json.{
  Json, bool, str, obj, Fields, end, field, member, option_string, optional_field,
}
use sealed_sky_verification.Server.{
  File, Reply, body_of, sealed_sky_text_from_body, normalize_proof_hex, append_history,
  log_and_reply,
}

-- What the handler reads of a request.
pub record Claim : Type 0 where
  pub received_at : Text
  pub sealed_sky_text : Text
  pub timestamp : Option Json
  pub image_hash : Option Json
  pub proof : Option Json

abbrev is_string : Option Json → Bool
is_string (some (str s)) = true
is_string _ = false

abbrev is_nonempty : Text → Bool
is_nonempty [] = false
is_nonempty (c ∷ s) = true

abbrev pub is_filled : Option Json → Bool
is_filled (some (str s)) = is_nonempty (trim s)
is_filled _ = false

unfoldable pub is_timestamp_valid : Option Json → Bool
is_timestamp_valid timestamp = is_finite (number_of timestamp) || is_string timestamp

unfoldable pub is_claim_valid : Claim → Bool
unfolding is_timestamp_valid
is_claim_valid q = is_timestamp_valid q.timestamp && is_filled q.image_hash && is_filled q.proof

abbrev pub legacy_context_prefix : Text
legacy_context_prefix = codes "pothole_detected"

unfoldable pub canonical_payload : Text → Option Json → Option Json → Text
canonical_payload text timestamp image_hash =
    text ++ (b'|' ∷ option_string timestamp ++ (b'|' ∷ option_string image_hash))

unfoldable pub legacy_payload : Text → Text
legacy_payload canonical = legacy_context_prefix ++ (b'|' ∷ canonical)

-- What waits for the contract.
pub record Pending : Type 0 where
  pub claim : Claim
  pub proof : Text
  pub payload : Text
  pub payload_hash : Text

pub data Submitted : Type 0 where
  replied : Reply → Submitted
  waits : Pending → Submitted

abbrev pub claim_fields : Claim → Fields → Fields
claim_fields q rest = field (codes "sealedSkyText") (str q.sealed_sky_text) (
    optional_field (codes "timestamp") q.timestamp
      (optional_field (codes "imageHash") q.image_hash rest))

abbrev pub head_fields : Text → Text → Fields → Fields
head_fields received_at status rest =
    field (codes "receivedAt") (str received_at) (field (codes "status") (str status) rest)

-- The rows that the handler appends.
abbrev pub invalid_row : Claim → Json
invalid_row q = obj (
    head_fields q.received_at (codes "rejected") (
      field (codes "reason") (str (codes "invalid input"))
        (claim_fields q (optional_field (codes "proof") q.proof end))))

abbrev pub mismatch_row : Claim → Text → Json
mismatch_row q canonical = obj (
    head_fields q.received_at (codes "rejected") (
      field (codes "reason") (str (codes "invalid proof")) (
        claim_fields q (
          optional_field (codes "proof") q.proof (
            field (codes "canonicalPayload") (str canonical)
              (field (codes "legacyPayload") (str (legacy_payload canonical)) end))))))

abbrev pub proved_fields : Pending → Fields → Fields
proved_fields p rest = claim_fields p.claim (
    field (codes "proof") (str p.proof) (
      field (codes "payload") (str p.payload)
        (field (codes "payloadHash") (str p.payload_hash) rest)))

abbrev pub accepted_row : Pending → Text → Json
accepted_row p tx = obj (
    head_fields p.claim.received_at (codes "accepted") (
      field (codes "stage") (str (codes "submit_chain"))
        (proved_fields p (field (codes "tx") (str tx) end))))

abbrev pub failed_row : Pending → Text → Text → Json
failed_row p now message = obj (
    head_fields now (codes "rejected") (
      field (codes "stage") (str (codes "submit_chain")) (
        field (codes "reason") (str (codes "chain_submit_failed"))
          (field (codes "error") (str message) (proved_fields p end)))))

abbrev pub invalid_reply : Reply
invalid_reply = record {
  status = 400;
  body =
      obj (field (codes "error") (str (codes "timestamp, imageHash and proof are required")) end);
}

abbrev pub mismatch_reply : Text → Reply
mismatch_reply received_at = record {
  status = 200;
  body = obj (
      field (codes "success") (bool false) (
        field (codes "verified") (bool false) (
          field (codes "error") (str (codes "invalid proof"))
            (field (codes "receivedAt") (str received_at) end))));
}

abbrev pub accepted_reply : Text → Text → Reply
accepted_reply tx received_at = record {
  status = 200;
  body = obj (
      field (codes "success") (bool true)
        (field (codes "tx") (str tx) (field (codes "receivedAt") (str received_at) end)));
}

abbrev pub failed_reply : Text → Text → Reply
failed_reply message received_at = record {
  status = 502;
  body = obj (
      field (codes "success") (bool false)
        (field (codes "error") (str message) (field (codes "receivedAt") (str received_at) end)));
}

unfoldable pub read_claim : Text → Option Json → Result Claim
read_claim received_at request = do
  body ← body_of request
  ok (record {
    received_at = received_at;
    sealed_sky_text = sealed_sky_text_from_body body;
    timestamp = member (codes "timestamp") body;
    image_hash = member (codes "imageHash") body;
    proof = member (codes "proof") body;
  })

module _ (hmac : Text → Text) where
  -- The payload whose digest the proof is.
  unfoldable pub matched_payload : Text → Text → Option Text
  unfolding legacy_payload
  matched_payload proof canonical =
      if text_eq proof (hmac canonical)
      then some canonical
      else if text_eq proof (hmac (legacy_payload canonical))
      then some (legacy_payload canonical)
      else none

module _ (c : Codec) (pretty : Json → Text) (lower hmac : Text → Text)
    (keccak : Text → Result Text) where
  abbrev sent : Reply × File → Submitted × File
  sent (reply, file) = (replied reply, file)

  abbrev pub matched : Claim → Text → Text → Option Text → File → Result (Submitted × File)
  matched q proof canonical none file = do
    done ← log_and_reply c pretty (mismatch_row q canonical) (mismatch_reply q.received_at) file
    ok (sent done)
  matched q proof canonical (some payload) file = do
    hash ← keccak payload
    ok (waits (record { claim = q; proof = proof; payload = payload; payload_hash = hash }), file)

  unfoldable pub check_claim : Claim → File → Result (Submitted × File)
  unfolding is_claim_valid matched_payload canonical_payload
  check_claim q file =
      let canonical = canonical_payload q.sealed_sky_text q.timestamp q.image_hash in
      let proof = normalize_proof_hex lower q.proof in
      if not (is_claim_valid q)
      then (do done ← log_and_reply c pretty (invalid_row q) invalid_reply file; ok (sent done))
      else matched q proof canonical (matched_payload hmac proof canonical) file

  -- The handler up to its wait.
  unfoldable pub submit : Text → Option Json → File → Result (Submitted × File)
  unfolding read_claim check_claim
  submit received_at request file = do q ← read_claim received_at request; check_claim q file

module _ (c : Codec) (pretty : Json → Text) (message : Error → Text) where
  abbrev chain_failed : Pending → Text → Error → File → Result (Reply × File)
  chain_failed p now e file =
      log_and_reply c pretty (failed_row p now (message e))
        (failed_reply (message e) p.claim.received_at) file

  abbrev or_chain_failed : Pending → Text → File → Result (Reply × File) → Result (Reply × File)
  or_chain_failed p now file (ok done) = ok done
  or_chain_failed p now file (err e) = chain_failed p now e file

  -- The contract's answer: the hash of the transaction, or an error. What fails in the `try`, the
  -- append included, is caught.
  unfoldable pub settle : Pending → Text → Result Text → File → Result (Reply × File)
  settle p now (err e) file = chain_failed p now e file
  settle p now (ok tx) file =
      or_chain_failed p now file
        (log_and_reply c pretty (accepted_row p tx) (accepted_reply tx p.claim.received_at) file)
