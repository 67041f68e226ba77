-- ===== src/Server/Submit/Proofs.antt =====
-- backend/server.js, POST /submit: the cases of the check of a claim.
use sealed_sky_verification.Common.{
  ◌≡◌, ◌⊎◌, inl, inr, refl, ap, ◌∙◌, true, false, Bool-cases, none, some, Option-cases, List, [],
  ◌∷◌, ◌++◌, All,
}
use sealed_sky_verification.Common.Text.{Text, codes, text_eq}
use sealed_sky_verification.Codec.{Codec}
use sealed_sky_verification.Errors.{Error, Result, ok, err, Result-cases}
use sealed_sky_verification.Json.{Json, str, member, get_field}
use sealed_sky_verification.Server.{File, Reply, normalize_proof_hex}
use sealed_sky_verification.Server.Log.{IsPlain, Holds, log_and_reply-Holds}
use sealed_sky_verification.Server.Submit.{
  Claim, Pending, replied, waits, is_claim_valid, legacy_payload, matched_payload, check_claim,
  invalid_row, mismatch_row, accepted_row, invalid_reply, mismatch_reply,
}
use sealed_sky_verification.Server.Submit.Matching.{
  canonical_of, matched_payload-some, matched_payload_of_canonical, matched_payload_of_digest,
}
use sealed_sky_verification.Server.Submit.Plain.{
  IsPlainClaim, invalid_row-IsPlain, mismatch_row-IsPlain,
}

-- The proof is the digest of one of the two payloads of a valid claim.
pub record IsProved (lower hmac : Text → Text) (p : Pending) : Type 0 where
  pub valid : is_claim_valid p.claim ≡ true
  pub proof_given : p.proof ≡ normalize_proof_hex lower p.claim.proof
  pub digest : p.proof ≡ hmac p.payload
  pub payload_of :
      (p.payload ≡ canonical_of p.claim) ⊎ (p.payload ≡ legacy_payload (canonical_of p.claim))

-- A row that says accepted is that of a proved claim and a transaction.
abbrev pub IsAuthentic : (lower hmac : Text → Text) → Json → Type 0
IsAuthentic lower hmac row =
    member (codes "status") row ≡ some (str (codes "accepted"))
    → (p : Pending) × (tx : Text) × (row ≡ accepted_row p tx) × IsProved lower hmac p

-- A claim that the handler should let through.
abbrev pub IsProvable : (lower hmac : Text → Text) → Claim → Type 0
IsProvable lower hmac q =
    (is_claim_valid q ≡ true)
    × ((normalize_proof_hex lower q.proof ≡ hmac (canonical_of q))
        ⊎ (normalize_proof_hex lower q.proof ≡ hmac (legacy_payload (canonical_of q))))

module _ (c : Codec) (pretty : Json → Text) (lower hmac : Text → Text)
    (keccak : Text → Result Text) where
  -- What the handler does of a claim.
  abbrev pub Waits : Claim → File → Type 0
  Waits q file =
      (p : Pending) × (check_claim c pretty lower hmac keccak q file ≡ ok (waits p, file))
      × IsProved lower hmac p
      × (p.claim ≡ q)
      × (keccak p.payload ≡ ok p.payload_hash)

  -- The hash of the payload that was proved throws, and so does the check.
  abbrev pub Fails : Claim → File → Type 0
  Fails q file =
      (payload : Text) × (e : Error) × (matched_payload hmac (normalize_proof_hex lower q.proof)
          (canonical_of q)
        ≡ some payload)
      × (keccak payload ≡ err e)
      × (check_claim c pretty lower hmac keccak q file ≡ err e)

  abbrev pub Refuses : Claim → File → List Json → Type 0
  Refuses q file log =
      (reply : Reply) × (row : Json) × (file' : File) × (check_claim c pretty lower hmac keccak q
          file
        ≡ ok (replied reply, file'))
      × (member (codes "status") row ≡ some (str (codes "rejected")))
      × Holds c file' (log ++ (row ∷ []))
      × All IsPlain (log ++ (row ∷ []))

  module _ (q : Claim) (file : File) where
    waiting :
        (payload h : Text)
        → is_claim_valid q ≡ true
        → matched_payload hmac (normalize_proof_hex lower q.proof) (canonical_of q) ≡ some payload
        → keccak payload ≡ ok h
        → Waits q file
    unfolding check_claim
    waiting payload h e m hashed =
        let (digest, shape) = matched_payload-some hmac _ (canonical_of q) payload m in
        (
          record {
            claim = q;
            proof = normalize_proof_hex lower q.proof;
            payload = payload;
            payload_hash = h;
          },
          rw (e, check_claim) (rw m (rw hashed refl)),
          record { valid = e; proof_given = refl; digest = digest; payload_of = shape },
          refl,
          hashed,
        )

    failing :
        (payload : Text) (x : Error)
        → is_claim_valid q ≡ true
        → matched_payload hmac (normalize_proof_hex lower q.proof) (canonical_of q) ≡ some payload
        → keccak payload ≡ err x
        → Fails q file
    unfolding check_claim
    failing payload x e m thrown =
        (payload, x, m, thrown, rw (e, check_claim) (rw m (rw thrown refl)))

    -- A claim whose proof matched a payload is provable.
    matched-IsProvable :
        (payload : Text)
        → is_claim_valid q ≡ true
        → matched_payload hmac (normalize_proof_hex lower q.proof) (canonical_of q) ≡ some payload
        → IsProvable lower hmac q
    matched-IsProvable payload e m =
        let (d, shape) = matched_payload-some hmac _ (canonical_of q) payload m in
        (e, of_shape d shape)
      where
        of_shape :
            normalize_proof_hex lower q.proof ≡ hmac payload
            → (payload ≡ canonical_of q) ⊎ (payload ≡ legacy_payload (canonical_of q))
            → (normalize_proof_hex lower q.proof ≡ hmac (canonical_of q))
              ⊎ (normalize_proof_hex lower q.proof ≡ hmac (legacy_payload (canonical_of q)))
        of_shape d (inl same) = inl (d ∙ ap hmac same)
        of_shape d (inr same) = inr (d ∙ ap hmac same)

    unmatched :
        matched_payload hmac (normalize_proof_hex lower q.proof) (canonical_of q) ≡ none
        → IsProvable lower hmac q
        → ⊥
    unmatched m h =
        let (payload, m') =
          matched_payload_of_digest hmac (normalize_proof_hex lower q.proof) (canonical_of q) h.1 in
        absurd (cc (m, m'))

    -- A provable claim whose canonical payload is the one proved, and can be hashed, waits.
    pub check_claim-Waits :
        (h : Text)
        → is_claim_valid q ≡ true
        → normalize_proof_hex lower q.proof ≡ hmac (canonical_of q)
        → keccak (canonical_of q) ≡ ok h
        → Waits q file
    check_claim-Waits h e digest hashed =
        waiting (canonical_of q) h e
          (matched_payload_of_canonical hmac (normalize_proof_hex lower q.proof) (canonical_of q)
            digest)
          hashed

  module _ (parse-pretty : (v : Json) → IsPlain v → c.parse (pretty v) ≡ some v) (q : Claim)
      (file : File) (log : List Json) (holds : Holds c file log) (plain : All IsPlain log)
      (plain_claim : IsPlainClaim q) where
    refused_invalid : is_claim_valid q ≡ false → Refuses q file log
    unfolding check_claim text_eq get_field
    refused_invalid e =
        let (file', done, holds', plain') =
          log_and_reply-Holds c pretty parse-pretty (invalid_row q) invalid_reply file log holds
            plain (invalid_row-IsPlain q plain_claim) in
        (
          invalid_reply,
          invalid_row q,
          file',
          rw (e, check_claim) (rw done refl),
          refl,
          holds',
          plain',
        )

    refused_mismatch :
        is_claim_valid q ≡ true
        → matched_payload hmac (normalize_proof_hex lower q.proof) (canonical_of q) ≡ none
        → Refuses q file log
    unfolding check_claim text_eq get_field
    refused_mismatch e m =
        let (file', done, holds', plain') =
          log_and_reply-Holds c pretty parse-pretty (mismatch_row q (canonical_of q))
            (mismatch_reply q.received_at) file log holds plain
            (mismatch_row-IsPlain q plain_claim (canonical_of q)) in
        (
          mismatch_reply q.received_at,
          mismatch_row q (canonical_of q),
          file',
          rw (e, check_claim) (rw m (rw done refl)),
          refl,
          holds',
          plain',
        )

    pub check_claim-cases :
        (IsProvable lower hmac q × Waits q file)
        ⊎ (IsProvable lower hmac q × Fails q file)
        ⊎ ((IsProvable lower hmac q → ⊥) × Refuses q file log)
    check_claim-cases = elim (Bool-cases (is_claim_valid q)) [
      | inr e ↦ inr (inr ((λ h. absurd (cc (h.0, e))), refused_invalid e))
      | inl e ↦
          elim (Option-cases
            (matched_payload hmac (normalize_proof_hex lower q.proof) (canonical_of q))) [
              | inl m ↦ inr (inr ((λ h. unmatched q file m h), refused_mismatch e m))
              | inr (payload, m) ↦ elim (Result-cases (keccak payload)) [
                | inl (x, thrown) ↦ inr (
                    inl
                      (matched-IsProvable q file payload e m, failing q file payload x e m thrown))
                | inr (h, hashed) ↦
                    inl (matched-IsProvable q file payload e m, waiting q file payload h e m hashed)
              ]
            ]
    ]
