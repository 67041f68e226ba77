-- ===== src/Server/Submit/Matching.antt =====
-- backend/server.js, POST /submit: which payload a proof matches.
use sealed_sky_verification.Common.{
  ◌≡◌, ◌⊎◌, inl, inr, refl, ap, sym, ◌∙◌, Bool-cases, none, some, if◌then◌else◌,
}
use sealed_sky_verification.Common.Text.{Text, text_eq, eq_of_text_eq, text_eq_refl}
use sealed_sky_verification.Server.Submit.{
  Claim, canonical_payload, legacy_payload, matched_payload,
}

abbrev pub canonical_of : Claim → Text
canonical_of q = canonical_payload q.sealed_sky_text q.timestamp q.image_hash

pub matched_payload-some :
    (hmac : Text → Text) (proof canonical payload : Text)
    → matched_payload hmac proof canonical ≡ some payload
    → (proof ≡ hmac payload) × ((payload ≡ canonical) ⊎ (payload ≡ legacy_payload canonical))
unfolding matched_payload
matched_payload-some hmac proof canonical payload h =
    elim (Bool-cases (text_eq proof (hmac canonical))) [
      | inl e ↦
          let same : canonical ≡ payload = cc (rw (e, matched_payload) at h) in
          (eq_of_text_eq proof (hmac canonical) e ∙ ap hmac same, inl (sym same))
      | inr e ↦ legacy (rw (e, matched_payload) at h)
    ]
  where
    legacy :
        (if text_eq proof (hmac (legacy_payload canonical))
            then some (legacy_payload canonical)
            else none)
          ≡ some payload
        → (proof ≡ hmac payload) × ((payload ≡ canonical) ⊎ (payload ≡ legacy_payload canonical))
    legacy h' = elim (Bool-cases (text_eq proof (hmac (legacy_payload canonical)))) [
      | inl e' ↦
          let same : legacy_payload canonical ≡ payload = cc (rw e' at h') in
          (eq_of_text_eq proof (hmac (legacy_payload canonical)) e' ∙ ap hmac same, inr (sym same))
      | inr e' ↦ absurd (cc (rw e' at h'))
    ]

pub matched_payload_of_canonical :
    (hmac : Text → Text) (proof canonical : Text)
    → proof ≡ hmac canonical
    → matched_payload hmac proof canonical ≡ some canonical
unfolding matched_payload
matched_payload_of_canonical hmac proof canonical e = rw (e, text_eq_refl (hmac canonical)) refl

-- A digest of the canonical payload matches, and so does one of the legacy payload.
pub matched_payload_of_digest :
    (hmac : Text → Text) (proof canonical : Text)
    → (proof ≡ hmac canonical) ⊎ (proof ≡ hmac (legacy_payload canonical))
    → (payload : Text) × (matched_payload hmac proof canonical ≡ some payload)
unfolding matched_payload
matched_payload_of_digest hmac proof canonical (inl e) =
    (canonical, matched_payload_of_canonical hmac proof canonical e)
matched_payload_of_digest hmac proof canonical (inr e) =
    elim (Bool-cases (text_eq proof (hmac canonical))) [
      | inl t ↦ (canonical, rw t refl)
      | inr f ↦ (
        legacy_payload canonical,
        rw f (rw (e, text_eq_refl (hmac (legacy_payload canonical))) refl),
      )
    ]
