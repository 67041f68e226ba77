-- ===== src/Usb/Outcomes.antt =====
-- When a submission and a signature count as successful.
use sealed_sky_verification.Usb.{
  with_proof, succeeded, SubmitForm, verified, settle_submit, begin_submit, Submission,
  normalize_proof_hex,
}
use sealed_sky_verification.Common.{
  ℕ, ◌≡◌, ◌≢◌, refl, true, false, Option, none, some, [], ◌∷◌, arith, Bool-cases, inl, inr,
}
use sealed_sky_verification.Common.Text.{Text}
use sealed_sky_verification.Http.{is_ok}
use sealed_sky_verification.Js.{trim}
use sealed_sky_verification.Js.Numeric.{Numeric, number_of_text, is_finite}
use sealed_sky_verification.Json.{Json, bool}

-- A submission whose reply is read is labelled verified only if the status is good and the reply
-- says success, and its own status is then that of a success.
settle_submit-verified :
    (status : ℕ) (success tx message : Option Json) (form : SubmitForm)
    → (settle_submit status success tx message form).proved ≡ verified
    → (is_ok status ≡ true)
      × (success ≡ some (bool true))
      × ((settle_submit status success tx message form).submit_status ≡ succeeded)
unfolding settle_submit
settle_submit-verified status none tx message form h = absurd (ground arith)
settle_submit-verified status (some (bool true)) tx message form h =
    (ground arith, refl, ground arith)
settle_submit-verified status (some (bool false)) tx message form h = absurd (ground arith)
settle_submit-verified status (some v) tx message form h = absurd (ground arith)

-- A request is sent only where the timestamp field is a finite number and the proof is not empty
-- after its prefix is taken off, and it carries both.
begin_submit-IsSent :
    (text stamp hash proof : Text) (s : Submission)
    → (begin_submit text stamp hash proof).1 ≡ some s
    → (s.timestamp ≡ number_of_text (trim stamp))
      × (is_finite s.timestamp ≡ true)
      × (s.proof ≡ normalize_proof_hex proof)
      × (s.proof ≢ [])
unfolding begin_submit
begin_submit-IsSent text stamp hash proof s h =
    elim (Bool-cases (is_finite (number_of_text (trim stamp)))) [
      | inl e ↦ go (number_of_text (trim stamp)) (normalize_proof_hex proof) e (rw e at h)
      | inr e ↦ absurd (cc (rw e at h))
    ]
  where
    go :
        (t : Numeric) (p : Text)
        → is_finite t ≡ true
        → (with_proof text t hash p).1 ≡ some s
        → (s.timestamp ≡ t) × (is_finite s.timestamp ≡ true) × (s.proof ≡ p) × (s.proof ≢ [])
    go t [] f e = cc
    go t (x ∷ p) f e =
        let same : s.timestamp ≡ t = ground arith in
        (same, rw (same, f) refl, ground arith, λ n. ground arith)
