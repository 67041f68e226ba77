-- ===== src/Namestone/Records.antt =====
-- When NameStone has issued a name.
use sealed_sky_verification.Common.{◌≡◌, true, Bool-cases, inl, inr, ◌∷◌, ◌++◌, arith}
use sealed_sky_verification.Common.Text.{Text}
use sealed_sky_verification.Errors.{ok}
use sealed_sky_verification.Http.{is_ok}
use sealed_sky_verification.Namestone.{
  Config, SetName, Answer, rejected, answered, PublishArgs, is_namestone_configured,
  set_name_request, set_name_result, publish_capsule,
}

-- A good answer.
abbrev IsIssued : Answer → Type 0
IsIssued (rejected e) = ⊥
IsIssued (answered status text status_text) = is_ok status ≡ true

issued :
    (name fqn : Text) (a : Answer) → set_name_result name a ≡ ok fqn → (fqn ≡ name) × IsIssued a
issued name fqn (rejected e) h = cc
issued name fqn (answered status text status_text) h = (ground arith, ground arith)

-- `publishCapsule` returns a name only if NameStone is configured and its answer to the request for
-- the label has a good status, and the name is the label under the domain.
publish_capsule-IsIssued :
    (g : Config) (fetch : SetName → Answer) (args : PublishArgs) (fqn : Text)
    → publish_capsule g fetch args ≡ ok fqn
    → (is_namestone_configured g ≡ true)
      × (fqn ≡ args.label ++ (b'.' ∷ g.domain))
      × IsIssued (fetch (set_name_request g args))
unfolding publish_capsule
publish_capsule-IsIssued g fetch args fqn h = elim (Bool-cases (is_namestone_configured g)) [
  | inl e ↦
      let (same, good) =
        issued (args.label ++ (b'.' ∷ g.domain)) fqn (fetch (set_name_request g args))
          (rw (e, publish_capsule) at h) in
      (e, same, good)
  | inr e ↦ absurd (cc (rw (e, publish_capsule) at h))
]
