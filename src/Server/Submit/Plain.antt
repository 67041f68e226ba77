-- ===== src/Server/Submit/Plain.antt =====
-- backend/server.js: the rows of /submit and /sign-inference as JSON values.
use sealed_sky_verification.Common.{
  ◌≡◌, true, Option, none, some, All, arith, to_list, Bool-cases, inl, inr,
}
use sealed_sky_verification.Common.Text.{Text, codes, text_eq}
use sealed_sky_verification.Json.{
  Json, null, bool, num, str, arr, obj, Fields, end, field, get_field, member, is_plain,
  fields_plain,
}
use sealed_sky_verification.Errors.{ok, ok-injective}
use sealed_sky_verification.Server.{sealed_sky_text_from_body}
use mathlib.Core.Path.{subst}
use sealed_sky_verification.Server.Log.{IsPlain}
use sealed_sky_verification.Server.Submit.{
  Claim, Pending, read_claim, invalid_row, mismatch_row, accepted_row, failed_row,
}
use sealed_sky_verification.Server.Sign.{refused_row, signed_row}

-- The values of a claim that come from the request.
abbrev pub IsPlainClaim : Claim → Type 0
IsPlainClaim q =
    All IsPlain (to_list q.timestamp)
    × All IsPlain (to_list q.image_hash)
    × All IsPlain (to_list q.proof)

get_field-IsPlain :
    (k : Text) (fs : Fields) → fields_plain fs ≡ true → All IsPlain (to_list (get_field k fs))
unfolding get_field is_plain
get_field-IsPlain k end h = tt
get_field-IsPlain k (field j v fs) h = elim (Bool-cases (text_eq j k)) [
  | inl e ↦ rw e (ground arith)
  | inr e ↦ rw e (get_field-IsPlain k fs (ground arith))
]

pub member-IsPlain : (k : Text) (v : Json) → IsPlain v → All IsPlain (to_list (member k v))
unfolding is_plain
member-IsPlain k (obj fs) h = get_field-IsPlain k fs h
member-IsPlain k null h = tt
member-IsPlain k (bool b) h = tt
member-IsPlain k (num n) h = tt
member-IsPlain k (str s) h = tt
member-IsPlain k (arr vs) h = tt

-- What a plain body gives is plain.
pub read_claim-IsPlain :
    (at : Text) (request : Option Json) (q : Claim)
    → All IsPlain (to_list request)
    → read_claim at request ≡ ok q
    → IsPlainClaim q
unfolding read_claim
read_claim-IsPlain at none q h e = cc
read_claim-IsPlain at (some null) q h e = cc
read_claim-IsPlain at (some v) q (h, _) e =
    subst IsPlainClaim
      (ok-injective
        (record {
          received_at = at;
          sealed_sky_text = sealed_sky_text_from_body v;
          timestamp = member (codes "timestamp") v;
          image_hash = member (codes "imageHash") v;
          proof = member (codes "proof") v;
        })
        q e)
      (
        member-IsPlain (codes "timestamp") v h,
        member-IsPlain (codes "imageHash") v h,
        member-IsPlain (codes "proof") v h,
      )

module _ (q : Claim) (plain : IsPlainClaim q) where
  pub invalid_row-IsPlain : IsPlain (invalid_row q)
  unfolding is_plain text_eq
  invalid_row-IsPlain = ground arith

  pub mismatch_row-IsPlain : (canonical : Text) → IsPlain (mismatch_row q canonical)
  unfolding is_plain text_eq
  mismatch_row-IsPlain canonical = ground arith

  -- The refusals of the signing, which add nothing or one text.
  pub refused_row-IsPlain : (reason : Text) → IsPlain (refused_row q reason (λ fs. fs))
  unfolding is_plain text_eq
  refused_row-IsPlain reason = ground arith

  pub refused_row_details-IsPlain :
      (reason s : Text) → IsPlain (refused_row q reason (field (codes "details") (str s)))
  unfolding is_plain text_eq
  refused_row_details-IsPlain reason s = ground arith

  pub refused_row_raw-IsPlain :
      (reason s : Text) → IsPlain (refused_row q reason (field (codes "raw") (str s)))
  unfolding is_plain text_eq
  refused_row_raw-IsPlain reason s = ground arith

  pub signed_row-IsPlain : (proof : Json) → IsPlain proof → IsPlain (signed_row q proof)
  unfolding is_plain text_eq
  signed_row-IsPlain proof h = ground arith

module _ (p : Pending) (plain : IsPlainClaim p.claim) where
  pub accepted_row-IsPlain : (tx : Text) → IsPlain (accepted_row p tx)
  unfolding is_plain text_eq
  accepted_row-IsPlain tx = ground arith

  pub failed_row-IsPlain : (now message : Text) → IsPlain (failed_row p now message)
  unfolding is_plain text_eq
  failed_row-IsPlain now message = ground arith
