-- ===== src/Http.antt =====
-- One HTTP request as the source uses `fetch`: it rejects, or replies with a status and a body that
-- is read by `json()`, which may reject too.
use sealed_sky_verification.Common.{ℕ, Bool, ◌&&◌, leb, Option, none, some}
use sealed_sky_verification.Common.Text.{Text}
use sealed_sky_verification.Errors.{Error, Result, thrown}

pub data Response (A : Type 0) : Type 0 where
  failed : Error → Response A
  replied : ℕ → Result A → Response A

-- `r.ok`
abbrev pub is_ok : ℕ → Bool
is_ok status = leb 200 status && leb status 299

-- `lastErr ?? new Error(what)`
abbrev pub or_all_failed : Text → Option Error → Error
or_all_failed what none = thrown what
or_all_failed what (some e) = e

-- One round of the loop: an answer, or the error with which the loop goes on.
pub data Attempt {ℓ} (A : Type ℓ) : Type ℓ where
  answer : A → Attempt A
  retry : Error → Attempt A
