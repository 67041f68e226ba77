-- ===== src/Drand/Fetch.antt =====
-- Where the answer of `fetchRound` comes from.
use sealed_sky_verification.Common.{
  ℕ, ◌≡◌, refl, true, Option, none, some, List, [], ◌∷◌, ◌⊎◌, inl, inr, arith,
}
use sealed_sky_verification.Common.Text.{Text}
use sealed_sky_verification.Errors.{Error, Result, ok, err}
use sealed_sky_verification.Http.{Response, failed, replied, is_ok, Attempt, answer, retry}
use sealed_sky_verification.Drand.{
  RoundResponse, api_bases, round_url, attempt_round, fetch_round_from, fetch_round,
}
use mathlib.Core.Path.{subst, sym}
use mathlib.Core.List.{Memᴰ}

-- A reply that says that the round is not there yet.
abbrev pub IsEarly : Response RoundResponse → Type 0
IsEarly reply =
    (status : ℕ) × (body : Result RoundResponse) × (reply ≡ replied status body)
    × ((status ≡ 404) ⊎ (status ≡ 425))

-- A good reply with a round in its body.
abbrev pub Carries : RoundResponse → Response RoundResponse → Type 0
Carries r reply = (status : ℕ) × (reply ≡ replied status (ok r)) × (is_ok status ≡ true)

abbrev pub Answers : Option RoundResponse → Response RoundResponse → Type 0
Answers none reply = IsEarly reply
Answers (some r) reply = Carries r reply

attempt_round-Answers :
    (reply : Response RoundResponse) (a : Option RoundResponse)
    → attempt_round reply ≡ answer a
    → Answers a reply
unfolding attempt_round
attempt_round-Answers (failed e) a h = cc
attempt_round-Answers (replied status (ok r)) none h = (status, ok r, refl, ground arith)
attempt_round-Answers (replied status (ok r)) (some r') h = (status, ground arith, ground arith)
attempt_round-Answers (replied status (err e)) none h = (status, err e, refl, ground arith)
attempt_round-Answers (replied status (err e)) (some r') h = (status, ground arith, ground arith)

pub Attempt-cases {ℓ} :
    {A : Type ℓ} (t : Attempt A) → ((a : A) × (t ≡ answer a)) ⊎ ((e : Error) × (t ≡ retry e))
Attempt-cases (answer a) = inl (a, refl)
Attempt-cases (retry e) = inr (e, refl)

module _ (fetch : Text → Response RoundResponse) (round : ℕ) where
  abbrev pub IsAnswered : List Text → Option RoundResponse → Type 0
  IsAnswered bases a = (base : Text) × Memᴰ base bases × Answers a (fetch (round_url base round))

  fetch_round_from-IsAnswered :
      (last : Option Error) (bases : List Text) (a : Option RoundResponse)
      → fetch_round_from fetch round last bases ≡ ok a
      → IsAnswered bases a
  unfolding fetch_round_from
  fetch_round_from-IsAnswered last [] a h = cc
  fetch_round_from-IsAnswered last (base ∷ bases) a h =
      elim (Attempt-cases (attempt_round (fetch (round_url base round)))) [
        | inl (b, e) ↦ (base, Memᴰ.head refl, attempt_round-Answers _ a (ground arith))
        | inr (x, e) ↦
            let (b, m, c) =
              fetch_round_from-IsAnswered (some x) bases a (rw (e, fetch_round_from) at h) in
            (b, Memᴰ.tail m, c)
      ]

  -- A round that `fetchRound` returns was in the body of a good reply of one of the two endpoints,
  -- and null is returned only where one of them replied 404 or 425.
  pub fetch_round-IsAnswered :
      (a : Option RoundResponse) → fetch_round fetch round ≡ ok a → IsAnswered api_bases a
  unfolding fetch_round
  fetch_round-IsAnswered a h = fetch_round_from-IsAnswered none api_bases a h

  falls_back_from :
      (e : Error) (a : Option RoundResponse) (first second : Text)
      → attempt_round (fetch (round_url first round)) ≡ retry e
      → attempt_round (fetch (round_url second round)) ≡ answer a
      → fetch_round_from fetch round none (first ∷ second ∷ []) ≡ ok a
  unfolding fetch_round_from
  falls_back_from e a first second p q = rw (p, fetch_round_from) (rw (q, fetch_round_from))

  -- If the first of the two endpoints asks for a retry, the answer of the second is returned.
  fetch_round_falls_back :
      (e : Error) (a : Option RoundResponse) (first second : Text)
      → api_bases ≡ first ∷ second ∷ []
      → attempt_round (fetch (round_url first round)) ≡ retry e
      → attempt_round (fetch (round_url second round)) ≡ answer a
      → fetch_round fetch round ≡ ok a
  unfolding fetch_round
  fetch_round_falls_back e a first second b p q =
      subst (λ bases. fetch_round_from fetch round none bases ≡ ok a) (sym b)
        (falls_back_from e a first second p q)
