-- ===== src/Errors.antt =====
-- What the source throws, and the result of code that may throw.
use sealed_sky_verification.Common.{
  ℕ, Bool, true, false, Option, none, some, ◌≡◌, ◌⊎◌, inl, inr, refl,
}
use sealed_sky_verification.Common.Text.{Text}

-- An error of the program carries what its message interpolates; `thrown` is one of a library,
-- with its message.
pub data Error : Type 0 where
  bad_base64 bad_json type_error range_error : Error
  unsupported_version unexpected_scheme ipns_mismatch chain_mismatch : Error
  unrecognised_envelope malformed_beacon : Error
  http : ℕ → Error
  missing_round key_missing commitment_mismatch drand_catching_up : Error
  too_early : (sequence timestamp unlock : ℕ) → Error
  not_configured : Error
  name_stone : (status : ℕ) (text : Text) → Error
  no_envelope : (name : Text) → Error
  thrown : Text → Error

pub data Result {ℓ} (A : Type ℓ) : Type ℓ where
  err : Error → Result A
  ok : A → Result A

-- What comes after a throw does not run.
infixl 5 ◌>>=◌ ◌>>◌
abbrev pub ◌>>=◌ {ℓ κ} : {A : Type ℓ} {B : Type κ} → Result A → (A → Result B) → Result B
err thrown_value >>= rest = err thrown_value
ok a >>= rest = rest a

abbrev pub ◌>>◌ {ℓ} : {A : Type ℓ} → Result (Unit {0}) → Result A → Result A
first >> second = first >>= λ done. second

-- `if (!test) throw e`
abbrev pub guard : Bool → Error → Result (Unit {0})
guard false otherwise = err otherwise
guard true otherwise = ok tt

abbrev pub or_throw {ℓ} : {A : Type ℓ} → Error → Option A → Result A
or_throw e none = err e
or_throw e (some a) = ok a

pub ok-injective {ℓ} : {A : Type ℓ} (a b : A) → ok a ≡ ok b → a ≡ b
ok-injective a b e = cc

-- What is behind a throw that did not happen.
pub bind_ok {ℓ κ} :
    {A : Type ℓ} {B : Type κ} (r : Result A) (f : A → Result B) (b : B)
    → (r >>= f) ≡ ok b
    → (a : A) × (r ≡ ok a) × (f a ≡ ok b)
bind_ok (err x) f b e = absurd (cc e)
bind_ok (ok a) f b e = (a, refl, e)

pub guard_ok {ℓ} :
    {A : Type ℓ} (test : Bool) (x : Error) (r : Result A) (a : A)
    → (guard test x >> r) ≡ ok a
    → (test ≡ true) × (r ≡ ok a)
guard_ok false x r a e = absurd (cc e)
guard_ok true x r a e = (refl, e)

pub Result-cases {ℓ} :
    {A : Type ℓ} (r : Result A) → ((e : Error) × (r ≡ err e)) ⊎ ((a : A) × (r ≡ ok a))
Result-cases (err e) = inl (e, refl)
Result-cases (ok a) = inr (a, refl)
