-- ===== src/Symmetric/Opening.antt =====
-- What is sealed can be verified and opened.
use sealed_sky_verification.Common.{ℕ, ◌≡◌, refl, true, some, Bool, ◌↔◌, sym, ap}
use sealed_sky_verification.Common.Text.{Text}
use sealed_sky_verification.Bytes.{Bytes}
use sealed_sky_verification.Codec.{Codec, IsCodec, is_scalar_text}
use sealed_sky_verification.Errors.{ok}
use sealed_sky_verification.Json.{str}
use sealed_sky_verification.Symmetric.{
  Crypto, IsCrypto, commitment, sym_seal, sym_open, verify_commitment, eq_hex_value,
}
use sealed_sky_verification.Symmetric.Compare.{constant_time_eq_hex_iff}

module _ (c : Codec) (k : Crypto) where
  -- The check of a string accepts exactly the commitment to the key, the nonce and the time.
  verify_commitment_iff :
      (expected : Text) (key iv : Bytes) (t : ℕ)
      → (verify_commitment c k (some (str expected)) key iv (some t) ≡ ok true)
        ↔ (expected ≡ commitment c k key iv t)
  unfolding verify_commitment eq_hex_value
  verify_commitment_iff expected key iv t =
      let (sound, complete) = constant_time_eq_hex_iff (commitment c k key iv t) expected in
      (λ e. sym (sound (ok_injective e)), λ e. ap ok (complete (sym e)))
    where
      ok_injective : {a b : Bool} → ok a ≡ ok b → a ≡ b
      ok_injective e = cc

module _ (c : Codec) (codec : IsCodec c) (k : Crypto) (crypto : IsCrypto k) (key iv : Bytes)
    (plaintext : Text) (t : ℕ) where
  -- What `symSeal` returns for a well-formed plaintext passes the check of its commitment, and
  -- `symOpen` gives the plaintext back.
  pub sym_open-sym_seal :
      is_scalar_text plaintext ≡ true
      → let sealed = sym_seal c k key iv plaintext t in
        (verify_commitment c k (some (str sealed.commit)) sealed.key sealed.iv (some t) ≡ ok true)
        × (sym_open c k sealed.ct sealed.iv sealed.key ≡ ok plaintext)
  unfolding sym_seal sym_open
  sym_open-sym_seal h = (
    (verify_commitment_iff c k (commitment c k key iv t) key iv t).1 refl,
    rw (crypto.decrypt-encrypt key iv (c.encode plaintext))
        (rw (codec.decode-encode_text plaintext h)),
  )
