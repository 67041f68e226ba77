-- ===== src/Symmetric/Commitment.antt =====
-- What the commitment commits to.
use sealed_sky_verification.Common.{
  ℕ, ◌^◌, ◌<◌, ◌≡◌, ◌≢◌, refl, ◌⊎◌, inl, inr, [], ◌∷◌, ◌++◌, arith, length, All, Bool-cases,
}
use sealed_sky_verification.Common.Text.{text_eq, text_eq_iff}
use sealed_sky_verification.Bytes.{Bytes, bytes_to_hex, u64_be_bytes}
use sealed_sky_verification.Bytes.Hex.{hex_to_bytes-bytes_to_hex}
use sealed_sky_verification.Bytes.Words.{length-u64_be_bytes, u64_be_bytes_injective}
use sealed_sky_verification.Bytes.Concat.{concat-joined}
use sealed_sky_verification.Base64.Laws.{IsByte}
use sealed_sky_verification.Codec.{Codec}
use sealed_sky_verification.Symmetric.{Crypto, IsCrypto, commit_label, commit_data, commitment}

append_cancel :
    (xs ys xs' ys' : Bytes)
    → length xs ≡ length xs'
    → xs ++ ys ≡ xs' ++ ys'
    → (xs ≡ xs') × (ys ≡ ys')
append_cancel [] ys [] ys' l e = (refl, e)
append_cancel [] ys (x ∷ xs') ys' l e = absurd (omega arith)
append_cancel (x ∷ xs) ys [] ys' l e = absurd (omega arith)
append_cancel (x ∷ xs) ys (x' ∷ xs') ys' l e =
    let (same, rest) = append_cancel xs ys xs' ys' (omega arith) (cc) in (cc, rest)

module _ (c : Codec) (key key' iv iv' : Bytes) (t t' : ℕ) where
  -- Keys of one length and nonces of one length: the committed bytes determine all three.
  commit_data_injective :
      length key ≡ length key'
      → length iv ≡ length iv'
      → t < 2 ^ 64
      → t' < 2 ^ 64
      → commit_data c key iv t ≡ commit_data c key' iv' t'
      → (key ≡ key') × (iv ≡ iv') × (t ≡ t')
  commit_data_injective lk li ht ht' e =
      let joins = rw (concat-joined, concat-joined) at e in
      let (_, tail) = append_cancel (commit_label c) _ (commit_label c) _ refl joins in
      let (same_key, tail') = append_cancel key _ key' _ lk tail in
      let (same_iv, tail'') = append_cancel iv _ iv' _ li tail' in
      let (same_time, _) =
        append_cancel (u64_be_bytes t) [] (u64_be_bytes t') []
          (omega (arith, length-u64_be_bytes t, length-u64_be_bytes t')) tail'' in
      (same_key, same_iv, u64_be_bytes_injective t t' ht ht' same_time)

-- Two different byte strings with one SHA-256 digest.
abbrev pub Collision : Crypto → Type 0
Collision k = (d : Bytes) × (d' : Bytes) × (d ≢ d') × (k.sha_256 d ≡ k.sha_256 d')

bytes_to_hex_injective :
    (a b : Bytes) → All IsByte a → All IsByte b → bytes_to_hex a ≡ bytes_to_hex b → a ≡ b
bytes_to_hex_injective a b ha hb e =
    cc (hex_to_bytes-bytes_to_hex a ha, hex_to_bytes-bytes_to_hex b hb)

module _ (c : Codec) (k : Crypto) (crypto : IsCrypto k) (key key' iv iv' : Bytes) (t t' : ℕ) where
  -- The commitment binds: for keys of one length, nonces of one length and 64-bit times, two
  -- openings of one commitment are the same key, nonce and unlock time, or else they exhibit a
  -- collision of SHA-256.
  pub commitment_binding :
      length key ≡ length key'
      → length iv ≡ length iv'
      → t < 2 ^ 64
      → t' < 2 ^ 64
      → commitment c k key iv t ≡ commitment c k key' iv' t'
      → ((key ≡ key') × (iv ≡ iv') × (t ≡ t')) ⊎ Collision k
  unfolding commitment
  commitment_binding lk li ht ht' e =
      let d = commit_data c key iv t in
      let d' = commit_data c key' iv' t' in
      let digests =
        bytes_to_hex_injective (k.sha_256 d) (k.sha_256 d') (crypto.sha_256-IsByte d)
          (crypto.sha_256-IsByte d') e in
      elim (Bool-cases (text_eq d d')) [
        | inl same ↦
            inl (
              commit_data_injective c key key' iv iv' t t' lk li ht ht' ((text_eq_iff d d').0 same))
        | inr other ↦ inr (d, d', (λ p. cc (other, (text_eq_iff d d').1 p)), digests)
      ]
