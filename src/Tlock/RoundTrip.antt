-- ===== src/Tlock/RoundTrip.antt =====
-- lib/tlock.ts: the two conversions, and encrypt followed by decrypt.
use sealed_sky_verification.Common.{
  ℕ, ◌≡◌, refl, ap, sym, ◌∙◌, ◌%◌, true, [], ◌∷◌, ◌++◌, All, arith,
}
use mathlib.Core.List.{append-nil, append_assoc}
use sealed_sky_verification.Common.Text.{Text}
use sealed_sky_verification.Base64.Laws.{IsByte}
use sealed_sky_verification.Bytes.{Bytes}
use sealed_sky_verification.Codec.{Codec, IsCodec, is_scalar_text}
use sealed_sky_verification.Errors.{ok}
use sealed_sky_verification.Tlock.{
  Timelock, bin_str_to_bytes, bin_str_loop, bytes_to_bin_str, encrypt, decrypt,
}

bin_str_loop-append : (s : Text) (bs : Bytes) → bin_str_loop s bs ≡ s ++ bs
unfolding bin_str_loop
bin_str_loop-append s [] = sym (append-nil s)
bin_str_loop-append s (b ∷ bs) = bin_str_loop-append (s ++ (b ∷ [])) bs ∙ append_assoc s (b ∷ []) bs

bin_str_to_bytes_of_bytes : (s : Text) → All IsByte s → bin_str_to_bytes s ≡ s
unfolding bin_str_to_bytes
bin_str_to_bytes_of_bytes [] h = refl
bin_str_to_bytes_of_bytes (c ∷ s) (p, h) =
    let small : c % 256 ≡ c = omega (arith, p) in rw (small, bin_str_to_bytes_of_bytes s h) refl

-- The text of bytes that were made of a text of code units below 256 is that text.
bytes_to_bin_str-bin_str_to_bytes :
    (s : Text) → All IsByte s → bytes_to_bin_str (bin_str_to_bytes s) ≡ s
unfolding bytes_to_bin_str
bytes_to_bin_str-bin_str_to_bytes s h =
    rw (bin_str_to_bytes_of_bytes s h) (bin_str_loop-append [] s)

-- A well-formed text is encrypted and decrypted to itself, where tlock-js encrypts its bytes, the
-- decoded armour is a text of code units below 256, and tlock-js, the round being out, decrypts it to
-- those bytes.
pub decrypt-encrypt :
    (c : Codec) (t : Timelock) (round : ℕ) (plaintext armored raw_bin : Text)
    → IsCodec c
    → is_scalar_text plaintext ≡ true
    → t.tl_encrypt round (c.encode plaintext) ≡ ok armored
    → t.decode_armor armored ≡ ok raw_bin
    → All IsByte raw_bin
    → t.tl_decrypt raw_bin ≡ ok (c.encode plaintext)
    → (ct : Bytes) × (encrypt c t round plaintext ≡ ok ct)
      × All IsByte ct
      × (decrypt c t ct ≡ ok plaintext)
unfolding encrypt decrypt
decrypt-encrypt c t round plaintext armored raw_bin laws scalar e d bytes u =
    let same = bytes_to_bin_str-bin_str_to_bytes raw_bin bytes in
    (
      bin_str_to_bytes raw_bin,
      rw e (rw d refl),
      rw (bin_str_to_bytes_of_bytes raw_bin bytes) bytes,
      rw same (rw u (ap ok (laws.decode-encode_text plaintext scalar))),
    )
