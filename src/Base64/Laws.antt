-- ===== src/Base64/Laws.antt =====
-- What `btoa` writes, `atob` reads back.
use sealed_sky_verification.Common.{
  ℕ, ◌+◌, ◌*◌, ◌/◌, ◌%◌, ◌<◌, ◌≡◌, refl, ◌≢◌, ◌⊎◌, inl, inr, some, List, [], ◌∷◌, arith, length,
  All, filter, not,
}
use sealed_sky_verification.Common.Text.{Text}
use sealed_sky_verification.Base64.{char_of, sextet_of, btoa, is_space, unpad, decode, atob}

abbrev pub IsByte : ℕ → Type 0
IsByte b = b < 256

-- The alphabet of base64, without the padding.
pub record IsBase64 (c : ℕ) : Type 0 where
  pub visible : 42 < c
  pub no_pad : c ≢ 61
  pub low : c < 123
  pub no_dash : c ≢ 45
  pub no_underscore : c ≢ 95

pub char_of-IsBase64 : (n : ℕ) → IsBase64 (char_of n)
unfolding char_of
char_of-IsBase64 n = ground arith

sextet_of-char_of : (n : ℕ) → n < 64 → sextet_of (char_of n) ≡ some n
unfolding char_of sextet_of
sextet_of-char_of n h = ground arith

decode_quad :
    (a b c : ℕ) (t : Text) {bs : List ℕ}
    → IsByte a
    → IsByte b
    → IsByte c
    → decode t ≡ some bs
    → decode (
        char_of (a / 4)
        ∷ char_of (a % 4 * 16 + b / 16)
        ∷ char_of (b % 16 * 4 + c / 64)
        ∷ char_of (c % 64)
        ∷ t)
      ≡ some (a ∷ b ∷ c ∷ bs)
unfolding decode
decode_quad a b c t ha hb hc e = ground (
  arith,
  sextet_of-char_of (a / 4),
  sextet_of-char_of (a % 4 * 16 + b / 16),
  sextet_of-char_of (b % 16 * 4 + c / 64),
  sextet_of-char_of (c % 64),
)

-- `unpad` looks at the last four characters only.
unpad_quad : (w x y z : ℕ) (r : Text) → z ≢ 61 → unpad (w ∷ x ∷ y ∷ z ∷ r) ≡ w ∷ x ∷ y ∷ z ∷ unpad r
unfolding unpad
unpad_quad w x y z [] h = ground arith
unpad_quad w x y z (v ∷ r) h = refl

decode-unpad-btoa : (bs : List ℕ) → All IsByte bs → decode (unpad (btoa bs)) ≡ some bs
unfolding btoa unpad decode
decode-unpad-btoa [] h = refl
decode-unpad-btoa (a ∷ []) h =
    ground (arith, sextet_of-char_of (a / 4), sextet_of-char_of (a % 4 * 16))
decode-unpad-btoa (a ∷ b ∷ []) h = ground (
  arith,
  sextet_of-char_of (a / 4),
  sextet_of-char_of (a % 4 * 16 + b / 16),
  sextet_of-char_of (b % 16 * 4),
  char_of-IsBase64 (b % 16 * 4),
)
decode-unpad-btoa (a ∷ b ∷ c ∷ r) (ha, (hb, (hc, h))) =
    rw (unpad_quad _ _ _ _ (btoa r) (char_of-IsBase64 (c % 64)).no_pad)
      (decode_quad a b c (unpad (btoa r)) ha hb hc (decode-unpad-btoa r h))

abbrev pub IsBase64OrPad : ℕ → Type 0
IsBase64OrPad c = IsBase64 c ⊎ (c ≡ 61)

-- `btoa` writes the alphabet and the padding only, in groups of four.
pub btoa-All : (bs : List ℕ) → All IsBase64OrPad (btoa bs)
unfolding btoa
btoa-All [] = tt
btoa-All (a ∷ []) =
    (inl (char_of-IsBase64 _), (inl (char_of-IsBase64 _), (inr refl, (inr refl, tt))))
btoa-All (a ∷ b ∷ []) =
    let quad = char_of-IsBase64 in (inl (quad _), (inl (quad _), (inl (quad _), (inr refl, tt))))
btoa-All (a ∷ b ∷ c ∷ r) =
    let quad = char_of-IsBase64 in
    (inl (quad _), (inl (quad _), (inl (quad _), (inl (quad _), btoa-All r))))

length-btoa : (bs : List ℕ) → length (btoa bs) ≡ 4 * ((length bs + 2) / 3)
unfolding btoa
length-btoa [] = refl
length-btoa (a ∷ []) = refl
length-btoa (a ∷ b ∷ []) = refl
length-btoa (a ∷ b ∷ c ∷ r) = omega (arith, length-btoa r)

-- Neither space nor control character stands in base64, so nothing is stripped.
strip_of_IsBase64 : (s : Text) → All IsBase64OrPad s → filter (λ c. not (is_space c)) s ≡ s
unfolding filter
strip_of_IsBase64 [] h = refl
strip_of_IsBase64 (c ∷ s) (p, h) = ground (arith, strip_of_IsBase64 s h)

length-btoa_mod : (bs : List ℕ) → length (btoa bs) % 4 ≡ 0
length-btoa_mod bs = omega (arith, length-btoa bs)

-- Decoding the base64 of bytes gives the bytes back.
pub atob-btoa : (bs : List ℕ) → All IsByte bs → atob (btoa bs) ≡ some bs
unfolding atob
atob-btoa bs h =
    rw (strip_of_IsBase64 (btoa bs) (btoa-All bs), length-btoa_mod bs) (decode-unpad-btoa bs h)
