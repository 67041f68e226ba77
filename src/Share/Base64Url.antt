-- ===== src/Share/Base64Url.antt =====
-- The base64 of bytes survives the form that a URL can carry.
use sealed_sky_verification.Common.{
  ℕ, zero, suc, ◌+◌, ◌*◌, ◌/◌, ◌%◌, ◌≡◌, ◌≢◌, refl, ap, ◌∙◌, List, [], ◌∷◌, ◌++◌, map, length,
  arith, length-append, All,
}
use sealed_sky_verification.Common.Text.{Text}
use sealed_sky_verification.Base64.{char_of, btoa}
use sealed_sky_verification.Base64.Laws.{IsBase64, char_of-IsBase64}
use sealed_sky_verification.Share.Url.Params.{IsSafe}
use sealed_sky_verification.Share.{
  url_char, plain_char, strip_pads, b64_url_encode, pad_loop, b64_url_decode,
}

plain_char-url_char : (c : ℕ) → IsBase64 c → plain_char (url_char c) ≡ c
plain_char-url_char c h = ground arith

url_char-ne-pad : (c : ℕ) → IsBase64 c → url_char c ≢ 61
url_char-ne-pad c h = ground arith

strip_pads-cons : (c : ℕ) (s : Text) → c ≢ 61 → strip_pads (c ∷ s) ≡ c ∷ strip_pads s
unfolding strip_pads
strip_pads-cons c s h = ground arith

-- A group of four before a text leaves the loop as it is.
pad_loop-quad :
    (fuel : ℕ) (w x y z : ℕ) (s : Text)
    → pad_loop fuel (w ∷ x ∷ y ∷ z ∷ s) ≡ w ∷ x ∷ y ∷ z ∷ pad_loop fuel s
unfolding pad_loop
pad_loop-quad zero w x y z s = refl
pad_loop-quad (suc fuel) w x y z s = ground (arith, pad_loop-quad fuel w x y z (s ++ (61 ∷ [])))

url_char-IsSafe : (n : ℕ) → IsSafe (url_char (char_of n))
unfolding char_of
url_char-IsSafe n = ground arith

-- One character of the alphabet at the front of a text.
strip_pads-char :
    (n : ℕ) (s : Text) → strip_pads (url_char (char_of n) ∷ s) ≡ url_char (char_of n) ∷ strip_pads s
strip_pads-char n s =
    strip_pads-cons (url_char (char_of n)) s (url_char-ne-pad (char_of n) (char_of-IsBase64 n))

back : (n : ℕ) → plain_char (url_char (char_of n)) ≡ char_of n
back n = plain_char-url_char (char_of n) (char_of-IsBase64 n)

strip_two :
    (m n : ℕ) (s : Text)
    → strip_pads (url_char (char_of m) ∷ url_char (char_of n) ∷ s)
      ≡ url_char (char_of m) ∷ url_char (char_of n) ∷ strip_pads s
strip_two m n s =
    strip_pads-char m (url_char (char_of n) ∷ s)
    ∙ ap (λ t. url_char (char_of m) ∷ t) (strip_pads-char n s)

strip_four :
    (m n o p : ℕ) (s : Text)
    → strip_pads (
        url_char (char_of m)
        ∷ url_char (char_of n)
        ∷ url_char (char_of o)
        ∷ url_char (char_of p)
        ∷ s)
      ≡ url_char (char_of m)
        ∷ url_char (char_of n)
        ∷ url_char (char_of o)
        ∷ url_char (char_of p)
        ∷ strip_pads s
strip_four m n o p s =
    strip_two m n (url_char (char_of o) ∷ url_char (char_of p) ∷ s)
    ∙ ap (λ t. url_char (char_of m) ∷ url_char (char_of n) ∷ t) (strip_two o p s)

-- No padding is left, so what stands in a URL needs no escape.
pub b64_url_encode-IsSafe : (bs : List ℕ) → All IsSafe (b64_url_encode (btoa bs))
unfolding b64_url_encode btoa strip_pads
b64_url_encode-IsSafe [] = tt
b64_url_encode-IsSafe (a ∷ []) =
    rw (strip_two (a / 4) (a % 4 * 16) (61 ∷ 61 ∷ [])) (url_char-IsSafe _, (url_char-IsSafe _, tt))
b64_url_encode-IsSafe (a ∷ b ∷ []) =
    rw
      (
        strip_two (a / 4) (a % 4 * 16 + b / 16) (url_char (char_of (b % 16 * 4)) ∷ 61 ∷ []),
        strip_pads-char (b % 16 * 4) (61 ∷ []),
      )
      (url_char-IsSafe _, (url_char-IsSafe _, (url_char-IsSafe _, tt)))
b64_url_encode-IsSafe (a ∷ b ∷ c ∷ r) =
    rw
      (strip_four (a / 4) (a % 4 * 16 + b / 16) (b % 16 * 4 + c / 64) (c % 64)
        (map url_char (btoa r)))
      (
        url_char-IsSafe _,
        (url_char-IsSafe _, (url_char-IsSafe _, (url_char-IsSafe _, b64_url_encode-IsSafe r))),
      )

decode_two :
    (m n : ℕ)
    → b64_url_decode (strip_pads (map url_char (char_of m ∷ char_of n ∷ 61 ∷ 61 ∷ [])))
      ≡ char_of m ∷ char_of n ∷ 61 ∷ 61 ∷ []
unfolding b64_url_decode strip_pads
decode_two m n = ap b64_url_decode (strip_two m n (61 ∷ 61 ∷ [])) ∙ rw (back m, back n)

decode_three :
    (m n o : ℕ)
    → b64_url_decode (strip_pads (map url_char (char_of m ∷ char_of n ∷ char_of o ∷ 61 ∷ [])))
      ≡ char_of m ∷ char_of n ∷ char_of o ∷ 61 ∷ []
unfolding b64_url_decode strip_pads
decode_three m n o =
    ap b64_url_decode (
      strip_two m n (url_char (char_of o) ∷ 61 ∷ [])
      ∙ ap (λ t. url_char (char_of m) ∷ url_char (char_of n) ∷ t) (strip_pads-char o (61 ∷ [])))
    ∙ rw (back m, back n, back o)

decode_four :
    (m n o p : ℕ) (s : Text)
    → b64_url_decode (strip_pads (map url_char (char_of m ∷ char_of n ∷ char_of o ∷ char_of p ∷ s)))
      ≡ char_of m ∷ char_of n ∷ char_of o ∷ char_of p ∷ b64_url_decode (strip_pads (map url_char s))
unfolding b64_url_decode
decode_four m n o p s =
    ap b64_url_decode (strip_four m n o p (map url_char s))
    ∙ pad_loop-quad 3 (plain_char (url_char (char_of m))) (plain_char (url_char (char_of n)))
        (plain_char (url_char (char_of o))) (plain_char (url_char (char_of p)))
        (map plain_char (strip_pads (map url_char s)))
    ∙ rw (back m, back n, back o, back p)

-- What `b64UrlEncode` writes for the base64 of bytes, `b64UrlDecode` reads back.
pub b64_url_decode-b64_url_encode :
    (bs : List ℕ) → b64_url_decode (b64_url_encode (btoa bs)) ≡ btoa bs
unfolding b64_url_encode btoa b64_url_decode
b64_url_decode-b64_url_encode [] = refl
b64_url_decode-b64_url_encode (a ∷ []) = decode_two (a / 4) (a % 4 * 16)
b64_url_decode-b64_url_encode (a ∷ b ∷ []) = decode_three (a / 4) (a % 4 * 16 + b / 16) (b % 16 * 4)
b64_url_decode-b64_url_encode (a ∷ b ∷ c ∷ r) =
    let m = a / 4 in
    let n = a % 4 * 16 + b / 16 in
    let o = b % 16 * 4 + c / 64 in
    let p = c % 64 in
    decode_four m n o p (btoa r)
    ∙ ap (λ t. char_of m ∷ char_of n ∷ char_of o ∷ char_of p ∷ t) (b64_url_decode-b64_url_encode r)

abbrev pad : Text
pad = 61 ∷ []

-- Whatever text it is given, `b64UrlDecode` ends with a length that is a multiple of four.
length-b64_url_decode : (s : Text) → length (b64_url_decode s) % 4 ≡ 0
unfolding b64_url_decode pad_loop
length-b64_url_decode s =
    let t = map plain_char s in
    ground (
      arith,
      length-append {0} t pad,
      length-append {0} (t ++ pad) pad,
      length-append {0} ((t ++ pad) ++ pad) pad,
    )
