-- ===== src/Base64.antt =====
-- `btoa` and `atob` of the browser, which sealed-sky-web/src/lib/bytes.ts calls. A binary string
-- is the list of its code units, which are bytes.
pub mod Laws
use sealed_sky_verification.Common.{
  ℕ, ◌+◌, ◌-◌, ◌*◌, ◌/◌, ◌%◌, Bool, ◌||◌, Option, none, some, List, [], ◌∷◌, ltb, leb, ◌==◌,
  if◌then◌else◌, length, filter, not, ◌&&◌, ◌≡◌, refl,
}
use sealed_sky_verification.Common.Text.{Text}

-- The character of a sextet.
unfoldable pub char_of : ℕ → ℕ
char_of n =
    if ltb n 26
    then n + b'A'
    else if ltb n 52
    then n - 26 + b'a'
    else if ltb n 62
    then n - 52 + b'0'
    else if n == 62
    then b'+'
    else b'/'

-- The sextet of a character; `none` outside the alphabet.
unfoldable pub sextet_of : ℕ → Option ℕ
sextet_of c =
    if leb b'A' c && leb c b'Z'
    then some (c - b'A')
    else if leb b'a' c && leb c b'z'
    then some (c - b'a' + 26)
    else if leb b'0' c && leb c b'9'
    then some (c - b'0' + 52)
    else if c == b'+'
    then some 62
    else if c == b'/'
    then some 63
    else none

unfoldable pub btoa : List ℕ → Text
btoa [] = []
btoa (a ∷ []) = char_of (a / 4) ∷ char_of (a % 4 * 16) ∷ b'=' ∷ b'=' ∷ []
btoa (a ∷ b ∷ []) =
    char_of (a / 4) ∷ char_of (a % 4 * 16 + b / 16) ∷ char_of (b % 16 * 4) ∷ b'=' ∷ []
btoa (a ∷ b ∷ c ∷ r) =
    char_of (a / 4)
    ∷ char_of (a % 4 * 16 + b / 16)
    ∷ char_of (b % 16 * 4 + c / 64)
    ∷ char_of (c % 64)
    ∷ btoa r

abbrev pub is_space : ℕ → Bool
is_space c = c == 9 || c == 10 || c == 12 || c == 13 || c == 32

-- One or two `=` leave the end of a text whose length is a multiple of four.
unpad : Text → Text
unpad (w ∷ x ∷ y ∷ z ∷ []) =
    if z == b'=' then (if y == b'=' then w ∷ x ∷ [] else w ∷ x ∷ y ∷ []) else w ∷ x ∷ y ∷ z ∷ []
unpad (w ∷ x ∷ y ∷ z ∷ r) = w ∷ x ∷ y ∷ z ∷ unpad r
unpad s = s

infixl 5 ◌>>=◌
abbrev ◌>>=◌ {ℓ κ} : {A : Type ℓ} {B : Type κ} → Option A → (A → Option B) → Option B
none >>= f = none
some a >>= f = f a

-- The bytes of the characters, four at a time; bits that fill no byte are dropped.
decode : Text → Option (List ℕ)
decode [] = some []
decode (w ∷ []) = none
decode (w ∷ x ∷ []) = do p ← sextet_of w; q ← sextet_of x; some ((p * 4 + q / 16) ∷ [])
decode (w ∷ x ∷ y ∷ []) = do
  p ← sextet_of w
  q ← sextet_of x
  r ← sextet_of y
  some ((p * 4 + q / 16) ∷ (q % 16 * 16 + r / 4) ∷ [])
decode (w ∷ x ∷ y ∷ z ∷ t) = do
  p ← sextet_of w
  q ← sextet_of x
  r ← sextet_of y
  s ← sextet_of z
  bs ← decode t
  some ((p * 4 + q / 16) ∷ (q % 16 * 16 + r / 4) ∷ (r % 4 * 64 + s) ∷ bs)

-- `none` is the InvalidCharacterError.
unfoldable pub atob : Text → Option (List ℕ)
unfolding decode unpad sextet_of
atob text =
    let s = filter (λ c. not (is_space c)) text in decode (if length s % 4 == 0 then unpad s else s)

-- btoa("hi!") and atob of texts with and without padding, with a space, and of a bad length.
tests :
    (btoa (104 ∷ 105 ∷ 33 ∷ []) ≡ 97 ∷ 71 ∷ 107 ∷ 104 ∷ [])
    × (atob (97 ∷ 71 ∷ 107 ∷ 61 ∷ []) ≡ some (104 ∷ 105 ∷ []))
    × (atob (97 ∷ 32 ∷ 71 ∷ 107 ∷ []) ≡ some (104 ∷ 105 ∷ []))
    × (atob (97 ∷ []) ≡ none)
unfolding btoa char_of atob filter
tests = (refl, refl, refl, refl)
