-- ===== src/Server/Sign/Stamp.antt =====
-- components/UsbSignInference.tsx: the number that the form reads of its timestamp field.
use sealed_sky_verification.Js.Decimal.{to_string-is_decimal}
use sealed_sky_verification.Common.{all, false, ◌<◌, ℕ, ◌≡◌, refl, ap, ◌∙◌, true, [], ◌∷◌, arith}
use sealed_sky_verification.Js.{is_digit, is_decimal, trim, to_string}
use sealed_sky_verification.Common.Text.{Text}
use sealed_sky_verification.Js.Numeric.{
  finite, number_of_text, number_of_text_of_decimal, overflow_bound,
}
use sealed_sky_verification.Json.{num, is_plain}
use sealed_sky_verification.Server.Log.{IsPlain}
use sealed_sky_verification.Server.Sign.Device.{IsHex, trim-IsHex}

digits-IsHex : (s : Text) → all is_digit s ≡ true → IsHex s
digits-IsHex [] h = tt
digits-IsHex (c ∷ s) h = (ground arith, digits-IsHex s (ground arith))

all_of_decimal : (s : Text) → is_decimal s ≡ true → all is_digit s ≡ true
unfolding is_decimal
all_of_decimal [] h = refl
all_of_decimal (c ∷ s) h = h

to_string-IsHex : (n : ℕ) → IsHex (to_string n)
to_string-IsHex n =
    digits-IsHex (to_string n) (all_of_decimal (to_string n) (to_string-is_decimal n))

small-finite : (n : ℕ) → IsPlain (num n) → n < overflow_bound
unfolding is_plain overflow_bound
small-finite n h = ground arith

-- What the page reads of the field.
pub stamp_number :
    (stamp : Text) (n : ℕ)
    → trim stamp ≡ to_string n
    → IsPlain (num n)
    → number_of_text (trim stamp) ≡ finite false n true
stamp_number stamp n stamped small =
    number_of_text_of_decimal (trim stamp) n
      (ap trim stamped ∙ trim-IsHex (to_string n) (to_string-IsHex n)) (small-finite n small)
