-- ===== src/Examples/Forms.antt =====
-- The device form on a text that is edited while its first digest is being computed.
use sealed_sky_verification.Common.{◌≡◌, refl, true, false, some, [], ◌∷◌, ◌++◌}
use sealed_sky_verification.Common.Text.{codes, text_eq}
use sealed_sky_verification.Usb.{sha_256_utf8_hex_0x, SignRequest, sign_request}
use sealed_sky_verification.Usb.Form.{
  Run, UsbForm, mount, set_sealed_sky_text, hash_ended, click_sign, start_hash,
}
use sealed_sky_verification.Usb.Form.Hashing.{
  digest_of, result_of, types, hashes, Reach, here, next, Reach-click_sign,
}
use sealed_sky_verification.Examples.Data.{codec, crypto}

abbrev mounted : UsbForm
mounted = mount (codes "a") (codes "hi") 17000

abbrev edited : UsbForm
edited = set_sealed_sky_text (codes "ho") mounted

abbrev stale : Run
stale = record { text = codes "hi"; cancelled = true }

abbrev live : Run
live = record { text = codes "ho"; cancelled = false }

-- The digest of the edited text comes first, that of the text before it afterwards.
abbrev hashed : UsbForm
hashed = hash_ended live (result_of codec crypto true (codes "ho")) ([] ++ (stale ∷ [])) edited

hashed-Reach : Reach codec crypto mounted hashed
unfolding mount set_sealed_sky_text hash_ended start_hash text_eq
hashed-Reach =
    next (next (here mounted) (types (codes "ho") mounted))
      (hashes live true [] (stale ∷ []) edited refl)

abbrev request : SignRequest
request = sign_request hashed.sealed_sky_text hashed.timestamp (digest_of codec crypto (codes "ho"))

hashed-click_sign : (click_sign hashed).1 ≡ some request
unfolding click_sign mount set_sealed_sky_text hash_ended start_hash text_eq sha_256_utf8_hex_0x
hashed-click_sign = refl

Reach-click_sign_example :
    request
    ≡ sign_request hashed.sealed_sky_text hashed.timestamp
        (digest_of codec crypto hashed.sealed_sky_text)
unfolding mount set_sealed_sky_text hash_ended start_hash text_eq
Reach-click_sign_example =
    Reach-click_sign codec crypto (codes "a") (codes "hi") 17000 hashed request hashed-Reach refl
      hashed-click_sign
