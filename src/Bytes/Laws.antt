-- ===== src/Bytes/Laws.antt =====
-- Bytes to base64 text and back.
use sealed_sky_verification.Common.{◌%◌, ◌≡◌, refl, sym, ◌∙◌, some, [], ◌∷◌, ◌++◌, map, All, arith}
use sealed_sky_verification.Common.Text.{Text}
use sealed_sky_verification.Base64.{btoa}
use sealed_sky_verification.Base64.Laws.{IsByte, atob-btoa}
use sealed_sky_verification.Bytes.{Bytes, bin_loop, bytes_to_b64, b64_to_bytes}
use mathlib.Core.List.{append-nil, append_assoc}

bin_loop-append : (bin : Text) (bs : Bytes) → bin_loop bin bs ≡ bin ++ bs
unfolding bin_loop
bin_loop-append bin [] = sym (append-nil bin)
bin_loop-append bin (b ∷ bs) = bin_loop-append (bin ++ (b ∷ [])) bs ∙ append_assoc bin (b ∷ []) bs

pub bytes_to_b64-btoa : (bs : Bytes) → bytes_to_b64 bs ≡ btoa bs
unfolding bytes_to_b64
bytes_to_b64-btoa bs = rw (bin_loop-append [] bs)

map-mod_256 : (bs : Bytes) → All IsByte bs → map (λ c. c % 256) bs ≡ bs
map-mod_256 [] h = refl
map-mod_256 (b ∷ bs) (p, h) = ground (arith, map-mod_256 bs h)

-- A byte array comes back from its base64 text unchanged.
pub b64_to_bytes-bytes_to_b64 :
    (bs : Bytes) → All IsByte bs → b64_to_bytes (bytes_to_b64 bs) ≡ some bs
unfolding b64_to_bytes
b64_to_bytes-bytes_to_b64 bs h = rw (bytes_to_b64-btoa bs, atob-btoa bs h) (rw (map-mod_256 bs h))
