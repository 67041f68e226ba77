-- ===== src/Symmetric/Simple.antt =====
-- Primitives by hand that meet the laws: a cipher that leaves the plaintext, and a digest that is
-- the text itself.
use sealed_sky_verification.Common.{◌%◌, refl, some, [], ◌∷◌, map, All, arith}
use sealed_sky_verification.Base64.Laws.{IsByte}
use sealed_sky_verification.Bytes.{Bytes}
use sealed_sky_verification.Symmetric.{Crypto, IsCrypto}

map-mod_256-IsByte : (d : Bytes) → All IsByte (map (λ c. c % 256) d)
map-mod_256-IsByte [] = tt
map-mod_256-IsByte (b ∷ d) = (omega arith, map-mod_256-IsByte d)

abbrev pub simple : Crypto
simple = record {
  encrypt = λ key iv pt. pt;
  decrypt = λ key iv ct. some ct;
  sha_256 = map (λ c. c % 256);
}

pub simple-IsCrypto : IsCrypto simple
simple-IsCrypto = record {
  decrypt-encrypt = λ key iv pt. refl;
  encrypt-IsByte = λ key iv pt h. h;
  sha_256-IsByte = map-mod_256-IsByte;
}
