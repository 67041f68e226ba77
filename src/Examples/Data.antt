-- ===== src/Examples/Data.antt =====
-- Texts, keys and items of the examples.
use sealed_sky_verification.Common.{[], ◌∷◌}
use sealed_sky_verification.Common.Text.{codes}
use sealed_sky_verification.Bytes.{Bytes}
use sealed_sky_verification.Codec.Simple as SimpleCodec
use sealed_sky_verification.Symmetric.Simple as SimpleCrypto
use sealed_sky_verification.Codec.{Codec}
use sealed_sky_verification.Symmetric.{Crypto}
use sealed_sky_verification.Json.{nil, cons, null, str}
use sealed_sky_verification.Drand.{ChainInfo}
use sealed_sky_verification.Ctrng.{BeaconBlock}

abbrev pub codec : Codec
codec = SimpleCodec.simple

abbrev pub crypto : Crypto
crypto = SimpleCrypto.simple

-- The schedule of quicknet, in small.
abbrev pub quick : ChainInfo
quick = record { period = 3; genesis_time = 100 }

abbrev pub beacon : BeaconBlock
beacon = record {
  sequence = 40;
  timestamp = 2000;
  ctrng = cons (str (codes "7f")) nil;
  previous = null;
  source_url = codes "https://ipfs.io";
}

abbrev pub capsule_key : Bytes
capsule_key = 1 ∷ 2 ∷ 3 ∷ []

abbrev pub capsule_iv : Bytes
capsule_iv = 9 ∷ 8 ∷ []
