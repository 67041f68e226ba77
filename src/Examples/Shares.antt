-- ===== src/Examples/Shares.antt =====
-- The two links of an item on concrete inputs.
use sealed_sky_verification.Common.{◌≡◌, ◌≢◌, refl, none, some, [], ◌++◌}
use sealed_sky_verification.Common.Text.{Text, codes}
use sealed_sky_verification.Base64.{btoa}
use sealed_sky_verification.Codec.{is_scalar_text}
use sealed_sky_verification.Codec.Simple as SimpleCodec
use sealed_sky_verification.Queue.{ctrng, QueueItem}
use sealed_sky_verification.Share.{
  ImportedItem, imported, shared_key, build_share_url, parse_fragment, read_key_fragment,
}
use sealed_sky_verification.Share.Url.{search_params, get_param}
use sealed_sky_verification.Share.Link.{
  IsKey, parse_fragment-build_share_url, read_key_fragment-build_share_url,
}
use sealed_sky_verification.Examples.Data.{codec, capsule_key}

abbrev origin : ImportedItem
origin = record { envelope = btoa capsule_key; created_at = 1700000000; ctrng_key_b64 = none }

abbrev shared : QueueItem
shared = record (imported (codes "a") origin ctrng) { ctrng_key_b64 = some (btoa capsule_key) }

abbrev named : QueueItem
named = record shared { capsule_ens = some (codes "c.eth") }

capsule_key-ne-nil : capsule_key ≢ []
capsule_key-ne-nil e = cc e

shared-IsKey : IsKey (shared_key ctrng (some (btoa capsule_key)))
unfolding btoa
shared-IsKey = (capsule_key, capsule_key-ne-nil, refl)

parse_fragment-build_share_url_example :
    (hash : Text) × (build_share_url codec (codes "https://x/") shared ≡ codes "https://x/" ++ hash)
    × (parse_fragment codec hash 9
        ≡ some (record {
          envelope = shared.envelope;
          created_at = shared.created_at;
          ctrng_key_b64 = shared_key shared.backend shared.ctrng_key_b64;
        }))
parse_fragment-build_share_url_example =
    parse_fragment-build_share_url codec SimpleCodec.simple-IsAsciiCodec (codes "https://x/") shared
      9 capsule_key refl refl capsule_key-ne-nil shared-IsKey

read_key_fragment-build_share_url_example :
    (search_text hash : Text) × (build_share_url codec (codes "https://x/") named
      ≡ codes "https://x/" ++ (search_text ++ hash))
    × (get_param (codes "ens") (search_params codec search_text) ≡ some (codes "c.eth"))
    × (read_key_fragment codec hash ≡ shared_key named.backend named.ctrng_key_b64)
unfolding is_scalar_text
read_key_fragment-build_share_url_example =
    read_key_fragment-build_share_url codec SimpleCodec.simple-IsAsciiCodec
      SimpleCodec.simple-IsCodec (codes "https://x/") named (codes "c.eth") refl refl shared-IsKey
