-- ===== src/Ctrng.antt =====
-- sealed-sky-web/src/lib/ctrng.ts: the beacon of SpaceComputer and its gateways.
pub mod Laws
use sealed_sky_verification.Common.{
  ℕ, ◌+◌, ◌-◌, ◌*◌, ◌/◌, Bool, false, Option, none, some, List, [], ◌∷◌, ◌++◌, ◌==◌, leb,
  if◌then◌else◌,
}
use sealed_sky_verification.Common.Text.{Text, codes, text_eq}
use sealed_sky_verification.Errors.{Error, Result, ok, err, http, malformed_beacon, ◌>>=◌}
use sealed_sky_verification.Http.{
  Response, failed, replied, is_ok, Attempt, answer, retry, or_all_failed,
}
use sealed_sky_verification.Json.{Json, Items, nil, cons, null, num, arr, obj, get_field}
use sealed_sky_verification.Drand.{ceil_div}

abbrev pub ctrng_ipns_key : Text
ctrng_ipns_key = codes "k2k4r8lvomw737sajfnpav0dpeernugnryng50uheyk1k39lursmn09f"

abbrev pub ctrng_gateways : List Text
ctrng_gateways =
    (codes "https://ipfs.io/ipns/" ++ ctrng_ipns_key)
    ∷ (codes "https://dweb.link/ipns/" ++ ctrng_ipns_key)
    ∷ (codes "https://gateway.pinata.cloud/ipns/" ++ ctrng_ipns_key)
    ∷ []

pub record BeaconBlock : Type 0 where
  pub sequence : ℕ
  pub timestamp : ℕ
  pub ctrng : Items
  pub previous : Json
  pub source_url : Text

-- `value?.k`
unfoldable pub optional_property : Text → Option Json → Option Json
unfolding get_field
optional_property k (some (obj fs)) = get_field k fs
optional_property k _ = none

abbrev or_null : Option Json → Json
or_null none = null
or_null (some v) = v

-- The block of the three fields, if they have the types that `normalize` tests for.
normalize_fields : Option Json → Option Json → Option Json → Json → Text → Result BeaconBlock
normalize_fields (some (num seq)) (some (num ts)) (some (arr r)) previous source_url = ok (record {
  sequence = seq;
  timestamp = ts;
  ctrng = r;
  previous = previous;
  source_url = source_url;
})
normalize_fields seq ts r previous source_url = err malformed_beacon

unfoldable pub normalize : Json → Text → Result BeaconBlock
unfolding optional_property normalize_fields
normalize raw source_url =
    let inner = optional_property (codes "data") (some raw) in
    normalize_fields (optional_property (codes "sequence") inner)
      (optional_property (codes "timestamp") inner) (optional_property (codes "ctrng") inner)
      (or_null (optional_property (codes "previous") (some raw))) source_url

-- What `try` makes of a result: an answer, or the error with which the loop goes on.
abbrev try : Result BeaconBlock → Attempt BeaconBlock
try (ok b) = answer b
try (err e) = retry e

unfoldable pub attempt_beacon : Text → Response Json → Attempt BeaconBlock
attempt_beacon url (failed e) = retry e
attempt_beacon url (replied status body) =
    if is_ok status then try (do raw ← body; normalize raw url) else retry (http status)

module _ (fetch : Text → Response Json) where
  fetch_beacon_from : Option Error → List Text → Result BeaconBlock
  fetch_beacon_from last_err [] = err (or_all_failed (codes "all cTRNG gateways failed") last_err)
  fetch_beacon_from last_err (url ∷ urls) = elim (attempt_beacon url (fetch url)) [
    | answer b ↦ ok b
    | retry e ↦ fetch_beacon_from (some e) urls
  ]

  unfoldable pub fetch_latest_beacon : Result BeaconBlock
  unfolding fetch_beacon_from
  fetch_latest_beacon = fetch_beacon_from none ctrng_gateways

abbrev starts_with_slash : Text → Bool
starts_with_slash [] = false
starts_with_slash (c ∷ s) = c == b'/'

unfoldable pub gateway_url_for_cid : Text → Text
gateway_url_for_cid cid_path =
    let path = if starts_with_slash cid_path then cid_path else b'/' ∷ cid_path in
    codes "https://ipfs.io" ++ path

abbrev pub seconds_per_block : ℕ
seconds_per_block = 60

unfoldable pub estimate_target_sequence : ℕ → BeaconBlock → ℕ
estimate_target_sequence unlock_unix reference =
    if leb unlock_unix reference.timestamp
    then reference.sequence
    else reference.sequence + ceil_div (unlock_unix - reference.timestamp) seconds_per_block
