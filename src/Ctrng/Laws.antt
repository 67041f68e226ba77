-- ===== src/Ctrng/Laws.antt =====
-- The estimate of the beacon block, and where a block that is used comes from.
use sealed_sky_verification.Common.{
  ℕ, ◌+◌, ◌*◌, ◌≤◌, ◌≡◌, refl, true, Option, none, some, List, [], ◌∷◌, arith, inl, inr,
}
use sealed_sky_verification.Common.Text.{Text}
use sealed_sky_verification.Errors.{Error, ok, err}
use sealed_sky_verification.Http.{Response, failed, replied, is_ok, answer}
use sealed_sky_verification.Json.{Json}
use sealed_sky_verification.Drand.Fetch.{Attempt-cases}
use sealed_sky_verification.Ctrng.{
  BeaconBlock, normalize, attempt_beacon, fetch_beacon_from, fetch_latest_beacon, ctrng_gateways,
  estimate_target_sequence,
}
use mathlib.Core.List.{Memᴰ}

-- With one block each 60 seconds from the reference block on, the estimated block is the first
-- one, from the reference on, whose time is not before the unlock time.
pub estimate_target_sequence_first :
    (unlock : ℕ) (reference : BeaconBlock) (n : ℕ)
    → unlock ≤ reference.timestamp + 60 * n
    → (reference.sequence ≤ estimate_target_sequence unlock reference)
      × (estimate_target_sequence unlock reference ≤ reference.sequence + n)
      × (unlock + 60 * reference.sequence
          ≤ reference.timestamp + 60 * estimate_target_sequence unlock reference)
unfolding estimate_target_sequence
estimate_target_sequence_first unlock reference n h = ground arith

-- A good reply of a gateway whose body is a block.
abbrev pub Carries : Text → BeaconBlock → Response Json → Type 0
Carries url b reply =
    (status : ℕ) × (raw : Json) × (reply ≡ replied status (ok raw))
    × (is_ok status ≡ true)
    × (normalize raw url ≡ ok b)

attempt_beacon-Carries :
    (url : Text) (reply : Response Json) (b : BeaconBlock)
    → attempt_beacon url reply ≡ answer b
    → Carries url b reply
unfolding attempt_beacon
attempt_beacon-Carries url (failed e) b h = cc
attempt_beacon-Carries url (replied status (err e)) b h = absurd (ground arith)
attempt_beacon-Carries url (replied status (ok raw)) b h =
    (status, raw, refl, ground arith, ground arith)

module _ (fetch : Text → Response Json) where
  abbrev pub IsFetched : List Text → BeaconBlock → Type 0
  IsFetched urls b = (url : Text) × Memᴰ url urls × Carries url b (fetch url)

  fetch_beacon_from-IsFetched :
      (last : Option Error) (urls : List Text) (b : BeaconBlock)
      → fetch_beacon_from fetch last urls ≡ ok b
      → IsFetched urls b
  unfolding fetch_beacon_from
  fetch_beacon_from-IsFetched last [] b h = cc
  fetch_beacon_from-IsFetched last (url ∷ urls) b h =
      elim (Attempt-cases (attempt_beacon url (fetch url))) [
        | inl (c, e) ↦ (url, Memᴰ.head refl, attempt_beacon-Carries url _ b (ground arith))
        | inr (x, e) ↦
            let (u, m, c) =
              fetch_beacon_from-IsFetched (some x) urls b (rw (e, fetch_beacon_from) at h) in
            (u, Memᴰ.tail m, c)
      ]

  -- A block that `fetchLatestBeacon` returns is the normalized body of a good reply of one of the
  -- three gateways.
  fetch_latest_beacon-IsFetched :
      (b : BeaconBlock) → fetch_latest_beacon fetch ≡ ok b → IsFetched ctrng_gateways b
  unfolding fetch_latest_beacon
  fetch_latest_beacon-IsFetched b h = fetch_beacon_from-IsFetched none ctrng_gateways b h
