-- ===== src/Examples/Network.antt =====
-- Rounds, blocks and replies of the network on concrete inputs.
use sealed_sky_verification.Common.{
  All, ℕ, ◌+◌, ◌*◌, ◌-◌, ◌<◌, ◌≤◌, ◌≡◌, max, refl, some, ◌++◌, arith, if◌then◌else◌,
}
use sealed_sky_verification.Js.{to_string}
use sealed_sky_verification.Ctrng.{estimate_target_sequence}
use sealed_sky_verification.Drand.{
  chain_hash, RoundResponse, api_bases, round_at_time, time_at_round, round_url, attempt_round,
  fetch_round,
}
use sealed_sky_verification.Base64.Laws.{IsByte}
use sealed_sky_verification.Bytes.{Bytes}
use sealed_sky_verification.Codec.{is_scalar_text}
use sealed_sky_verification.Codec.Simple as SimpleCodec
use sealed_sky_verification.Tlock.{Timelock, encrypt, decrypt}
use sealed_sky_verification.Tlock.RoundTrip.{decrypt-encrypt}
use sealed_sky_verification.Common.Text.{Text, codes, text_eq}
use sealed_sky_verification.Errors.{thrown, ok}
use sealed_sky_verification.Http.{Response, failed, replied}
use sealed_sky_verification.Drand.Rounds.{
  time_at_round-round_at_time, round_at_time_published_early,
}
use sealed_sky_verification.Drand.Fetch.{IsAnswered, fetch_round-IsAnswered}
use sealed_sky_verification.Ctrng.Laws.{estimate_target_sequence_first}
use sealed_sky_verification.Examples.Data.{quick, beacon}

time_at_round-round_at_time_example :
    (130 ≤ time_at_round (round_at_time 130 quick) quick)
    × (time_at_round (round_at_time 130 quick) quick < max 130 101 + 3)
time_at_round-round_at_time_example = time_at_round-round_at_time 130 quick (omega arith)

abbrev published_at : ℕ → ℕ
published_at r = 100 + (r - 1) * 3

round_at_time_published_early_example :
    (published_at (round_at_time 130 quick) < 130)
    × (130 ≤ published_at (round_at_time 130 quick) + 3)
round_at_time_published_early_example =
    round_at_time_published_early 130 quick (omega arith) published_at (λ r. omega arith)
      (omega arith)

abbrev round_12 : RoundResponse
round_12 = record { round = 12; signature = codes "ab"; randomness = codes "cd" }

-- The first relay is down, the second answers.
abbrev relays : Text → Response RoundResponse
relays url =
    if text_eq url (round_url (codes "https://api.drand.sh/" ++ chain_hash) 12)
    then failed (thrown (codes "network"))
    else replied 200 (ok round_12)

fetch_round-IsAnswered_example : IsAnswered relays 12 api_bases (some round_12)
unfolding fetch_round attempt_round round_url to_string text_eq
fetch_round-IsAnswered_example = fetch_round-IsAnswered relays 12 (some round_12) refl

estimate_target_sequence_first_example :
    (40 ≤ estimate_target_sequence 2100 beacon)
    × (estimate_target_sequence 2100 beacon ≤ 40 + 2)
    × (2100 + 60 * 40 ≤ 2000 + 60 * estimate_target_sequence 2100 beacon)
estimate_target_sequence_first_example = estimate_target_sequence_first 2100 beacon 2 (omega arith)

-- A timelock that leaves bytes as they are.
abbrev plain_timelock : Timelock
plain_timelock = record {
  tl_encrypt = λ round bs. ok bs;
  decode_armor = λ t. ok t;
  tl_decrypt = λ t. ok t;
}

decrypt-encrypt_example :
    (ct : Bytes) × (encrypt SimpleCodec.simple plain_timelock 7 (codes "hi") ≡ ok ct)
    × All IsByte ct
    × (decrypt SimpleCodec.simple plain_timelock ct ≡ ok (codes "hi"))
unfolding is_scalar_text
decrypt-encrypt_example =
    decrypt-encrypt SimpleCodec.simple plain_timelock 7 (codes "hi")
      (SimpleCodec.simple.encode (codes "hi")) (SimpleCodec.simple.encode (codes "hi"))
      SimpleCodec.simple-IsCodec refl refl refl
      (SimpleCodec.simple-IsCodec.encode-IsByte (codes "hi")) refl
