-- ===== src/Drand.antt =====
-- sealed-sky-web/src/lib/drand.ts: rounds and times of the drand chain, and the fetch of a round
-- with its fallback. A response of the network is a function of the URL.
pub mod Rounds
pub mod Fetch
use sealed_sky_verification.Common.{
  ℕ, ◌+◌, ◌-◌, ◌*◌, ◌/◌, max, Bool, ◌||◌, Option, none, some, List, [], ◌∷◌, ◌++◌, ◌==◌,
  if◌then◌else◌,
}
use sealed_sky_verification.Common.Text.{Text, codes}
use sealed_sky_verification.Js.{to_string}
use sealed_sky_verification.Errors.{Error, Result, ok, err, http}
use sealed_sky_verification.Http.{
  Response, failed, replied, is_ok, Attempt, answer, retry, or_all_failed,
}

abbrev pub chain_hash : Text
chain_hash = codes "52db9ba70e0cc0f6eaf7803dd07447a1f5477735fd3f661792ba94600c84e971"

abbrev pub chain_name : Text
chain_name = codes "quicknet"

abbrev pub api_bases : List Text
api_bases =
    (codes "https://api.drand.sh/" ++ chain_hash)
    ∷ (codes "https://drand.cloudflare.com/" ++ chain_hash)
    ∷ []

-- What is read of the chain's information.
pub record ChainInfo : Type 0 where
  pub period : ℕ
  pub genesis_time : ℕ

-- The state of the module, `cachedInfo`, and what the caller of `getChainInfo` gets.
abbrev info_reply : Response ChainInfo → Option ChainInfo × Result ChainInfo
info_reply (failed e) = (none, err e)
info_reply (replied status (err e)) =
    if is_ok status then (none, err e) else (none, err (http status))
info_reply (replied status (ok info)) =
    if is_ok status then (some info, ok info) else (none, err (http status))

unfoldable pub get_chain_info :
    Option ChainInfo → Response ChainInfo → Option ChainInfo × Result ChainInfo
get_chain_info (some info) reply = (some info, ok info)
get_chain_info none reply = info_reply reply

-- `Math.ceil(n / d)` for d > 0
abbrev pub ceil_div : ℕ → ℕ → ℕ
ceil_div n d = (n + (d - 1)) / d

-- A target before the genesis gives a quotient that is not positive in the source and 0 here; the
-- maximum with 1 is the same.
unfoldable pub round_at_time : ℕ → ChainInfo → ℕ
round_at_time target info = max 1 (ceil_div (target - info.genesis_time) info.period)

unfoldable pub time_at_round : ℕ → ChainInfo → ℕ
time_at_round round info = info.genesis_time + round * info.period

pub record RoundResponse : Type 0 where
  pub round : ℕ
  pub signature : Text
  pub randomness : Text

unfoldable pub round_url : Text → ℕ → Text
round_url base round = base ++ (codes "/public/" ++ to_string round)

unfoldable pub verify_url : ℕ → Text
unfolding round_url
verify_url round = round_url (codes "https://api.drand.sh/" ++ chain_hash) round

unfoldable pub attempt_round : Response RoundResponse → Attempt (Option RoundResponse)
attempt_round (failed e) = retry e
attempt_round (replied status (ok r)) =
    if status == 404 || status == 425
    then answer none
    else if is_ok status
    then answer (some r)
    else retry (http status)
attempt_round (replied status (err e)) =
    if status == 404 || status == 425
    then answer none
    else if is_ok status
    then retry e
    else retry (http status)

module _ (fetch : Text → Response RoundResponse) (round : ℕ) where
  fetch_round_from : Option Error → List Text → Result (Option RoundResponse)
  fetch_round_from last_err [] = err (or_all_failed (codes "all drand endpoints failed") last_err)
  fetch_round_from last_err (base ∷ bases) = elim (attempt_round (fetch (round_url base round))) [
    | answer r ↦ ok r
    | retry e ↦ fetch_round_from (some e) bases
  ]

  unfoldable pub fetch_round : Result (Option RoundResponse)
  unfolding fetch_round_from
  fetch_round = fetch_round_from none api_bases
