-- ===== src/View/Detail.antt =====
-- components/Detail.tsx: the lines that the detail shows of an item. A time stands as the number that
-- is formatted.
use sealed_sky_verification.Common.{ℕ, Bool, true, false, Option, none, some, List, [], ◌∷◌, ◌++◌}
use sealed_sky_verification.Common.Text.{Text, codes}
use sealed_sky_verification.Js.{to_string}
use sealed_sky_verification.Errors.{Error}
use sealed_sky_verification.Json.{Json}
use sealed_sky_verification.Codec.{Codec}
use sealed_sky_verification.Ctrng.{ctrng_gateways}
use sealed_sky_verification.Drand.{verify_url}
use sealed_sky_verification.Ens.{ens_app_url}
use sealed_sky_verification.Queue.{Backend, drand, ctrng, ItemStatus, QueueItem}
use sealed_sky_verification.Share.{truthy}
use sealed_sky_verification.View.{backends}

-- What stands behind a label of the detail.
pub data Value : Type 0 where
  text : Text → Value
  link : (url : Text) → (label : Text) → Value
  local_time : Option ℕ → Value
  utc_time : Option ℕ → Value
  of_status : ItemStatus → Option Error → Value
  publish_failure : Error → Value
  of_json : Option Json → Value

abbrev Lines : Type 0
Lines = List (Text × Value)

abbrev optional : {A : Type 0} → (A → Lines) → Option A → Lines
optional f none = []
optional f (some a) = f a

-- The error of a publication is shown as long as there is no name.
abbrev publish_lines : Option Text → Option Error → Lines
publish_lines none (some e) = (codes "capsule ENS", publish_failure e) ∷ []
publish_lines _ _ = []

abbrev target_text : Option ℕ → Text
target_text none = codes "(unknown — beacon offline at seal)"
target_text (some target) = b'~' ∷ to_string target

abbrev ctrng_only : Backend → Lines → Lines
ctrng_only drand lines = []
ctrng_only ctrng lines = lines

abbrev drand_only : Backend → Lines → Lines
drand_only drand lines = lines
drand_only ctrng lines = []

abbrev witness_time : Option ℕ → Value
witness_time none = text (codes "—")
witness_time (some t) = utc_time (some t)

-- The lines of the block that opened the capsule.
unfoldable pub witness_lines : QueueItem → Lines
witness_lines it =
    optional
      (λ sequence.
        (codes "witness block", text (codes "seq " ++ to_string sequence))
        ∷ (codes "witness timestamp (UTC)", witness_time it.ctrng_witness_timestamp)
        ∷ (codes "witness randomness", of_json it.ctrng_witness_value)
        ∷ optional (λ url. (codes "witness URL", link url url) ∷ []) (truthy it.ctrng_witness_url))
      it.ctrng_witness_sequence

abbrev gateway_lines : List Text → Lines
gateway_lines [] = []
gateway_lines (url ∷ urls) = (codes "verify (cTRNG IPFS)", link url url) ∷ []

abbrev round_line : Option ℕ → Lines
round_line = optional (λ round. (codes "drand round", text (to_string round)) ∷ [])

abbrev verify_line : Option ℕ → Lines
verify_line =
    optional (λ round. (codes "verify (drand)", link (verify_url round) (verify_url round)) ∷ [])

abbrev target_line : Option ℕ → Lines
target_line target = (codes "cTRNG target sequence", text (target_text target)) ∷ []

abbrev joined : List Lines → Lines
joined [] = []
joined (lines ∷ rest) = lines ++ joined rest

module _ (c : Codec) where
  abbrev name_line : Text → Option Text → Lines
  name_line label = optional (λ name. (label, link (ens_app_url c name) name) ∷ [])

  unfoldable pub detail_lines : QueueItem → Lines
  unfolding ens_app_url verify_url witness_lines backends
  detail_lines it = joined (
      ((codes "backend", text (backends it.backend).label) ∷ [])
      ∷ name_line (codes "from") (truthy it.sender_ens)
      ∷ name_line (codes "to") (truthy it.recipient_ens)
      ∷ name_line (codes "capsule ENS") (truthy it.capsule_ens)
      ∷ publish_lines (truthy it.capsule_ens) it.capsule_publish_error
      ∷ drand_only it.backend (round_line it.round)
      ∷ ctrng_only it.backend (target_line it.ctrng_target_sequence)
      ∷ ((codes "unlocks at (local)", local_time it.unlock_unix)
          ∷ (codes "unlocks at (UTC)", utc_time it.unlock_unix)
          ∷ (codes "status", of_status it.status it.error)
          ∷ [])
      ∷ drand_only it.backend (verify_line it.round)
      ∷ ctrng_only it.backend (gateway_lines ctrng_gateways)
      ∷ ctrng_only it.backend (witness_lines it)
      ∷ [])

pub record DetailView : Type 0 where
  pub lines : List (Text × Value)
  pub envelope : Text
  -- whether the note on the key is shown
  pub key_note : Bool
  -- the id and the plaintext that the device form is given, and whether there is one
  pub opened : Option (Text × Text)

abbrev is_some : {A : Type 0} → Option A → Bool
is_some none = false
is_some (some a) = true

abbrev opened_of : Text → Option Text → Option (Text × Text)
opened_of id none = none
opened_of id (some plaintext) = some (id, plaintext)

abbrev key_noted : Backend → Option Text → Bool
key_noted drand key = false
key_noted ctrng key = is_some (truthy key)

unfoldable pub detail_view : Codec → QueueItem → DetailView
unfolding detail_lines
detail_view c it = record {
  lines = detail_lines c it;
  envelope = it.envelope;
  key_note = key_noted it.backend it.ctrng_key_b64;
  opened = opened_of it.id it.plaintext;
}
