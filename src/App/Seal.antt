-- ===== src/App/Seal.antt =====
-- sealed-sky-web/src/App.tsx: sealing, publishing and the import at boot. The ids, the time, the
-- random bytes and the answers of the network are arguments.
pub mod Opens
pub mod Shared
use sealed_sky_verification.Common.{
  ℕ, ◌/◌, Bool, true, false, Option, none, some, List, [], ◌∷◌, ◌++◌, if◌then◌else◌,
}
use sealed_sky_verification.Common.Text.{Text, codes}
use sealed_sky_verification.Bytes.{Bytes, bytes_to_b64}
use sealed_sky_verification.Codec.{Codec}
use sealed_sky_verification.Errors.{Error, Result, ok, err, no_envelope, ◌>>=◌}
use sealed_sky_verification.Js.{Integer, to_string}
use sealed_sky_verification.Drand.{ChainInfo, round_at_time, time_at_round}
use sealed_sky_verification.Ctrng.{BeaconBlock, estimate_target_sequence}
use sealed_sky_verification.Symmetric.{Crypto, sym_seal}
use sealed_sky_verification.Envelope.{CtrngArgs, pack, pack_ctrng}
use sealed_sky_verification.Queue.{Backend, drand, ctrng, ItemStatus, sealed, QueueItem}
use sealed_sky_verification.Share.{ImportedItem, truthy, build_item_from_import}
use sealed_sky_verification.Namestone.{
  Config, PublishArgs, SetName, Answer, CapsuleRecords, is_namestone_configured,
  generate_capsule_label, publish_capsule,
}
use sealed_sky_verification.App.{Patch, published, publish_failed}

abbrev backend_name : Backend → Text
backend_name drand = codes "drand"
backend_name ctrng = codes "ctrng"

-- `String(value)` of a number that may be undefined
abbrev option_number : Option ℕ → Text
option_number none = codes "undefined"
option_number (some n) = to_string n

abbrev name_record : Text → Option Text → List (Text × Text)
name_record key none = []
name_record key (some name) = (key, name) ∷ []

unfoldable pub capsule_records : QueueItem → List (Text × Text)
capsule_records it =
    (codes "envelope", it.envelope)
      ∷ (codes "unlock_unix", option_number it.unlock_unix)
      ∷ (codes "backend", backend_name it.backend)
      ∷ (codes "created_at", to_string it.created_at)
      ∷ name_record (codes "sender_ens") (truthy it.sender_ens)
    ++ name_record (codes "recipient_ens") (truthy it.recipient_ens)

abbrev publish_patch : Result Text → Patch
publish_patch (ok fqn) = published fqn
publish_patch (err e) = publish_failed e

-- The update that `publishToNameStone` makes of its item; `none` where it makes none.
unfoldable pub publish_to_name_stone :
    Config → (SetName → Answer) → (random : Bytes) → QueueItem → Option Text → Option Patch
publish_to_name_stone g fetch random it owner =
    if is_namestone_configured g
    then some (
        publish_patch (
          publish_capsule g fetch (record {
            label = generate_capsule_label random;
            owner_address = owner;
            text_records = capsule_records it;
          })))
    else none

-- What the caller of a seal gives.
pub record Request : Type 0 where
  pub message : Text
  pub unlock_unix : ℕ
  pub recipient_ens : Option Text
  pub sender_ens : Option Text

abbrev sealed_item : Text → ℕ → Backend → Text → ℕ → Request → QueueItem
sealed_item id now backend envelope unlock req = record {
  id = id;
  backend = backend;
  envelope = envelope;
  unlock_unix = some unlock;
  created_at = now / 1000;
  status = sealed;
  plaintext = none;
  error = none;
  round = none;
  ctrng_key_b64 = none;
  ctrng_target_sequence = none;
  ctrng_witness_sequence = none;
  ctrng_witness_timestamp = none;
  ctrng_witness_value = none;
  ctrng_witness_url = none;
  sender_ens = req.sender_ens;
  recipient_ens = req.recipient_ens;
  capsule_ens = none;
  capsule_publish_error = none;
}

abbrev estimate : ℕ → Result BeaconBlock → Option ℕ
estimate unlock (err e) = none
estimate unlock (ok reference) = some (estimate_target_sequence unlock reference)

module _ (c : Codec) where
  -- The item that `sealDrand` adds; `encrypt` is tlock's encryption to a round.
  unfoldable pub seal_drand :
      (ℕ → Text → Result Bytes) → Result ChainInfo → Text → ℕ → Request → Result QueueItem
  seal_drand encrypt info_reply id now req = do
    info ← info_reply
    ct ← encrypt (round_at_time req.unlock_unix info) req.message
    ok (
        let round = round_at_time req.unlock_unix info in
        record (sealed_item id now drand (pack c round ct req.sender_ens req.recipient_ens)
          (time_at_round round info) req) { round = some round })

  abbrev pub seal_args : Crypto → (key iv : Bytes) → Result BeaconBlock → Request → CtrngArgs
  seal_args k key iv reference req =
      let s = sym_seal c k key iv req.message req.unlock_unix in
      record {
        unlock_unix = req.unlock_unix;
        target_sequence = estimate req.unlock_unix reference;
        ct = s.ct;
        iv = s.iv;
        commit = s.commit;
        sender_ens = req.sender_ens;
        recipient_ens = req.recipient_ens;
      }

  -- The item that `sealCtrng` adds; without a block of the beacon there is no target.
  unfoldable pub seal_ctrng :
      Crypto → (key iv : Bytes) → Result BeaconBlock → Text → ℕ → Request → QueueItem
  seal_ctrng k key iv reference id now req =
      record (sealed_item id now ctrng (pack_ctrng c (seal_args k key iv reference req))
        req.unlock_unix req) {
          ctrng_key_b64 = some (bytes_to_b64 (sym_seal c k key iv req.message req.unlock_unix).key);
          ctrng_target_sequence = estimate req.unlock_unix reference;
        }

  unfoldable pub handle_seal :
      Crypto
      → (ℕ → Text → Result Bytes)
      → (key iv : Bytes) → Result ChainInfo
      → Result BeaconBlock
      → Text
      → ℕ
      → Backend
      → Request
      → Result QueueItem
  unfolding seal_drand seal_ctrng
  handle_seal k encrypt key iv info reference id now drand req = seal_drand encrypt info id now req
  handle_seal k encrypt key iv info reference id now ctrng req =
      ok (seal_ctrng k key iv reference id now req)

  -- The time of a text record; NaN, for which no number stands here, is 0.
  abbrev created_or : ℕ → Option (Option Integer) → ℕ
  created_or now none = now / 1000
  created_or now (some none) = 0
  created_or now (some (some i)) = i.magnitude

  -- What the boot imports: the capsule of an ENS name, with the key of the fragment, before that of
  -- a link; `none` if there is neither.
  abbrev found_records :
      Text → Option CapsuleRecords → ℕ → Option Text → Result (Option ImportedItem)
  found_records name none now key = err (no_envelope name)
  found_records name (some r) now key = ok (
      some (record {
        envelope = r.envelope;
        created_at = created_or now r.created_at;
        ctrng_key_b64 = key;
      }))

  unfoldable pub boot_import :
      Option Text
      → Option CapsuleRecords
      → Option ImportedItem
      → Option Text
      → ℕ
      → Result (Option ImportedItem)
  boot_import none records link key now = ok link
  boot_import (some name) records link key now = found_records name records now key

  abbrev fixed_unlock : Backend → Option ℕ → Result ChainInfo → QueueItem → Result QueueItem
  fixed_unlock drand (some round) reply draft = do
    info ← reply
    ok (record draft { unlock_unix = some (time_at_round round info) })
  fixed_unlock _ _ reply draft = ok draft

  -- A drand capsule gets its unlock time from the chain, and a capsule of a name keeps the name.
  unfoldable pub finalise : Option Text → Result ChainInfo → ImportedItem → Text → Result QueueItem
  finalise capsule_ens info imp id = do
    draft ← build_item_from_import c imp id
    item ← fixed_unlock draft.backend draft.round info draft
    ok (record item { capsule_ens = capsule_ens })
