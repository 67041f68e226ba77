-- ===== src/App.antt =====
-- sealed-sky-web/src/App.tsx: the queue, the unsealing of its items as asynchronous tasks, and the
-- events that change the state. What the code does between two awaits is one function here.
pub mod Seal
pub mod Step
pub mod Patches
pub mod Tasks
pub mod Ids
pub mod Coherent
pub mod Launch
pub mod Events
pub mod Reached
pub mod Safety
pub mod Sorted
use sealed_sky_verification.Common.{
  ℕ, ◌*◌, Bool, true, false, not, ◌&&◌, Option, none, some, List, [], ◌∷◌, ◌++◌, map, leb, ltb,
  if◌then◌else◌, any, filter, find,
}
use sealed_sky_verification.Common.Text.{Text, text_eq}
use sealed_sky_verification.Bytes.{Bytes, b64_to_bytes}
use sealed_sky_verification.Codec.{Codec}
use sealed_sky_verification.Errors.{
  Error, Result, ok, err, bad_base64, missing_round, key_missing, commitment_mismatch,
  drand_catching_up, too_early, or_throw,
}
use sealed_sky_verification.Json.{Json, Items, nil, cons, str}
use sealed_sky_verification.Drand.{RoundResponse}
use sealed_sky_verification.Ctrng.{BeaconBlock}
use sealed_sky_verification.Symmetric.{Crypto, verify_commitment, sym_open}
use sealed_sky_verification.Envelope.{ParsedEnvelope, ParsedCtrngEnvelope, unpack, unpack_ctrng}
use sealed_sky_verification.Queue.{
  Backend, drand, ctrng, ItemStatus, sealed, ready, unsealing, unsealed, failed, QueueItem,
  find_by_envelope,
}

-- The partial items that `updateItem` is called with.
pub data Patch : Type 0 where
  mark_ready : Patch
  hold_ready : Error → Patch
  start_unsealing : Patch
  reveal : Text → Patch
  reveal_witnessed : Text → BeaconBlock → Patch
  fail : Error → Patch
  published : Text → Patch
  publish_failed : Error → Patch

-- `witness.ctrng[0]`
abbrev pub first_item : Items → Option Json
first_item nil = none
first_item (cons v vs) = some v

unfoldable pub apply_patch : Patch → QueueItem → QueueItem
apply_patch mark_ready it = record it { status = ready }
apply_patch (hold_ready e) it = record it { status = ready; error = some e }
apply_patch start_unsealing it = record it { status = unsealing; error = none }
apply_patch (reveal text) it = record it { status = unsealed; plaintext = some text; error = none }
apply_patch (reveal_witnessed text w) it = record it {
  status = unsealed;
  plaintext = some text;
  error = none;
  ctrng_witness_sequence = some w.sequence;
  ctrng_witness_timestamp = some w.timestamp;
  ctrng_witness_value = first_item w.ctrng;
  ctrng_witness_url = some w.source_url;
}
apply_patch (fail e) it = record it { status = failed; error = some e }
apply_patch (published fqn) it = record it { capsule_ens = some fqn; capsule_publish_error = none }
apply_patch (publish_failed e) it = record it { capsule_publish_error = some e }

-- `updateItem`
unfoldable pub update_item : Text → Patch → List QueueItem → List QueueItem
unfolding apply_patch
update_item id patch items = map (λ it. if text_eq it.id id then apply_patch patch it else it) items

-- Where a call of `tryUnseal` waits: before its first step, at `fetchRound`, at `drandDecrypt`, at
-- `fetchLatestBeacon`, at `verifyCommitment` and at `symOpen`, with what it holds there.
pub data Task : Type 0 where
  starting : QueueItem → Task
  awaiting_round : QueueItem → ℕ → Task
  awaiting_plain : QueueItem → Bytes → Task
  awaiting_beacon : QueueItem → ParsedCtrngEnvelope → Task
  awaiting_check : QueueItem → ParsedCtrngEnvelope → BeaconBlock → Bytes → Task
  awaiting_open : QueueItem → ParsedCtrngEnvelope → BeaconBlock → Bytes → Task

abbrev pub task_item : Task → QueueItem
task_item (starting it) = it
task_item (awaiting_round it _) = it
task_item (awaiting_plain it _) = it
task_item (awaiting_beacon it _) = it
task_item (awaiting_check it _ _ _) = it
task_item (awaiting_open it _ _ _) = it

-- What the network and tlock answer; `computed` is the end of a computation of Web Crypto.
pub data Reply : Type 0 where
  round_reply : Result (Option RoundResponse) → Reply
  plain_reply : Result Text → Reply
  beacon_reply : Result BeaconBlock → Reply
  computed : Reply

-- What a task does when it runs: it waits again, perhaps after an update of its item, or it ends
-- with one.
pub data Progress : Type 0 where
  suspend : Option Patch → Task → Progress
  finish : Patch → Progress

-- `witness.timestamp < parsed.unlockUnix`, false on undefined
abbrev pub is_early : BeaconBlock → Option ℕ → Bool
is_early w none = false
is_early w (some unlock) = ltb w.timestamp unlock

abbrev or_zero : Option ℕ → ℕ
or_zero none = 0
or_zero (some n) = n

begin_drand : QueueItem → Option ℕ → Progress
begin_drand it none = finish (fail missing_round)
begin_drand it (some round) = suspend none (awaiting_round it round)

begin_ctrng_with : QueueItem → Result ParsedCtrngEnvelope → Progress
begin_ctrng_with it (err e) = finish (fail e)
begin_ctrng_with it (ok parsed) = suspend none (awaiting_beacon it parsed)

-- `unpack` throws after the update to unsealing; the update to the error replaces both of its
-- fields.
after_round : QueueItem → Result ParsedEnvelope → Progress
after_round it (err e) = finish (fail e)
after_round it (ok parsed) = suspend (some start_unsealing) (awaiting_plain it parsed.ct)

after_key : QueueItem → ParsedCtrngEnvelope → BeaconBlock → Result Bytes → Progress
after_key it parsed w (err e) = finish (fail e)
after_key it parsed w (ok key) = suspend (some start_unsealing) (awaiting_check it parsed w key)

abbrev pub key_text : Option Text → Text
key_text none = []
key_text (some s) = s

after_beacon : QueueItem → ParsedCtrngEnvelope → BeaconBlock → Progress
unfolding after_key
after_beacon it parsed w =
    if is_early w parsed.unlock_unix
    then finish (hold_ready (too_early w.sequence w.timestamp (or_zero parsed.unlock_unix)))
    else after_key it parsed w (or_throw bad_base64 (b64_to_bytes (key_text it.ctrng_key_b64)))

after_check : QueueItem → ParsedCtrngEnvelope → BeaconBlock → Bytes → Result Bool → Progress
after_check it parsed w key (err e) = finish (fail e)
after_check it parsed w key (ok false) = finish (fail commitment_mismatch)
after_check it parsed w key (ok true) = suspend none (awaiting_open it parsed w key)

after_open : BeaconBlock → Result Text → Progress
after_open w (err e) = finish (fail e)
after_open w (ok text) = finish (reveal_witnessed text w)

module _ (c : Codec) (k : Crypto) where
  -- An empty key counts as missing.
  begin_ctrng : QueueItem → Option Text → Progress
  unfolding begin_ctrng_with
  begin_ctrng it none = finish (fail key_missing)
  begin_ctrng it (some []) = finish (fail key_missing)
  begin_ctrng it (some (x ∷ key)) = begin_ctrng_with it (unpack_ctrng c it.envelope)

  begin_backend : Backend → QueueItem → Progress
  unfolding begin_drand begin_ctrng
  begin_backend drand it = begin_drand it it.round
  begin_backend ctrng it = begin_ctrng it it.ctrng_key_b64

  -- A reply of another kind than the task waits for leaves it waiting.
  unfoldable pub run_task : Task → Reply → Progress
  unfolding begin_backend after_round after_beacon after_check after_open
  run_task (starting it) _ = begin_backend it.backend it
  run_task (awaiting_round it round) (round_reply (err e)) = finish (fail e)
  run_task (awaiting_round it round) (round_reply (ok none)) = finish (hold_ready drand_catching_up)
  run_task (awaiting_round it round) (round_reply (ok (some sig))) =
      after_round it (unpack c it.envelope)
  run_task (awaiting_plain it ct) (plain_reply (err e)) = finish (fail e)
  run_task (awaiting_plain it ct) (plain_reply (ok text)) = finish (reveal text)
  run_task (awaiting_beacon it parsed) (beacon_reply (err e)) = finish (fail e)
  run_task (awaiting_beacon it parsed) (beacon_reply (ok w)) = after_beacon it parsed w
  run_task (awaiting_check it parsed w key) computed =
      after_check it parsed w key
        (verify_commitment c k parsed.commit key parsed.iv parsed.unlock_unix)
  run_task (awaiting_open it parsed w key) computed =
      after_open w (sym_open c k parsed.ct parsed.iv key)
  run_task t _ = suspend none t
