-- ===== src/App/Seal/Opens.antt =====
-- A capsule that is sealed for the beacon opens to its message, and no sooner than it should.
use sealed_sky_verification.App.{
  Task, starting, awaiting_beacon, awaiting_check, awaiting_open, Reply, beacon_reply, computed,
  suspend, finish, start_unsealing, hold_ready, reveal_witnessed, run_task, begin_ctrng_with,
  begin_ctrng, begin_backend, after_key, after_beacon, after_check, after_open, key_text,
}
use sealed_sky_verification.Common.{
  ℕ, ◌<◌, ◌≤◌, ◌^◌, ◌≡◌, ◌≢◌, refl, sym, ap, ◌∙◌, true, none, some, [], ◌∷◌, All, to_list, arith,
}
use sealed_sky_verification.Common.Text.{Text}
use sealed_sky_verification.Share.Link.{btoa-ne-nil}
use sealed_sky_verification.Base64.Laws.{IsByte}
use sealed_sky_verification.Bytes.{Bytes, bytes_to_b64, b64_to_bytes}
use sealed_sky_verification.Bytes.Laws.{bytes_to_b64-btoa, b64_to_bytes-bytes_to_b64}
use sealed_sky_verification.Codec.{Codec, IsCodec, is_scalar_text}
use sealed_sky_verification.Errors.{Result, ok, or_throw, bad_base64, too_early}
use sealed_sky_verification.Json.{str}
use sealed_sky_verification.Ctrng.{BeaconBlock}
use sealed_sky_verification.Symmetric.{Crypto, IsCrypto, sym_seal}
use sealed_sky_verification.Symmetric.Opening.{sym_open-sym_seal}
use sealed_sky_verification.Envelope.{ParsedCtrngEnvelope, ctrng_payload, unpack_ctrng}
use sealed_sky_verification.Envelope.RoundTrip.{unpack_ctrng-pack_ctrng}
use sealed_sky_verification.Queue.{ctrng, QueueItem}
use sealed_sky_verification.App.Seal.{Request, seal_args, seal_ctrng}

begin_ctrng-some :
    (c : Codec) (k : Crypto) (it : QueueItem) (s : Text)
    → s ≢ []
    → begin_ctrng c k it (some s) ≡ begin_ctrng_with it (unpack_ctrng c it.envelope)
unfolding begin_ctrng
begin_ctrng-some c k it [] h = absurd (h refl)
begin_ctrng-some c k it (x ∷ s) h = refl

module _ (c : Codec) (codec : IsCodec c) (k : Crypto) (crypto : IsCrypto k) (key iv : Bytes)
    (reference : Result BeaconBlock) (id : Text) (now : ℕ) (req : Request) where
  abbrev pub item : QueueItem
  item = seal_ctrng c k key iv reference id now req

  -- What the envelope of the sealed item carries.
  abbrev pub parsed : ParsedCtrngEnvelope
  parsed =
      let args = seal_args c k key iv reference req in
      record {
        unlock_unix = some args.unlock_unix;
        target_sequence = args.target_sequence;
        ct = args.ct;
        iv = args.iv;
        commit = some (str args.commit);
        payload = ctrng_payload args;
      }

  module _ (message : is_scalar_text req.message ≡ true) (bounded : req.unlock_unix < 2 ^ 53)
      (target : All
        (λ n. n < 2 ^ 53)
        (to_list (seal_args c k key iv reference req).target_sequence))
      (bytes : All IsByte key) (nonce : All IsByte iv) (some_key : key ≢ []) where
    unpacked : unpack_ctrng c item.envelope ≡ ok parsed
    unfolding seal_ctrng sym_seal
    unpacked =
        unpack_ctrng-pack_ctrng c codec (seal_args c k key iv reference req) bounded target
          (crypto.encrypt-IsByte key iv (c.encode req.message) (codec.encode-IsByte req.message))
          nonce

    key_decoded : or_throw bad_base64 (b64_to_bytes (key_text item.ctrng_key_b64)) ≡ ok key
    unfolding seal_ctrng sym_seal
    key_decoded = rw (b64_to_bytes-bytes_to_b64 key bytes) refl

    -- The steps of a call of `tryUnseal` up to the message, with a block at hand.
    abbrev pub OpensWith : QueueItem → BeaconBlock → Reply → Type 0
    OpensWith it w reply =
        (run_task c k (starting it) reply ≡ suspend none (awaiting_beacon it parsed))
        × (run_task c k (awaiting_beacon it parsed) (beacon_reply (ok w))
            ≡ suspend (some start_unsealing) (awaiting_check it parsed w key))
        × (run_task c k (awaiting_check it parsed w key) computed
            ≡ suspend none (awaiting_open it parsed w key))
        × (run_task c k (awaiting_open it parsed w key) computed
            ≡ finish (reveal_witnessed req.message w))

    -- The first step reads the envelope.
    run_task_starts :
        (it : QueueItem) (reply : Reply)
        → it.backend ≡ ctrng
        → it.envelope ≡ item.envelope
        → it.ctrng_key_b64 ≡ item.ctrng_key_b64
        → run_task c k (starting it) reply ≡ suspend none (awaiting_beacon it parsed)
    unfolding run_task begin_backend begin_ctrng_with seal_ctrng sym_seal
    run_task_starts it reply b e f =
        ap (λ x. begin_backend c k x it) b
        ∙ ap (λ s. begin_ctrng c k it s) f
        ∙ begin_ctrng-some c k it (bytes_to_b64 key)
            (λ e. btoa-ne-nil key some_key (sym (bytes_to_b64-btoa key) ∙ e))
        ∙ rw (e, unpacked) refl

    -- An item with the envelope and the key of the sealed one, wherever it comes from.
    pub run_task-copy :
        (it : QueueItem) (w : BeaconBlock) (reply : Reply)
        → it.backend ≡ ctrng
        → it.envelope ≡ item.envelope
        → it.ctrng_key_b64 ≡ item.ctrng_key_b64
        → req.unlock_unix ≤ w.timestamp
        → OpensWith it w reply
    unfolding run_task after_beacon after_key after_check after_open seal_ctrng sym_seal
    run_task-copy it w reply b e f due =
        let (verified, opened) =
          sym_open-sym_seal c codec k crypto key iv req.message req.unlock_unix message in
        (
          run_task_starts it reply b e f,
          rw (f, key_decoded) (ground arith),
          rw verified refl,
          rw opened refl,
        )

    -- Of a capsule that is sealed for the beacon with a message of well-formed text, an unlock time
    -- and a target that a double holds exactly and a key that is not empty: its call of
    -- `tryUnseal` fetches a block, and if that block is not before the unlock time, goes on to the
    -- check of the commitment, passes it, and ends by showing the message with the block.
    pub run_task-seal_ctrng :
        (w : BeaconBlock) (reply : Reply)
        → req.unlock_unix ≤ w.timestamp
        → (run_task c k (starting item) reply ≡ suspend none (awaiting_beacon item parsed))
          × (run_task c k (awaiting_beacon item parsed) (beacon_reply (ok w))
              ≡ suspend (some start_unsealing) (awaiting_check item parsed w key))
          × (run_task c k (awaiting_check item parsed w key) computed
              ≡ suspend none (awaiting_open item parsed w key))
          × (run_task c k (awaiting_open item parsed w key) computed
              ≡ finish (reveal_witnessed req.message w))
    unfolding seal_ctrng
    run_task-seal_ctrng w reply due = run_task-copy item w reply refl refl refl due

    -- Of a capsule that is sealed for the beacon with a message of well-formed text, an unlock time
    -- and a target that a double holds exactly and a key that is not empty: its call of
    -- `tryUnseal` reads the envelope and fetches a block, and if that block is before the unlock
    -- time that was asked for, the call ends there: the capsule is left ready, with the error that
    -- names that unlock time.
    pub run_task-seal_ctrng_early :
        (w : BeaconBlock) (reply : Reply)
        → w.timestamp < req.unlock_unix
        → (t : Task) × (run_task c k (starting item) reply ≡ suspend none t)
          × (run_task c k t (beacon_reply (ok w))
              ≡ finish (hold_ready (too_early w.sequence w.timestamp req.unlock_unix)))
    unfolding run_task after_beacon seal_ctrng
    run_task-seal_ctrng_early w reply early =
        (awaiting_beacon item parsed, run_task_starts item reply refl refl refl, ground arith)
