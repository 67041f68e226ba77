-- ===== src/App/Seal/Shared.antt =====
-- A capsule from the page that seals it, over its reopen link, to the page that opens it: App.tsx and
-- lib/share.ts.
use sealed_sky_verification.Common.{
  lt→ltb, ℕ, ◌<◌, ◌≤◌, ◌^◌, ◌≡◌, ◌≢◌, refl, sym, ap, ◌∙◌, true, none, some, [], ◌++◌, All, to_list,
}
use sealed_sky_verification.Common.Text.{Text}
use sealed_sky_verification.Base64.{btoa}
use sealed_sky_verification.Base64.Laws.{IsByte}
use sealed_sky_verification.Bytes.{Bytes, bytes_to_b64}
use sealed_sky_verification.Bytes.Laws.{bytes_to_b64-btoa}
use sealed_sky_verification.Codec.{Codec, IsCodec, IsAsciiCodec, is_scalar_text}
use sealed_sky_verification.Errors.{Result, ok}
use sealed_sky_verification.Json.{Json, is_plain}
use sealed_sky_verification.Drand.{ChainInfo}
use sealed_sky_verification.Ctrng.{BeaconBlock}
use sealed_sky_verification.Symmetric.{Crypto, IsCrypto, sym_seal}
use sealed_sky_verification.Envelope.{seal_payload, CtrngArgs, ctrng_payload, pack_ctrng}
use sealed_sky_verification.Envelope.RoundTrip.{ctrng_payload-is_plain}
use sealed_sky_verification.Queue.{ctrng, sealed, QueueItem}
use sealed_sky_verification.Share.{
  ImportedItem, imported, shared_key, build_share_url, parse_fragment,
}
use sealed_sky_verification.Share.Import.{build_item_from_import-pack_ctrng}
use sealed_sky_verification.Share.Link.{
  IsKey, truthy_of_ne, btoa-ne-nil, parse_fragment-build_share_url,
}
use sealed_sky_verification.App.{Reply}
use sealed_sky_verification.App.Seal.{Request, seal_args, seal_ctrng, finalise}
use sealed_sky_verification.App.Seal.Opens.{item, OpensWith, run_task-copy}

-- JSON that is not the empty text is encoded as some bytes.
encode-ne-nil :
    (c : Codec)
    → IsCodec c
    → IsAsciiCodec c
    → c.parse [] ≡ none
    → (v : Json) → is_plain v ≡ true
    → c.encode (c.stringify v) ≢ []
encode-ne-nil c codec laws nothing v plain e =
    let empty : c.stringify v ≡ [] =
      sym (codec.decode-encode v) ∙ ap (λ b. c.decode b) e ∙ laws.decode_ascii [] tt in
    absurd (cc (sym nothing ∙ ap (λ t. c.parse t) (sym empty) ∙ codec.parse-stringify v plain))

module _ (c : Codec) (codec : IsCodec c) (laws : IsAsciiCodec c) (nothing : c.parse [] ≡ none)
    (k : Crypto) (crypto : IsCrypto k) (key iv : Bytes) (reference : Result BeaconBlock) (id : Text)
    (now : ℕ) (req : Request) (message : is_scalar_text req.message ≡ true)
    (bounded : req.unlock_unix < 2 ^ 53)
    (target : All (λ n. n < 2 ^ 53) (to_list (seal_args c k key iv reference req).target_sequence))
    (bytes : All IsByte key) (nonce : All IsByte iv) (some_key : key ≢ []) where
  abbrev sealed_capsule : QueueItem
  sealed_capsule = item c codec k crypto key iv reference id now req

  key_shared :
      shared_key sealed_capsule.backend sealed_capsule.ctrng_key_b64 ≡ some (bytes_to_b64 key)
  unfolding seal_ctrng sym_seal
  key_shared =
      truthy_of_ne (bytes_to_b64 key)
        (λ e. btoa-ne-nil key some_key (sym (bytes_to_b64-btoa key) ∙ e))

  key_kept :
      shared_key sealed_capsule.backend sealed_capsule.ctrng_key_b64 ≡ sealed_capsule.ctrng_key_b64
  unfolding seal_ctrng sym_seal
  key_kept = key_shared

  shared_capsule-IsKey : IsKey (shared_key sealed_capsule.backend sealed_capsule.ctrng_key_b64)
  shared_capsule-IsKey = rw key_shared (key, some_key, bytes_to_b64-btoa key)

  abbrev sealed_args : CtrngArgs
  sealed_args = seal_args c k key iv reference req

  abbrev payload_bytes : Bytes
  payload_bytes = c.encode (c.stringify (ctrng_payload sealed_args))

  envelope-btoa : sealed_capsule.envelope ≡ btoa payload_bytes
  unfolding seal_ctrng pack_ctrng seal_payload
  envelope-btoa = bytes_to_b64-btoa payload_bytes

  -- What the link of the capsule carries.
  abbrev carried : ImportedItem
  carried = record {
    envelope = sealed_capsule.envelope;
    created_at = sealed_capsule.created_at;
    ctrng_key_b64 = shared_key sealed_capsule.backend sealed_capsule.ctrng_key_b64;
  }

  -- The item that the other page adds.
  abbrev received : Text → QueueItem
  received id' = record (imported id' carried ctrng) {
    unlock_unix = some req.unlock_unix;
    ctrng_target_sequence = sealed_args.target_sequence;
    ctrng_key_b64 = carried.ctrng_key_b64;
  }

  finalise-carried :
      (info : Result ChainInfo) (id' : Text) → finalise c none info carried id' ≡ ok (received id')
  unfolding finalise seal_ctrng sym_seal
  finalise-carried info id' =
      rw
        (build_item_from_import-pack_ctrng c codec sealed_args carried id' refl bounded target
          (crypto.encrypt-IsByte key iv (c.encode req.message) (codec.encode-IsByte req.message))
          nonce)
        refl

  -- A capsule that is sealed for the beacon, with a message of well-formed text, an unlock time and a
  -- target that a double holds exactly and a key that is not empty, and shared by its reopen link:
  -- what the link has behind the address of the page is a fragment from which another page imports a
  -- sealed item, and the call of `tryUnseal` of that item, with a block that is not before the unlock
  -- time, ends by showing the message with the block.
  pub finalise-build_share_url :
      (base : Text) (later : ℕ) (info : Result ChainInfo) (id' : Text) (w : BeaconBlock)
      (reply : Reply)
      → req.unlock_unix ≤ w.timestamp
      → (hash : Text) × (link : ImportedItem) × (it : QueueItem) × (build_share_url c base
            sealed_capsule
          ≡ base ++ hash)
        × (parse_fragment c hash later ≡ some link)
        × (finalise c none info link id' ≡ ok it)
        × (it.status ≡ sealed)
        × OpensWith c codec k crypto key iv reference id now req message bounded target bytes nonce
            some_key it w reply
  unfolding seal_ctrng
  finalise-build_share_url base later info id' w reply due =
      let plain = ctrng_payload-is_plain sealed_args (lt→ltb _ _ bounded) target in
      let (hash, linked, read) =
        parse_fragment-build_share_url c laws base sealed_capsule later payload_bytes refl
          envelope-btoa (encode-ne-nil c codec laws nothing _ plain) shared_capsule-IsKey in
      (
        hash,
        carried,
        received id',
        linked,
        read,
        finalise-carried info id',
        refl,
        run_task-copy c codec k crypto key iv reference id now req message bounded target bytes
            nonce some_key (received id') w reply refl refl key_kept due,
      )
