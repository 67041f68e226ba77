-- ===== src/Share/Import.antt =====
-- The import of a capsule that was packed, and what its kind is.
use sealed_sky_verification.Common.{lt→ltb, arith, ℕ, ◌<◌, ◌^◌, ◌≡◌, Option, some, All, to_list}
use sealed_sky_verification.Common.Text.{Text, text_eq}
use sealed_sky_verification.Base64.Laws.{IsByte}
use sealed_sky_verification.Bytes.{Bytes}
use sealed_sky_verification.Codec.{Codec, IsCodec}
use sealed_sky_verification.Errors.{ok}
use sealed_sky_verification.Json.{property}
use sealed_sky_verification.Envelope.{CtrngArgs, envelope_payload, ctrng_payload, pack, pack_ctrng}
use sealed_sky_verification.Envelope.RoundTrip.{
  open_payload-seal_payload, envelope_payload-is_plain, ctrng_payload-is_plain, unpack-pack,
  unpack_ctrng-pack_ctrng,
}
use sealed_sky_verification.Queue.{drand, ctrng}
use sealed_sky_verification.Share.{ImportedItem, imported, peek_backend, build_item_from_import}

module _ (c : Codec) (codec : IsCodec c) where
  peek_backend-pack :
      (round : ℕ) (ct : Bytes) (sender recipient : Option Text)
      → round < 2 ^ 53
      → peek_backend c (pack c round ct sender recipient) ≡ ok drand
  unfolding peek_backend pack property envelope_payload text_eq
  peek_backend-pack round ct sender recipient h =
      rw
        (open_payload-seal_payload c codec (envelope_payload round ct sender recipient)
          (envelope_payload-is_plain round ct sender recipient (lt→ltb _ _ h)))
        (ground arith)

  peek_backend-pack_ctrng :
      (args : CtrngArgs)
      → args.unlock_unix < 2 ^ 53
      → All (λ n. n < 2 ^ 53) (to_list args.target_sequence)
      → peek_backend c (pack_ctrng c args) ≡ ok ctrng
  unfolding peek_backend pack_ctrng property ctrng_payload text_eq
  peek_backend-pack_ctrng args h k =
      rw
        (open_payload-seal_payload c codec (ctrng_payload args)
          (ctrng_payload-is_plain args (lt→ltb _ _ h) k))
        (ground arith)

  -- The import of a packed capsule of the beacon's backend is a sealed item with the envelope, the
  -- key and the time that the link carries and the unlock time and target of the envelope, for
  -- numbers that a double holds exactly.
  pub build_item_from_import-pack_ctrng :
      (args : CtrngArgs) (imp : ImportedItem) (id : Text)
      → imp.envelope ≡ pack_ctrng c args
      → args.unlock_unix < 2 ^ 53
      → All (λ n. n < 2 ^ 53) (to_list args.target_sequence)
      → All IsByte args.ct
      → All IsByte args.iv
      → build_item_from_import c imp id
        ≡ ok (record (imported id imp ctrng) {
          unlock_unix = some args.unlock_unix;
          ctrng_target_sequence = args.target_sequence;
          ctrng_key_b64 = imp.ctrng_key_b64;
        })
  unfolding build_item_from_import
  build_item_from_import-pack_ctrng args imp id e h k p q =
      rw (e, peek_backend-pack_ctrng args h k, unpack_ctrng-pack_ctrng c codec args h k p q)

  -- The import of a packed capsule of drand is a sealed item with its round and without a key, for
  -- a round that a double holds exactly.
  build_item_from_import-pack :
      (round : ℕ) (ct : Bytes) (sender recipient : Option Text) (imp : ImportedItem) (id : Text)
      → imp.envelope ≡ pack c round ct sender recipient
      → round < 2 ^ 53
      → All IsByte ct
      → build_item_from_import c imp id
        ≡ ok (record (imported id imp drand) { round = some round; unlock_unix = some 0 })
  unfolding build_item_from_import
  build_item_from_import-pack round ct sender recipient imp id e h k = rw (
    e,
    peek_backend-pack round ct sender recipient h,
    unpack-pack c codec round ct sender recipient h k,
  )
