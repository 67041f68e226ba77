-- ===== src/Envelope/RoundTrip.antt =====
-- Packing and unpacking.
use sealed_sky_verification.Common.{
  to_list, All-reverse, ltb, lt→ltb, ℕ, ◌^◌, ◌<◌, ◌≡◌, refl, true, Option, some, [], ◌∷◌, arith,
  All,
}
use sealed_sky_verification.Common.Text.{Text, text_eq}
use sealed_sky_verification.Js.{trim, trim_start}
use sealed_sky_verification.Base64.{btoa}
use sealed_sky_verification.Base64.Laws.{IsByte, IsBase64OrPad, btoa-All}
use sealed_sky_verification.Bytes.{Bytes, bytes_to_b64}
use sealed_sky_verification.Bytes.Laws.{bytes_to_b64-btoa, b64_to_bytes-bytes_to_b64}
use sealed_sky_verification.Codec.{Codec, IsCodec}
use sealed_sky_verification.Errors.{ok}
use sealed_sky_verification.Json.{Json, str, js_string, is_plain, property}
use sealed_sky_verification.Envelope.{
  envelope_payload, CtrngArgs, ctrng_payload, bytes_of, seal_payload, open_payload, pack, unpack,
  pack_ctrng, unpack_ctrng,
}
use mathlib.Core.List.{reverse, reverse-reverse}

trim_start_of_base64 : (s : Text) → All IsBase64OrPad s → trim_start s ≡ s
unfolding trim_start
trim_start_of_base64 [] h = refl
trim_start_of_base64 (c ∷ s) (p, h) = ground arith

-- Base64 holds no white space, so `trim` leaves it as it is.
trim_of_base64 : (s : Text) → All IsBase64OrPad s → trim s ≡ s
unfolding trim
trim_of_base64 s h =
    rw (trim_start_of_base64 s h, trim_start_of_base64 (reverse s) (All-reverse IsBase64OrPad s h))
      (reverse-reverse s)

module _ (c : Codec) (codec : IsCodec c) where
  -- A plain value comes back from its sealed text.
  pub open_payload-seal_payload :
      (v : Json) → is_plain v ≡ true → open_payload c (seal_payload c v) ≡ ok v
  unfolding open_payload seal_payload
  open_payload-seal_payload v h =
      let utf8 = c.encode (c.stringify v) in
      let bytes = codec.encode-IsByte (c.stringify v) in
      rw
        (
          bytes_to_b64-btoa utf8,
          trim_of_base64 (btoa utf8) (btoa-All utf8),
          ← bytes_to_b64-btoa utf8,
        )
        (rw (b64_to_bytes-bytes_to_b64 utf8 bytes)
          (rw (codec.decode-encode v, codec.parse-stringify v h)))

bytes_of-bytes_to_b64 :
    (bs : Bytes) → All IsByte bs → bytes_of (some (str (bytes_to_b64 bs))) ≡ ok bs
unfolding bytes_of js_string
bytes_of-bytes_to_b64 bs h = rw (b64_to_bytes-bytes_to_b64 bs h)

pub envelope_payload-is_plain :
    (round : ℕ) (ct : Bytes) (sender recipient : Option Text)
    → ltb round (2 ^ 53) ≡ true
    → is_plain (envelope_payload round ct sender recipient) ≡ true
unfolding envelope_payload is_plain text_eq
envelope_payload-is_plain round ct sender recipient h = ground (arith)

pub ctrng_payload-is_plain :
    (args : CtrngArgs)
    → ltb args.unlock_unix (2 ^ 53) ≡ true
    → All (λ n. n < 2 ^ 53) (to_list args.target_sequence)
    → is_plain (ctrng_payload args) ≡ true
unfolding ctrng_payload is_plain text_eq
ctrng_payload-is_plain args h k = ground arith

module _ (c : Codec) (codec : IsCodec c) where
  -- `unpack` returns the round, the ciphertext and the payload that `pack` was given, for a round
  -- that a double holds exactly and any names.
  pub unpack-pack :
      (round : ℕ) (ct : Bytes) (sender recipient : Option Text)
      → round < 2 ^ 53
      → All IsByte ct
      → unpack c (pack c round ct sender recipient)
        ≡ ok (record {
          round = some round;
          ct = ct;
          payload = envelope_payload round ct sender recipient;
        })
  unfolding unpack pack envelope_payload property text_eq
  unpack-pack round ct sender recipient h k =
      rw
        (open_payload-seal_payload c codec (envelope_payload round ct sender recipient)
          (envelope_payload-is_plain round ct sender recipient (lt→ltb _ _ h)))
        (rw (bytes_of-bytes_to_b64 ct k))

  -- `unpackCtrng` returns what `packCtrng` was given, for numbers that a double holds exactly.
  pub unpack_ctrng-pack_ctrng :
      (args : CtrngArgs)
      → args.unlock_unix < 2 ^ 53
      → All (λ n. n < 2 ^ 53) (to_list args.target_sequence)
      → All IsByte args.ct
      → All IsByte args.iv
      → unpack_ctrng c (pack_ctrng c args)
        ≡ ok (record {
          unlock_unix = some args.unlock_unix;
          target_sequence = args.target_sequence;
          ct = args.ct;
          iv = args.iv;
          commit = some (str args.commit);
          payload = ctrng_payload args;
        })
  unfolding unpack_ctrng pack_ctrng ctrng_payload property text_eq
  unpack_ctrng-pack_ctrng args h k p q =
      rw
        (open_payload-seal_payload c codec (ctrng_payload args)
          (ctrng_payload-is_plain args (lt→ltb _ _ h) k))
        (ground (arith, bytes_of-bytes_to_b64 args.ct p, bytes_of-bytes_to_b64 args.iv q))
