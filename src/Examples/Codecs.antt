-- ===== src/Examples/Codecs.antt =====
-- Bytes, envelopes and commitments on concrete inputs.
use sealed_sky_verification.Ctrng.{ctrng_ipns_key}
use sealed_sky_verification.Errors.{◌>>=◌, ok}
use sealed_sky_verification.Json.{property, number?, str}
use sealed_sky_verification.Envelope.Checks.{IsTagged, unpack_ctrng-IsTagged}
use sealed_sky_verification.Envelope.{
  open_payload, bytes_of, ctrng_scheme, CtrngArgs, ParsedCtrngEnvelope, envelope_payload,
  ctrng_payload, pack, unpack, pack_ctrng, unpack_ctrng,
}
use sealed_sky_verification.Codec.{is_scalar_text}
use sealed_sky_verification.Common.{◌↔◌, ◌⊎◌, ℕ, ◌≡◌, refl, true, none, some, [], ◌∷◌, All, arith}
use sealed_sky_verification.Common.Text.{codes}
use sealed_sky_verification.Base64.Laws.{IsByte}
use sealed_sky_verification.Bytes.{Bytes}
use sealed_sky_verification.Codec.Simple as SimpleCodec
use sealed_sky_verification.Symmetric.Simple as SimpleCrypto
use sealed_sky_verification.Symmetric.{sym_seal, sym_open, verify_commitment, constant_time_eq_hex}
use sealed_sky_verification.Symmetric.Compare.{constant_time_eq_hex_iff}
use sealed_sky_verification.Symmetric.Commitment.{Collision, commitment_binding}
use sealed_sky_verification.Symmetric.Opening.{sym_open-sym_seal}
use sealed_sky_verification.Envelope.RoundTrip.{unpack-pack, unpack_ctrng-pack_ctrng}
use sealed_sky_verification.Examples.Data.{codec, crypto, capsule_key, capsule_iv}

abbrev noon : ℕ
noon = 1700000000

abbrev some_bytes : Bytes
some_bytes = 0 ∷ 104 ∷ 255 ∷ 33 ∷ []

some_bytes-IsByte : All IsByte some_bytes
some_bytes-IsByte = (omega arith, (omega arith, (omega arith, (omega arith, tt))))

constant_time_eq_hex_iff_example :
    (constant_time_eq_hex (codes "ab") (codes "ac") ≡ true) ↔ (codes "ab" ≡ codes "ac")
constant_time_eq_hex_iff_example = constant_time_eq_hex_iff (codes "ab") (codes "ac")

commitment_binding_example :
    ((capsule_key ≡ capsule_key) × (capsule_iv ≡ capsule_iv) × (noon ≡ noon)) ⊎ Collision crypto
commitment_binding_example =
    commitment_binding codec crypto SimpleCrypto.simple-IsCrypto capsule_key capsule_key capsule_iv
      capsule_iv 1700000000 1700000000 refl refl (omega arith) (omega arith) refl

sym_open-sym_seal_example :
    (verify_commitment codec crypto
        (some (str (sym_seal codec crypto capsule_key capsule_iv (codes "hi") 5).commit))
        capsule_key
        capsule_iv
        (some 5)
      ≡ ok true)
    × (sym_open codec crypto
          (sym_seal codec crypto capsule_key capsule_iv (codes "hi") 5).ct
          capsule_iv
          capsule_key
        ≡ ok (codes "hi"))
unfolding sym_seal is_scalar_text
sym_open-sym_seal_example =
    sym_open-sym_seal codec SimpleCodec.simple-IsCodec crypto SimpleCrypto.simple-IsCrypto
      capsule_key capsule_iv (codes "hi") 5 refl

unpack-pack_example :
    unpack codec (pack codec 1234 some_bytes (some (codes "a.eth")) none)
    ≡ ok (record {
      round = some 1234;
      ct = some_bytes;
      payload = envelope_payload 1234 some_bytes (some (codes "a.eth")) none;
    })
unpack-pack_example =
    unpack-pack codec SimpleCodec.simple-IsCodec 1234 some_bytes (some (codes "a.eth")) none
      (omega arith) some_bytes-IsByte

abbrev args : CtrngArgs
args = record {
  unlock_unix = 1700000000;
  target_sequence = some 41;
  ct = some_bytes;
  iv = capsule_iv;
  commit = codes "0a";
  sender_ens = none;
  recipient_ens = some (codes "b.eth");
}

unpack_ctrng-pack_ctrng_example :
    unpack_ctrng codec (pack_ctrng codec args)
    ≡ ok (record {
      unlock_unix = some 1700000000;
      target_sequence = some 41;
      ct = some_bytes;
      iv = capsule_iv;
      commit = some (str (codes "0a"));
      payload = ctrng_payload args;
    })
unpack_ctrng-pack_ctrng_example =
    unpack_ctrng-pack_ctrng codec SimpleCodec.simple-IsCodec args (omega arith) (omega arith, tt)
      some_bytes-IsByte (omega arith, (omega arith, tt))

abbrev parsed_args : ParsedCtrngEnvelope
parsed_args = record {
  unlock_unix = some 1700000000;
  target_sequence = some 41;
  ct = some_bytes;
  iv = capsule_iv;
  commit = some (str (codes "0a"));
  payload = ctrng_payload args;
}

unpack_ctrng-IsTagged_example :
    (open_payload codec (pack_ctrng codec args) ≡ ok parsed_args.payload)
    × IsTagged (codes "scheme") ctrng_scheme parsed_args.payload
    × (property (codes "ipns_key") parsed_args.payload ≡ ok (some (str ctrng_ipns_key)))
    × ((property (codes "unlock_unix") parsed_args.payload >>= λ t. ok (number? t))
        ≡ ok parsed_args.unlock_unix)
    × ((property (codes "target_sequence") parsed_args.payload >>= λ t. ok (number? t))
        ≡ ok parsed_args.target_sequence)
    × ((property (codes "ct") parsed_args.payload >>= bytes_of) ≡ ok parsed_args.ct)
    × ((property (codes "iv") parsed_args.payload >>= bytes_of) ≡ ok parsed_args.iv)
    × (property (codes "commit") parsed_args.payload ≡ ok parsed_args.commit)
unpack_ctrng-IsTagged_example =
    unpack_ctrng-IsTagged codec (pack_ctrng codec args) parsed_args unpack_ctrng-pack_ctrng_example
