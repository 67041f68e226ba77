-- ===== src/Envelope.antt =====
-- sealed-sky-web/src/lib/envelope.ts and envelope-ctrng.ts: the base64 text of a JSON object that
-- carries a ciphertext, for each of the two backends.
pub mod RoundTrip
pub mod Checks
use sealed_sky_verification.Common.{
  ℕ, Bool, true, false, Option, none, some, [], ◌∷◌, ◌==◌, if◌then◌else◌, map,
}
use sealed_sky_verification.Common.Text.{Text, codes, text_eq}
use sealed_sky_verification.Js.{trim}
use sealed_sky_verification.Bytes.{Bytes, bytes_to_b64, b64_to_bytes}
use sealed_sky_verification.Codec.{Codec}
use sealed_sky_verification.Errors.{
  Error, Result, ok, err, bad_base64, bad_json, unsupported_version, unexpected_scheme,
  ipns_mismatch, chain_mismatch, or_throw, guard, ◌>>=◌, ◌>>◌,
}
use sealed_sky_verification.Json.{
  Json, num, str, obj, Fields, end, field, property, number?, option_string, optional_field,
}
use sealed_sky_verification.Drand.{chain_hash, chain_name}
use sealed_sky_verification.Ctrng.{ctrng_ipns_key}
use mathlib.Core.Option

abbrev pub envelope_version : ℕ
envelope_version = 1

abbrev pub backend_tag : Text
backend_tag = codes "timelock"

abbrev pub ctrng_envelope_version : ℕ
ctrng_envelope_version = 1

abbrev pub ctrng_scheme : Text
ctrng_scheme = codes "ctrng-cr-v1"

abbrev pub ctrng_beacon_name : Text
ctrng_beacon_name = codes "spacecomputer-ctrng"

-- An optional name, written only if it is there and not empty.
abbrev pub name_field : Text → Option Text → Fields → Fields
name_field k none fs = fs
name_field k (some []) fs = fs
name_field k (some (c ∷ s)) fs = field k (str (c ∷ s)) fs

-- `value === number` and `value === text`, false on undefined and on other types.
abbrev pub equals_num : ℕ → Option Json → Bool
equals_num n (some (num m)) = m == n
equals_num n _ = false

abbrev pub equals_str : Text → Option Json → Bool
equals_str t (some (str s)) = text_eq s t
equals_str t _ = false

-- The object that `pack` prints.
unfoldable pub envelope_payload : ℕ → Bytes → Option Text → Option Text → Json
envelope_payload round ct sender_ens recipient_ens = obj (
    field (codes "v") (num envelope_version) (
      field (codes "chain") (str chain_name) (
        field (codes "chain_hash") (str chain_hash) (
          field (codes "round") (num round) (
            field (codes "backend") (str backend_tag) (
              field (codes "ct") (str (bytes_to_b64 ct)) (
                name_field (codes "sender_ens") sender_ens
                  (name_field (codes "recipient_ens") recipient_ens end))))))))

pub record ParsedEnvelope : Type 0 where
  pub round : Option ℕ
  pub ct : Bytes
  pub payload : Json

pub record CtrngArgs : Type 0 where
  pub unlock_unix : ℕ
  pub target_sequence : Option ℕ
  pub ct : Bytes
  pub iv : Bytes
  pub commit : Text
  pub sender_ens : Option Text
  pub recipient_ens : Option Text

-- The object that `packCtrng` prints; a target that is undefined is left out.
unfoldable pub ctrng_payload : CtrngArgs → Json
ctrng_payload args = obj (
    field (codes "v") (num ctrng_envelope_version) (
      field (codes "scheme") (str ctrng_scheme) (
        field (codes "beacon") (str ctrng_beacon_name) (
          field (codes "ipns_key") (str ctrng_ipns_key) (
            field (codes "unlock_unix") (num args.unlock_unix) (
              optional_field (codes "target_sequence") (Option.map num args.target_sequence) (
                field (codes "ct") (str (bytes_to_b64 args.ct)) (
                  field (codes "iv") (str (bytes_to_b64 args.iv)) (
                    field (codes "commit") (str args.commit) (
                      name_field (codes "sender_ens") args.sender_ens
                        (name_field (codes "recipient_ens") args.recipient_ens end)))))))))))

pub record ParsedCtrngEnvelope : Type 0 where
  pub unlock_unix : Option ℕ
  pub target_sequence : Option ℕ
  pub ct : Bytes
  pub iv : Bytes
  pub commit : Option Json
  pub payload : Json

-- `b64ToBytes(value)`, with what `atob` makes of a value that is no string.
unfoldable pub bytes_of : Option Json → Result Bytes
bytes_of v = or_throw bad_base64 (b64_to_bytes (option_string v))

module _ (c : Codec) where
  -- `bytesToB64(new TextEncoder().encode(JSON.stringify(payload)))`
  unfoldable pub seal_payload : Json → Text
  seal_payload payload = bytes_to_b64 (c.encode (c.stringify payload))

  -- `JSON.parse(new TextDecoder().decode(b64ToBytes(blob.trim())))`
  unfoldable pub open_payload : Text → Result Json
  open_payload blob = do
    utf8 ← or_throw bad_base64 (b64_to_bytes (trim blob))
    or_throw bad_json (c.parse (c.decode utf8))

  unfoldable pub pack : ℕ → Bytes → Option Text → Option Text → Text
  pack round ct sender_ens recipient_ens =
      seal_payload (envelope_payload round ct sender_ens recipient_ens)

  unfoldable pub unpack : Text → Result ParsedEnvelope
  unpack blob = do
    payload ← open_payload blob
    v ← property (codes "v") payload
    guard (equals_num envelope_version v) unsupported_version
    hash ← property (codes "chain_hash") payload
    guard (equals_str chain_hash hash) chain_mismatch
    round ← property (codes "round") payload
    ct_b64 ← property (codes "ct") payload
    ct ← bytes_of ct_b64
    ok (record { round = number? round; ct = ct; payload = payload })

  unfoldable pub pack_ctrng : CtrngArgs → Text
  pack_ctrng args = seal_payload (ctrng_payload args)

  unfoldable pub unpack_ctrng : Text → Result ParsedCtrngEnvelope
  unpack_ctrng blob = do
    payload ← open_payload blob
    v ← property (codes "v") payload
    guard (equals_num ctrng_envelope_version v) unsupported_version
    scheme ← property (codes "scheme") payload
    guard (equals_str ctrng_scheme scheme) unexpected_scheme
    ipns_key ← property (codes "ipns_key") payload
    guard (equals_str ctrng_ipns_key ipns_key) ipns_mismatch
    unlock_unix ← property (codes "unlock_unix") payload
    target_sequence ← property (codes "target_sequence") payload
    ct_b64 ← property (codes "ct") payload
    ct ← bytes_of ct_b64
    iv_b64 ← property (codes "iv") payload
    iv ← bytes_of iv_b64
    commit ← property (codes "commit") payload
    ok (record {
      unlock_unix = number? unlock_unix;
      target_sequence = number? target_sequence;
      ct = ct;
      iv = iv;
      commit = commit;
      payload = payload;
    })
