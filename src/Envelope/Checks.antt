-- ===== src/Envelope/Checks.antt =====
-- What an envelope that is accepted holds.
use sealed_sky_verification.Common.{ℕ, ◌≡◌, ap, true, Option, none, some, ==_iff, arith}
use sealed_sky_verification.Common.Text.{Text, codes, text_eq_iff}
use sealed_sky_verification.Codec.{Codec}
use sealed_sky_verification.Errors.{
  Error, Result, unsupported_version, chain_mismatch, unexpected_scheme, ipns_mismatch, ok, err,
  guard, ◌>>=◌,
}
use sealed_sky_verification.Json.{Json, null, bool, num, str, arr, obj, property, number?}
use sealed_sky_verification.Drand.{chain_hash}
use sealed_sky_verification.Ctrng.{ctrng_ipns_key}
use sealed_sky_verification.Envelope.{
  ParsedEnvelope, ParsedCtrngEnvelope, equals_num, equals_str, ctrng_scheme, bytes_of, open_payload,
  unpack, unpack_ctrng,
}

eq_of_equals_num : (n : ℕ) (v : Option Json) → equals_num n v ≡ true → v ≡ some (num n)
eq_of_equals_num n none h = cc
eq_of_equals_num n (some (num m)) h = ap (λ (k : ℕ). some (num k)) ((==_iff m n).0 h)
eq_of_equals_num n (some null) h = cc
eq_of_equals_num n (some (bool b)) h = cc
eq_of_equals_num n (some (str s)) h = cc
eq_of_equals_num n (some (arr vs)) h = cc
eq_of_equals_num n (some (obj fs)) h = cc

eq_of_equals_str : (t : Text) (v : Option Json) → equals_str t v ≡ true → v ≡ some (str t)
eq_of_equals_str t none h = cc
eq_of_equals_str t (some (str s)) h = ap (λ (u : Text). some (str u)) ((text_eq_iff s t).0 h)
eq_of_equals_str t (some null) h = cc
eq_of_equals_str t (some (bool b)) h = cc
eq_of_equals_str t (some (num s)) h = cc
eq_of_equals_str t (some (arr vs)) h = cc
eq_of_equals_str t (some (obj fs)) h = cc

-- A value that passes the test of its version or of its tag.
num_of_guard :
    (r : Result (Option Json)) (n : ℕ) (e : Error)
    → (r >>= λ v. guard (equals_num n v) e) ≡ ok tt
    → r ≡ ok (some (num n))
num_of_guard (err x) n e h = cc
num_of_guard (ok v) n e h = ground (arith, eq_of_equals_num n v)

str_of_guard :
    (r : Result (Option Json)) (t : Text) (e : Error)
    → (r >>= λ v. guard (equals_str t v) e) ≡ ok tt
    → r ≡ ok (some (str t))
str_of_guard (err x) t e h = cc
str_of_guard (ok v) t e h = ground (arith, eq_of_equals_str t v)

-- The payload has the number `n` under `v`, the text `t` under `k`, and the parsed bytes under `ct`.
pub record IsTagged (k t : Text) (payload : Json) : Type 0 where
  pub version : property (codes "v") payload ≡ ok (some (num 1))
  pub tag : property k payload ≡ ok (some (str t))

module _ (c : Codec) where
  -- `unpack` accepts only an object of version 1 for the quicknet chain; the round and the
  -- ciphertext that it returns are those of the object.
  unpack-IsTagged :
      (blob : Text) (e : ParsedEnvelope)
      → unpack c blob ≡ ok e
      → (open_payload c blob ≡ ok e.payload)
        × IsTagged (codes "chain_hash") chain_hash e.payload
        × ((property (codes "round") e.payload >>= λ round. ok (number? round)) ≡ ok e.round)
        × ((property (codes "ct") e.payload >>= bytes_of) ≡ ok e.ct)
  unfolding unpack
  unpack-IsTagged blob e h =
      let v = property (codes "v") e.payload in
      let tag = property (codes "chain_hash") e.payload in
      (
        ground arith,
        record {
          version = num_of_guard v 1 unsupported_version (ground arith);
          tag = str_of_guard tag chain_hash chain_mismatch (ground arith);
        },
        ground arith,
        ground arith,
      )

  -- `unpackCtrng` accepts only an object of version 1 with the scheme and the beacon's key of the
  -- program; the unlock time, the target, the ciphertext, the nonce and the commitment that it
  -- returns are those of the object.
  pub unpack_ctrng-IsTagged :
      (blob : Text) (e : ParsedCtrngEnvelope)
      → unpack_ctrng c blob ≡ ok e
      → (open_payload c blob ≡ ok e.payload)
        × IsTagged (codes "scheme") ctrng_scheme e.payload
        × (property (codes "ipns_key") e.payload ≡ ok (some (str ctrng_ipns_key)))
        × ((property (codes "unlock_unix") e.payload >>= λ t. ok (number? t)) ≡ ok e.unlock_unix)
        × ((property (codes "target_sequence") e.payload >>= λ t. ok (number? t))
            ≡ ok e.target_sequence)
        × ((property (codes "ct") e.payload >>= bytes_of) ≡ ok e.ct)
        × ((property (codes "iv") e.payload >>= bytes_of) ≡ ok e.iv)
        × (property (codes "commit") e.payload ≡ ok e.commit)
  unfolding unpack_ctrng
  unpack_ctrng-IsTagged blob e h =
      let v = property (codes "v") e.payload in
      let scheme = property (codes "scheme") e.payload in
      let ipns_key = property (codes "ipns_key") e.payload in
      (
        ground arith,
        record {
          version = num_of_guard v 1 unsupported_version (ground arith);
          tag = str_of_guard scheme ctrng_scheme unexpected_scheme (ground arith);
        },
        str_of_guard ipns_key ctrng_ipns_key ipns_mismatch (ground arith),
        ground arith,
        ground arith,
        ground arith,
        ground arith,
        ground arith,
      )
