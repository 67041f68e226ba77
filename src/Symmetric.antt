-- ===== src/Symmetric.antt =====
-- sealed-sky-web/src/lib/symmetric.ts: AES-GCM under a random key, and the commitment to the key,
-- the nonce and the unlock time. The primitives of Web Crypto are parameters.
pub mod Compare
pub mod Commitment
pub mod Opening
pub mod Simple
use sealed_sky_verification.Common.{
  ℕ, Bool, true, false, not, Option, none, some, List, [], ◌∷◌, All, ◌≡◌, ◌==◌, if◌then◌else◌,
  length,
}
use sealed_sky_verification.Common.Text.{Text, codes}
use sealed_sky_verification.Base64.Laws.{IsByte}
use sealed_sky_verification.Bytes.{Bytes, bytes_to_hex, u64_be_bytes, concat}
use sealed_sky_verification.Codec.{Codec}
use sealed_sky_verification.Errors.{
  Result, ok, err, type_error, range_error, thrown, or_throw, ◌>>=◌,
}
use sealed_sky_verification.Json.{Json, null, str, arr, length_items}
use Prim.Native.Nat.{bit_or, bit_xor}

-- AES-GCM encryption and decryption under a key and a nonce, `none` where the tag does not fit, and
-- SHA-256.
pub record Crypto : Type 0 where
  pub encrypt : (key iv : Bytes) → Bytes → Bytes
  pub decrypt : (key iv : Bytes) → Bytes → Option Bytes
  pub sha_256 : Bytes → Bytes

pub record IsCrypto (k : Crypto) : Type 0 where
  pub decrypt-encrypt :
      (key iv pt : Bytes) → k.decrypt key iv (k.encrypt key iv pt) ≡ Option.some pt
  pub encrypt-IsByte : (key iv pt : Bytes) → All IsByte pt → All IsByte (k.encrypt key iv pt)
  pub sha_256-IsByte : (d : Bytes) → All IsByte (k.sha_256 d)

pub record SymSealed : Type 0 where
  pub ct : Bytes
  pub iv : Bytes
  pub key : Bytes
  pub commit : Text

-- The loop of `constantTimeEqHex` over strings of one length.
diff_loop : ℕ → Text → Text → ℕ
diff_loop diff (a ∷ as_) (b ∷ bs) = diff_loop (bit_or diff (bit_xor a b)) as_ bs
diff_loop diff _ _ = diff

unfoldable pub constant_time_eq_hex : Text → Text → Bool
unfolding diff_loop
constant_time_eq_hex a b = if not (length a == length b) then false else diff_loop 0 a b == 0

-- The comparison with a value that need not be a string: `length` of null or undefined throws,
-- what has another length differs, and an array of the same length has no `charCodeAt`.
unfoldable pub eq_hex_value : Text → Option Json → Result Bool
eq_hex_value got none = err type_error
eq_hex_value got (some null) = err type_error
eq_hex_value got (some (str s)) = ok (constant_time_eq_hex got s)
eq_hex_value got (some (arr vs)) =
    if length got == length_items vs then err type_error else ok false
eq_hex_value got (some _) = ok false

module _ (c : Codec) where
  abbrev pub commit_label : Bytes
  commit_label = c.encode (codes "sealed-sky/ctrng-cr-v1")

  abbrev pub commit_data : (key iv : Bytes) → ℕ → Bytes
  commit_data key iv unlock_unix = concat (commit_label ∷ key ∷ iv ∷ u64_be_bytes unlock_unix ∷ [])

module _ (c : Codec) (k : Crypto) where
  unfoldable pub commitment : (key iv : Bytes) → ℕ → Text
  commitment key iv unlock_unix = bytes_to_hex (k.sha_256 (commit_data c key iv unlock_unix))

  -- The random key and nonce are arguments.
  unfoldable pub sym_seal : (key iv : Bytes) → Text → ℕ → SymSealed
  sym_seal key iv plaintext unlock_unix = record {
    ct = k.encrypt key iv (c.encode plaintext);
    iv = iv;
    key = key;
    commit = commitment key iv unlock_unix;
  }

  unfoldable pub sym_open : (ct iv key : Bytes) → Result Text
  sym_open ct iv key = do
    pt ← or_throw (thrown (codes "OperationError")) (k.decrypt key iv ct)
    ok (c.decode pt)

  -- `BigInt` of an unlock time that is undefined throws a RangeError.
  unfoldable pub verify_commitment : Option Json → (key iv : Bytes) → Option ℕ → Result Bool
  verify_commitment expected key iv unlock_unix = do
    t ← or_throw range_error unlock_unix
    eq_hex_value (commitment key iv t) expected
