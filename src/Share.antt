-- ===== src/Share.antt =====
-- sealed-sky-web/src/lib/share.ts: links that carry a capsule in the fragment of a URL or name it by
-- its ENS name, and the import of a capsule. The location of the page is an argument, as is the id.
pub mod Url
pub mod Base64Url
pub mod Import
pub mod Link
use sealed_sky_verification.Common.{
  ℕ, zero, suc, ◌%◌, Bool, true, false, ◌&&◌, Option, none, some, List, [], ◌∷◌, ◌++◌, map, ◌==◌,
  if◌then◌else◌, length,
}
use sealed_sky_verification.Common.Text.{Text, codes, text_eq}
use sealed_sky_verification.Js.{Integer, parse_int, is_decimal, to_string}
use sealed_sky_verification.Codec.{Codec}
use sealed_sky_verification.Errors.{Result, ok, err, unrecognised_envelope, ◌>>=◌}
use sealed_sky_verification.Json.{Json, str, property}
use sealed_sky_verification.Envelope.{
  ParsedEnvelope, ParsedCtrngEnvelope, ctrng_scheme, equals_str, open_payload, unpack, unpack_ctrng,
}
use sealed_sky_verification.Queue.{Backend, drand, ctrng, ItemStatus, sealed, QueueItem}
use sealed_sky_verification.Share.Url.{search_params, get_param, write_params, encode_uri_component}

abbrev url_char : ℕ → ℕ
url_char c = if c == b'+' then b'-' else if c == b'/' then b'_' else c

abbrev plain_char : ℕ → ℕ
plain_char c = if c == b'-' then b'+' else if c == b'_' then b'/' else c

abbrev pub is_empty : Text → Bool
is_empty [] = true
is_empty (c ∷ s) = false

-- `s.replace(/=+$/g, "")`
strip_pads : Text → Text
strip_pads [] = []
strip_pads (c ∷ s) = let rest = strip_pads s in if is_empty rest && c == b'=' then [] else c ∷ rest

unfoldable pub b64_url_encode : Text → Text
unfolding strip_pads
b64_url_encode b64 = strip_pads (map url_char b64)

-- The while loop, which ends after three rounds at the latest.
pad_loop : ℕ → Text → Text
pad_loop zero s = s
pad_loop (suc fuel) s =
    let longer = pad_loop fuel (s ++ (b'=' ∷ [])) in if length s % 4 == 0 then s else longer

unfoldable pub b64_url_decode : Text → Text
unfolding pad_loop
b64_url_decode b64url = pad_loop 3 (map plain_char b64url)

pub record ImportedItem : Type 0 where
  pub envelope : Text
  pub created_at : ℕ
  pub ctrng_key_b64 : Option Text

abbrev is_string : Option Json → Bool
is_string (some (str s)) = true
is_string _ = false

abbrev backend_kind : Bool → Bool → Result Backend
backend_kind true hashed = ok ctrng
backend_kind false true = ok drand
backend_kind false false = err unrecognised_envelope

-- A string is falsy if it is empty, and so is null.
abbrev pub truthy : Option Text → Option Text
truthy none = none
truthy (some []) = none
truthy (some (c ∷ s)) = some (c ∷ s)

-- The key of a capsule of the beacon's backend.
abbrev pub shared_key : Backend → Option Text → Option Text
shared_key drand key = none
shared_key ctrng key = truthy key

abbrev pub key_param : Option Text → List (Text × Text)
key_param none = []
key_param (some key) = (codes "k", b64_url_encode key) ∷ []

abbrev pub key_fragment : Option Text → Text
key_fragment none = []
key_fragment (some key) = codes "#k=" ++ b64_url_encode key

-- `hash.replace(/^#/, "")`
abbrev strip_hash : Text → Text
strip_hash [] = []
strip_hash (c ∷ s) = if c == b'#' then s else c ∷ s

abbrev magnitude_or : ℕ → Option Integer → ℕ
magnitude_or n none = n
magnitude_or n (some i) = i.magnitude

abbrev pub created_of : ℕ → Option Text → ℕ
created_of now none = now
created_of now (some t) = if is_decimal t then magnitude_or now (parse_int 10 t) else now

abbrev pub decoded_key : Option Text → Option Text
decoded_key none = none
decoded_key (some k) = some (b64_url_decode k)

-- The item that both branches of `buildItemFromImport` fill in further.
abbrev pub imported : Text → ImportedItem → Backend → QueueItem
imported id imp backend = record {
  id = id;
  backend = backend;
  envelope = imp.envelope;
  unlock_unix = none;
  created_at = imp.created_at;
  status = sealed;
  plaintext = none;
  error = none;
  round = none;
  ctrng_key_b64 = none;
  ctrng_target_sequence = none;
  ctrng_witness_sequence = none;
  ctrng_witness_timestamp = none;
  ctrng_witness_value = none;
  ctrng_witness_url = none;
  sender_ens = none;
  recipient_ens = none;
  capsule_ens = none;
  capsule_publish_error = none;
}

abbrev drand_import : Text → ImportedItem → ParsedEnvelope → QueueItem
drand_import id imp e = record (imported id imp drand) { round = e.round; unlock_unix = some 0 }

abbrev ctrng_import : Text → ImportedItem → ParsedCtrngEnvelope → QueueItem
ctrng_import id imp e = record (imported id imp ctrng) {
  unlock_unix = e.unlock_unix;
  ctrng_target_sequence = e.target_sequence;
  ctrng_key_b64 = imp.ctrng_key_b64;
}

module _ (c : Codec) where
  unfoldable pub peek_backend : Text → Result Backend
  peek_backend envelope = do
    payload ← open_payload c envelope
    scheme ← property (codes "scheme") payload
    hash ← property (codes "chain_hash") payload
    backend_kind (equals_str ctrng_scheme scheme) (is_string hash)

  -- A capsule that has an ENS name is linked by the name, another by its envelope.
  unfoldable pub build_share_url : Text → QueueItem → Text
  build_share_url base item = elim (truthy item.capsule_ens) [
    | some name ↦
        base
        ++ (codes "?ens="
            ++ (encode_uri_component c name
                ++ key_fragment (shared_key item.backend item.ctrng_key_b64)))
    | none ↦
        base
        ++ (b'#'
            ∷ write_params c (
                (codes "env", b64_url_encode item.envelope)
                ∷ (codes "t", to_string item.created_at)
                ∷ key_param (shared_key item.backend item.ctrng_key_b64)))
  ]

  abbrev fragment_of : ℕ → List (Text × Text) → Option Text → Option ImportedItem
  fragment_of now params none = none
  fragment_of now params (some env) = some (record {
    envelope = b64_url_decode env;
    created_at = created_of now (truthy (get_param (codes "t") params));
    ctrng_key_b64 = decoded_key (truthy (get_param (codes "k") params));
  })

  unfoldable pub parse_fragment : Text → ℕ → Option ImportedItem
  parse_fragment hash now =
      let raw = strip_hash hash in
      if is_empty raw
      then none
      else fragment_of now (search_params c raw)
          (truthy (get_param (codes "env") (search_params c raw)))

  unfoldable pub read_key_fragment : Text → Option Text
  read_key_fragment hash =
      let raw = strip_hash hash in
      if is_empty raw
      then none
      else decoded_key (truthy (get_param (codes "k") (search_params c raw)))

  abbrev item_of : Text → ImportedItem → Backend → Result QueueItem
  item_of id imp drand = do e ← unpack c imp.envelope; ok (drand_import id imp e)
  item_of id imp ctrng = do e ← unpack_ctrng c imp.envelope; ok (ctrng_import id imp e)

  unfoldable pub build_item_from_import : ImportedItem → Text → Result QueueItem
  unfolding peek_backend
  build_item_from_import imp id = do backend ← peek_backend imp.envelope; item_of id imp backend
