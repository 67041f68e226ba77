-- ===== src/Share/Link.antt =====
-- The links of share.ts, from the item that is shared to what the page reads from the URL.
use sealed_sky_verification.Share.Url.Params.{
  search_params-pair, IsSafe, IsSafePair, search_params-write_params, write_params-ne-nil,
}
use sealed_sky_verification.Common.{
  ℕ, ◌≡◌, ◌≢◌, refl, sym, ap, ◌∙◌, true, false, Option, none, some, List, [], ◌∷◌, ◌++◌, All, arith,
  all,
}
use sealed_sky_verification.Common.Text.{Text, codes, text_eq}
use sealed_sky_verification.Js.{is_digit, is_decimal, to_string}
use sealed_sky_verification.Js.Decimal.{to_string-is_decimal, parse_int-to_string, to_string-ne-nil}
use sealed_sky_verification.Base64.{btoa}
use sealed_sky_verification.Bytes.{Bytes}
use sealed_sky_verification.Codec.{Codec, IsCodec, is_scalar_text, IsAsciiCodec}
use sealed_sky_verification.Queue.{QueueItem}
use sealed_sky_verification.Share.{
  truthy, shared_key, key_param, created_of, decoded_key, b64_url_encode, b64_url_decode,
  build_share_url, parse_fragment, key_fragment, read_key_fragment, is_empty,
}
use sealed_sky_verification.Share.Url.{search_params, get_param, write_params, encode_uri_component}
use sealed_sky_verification.Share.Url.Component.{search_params-encode_uri_component}
use sealed_sky_verification.Share.Base64Url.{b64_url_decode-b64_url_encode, b64_url_encode-IsSafe}

digits-IsSafe : (t : Text) → all is_digit t ≡ true → All IsSafe t
digits-IsSafe [] h = tt
digits-IsSafe (c ∷ t) h = ground (arith, digits-IsSafe t)

decimal-IsSafe : (t : Text) → is_decimal t ≡ true → All IsSafe t
unfolding is_decimal
decimal-IsSafe [] h = tt
decimal-IsSafe (c ∷ t) h = digits-IsSafe (c ∷ t) h

to_string-IsSafe : (n : ℕ) → All IsSafe (to_string n)
to_string-IsSafe n = decimal-IsSafe (to_string n) (to_string-is_decimal n)

pub btoa-ne-nil : (bs : Bytes) → bs ≢ [] → btoa bs ≢ []
unfolding btoa
btoa-ne-nil [] n e = n refl
btoa-ne-nil (a ∷ []) n e = cc e
btoa-ne-nil (a ∷ b ∷ []) n e = cc e
btoa-ne-nil (a ∷ b ∷ c ∷ r) n e = cc e

pub truthy_of_ne : (t : Text) → t ≢ [] → truthy (some t) ≡ some t
truthy_of_ne [] n = absurd (n refl)
truthy_of_ne (c ∷ t) n = refl

b64_url_encode-ne-nil : (bs : Bytes) → bs ≢ [] → b64_url_encode (btoa bs) ≢ []
unfolding b64_url_decode
b64_url_encode-ne-nil bs n e =
    btoa-ne-nil bs n (sym (b64_url_decode-b64_url_encode bs) ∙ ap b64_url_decode e)

is_empty_of_ne : (t : Text) → t ≢ [] → is_empty t ≡ false
is_empty_of_ne [] n = absurd (n refl)
is_empty_of_ne (c ∷ t) n = refl

-- The time of a link is that of the item.
created_of-to_string : (now n : ℕ) → created_of now (truthy (some (to_string n))) ≡ n
created_of-to_string now n =
    rw
      (
        truthy_of_ne (to_string n) (to_string-ne-nil n),
        to_string-is_decimal n,
        parse_int-to_string n,
      )
      refl

decoded_key-encode :
    (bs : Bytes) → bs ≢ [] → decoded_key (truthy (some (b64_url_encode (btoa bs)))) ≡ some (btoa bs)
decoded_key-encode bs n =
    rw
      (
        truthy_of_ne (b64_url_encode (btoa bs)) (b64_url_encode-ne-nil bs n),
        b64_url_decode-b64_url_encode bs,
      )
      refl

-- The key that a link carries is the base64 of bytes that are not empty, or there is none.
abbrev pub IsKey : Option Text → Type 0
IsKey none = Unit
IsKey (some k) = (bs : Bytes) × (bs ≢ []) × (k ≡ btoa bs)

module _ (c : Codec) (laws : IsAsciiCodec c) where
  is_empty-write :
      (k v : Text) (ps : List (Text × Text)) → is_empty (write_params c ((k, v) ∷ ps)) ≡ false
  is_empty-write k v ps = is_empty_of_ne _ (write_params-ne-nil c k v ps)

  key_param-IsSafePair : (key : Option Text) → IsKey key → All IsSafePair (key_param key)
  key_param-IsSafePair none h = tt
  key_param-IsSafePair (some k) (bs, n, e) = (((refl, tt), rw e (b64_url_encode-IsSafe bs)), tt)

  get_param-key_param :
      (key : Option Text)
      → IsKey key
      → decoded_key (truthy (get_param (codes "k") (key_param key))) ≡ key
  unfolding get_param text_eq
  get_param-key_param none h = refl
  get_param-key_param (some k) (bs, n, e) = rw e (decoded_key-encode bs n)

  link_params :
      (bs : Bytes) (n : ℕ) (key : Option Text)
      → IsKey key
      → search_params c (
          write_params c
            ((codes "env", b64_url_encode (btoa bs)) ∷ (codes "t", to_string n) ∷ key_param key))
        ≡ (codes "env", b64_url_encode (btoa bs)) ∷ (codes "t", to_string n) ∷ key_param key
  link_params bs n key h =
      search_params-write_params c laws _
        (
          ((refl, (refl, (refl, tt))), b64_url_encode-IsSafe bs),
          (((refl, tt), to_string-IsSafe n), key_param-IsSafePair key h),
        )
        (λ e. cc e)

  -- The fragment of an item that has no ENS name.
  abbrev fragment_text : Text → ℕ → Option Text → Text
  fragment_text env n key =
      35
      ∷ write_params c
          ((codes "env", b64_url_encode env) ∷ (codes "t", to_string n) ∷ key_param key)

  parse_fragment-fragment_text :
      (bs : Bytes) (n now : ℕ) (key : Option Text)
      → bs ≢ []
      → IsKey key
      → parse_fragment c (fragment_text (btoa bs) n key) now
        ≡ some (record { envelope = btoa bs; created_at = n; ctrng_key_b64 = key })
  unfolding parse_fragment get_param text_eq
  parse_fragment-fragment_text bs n now key ne h =
      rw
        (
          is_empty-write (codes "env") (b64_url_encode (btoa bs)) _,
          link_params bs n key h,
          truthy_of_ne (b64_url_encode (btoa bs)) (b64_url_encode-ne-nil bs ne),
          b64_url_decode-b64_url_encode bs,
          get_param-key_param key h,
          created_of-to_string now n,
        )
        refl

  -- What the link of an item without an ENS name has behind the address of the page is a fragment,
  -- from which the page reads the envelope of the item, its time and the key that the item shares,
  -- for an envelope that is the base64 of bytes, of which there is one, as is a key that is shared.
  pub parse_fragment-build_share_url :
      (base : Text) (item : QueueItem) (now : ℕ) (bs : Bytes)
      → truthy item.capsule_ens ≡ none
      → item.envelope ≡ btoa bs
      → bs ≢ []
      → IsKey (shared_key item.backend item.ctrng_key_b64)
      → (hash : Text) × (build_share_url c base item ≡ base ++ hash)
        × (parse_fragment c hash now
            ≡ some (record {
              envelope = item.envelope;
              created_at = item.created_at;
              ctrng_key_b64 = shared_key item.backend item.ctrng_key_b64;
            }))
  unfolding build_share_url
  parse_fragment-build_share_url base item now bs e v n h = (
    fragment_text item.envelope item.created_at (shared_key item.backend item.ctrng_key_b64),
    rw (e, build_share_url) refl,
    rw v (parse_fragment-fragment_text bs item.created_at now _ n h),
  )

  read_key_fragment-key_fragment :
      (key : Option Text) → IsKey key → read_key_fragment c (key_fragment key) ≡ key
  unfolding read_key_fragment get_param text_eq
  read_key_fragment-key_fragment none h = refl
  read_key_fragment-key_fragment (some k) (bs, n, e) = rw e (
      rw
        (search_params-pair c laws (codes "k") (b64_url_encode (btoa bs))
          ((refl, tt), b64_url_encode-IsSafe bs))
        (decoded_key-encode bs n))

  -- What the link of an item with an ENS name has behind the address of the page is a query, in which
  -- the page finds the name, and behind it a fragment, in which it finds the key that the item
  -- shares, for a name that is well-formed UTF-16 with no byte order mark before it and a key that is
  -- the base64 of bytes.
  pub read_key_fragment-build_share_url :
      IsCodec c
      → (base : Text) (item : QueueItem) (name : Text) → truthy item.capsule_ens ≡ some name
      → is_scalar_text name ≡ true
      → IsKey (shared_key item.backend item.ctrng_key_b64)
      → (search_text hash : Text) × (build_share_url c base item ≡ base ++ (search_text ++ hash))
        × (get_param (codes "ens") (search_params c search_text) ≡ some name)
        × (read_key_fragment c hash ≡ shared_key item.backend item.ctrng_key_b64)
  unfolding build_share_url get_param text_eq
  read_key_fragment-build_share_url codec base item name e s h = (
    codes "?ens=" ++ encode_uri_component c name,
    key_fragment (shared_key item.backend item.ctrng_key_b64),
    rw (e, build_share_url) refl,
    rw (search_params-encode_uri_component c codec laws name s) refl,
    read_key_fragment-key_fragment _ h,
  )
