-- ===== src/Share/Url/Component.antt =====
-- encodeURIComponent in the value of a query, and what URLSearchParams reads there.
use sealed_sky_verification.Common.{
  ℕ, ◌/◌, ◌%◌, ◌<◌, ◌≡◌, ◌≢◌, refl, ap, ◌∙◌, true, [], ◌∷◌, ◌++◌, map, All, arith, All-append,
  Bool-cases, inl, inr, All-map_of,
}
use sealed_sky_verification.Common.Text.{Text, codes}
use sealed_sky_verification.Js.{digit_value}
use sealed_sky_verification.Base64.Laws.{IsByte}
use sealed_sky_verification.Bytes.{Bytes}
use sealed_sky_verification.Codec.{Codec, IsCodec, is_scalar_text, IsAscii, IsAsciiCodec}
use sealed_sky_verification.Share.Url.Params.{form_decode_of_IsSafe}
use sealed_sky_verification.Share.Url.{
  is_uri_safe, uri_byte, upper_digit, percent, write_bytes, plus_to_space, percent_decode, split_on,
  name_value, encode_uri_component, form_decode, search_params,
}

-- The characters that encodeURIComponent writes.
record IsWritten (b : ℕ) : Type 0 where
  ascii : IsAscii b
  ne_amp : b ≢ 38
  ne_plus : b ≢ 43

uri_safe-IsWritten : (b : ℕ) → is_uri_safe b ≡ true → IsWritten b
uri_safe-IsWritten b h = ground arith

digit-IsWritten : (d : ℕ) → d < 16 → IsWritten (upper_digit d)
digit-IsWritten d h = ground arith

digit_value-upper_digit : (d : ℕ) → d < 16 → digit_value (upper_digit d) ≡ d
digit_value-upper_digit d h = ground arith

uri_byte-IsWritten : (b : ℕ) → IsByte b → All IsWritten (uri_byte b)
uri_byte-IsWritten b h = elim (Bool-cases (is_uri_safe b)) [
  | inl e ↦ rw e (uri_safe-IsWritten b e, tt)
  | inr e ↦ rw e (
    ground arith,
    (digit-IsWritten (b / 16) (omega arith), (digit-IsWritten (b % 16) (omega arith), tt)),
  )
]

write_bytes-IsWritten : (bs : Bytes) → All IsByte bs → All IsWritten (write_bytes uri_byte bs)
write_bytes-IsWritten [] h = tt
write_bytes-IsWritten (b ∷ bs) (p, h) =
    All-append IsWritten (uri_byte b) _ (uri_byte-IsWritten b p) (write_bytes-IsWritten bs h)

map_plus_of_IsWritten : (t : Text) → All IsWritten t → map plus_to_space t ≡ t
map_plus_of_IsWritten [] h = refl
map_plus_of_IsWritten (b ∷ t) (p, h) =
    let ne = p.ne_plus in ground (arith, map_plus_of_IsWritten t h)

percent_decode-plain : (b : ℕ) (t : Text) → b ≢ 37 → percent_decode (b ∷ t) ≡ b ∷ percent_decode t
unfolding percent_decode
percent_decode-plain b [] n = refl
percent_decode-plain b (c ∷ []) n = refl
percent_decode-plain b (c ∷ d ∷ t) n = ground arith

percent_decode-percent :
    (b : ℕ) (t : Text) → IsByte b → percent_decode (percent b ++ t) ≡ b ∷ percent_decode t
unfolding percent_decode
percent_decode-percent b t h =
    rw
      (
        digit_value-upper_digit (b / 16) (omega arith),
        digit_value-upper_digit (b % 16) (omega arith),
      )
      (ground arith)

uri_safe-ne_percent : (b : ℕ) → is_uri_safe b ≡ true → b ≢ 37
uri_safe-ne_percent b h = ground arith

percent_decode-write_bytes :
    (bs : Bytes) → All IsByte bs → percent_decode (write_bytes uri_byte bs) ≡ bs
unfolding percent_decode
percent_decode-write_bytes [] h = refl
percent_decode-write_bytes (b ∷ bs) (p, h) = elim (Bool-cases (is_uri_safe b)) [
  | inl e ↦ rw e (
      percent_decode-plain b _ (uri_safe-ne_percent b e)
      ∙ ap (λ r. b ∷ r) (percent_decode-write_bytes bs h))
  | inr e ↦ rw e (
      percent_decode-percent b (write_bytes uri_byte bs) p
      ∙ ap (λ r. b ∷ r) (percent_decode-write_bytes bs h))
]

split_on-none : (t : Bytes) → All IsWritten t → split_on 38 t ≡ t ∷ []
unfolding split_on
split_on-none [] h = refl
split_on-none (b ∷ t) (p, h) = let ne = p.ne_amp in ground (arith, split_on-none t h)

name_value-written : (k v : Text) → All (λ b. b ≢ 61) k → name_value (k ++ (61 ∷ v)) ≡ (k, v)
unfolding name_value
name_value-written [] v h = refl
name_value-written (b ∷ k) v (p, h) = rw (name_value-written k v h) (ground arith)

ens-IsWritten : (v : Text) → All IsWritten v → All IsWritten (codes "ens=" ++ v)
ens-IsWritten v h = All-append IsWritten (codes "ens=") v (ground arith) h

module _ (c : Codec) (codec : IsCodec c) (laws : IsAsciiCodec c) where
  form_decode-encode_uri_component :
      (t : Text) → is_scalar_text t ≡ true → form_decode c (encode_uri_component c t) ≡ t
  unfolding form_decode encode_uri_component
  form_decode-encode_uri_component t h =
      let bytes = codec.encode-IsByte t in
      ap (λ s. c.decode (percent_decode s))
        (map_plus_of_IsWritten _ (write_bytes-IsWritten (c.encode t) bytes))
      ∙ ap (λ s. c.decode s) (percent_decode-write_bytes (c.encode t) bytes)
      ∙ codec.decode-encode_text t h

  encode_uri_component-IsWritten : (t : Text) → All IsWritten (encode_uri_component c t)
  unfolding encode_uri_component
  encode_uri_component-IsWritten t = write_bytes-IsWritten (c.encode t) (codec.encode-IsByte t)

  -- A query of one name reads the text that its component was made from.
  pub search_params-encode_uri_component :
      (t : Text)
      → is_scalar_text t ≡ true
      → search_params c (codes "?ens=" ++ encode_uri_component c t) ≡ (codes "ens", t) ∷ []
  unfolding search_params split_on
  search_params-encode_uri_component t h =
      let query = codes "ens=" ++ encode_uri_component c t in
      let ens = encode_uri_component-IsWritten t in
      let written : All IsWritten query = ens-IsWritten _ ens in
      rw
        (
          laws.encode_ascii query (All-map_of (λ b p. p.ascii) query written),
          split_on-none query written,
        )
        (rw
          (
            name_value-written (codes "ens") (encode_uri_component c t) (omega arith),
            form_decode-encode_uri_component t h,
          )
          (rw (form_decode_of_IsSafe c laws (codes "ens") (refl, (refl, (refl, tt)))) refl))
