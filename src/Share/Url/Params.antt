-- ===== src/Share/Url/Params.antt =====
-- URLSearchParams on names and values of the characters that a form leaves as they are.
use sealed_sky_verification.Common.{
  ℕ, ◌≡◌, ◌≢◌, refl, sym, ap, ◌∙◌, true, List, [], ◌∷◌, ◌++◌, map, All, arith, All-append,
  All-map_of,
}
use sealed_sky_verification.Common.Text.{Text}
use sealed_sky_verification.Bytes.{Bytes}
use sealed_sky_verification.Codec.{Codec, IsAscii, IsAsciiCodec}
use sealed_sky_verification.Share.Url.{
  is_form_safe, form_byte, write_bytes, plus_to_space, percent_decode, split_on, name_value,
  form_encode, form_decode, write_rest, write_params, read_pieces, search_params, strip_query,
}

abbrev pub IsSafe : ℕ → Type 0
IsSafe b = is_form_safe b ≡ true

IsSafe-IsAscii : (b : ℕ) → IsSafe b → IsAscii b
IsSafe-IsAscii b h = ground arith

IsSafe-ne_amp : (b : ℕ) → IsSafe b → b ≢ 38
IsSafe-ne_amp b h = ground arith

IsSafe-ne_eq : (b : ℕ) → IsSafe b → b ≢ 61
IsSafe-ne_eq b h = ground arith

IsSafe-ne_percent : (b : ℕ) → IsSafe b → b ≢ 37
IsSafe-ne_percent b h = ground arith

IsSafe-ne_query : (b : ℕ) → IsSafe b → b ≢ 63
IsSafe-ne_query b h = ground arith

plus_to_space_of_IsSafe : (b : ℕ) → IsSafe b → plus_to_space b ≡ b
plus_to_space_of_IsSafe b h = ground arith

write_bytes_of_IsSafe : (t : Text) → All IsSafe t → write_bytes form_byte t ≡ t
write_bytes_of_IsSafe [] h = refl
write_bytes_of_IsSafe (b ∷ t) (p, h) = rw p (ap (λ r. b ∷ r) (write_bytes_of_IsSafe t h))

map_plus_of_IsSafe : (t : Text) → All IsSafe t → map plus_to_space t ≡ t
map_plus_of_IsSafe [] h = refl
map_plus_of_IsSafe (b ∷ t) (p, h) =
    rw (plus_to_space_of_IsSafe b p) (ap (λ r. b ∷ r) (map_plus_of_IsSafe t h))

percent_decode_of_IsSafe : (t : Text) → All IsSafe t → percent_decode t ≡ t
unfolding percent_decode
percent_decode_of_IsSafe [] h = refl
percent_decode_of_IsSafe (p ∷ []) h = refl
percent_decode_of_IsSafe (p ∷ q ∷ []) h = refl
percent_decode_of_IsSafe (p ∷ q ∷ r ∷ t) (hp, (hq, (hr, h))) =
    let ne = IsSafe-ne_percent p hp in
    let ih = percent_decode_of_IsSafe (q ∷ r ∷ t) (hq, (hr, h)) in ground arith

-- A run without the separator goes before the first piece.
split_on-run :
    (t rest first : Bytes) (pieces : List Bytes)
    → All (λ b. b ≢ 38) t
    → split_on 38 rest ≡ first ∷ pieces
    → split_on 38 (t ++ rest) ≡ (t ++ first) ∷ pieces
unfolding split_on
split_on-run [] rest first pieces h e = e
split_on-run (b ∷ t) rest first pieces (p, h) e =
    ground (arith, split_on-run t rest first pieces h e)

name_value-append : (k v : Bytes) → All IsSafe k → name_value (k ++ (61 ∷ v)) ≡ (k, v)
unfolding name_value
name_value-append [] v h = refl
name_value-append (b ∷ k) v (p, h) =
    rw (name_value-append k v h) (let ne = IsSafe-ne_eq b p in ground arith)

append_nil : (t : Text) → t ++ [] ≡ t
append_nil [] = refl
append_nil (b ∷ t) = ap (λ r. b ∷ r) (append_nil t)

split_on-piece :
    (k v rest : Text) (pieces : List Bytes)
    → All IsSafe k
    → All IsSafe v
    → split_on 38 rest ≡ [] ∷ pieces
    → split_on 38 (k ++ (61 ∷ (v ++ rest))) ≡ (k ++ (61 ∷ v)) ∷ pieces
unfolding split_on
split_on-piece k v rest pieces hk hv e =
    let value = split_on-run v rest [] pieces (All-map_of IsSafe-ne_amp v hv) e in
    split_on-run k (61 ∷ (v ++ rest)) (61 ∷ v) pieces (All-map_of IsSafe-ne_amp k hk)
      (rw value (ap (λ r. (61 ∷ r) ∷ pieces) (append_nil v)))

abbrev pub IsSafePair : Text × Text → Type 0
IsSafePair (k, v) = All IsSafe k × All IsSafe v

abbrev piece : Text × Text → Bytes
piece (k, v) = k ++ (61 ∷ v)

-- The text of the pairs as they are, without an encoding.
abbrev plain_rest : List (Text × Text) → Text
plain_rest [] = []
plain_rest ((k, v) ∷ ps) = 38 ∷ (k ++ (61 ∷ (v ++ plain_rest ps)))

append_cons-ne-nil : (t : Text) (b : ℕ) (r : Text) → t ++ (b ∷ r) ≢ []
append_cons-ne-nil [] b r e = cc e
append_cons-ne-nil (x ∷ t) b r e = cc e

-- The text of a first pair is not empty.
pub write_params-ne-nil :
    (c : Codec) (k v : Text) (ps : List (Text × Text)) → write_params c ((k, v) ∷ ps) ≢ []
unfolding write_params
write_params-ne-nil c k v ps =
    append_cons-ne-nil (form_encode c k) 61 (form_encode c v ++ write_rest c ps)

strip_query_of_written : (k r : Text) → All IsSafe k → strip_query (k ++ (61 ∷ r)) ≡ k ++ (61 ∷ r)
strip_query_of_written [] r h = refl
strip_query_of_written (b ∷ k) r (p, h) = let ne = IsSafe-ne_query b p in ground arith

run-IsAscii : (t r : Text) → All IsSafe t → All IsAscii r → All IsAscii (t ++ r)
run-IsAscii t r h k = All-append IsAscii t r (All-map_of IsSafe-IsAscii t h) k

plain_rest-IsAscii : (ps : List (Text × Text)) → All IsSafePair ps → All IsAscii (plain_rest ps)
plain_rest-IsAscii [] h = tt
plain_rest-IsAscii ((k, v) ∷ ps) ((hk, hv), h) =
    (omega arith, run-IsAscii k _ hk (omega arith, run-IsAscii v _ hv (plain_rest-IsAscii ps h)))

written-IsAscii :
    (k v : Text) (ps : List (Text × Text))
    → IsSafePair (k, v)
    → All IsSafePair ps
    → All IsAscii (k ++ (61 ∷ (v ++ plain_rest ps)))
written-IsAscii k v ps (hk, hv) h =
    run-IsAscii k _ hk (omega arith, run-IsAscii v _ hv (plain_rest-IsAscii ps h))

module _ (c : Codec) (laws : IsAsciiCodec c) where
  form_encode_of_IsSafe : (t : Text) → All IsSafe t → form_encode c t ≡ t
  unfolding form_encode
  form_encode_of_IsSafe t h =
      rw (laws.encode_ascii t (All-map_of IsSafe-IsAscii t h)) (write_bytes_of_IsSafe t h)

  pub form_decode_of_IsSafe : (t : Text) → All IsSafe t → form_decode c t ≡ t
  unfolding form_decode
  form_decode_of_IsSafe t h =
      ap (λ s. c.decode (percent_decode s)) (map_plus_of_IsSafe t h)
      ∙ ap (λ s. c.decode s) (percent_decode_of_IsSafe t h)
      ∙ laws.decode_ascii t (All-map_of IsSafe-IsAscii t h)

  write_rest_of_IsSafe :
      (ps : List (Text × Text)) → All IsSafePair ps → write_rest c ps ≡ plain_rest ps
  write_rest_of_IsSafe [] h = refl
  write_rest_of_IsSafe ((k, v) ∷ ps) ((hk, hv), h) =
      rw (form_encode_of_IsSafe k hk, form_encode_of_IsSafe v hv, write_rest_of_IsSafe ps h) refl

  split_on-plain_rest :
      (ps : List (Text × Text))
      → All IsSafePair ps
      → split_on 38 (plain_rest ps) ≡ [] ∷ map piece ps
  unfolding split_on
  split_on-plain_rest [] h = refl
  split_on-plain_rest ((k, v) ∷ ps) ((hk, hv), h) =
      rw (split_on-piece k v (plain_rest ps) (map piece ps) hk hv (split_on-plain_rest ps h)) refl

  read_pieces-piece :
      (k v : Text) (pieces : List Bytes)
      → IsSafePair (k, v)
      → read_pieces c (piece (k, v) ∷ pieces) ≡ (k, v) ∷ read_pieces c pieces
  read_pieces-piece [] v pieces (hk, hv) =
      rw (name_value-append [] v hk, form_decode_of_IsSafe [] hk, form_decode_of_IsSafe v hv) refl
  read_pieces-piece (b ∷ k) v pieces (hk, hv) =
      rw
        (
          name_value-append (b ∷ k) v hk,
          form_decode_of_IsSafe (b ∷ k) hk,
          form_decode_of_IsSafe v hv,
        )
        refl

  read_pieces-map-piece :
      (ps : List (Text × Text)) → All IsSafePair ps → read_pieces c (map piece ps) ≡ ps
  read_pieces-map-piece [] h = refl
  read_pieces-map-piece ((k, v) ∷ ps) (p, h) =
      read_pieces-piece k v (map piece ps) p ∙ ap (λ qs. (k, v) ∷ qs) (read_pieces-map-piece ps h)

  -- What `params.toString()` writes for pairs of such texts, `new URLSearchParams` reads back.
  pub search_params-write_params :
      (ps : List (Text × Text))
      → All IsSafePair ps
      → ps ≢ []
      → search_params c (write_params c ps) ≡ ps
  unfolding search_params write_params split_on
  search_params-write_params [] h n = absurd (n refl)
  search_params-write_params ((k, v) ∷ ps) ((hk, hv), h) n =
      let text = k ++ (61 ∷ (v ++ plain_rest ps)) in
      rw
        (
          form_encode_of_IsSafe k hk,
          form_encode_of_IsSafe v hv,
          write_rest_of_IsSafe ps h,
          strip_query_of_written k (v ++ plain_rest ps) hk,
          laws.encode_ascii text (written-IsAscii k v ps (hk, hv) h),
          split_on-piece k v (plain_rest ps) (map piece ps) hk hv (split_on-plain_rest ps h),
        )
        (read_pieces-map-piece ((k, v) ∷ ps) ((hk, hv), h))

  -- One pair as it stands in the fragment of a link.
  pub search_params-pair :
      (k v : Text) → IsSafePair (k, v) → search_params c (k ++ (61 ∷ v)) ≡ (k, v) ∷ []
  unfolding write_params
  search_params-pair k v (hk, hv) =
      ap (λ t. search_params c t)
        (sym (
          rw (form_encode_of_IsSafe k hk, form_encode_of_IsSafe v hv)
            (ap (λ r. k ++ (61 ∷ r)) (append_nil v))))
      ∙ search_params-write_params ((k, v) ∷ []) ((hk, hv), tt) (λ e. cc e)
