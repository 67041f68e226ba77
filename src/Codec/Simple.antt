-- ===== src/Codec/Simple.antt =====
-- A codec by hand that meets the laws: values in a prefix notation, and code units from 128 on as runs
-- of ones.
use sealed_sky_verification.Common.{
  length-append, take, drop, take-append, drop-append, ℕ, zero, suc, ◌+◌, ◌<◌, ◌≤◌, true, false,
  Option, none, some, [], ◌∷◌, ◌++◌, All, ◌≡◌, refl, arith, length, ltb, if◌then◌else◌,
}
use sealed_sky_verification.Common.Text.{Text}
use sealed_sky_verification.Base64.Laws.{IsByte}
use sealed_sky_verification.Bytes.{Bytes}
use sealed_sky_verification.Json.{
  Json, Items, Fields, null, bool, num, str, arr, obj, nil, cons, end, field,
}
use sealed_sky_verification.Codec.{Codec, IsCodec, IsAscii, IsAsciiCodec}

-- A code unit in unary.
unit_bytes : ℕ → Bytes → Bytes
unit_bytes zero out = 0 ∷ out
unit_bytes (suc n) out = 1 ∷ unit_bytes n out

-- A code unit below 128 is its byte, and a 128 marks a run of ones.
encode : Text → Bytes
unfolding unit_bytes
encode [] = []
encode (c ∷ s) = let rest = encode s in if ltb c 128 then c ∷ rest else 128 ∷ unit_bytes c rest

-- The units, where in a run `n` ones of the next are read already.
decode_from : Option ℕ → Bytes → Text
decode_from m [] = []
decode_from none (b ∷ bs) =
    let plain = decode_from none bs in
    let run = decode_from (some 0) bs in if ltb b 128 then b ∷ plain else run
decode_from (some n) (zero ∷ bs) = n ∷ decode_from none bs
decode_from (some n) (suc b ∷ bs) = decode_from (some (suc n)) bs

decode_from-unit_bytes :
    (n c : ℕ) (out : Bytes)
    → decode_from (some n) (unit_bytes c out) ≡ (n + c) ∷ decode_from none out
unfolding decode_from unit_bytes
decode_from-unit_bytes n zero out = ground arith
decode_from-unit_bytes n (suc c) out = ground (arith, decode_from-unit_bytes (suc n) c out)

decode-encode : (t : Text) → decode_from none (encode t) ≡ t
unfolding encode decode_from
decode-encode [] = refl
decode-encode (c ∷ s) = ground (arith, decode_from-unit_bytes 0 c (encode s), decode-encode s)

unit_bytes-IsByte : (c : ℕ) (out : Bytes) → All IsByte out → All IsByte (unit_bytes c out)
unfolding unit_bytes
unit_bytes-IsByte zero out h = (omega arith, h)
unit_bytes-IsByte (suc c) out h = (omega arith, unit_bytes-IsByte c out h)

encode-IsByte : (t : Text) → All IsByte (encode t)
unfolding encode
encode-IsByte [] = tt
encode-IsByte (c ∷ s) =
    let long = unit_bytes-IsByte c (encode s) (encode-IsByte s) in
    ground (arith, long, encode-IsByte s)

encode_of_IsAscii : (t : Text) → All IsAscii t → encode t ≡ t
unfolding encode
encode_of_IsAscii [] h = refl
encode_of_IsAscii (c ∷ s) (p, h) = ground (arith, encode_of_IsAscii s h)

decode_of_IsAscii : (t : Text) → All IsAscii t → decode_from none t ≡ t
unfolding decode_from
decode_of_IsAscii [] h = refl
decode_of_IsAscii (c ∷ s) (p, h) = ground (arith, decode_of_IsAscii s h)

-- A value, before what follows it. A list has a mark before each element and one at its end.
mutual
  print : Json → Text → Text
  print null out = 0 ∷ out
  print (bool false) out = 1 ∷ out
  print (bool true) out = 2 ∷ out
  print (num n) out = 3 ∷ n ∷ out
  print (str s) out = 4 ∷ length s ∷ s ++ out
  print (arr vs) out = 5 ∷ print_items vs out
  print (obj fs) out = 6 ∷ print_fields fs out

  print_items : Items → Text → Text
  print_items nil out = 0 ∷ out
  print_items (cons v vs) out = 1 ∷ print v (print_items vs out)

  print_fields : Fields → Text → Text
  print_fields end out = 0 ∷ out
  print_fields (field k v fs) out = 1 ∷ length k ∷ k ++ print v (print_fields fs out)

infixl 5 ◌>>=◌
abbrev ◌>>=◌ : {A B : Type 0} → Option A → (A → Option B) → Option B
none >>= f = none
some a >>= f = f a

mutual
  read : ℕ → Text → Option (Json × Text)
  read zero s = none
  read (suc f) [] = none
  read (suc f) (zero ∷ s) = some (null, s)
  read (suc f) (suc zero ∷ s) = some (bool false, s)
  read (suc f) (suc (suc zero) ∷ s) = some (bool true, s)
  read (suc f) (suc (suc (suc zero)) ∷ []) = none
  read (suc f) (suc (suc (suc zero)) ∷ n ∷ s) = some (num n, s)
  read (suc f) (suc (suc (suc (suc zero))) ∷ []) = none
  read (suc f) (suc (suc (suc (suc zero))) ∷ n ∷ s) = some (str (take n s), drop n s)
  read (suc f) (suc (suc (suc (suc (suc zero)))) ∷ s) = do
    (vs, r) ← read_items f s
    some (arr vs, r)
  read (suc f) (suc (suc (suc (suc (suc (suc n))))) ∷ s) = do
    (fs, r) ← read_fields f s
    some (obj fs, r)

  read_items : ℕ → Text → Option (Items × Text)
  read_items zero s = none
  read_items (suc f) [] = none
  read_items (suc f) (zero ∷ s) = some (nil, s)
  read_items (suc f) (suc n ∷ s) = do
    (v, r) ← read f s
    (vs, r') ← read_items f r
    some (cons v vs, r')

  read_fields : ℕ → Text → Option (Fields × Text)
  read_fields zero s = none
  read_fields (suc f) [] = none
  read_fields (suc f) (zero ∷ s) = some (end, s)
  read_fields (suc f) (suc n ∷ []) = none
  read_fields (suc f) (suc n ∷ l ∷ s) = do
    (v, r) ← read f (drop l s)
    (fs, r') ← read_fields f r
    some (field (take l s) v fs, r')

-- The nodes of a value, which bound the depth of the calls that read it.
mutual
  size : Json → ℕ
  size null = 1
  size (bool b) = 1
  size (num n) = 1
  size (str s) = 1
  size (arr vs) = suc (size_items vs)
  size (obj fs) = suc (size_fields fs)

  size_items : Items → ℕ
  size_items nil = 1
  size_items (cons v vs) = suc (size v + size_items vs)

  size_fields : Fields → ℕ
  size_fields end = 1
  size_fields (field k v fs) = suc (size v + size_fields fs)

size_pos : (v : Json) → 0 < size v
unfolding size
size_pos null = omega arith
size_pos (arr vs) = omega arith
size_pos (obj fs) = omega arith
size_pos _ = omega arith

size_items_pos : (vs : Items) → 0 < size_items vs
unfolding size
size_items_pos nil = omega arith
size_items_pos (cons v vs) = omega arith

size_fields_pos : (fs : Fields) → 0 < size_fields fs
unfolding size
size_fields_pos end = omega arith
size_fields_pos (field k v fs) = omega arith

mutual
  unfolding read print size

  read-print : (v : Json) (f : ℕ) (out : Text) → size v ≤ f → read f (print v out) ≡ some (v, out)
  read-print v zero out h = absurd (omega (arith, size_pos v))
  read-print null (suc f) out h = refl
  read-print (bool false) (suc f) out h = refl
  read-print (bool true) (suc f) out h = refl
  read-print (num n) (suc f) out h = refl
  read-print (str s) (suc f) out h = rw (take-append s out, drop-append s out)
  read-print (arr vs) (suc f) out h = rw (read_items-print vs f out (omega arith))
  read-print (obj fs) (suc f) out h = rw (read_fields-print fs f out (omega arith))

  read_items-print :
      (vs : Items) (f : ℕ) (out : Text)
      → size_items vs ≤ f
      → read_items f (print_items vs out) ≡ some (vs, out)
  read_items-print vs zero out h = absurd (omega (arith, size_items_pos vs))
  read_items-print nil (suc f) out h = refl
  read_items-print (cons v vs) (suc f) out h =
      rw (read-print v f (print_items vs out) (omega arith))
        (rw (read_items-print vs f out (omega arith)))

  read_fields-print :
      (fs : Fields) (f : ℕ) (out : Text)
      → size_fields fs ≤ f
      → read_fields f (print_fields fs out) ≡ some (fs, out)
  read_fields-print fs zero out h = absurd (omega (arith, size_fields_pos fs))
  read_fields-print end (suc f) out h = refl
  read_fields-print (field k v fs) (suc f) out h =
      rw (take-append k _, drop-append k _, read-print v f (print_fields fs out) (omega arith))
        (rw (read_fields-print fs f out (omega arith)))

-- The size of a value bounds the length of its text.
mutual
  unfolding print size

  size-le : (v : Json) (out : Text) → size v + length out ≤ length (print v out)
  size-le null out = omega arith
  size-le (bool false) out = omega arith
  size-le (bool true) out = omega arith
  size-le (num n) out = omega arith
  size-le (str s) out = omega (arith, length-append {0} s out)
  size-le (arr vs) out = omega (arith, size_items-le vs out)
  size-le (obj fs) out = omega (arith, size_fields-le fs out)

  size_items-le :
      (vs : Items) (out : Text) → size_items vs + length out ≤ length (print_items vs out)
  size_items-le nil out = omega arith
  size_items-le (cons v vs) out =
      omega (arith, size-le v (print_items vs out), size_items-le vs out)

  size_fields-le :
      (fs : Fields) (out : Text) → size_fields fs + length out ≤ length (print_fields fs out)
  size_fields-le end out = omega arith
  size_fields-le (field k v fs) out = omega (
    arith,
    size-le v (print_fields fs out),
    size_fields-le fs out,
    length-append {0} k (print v (print_fields fs out)),
  )

parse : Text → Option Json
unfolding read
parse s = do (v, r) ← read (length s) s; some v

unfoldable pub simple : Codec
unfolding print parse encode decode_from
simple = record {
  stringify = λ v. print v [];
  parse = parse;
  encode = encode;
  decode = decode_from none;
}

parse-print : (v : Json) → parse (print v []) ≡ some v
unfolding parse
parse-print v = rw (read-print v (length (print v [])) [] (omega (arith, size-le v [])))

pub simple-IsCodec : IsCodec simple
unfolding simple
simple-IsCodec = record {
  parse-stringify = λ v _. parse-print v;
  decode-encode = λ v. decode-encode (print v []);
  decode-encode_text = λ t _. decode-encode t;
  encode-IsByte = encode-IsByte;
}

pub simple-IsAsciiCodec : IsAsciiCodec simple
unfolding simple
simple-IsAsciiCodec = record { encode_ascii = encode_of_IsAscii; decode_ascii = decode_of_IsAscii }
