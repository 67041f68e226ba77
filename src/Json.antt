-- ===== src/Json.antt =====
-- Values that JSON.parse returns and JSON.stringify takes, and what the source reads of them.
-- Numbers are natural numbers.
use sealed_sky_verification.Common.{
  ℕ, ◌^◌, Bool, true, false, not, ◌&&◌, ◌||◌, Option, none, some, [], ◌∷◌, ◌++◌, ltb, if◌then◌else◌,
  suc, zero,
}
use sealed_sky_verification.Common.Text.{Text, codes, text_eq}
use sealed_sky_verification.Js.{to_string, is_digit}
use sealed_sky_verification.Errors.{Result, ok, err, type_error}

mutual
  pub data Json : Type 0 where
    null : Json
    bool : Bool → Json
    num : ℕ → Json
    str : Text → Json
    arr : Items → Json
    obj : Fields → Json

  pub data Items : Type 0 where
    nil : Items
    cons : Json → Items → Items

  pub data Fields : Type 0 where
    end : Fields
    field : Text → Json → Fields → Fields

unfoldable pub get_field : Text → Fields → Option Json
get_field k end = none
get_field k (field j v fs) = let rest = get_field k fs in if text_eq j k then some v else rest

-- `value.k`: a TypeError on null, and undefined, `none`, on what has no such property.
unfoldable pub property : Text → Json → Result (Option Json)
unfolding get_field
property k null = err type_error
property k (obj fs) = ok (get_field k fs)
property k _ = ok none

abbrev pub length_items : Items → ℕ
length_items nil = 0
length_items (cons v vs) = suc (length_items vs)

-- A number property; one of another type, which the cast in the source hides, reads as missing.
abbrev pub number? : Option Json → Option ℕ
number? (some (num n)) = some n
number? _ = none

abbrev pub string? : Option Json → Option Text
string? (some (str s)) = some s
string? _ = none

-- `Array.prototype.join` writes null as an empty string.
abbrev blank : Json → Text → Text
blank null s = []
blank _ s = s

-- `String(value)`, as a function that wants a string takes any value.
unfoldable mutual
  unfolding to_string

  pub js_string : Json → Text
  js_string null = codes "null"
  js_string (bool true) = codes "true"
  js_string (bool false) = codes "false"
  js_string (num n) = to_string n
  js_string (str s) = s
  js_string (arr vs) = join_items vs
  js_string (obj fs) = codes "[object Object]"

  pub join_items : Items → Text
  join_items nil = []
  join_items (cons v vs) = blank v (js_string v) ++ join_rest vs

  pub join_rest : Items → Text
  join_rest nil = []
  join_rest (cons v vs) = b',' ∷ blank v (js_string v) ++ join_rest vs

-- A property that a function takes as a string; undefined, `none`, is "undefined".
abbrev pub option_string : Option Json → Text
option_string none = codes "undefined"
option_string (some v) = js_string v

-- Whether a condition takes the value for false.
abbrev pub is_falsy : Json → Bool
is_falsy null = true
is_falsy (bool b) = not b
is_falsy (num zero) = true
is_falsy (str []) = true
is_falsy _ = false

-- `value || …`: undefined and what is falsy are nothing.
abbrev pub truthy_value : Option Json → Option Json
truthy_value none = none
truthy_value (some v) = if is_falsy v then none else some v

-- `value?.k`
abbrev pub member : Text → Json → Option Json
member k (obj fs) = get_field k fs
member k _ = none

-- Fields written only if they are there, as JSON.stringify leaves out what is undefined.
abbrev pub optional_field : Text → Option Json → Fields → Fields
optional_field k none fs = fs
optional_field k (some v) fs = field k v fs

has_key : Text → Fields → Bool
has_key k end = false
has_key k (field j v fs) = text_eq j k || has_key k fs

-- Keys that look like an array index are enumerated before the others.
abbrev starts_with_digit : Text → Bool
starts_with_digit [] = false
starts_with_digit (c ∷ k) = is_digit c

-- The values that JSON.stringify prints and JSON.parse gives back as they are: numbers that a
-- double holds exactly, and objects with distinct keys in the order of insertion.
unfoldable mutual
  unfolding has_key text_eq

  pub is_plain : Json → Bool
  is_plain null = true
  is_plain (bool b) = true
  is_plain (num n) = ltb n (2 ^ 53)
  is_plain (str s) = true
  is_plain (arr vs) = are_plain vs
  is_plain (obj fs) = fields_plain fs

  pub are_plain : Items → Bool
  are_plain nil = true
  are_plain (cons v vs) = is_plain v && are_plain vs

  pub fields_plain : Fields → Bool
  fields_plain end = true
  fields_plain (field k v fs) =
      is_plain v && not (has_key k fs) && not (starts_with_digit k) && fields_plain fs
