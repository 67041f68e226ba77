-- ===== src/Namestone.antt =====
-- sealed-sky-web/src/lib/namestone.ts: ENS names for capsules, issued by NameStone and read back.
pub mod Records
use sealed_sky_verification.Common.{
  ◌==◌, ℕ, Bool, true, false, not, ◌&&◌, Option, none, some, List, [], ◌∷◌, ◌++◌, map,
  if◌then◌else◌,
}
use sealed_sky_verification.Common.Text.{Text, codes, text_eq}
use sealed_sky_verification.Bytes.{Bytes}
use sealed_sky_verification.Js.{Integer, parse_int, to_string_16, pad_start}
use sealed_sky_verification.Errors.{Error, Result, ok, err, not_configured, name_stone}
use sealed_sky_verification.Http.{is_ok}
use sealed_sky_verification.Ens.{Cache, read_ens_text}

-- The key and the parent domain of the build.
pub record Config : Type 0 where
  pub api_key : Text
  pub domain : Text

abbrev is_set : Text → Bool
is_set [] = false
is_set (c ∷ s) = true

unfoldable pub is_namestone_configured : Config → Bool
is_namestone_configured g = is_set g.api_key && is_set g.domain

hex_run : Text → Bytes → Text
hex_run hex [] = hex
hex_run hex (b ∷ bs) = hex_run (hex ++ pad_start 2 b'0' (to_string_16 b)) bs

-- The four random bytes are an argument.
unfoldable pub generate_capsule_label : Bytes → Text
unfolding hex_run
generate_capsule_label bytes = codes "cap-" ++ hex_run [] bytes

pub record PublishArgs : Type 0 where
  pub label : Text
  pub owner_address : Option Text
  pub text_records : List (Text × Text)

abbrev pub default_owner : Text
default_owner = codes "0x000000000000000000000000000000000000dEaD"

abbrev starts_with_0x : Text → Bool
starts_with_0x (a ∷ b ∷ s) = a == b'0' && b == b'x'
starts_with_0x _ = false

abbrev owner_of : Option Text → Text
owner_of none = default_owner
owner_of (some a) = if starts_with_0x a then a else default_owner

-- The request that is sent: the key and the body's fields.
pub record SetName : Type 0 where
  pub authorization : Text
  pub domain : Text
  pub name : Text
  pub address : Text
  pub text_records : List (Text × Text)

-- A response with its status and text, `none` for a text that cannot be read, and its status text.
pub data Answer : Type 0 where
  rejected : Error → Answer
  answered : (status : ℕ) (text : Option Text) (status_text : Text) → Answer

abbrev pub or_status : Option Text → Text → Text
or_status none status_text = status_text
or_status (some []) status_text = status_text
or_status (some (c ∷ s)) status_text = c ∷ s

abbrev pub set_name_result : Text → Answer → Result Text
set_name_result name (rejected e) = err e
set_name_result name (answered status text status_text) =
    if is_ok status then ok name else err (name_stone status (or_status text status_text))

unfoldable pub set_name_request : Config → PublishArgs → SetName
set_name_request g args = record {
  authorization = g.api_key;
  domain = g.domain;
  name = args.label;
  address = owner_of args.owner_address;
  text_records = args.text_records;
}

-- `fetch` is the network's answer to a request.
unfoldable pub publish_capsule : Config → (SetName → Answer) → PublishArgs → Result Text
unfolding is_namestone_configured set_name_request
publish_capsule g fetch args =
    if not (is_namestone_configured g)
    then err not_configured
    else set_name_result (args.label ++ (b'.' ∷ g.domain)) (fetch (set_name_request g args))

pub record CapsuleRecords : Type 0 where
  pub envelope : Text
  pub unlock_unix : Option (Option Integer)
  pub backend : Option Text
  pub sender_ens : Option Text
  pub recipient_ens : Option Text
  pub created_at : Option (Option Integer)

-- A missing or empty text is null; `some none` is NaN.
abbrev number_of : Option Text → Option (Option Integer)
number_of none = none
number_of (some []) = none
number_of (some (c ∷ s)) = some (parse_int 10 (c ∷ s))

module _ (lower : Text → Text) (ens : Text → Text → Result (Option Text)) where
  abbrev read : Text → Text → Cache → Cache × Option Text
  read name key cache = read_ens_text lower name key (ens name key) cache

  abbrev read_records : Text → Text → Cache → Cache × Option CapsuleRecords
  read_records name envelope cache =
      let unlock = read name (codes "unlock_unix") cache in
      let backend = read name (codes "backend") unlock.0 in
      let sender = read name (codes "sender_ens") backend.0 in
      let recipient = read name (codes "recipient_ens") sender.0 in
      let created = read name (codes "created_at") recipient.0 in
      (
        created.0,
        some (record {
          envelope = envelope;
          unlock_unix = number_of unlock.1;
          backend = backend.1;
          sender_ens = sender.1;
          recipient_ens = recipient.1;
          created_at = number_of created.1;
        }),
      )

  abbrev records_of : Text → Cache × Option Text → Cache × Option CapsuleRecords
  records_of name (cache, none) = (cache, none)
  records_of name (cache, some []) = (cache, none)
  records_of name (cache, some (c ∷ s)) = read_records name (c ∷ s) cache

  -- The five further reads have different keys, so the order of their replies does not matter.
  unfoldable pub fetch_capsule_by_ens : Text → Cache → Cache × Option CapsuleRecords
  fetch_capsule_by_ens name cache = records_of name (read name (codes "envelope") cache)
