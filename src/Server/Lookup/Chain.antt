-- ===== src/Server/Lookup/Chain.antt =====
-- backend/server.js, GET /read-validation-ens: NameStone first, and then the resolvers of the chain one
-- after the other.
pub mod Order
use sealed_sky_verification.Common.{
  ℕ, Bool, true, false, not, Option, none, some, List, [], ◌∷◌, ◌++◌, filter, if◌then◌else◌,
}
use sealed_sky_verification.Common.Text.{Text, codes, text_eq}
use sealed_sky_verification.Codec.{Codec}
use sealed_sky_verification.Errors.{Error, Result, ok, err, type_error, ◌>>=◌}
use sealed_sky_verification.Js.{trim}
use sealed_sky_verification.Json.{
  Json, null, bool, num, str, obj, Fields, end, field, member, js_string, truthy_value,
}
use sealed_sky_verification.Server.{Config, Reply}
use sealed_sky_verification.Server.Lookup.{
  Listing, Lookup, found, missing, validation_ens_text_keys, records_at,
  read_validation_text_records_via_name_stone,
}

-- What the provider at an address has for a name: no resolver, or its text records, null for one
-- that is not set.
abbrev pub Resolver : Type 0
Resolver = Text → Result Json

abbrev pub Providers : Type 0
Providers = Text → Text → Result (Option Resolver)

abbrev pub nonblank : Text → Bool
nonblank t = not (text_eq (trim t) [])

abbrev set_url : Option Text → List Text
set_url none = []
set_url (some url) = url ∷ []

unfoldable pub rpc_candidates : Option Text → List Text
rpc_candidates env_url = filter nonblank (
    set_url env_url
    ++ (codes "https://eth.llamarpc.com"
        ∷ codes "https://ethereum.publicnode.com"
        ∷ codes "https://cloudflare-eth.com"
        ∷ []))

abbrev null_on_error : Result Json → Json
null_on_error (err e) = null
null_on_error (ok v) = v

abbrev pub chain_records : Resolver → Fields
chain_records resolver = records_at validation_ens_text_keys (λ k. null_on_error (resolver k))

-- The records of the first candidate that has a resolver, or the last error.
pub data Resolved : Type 0 where
  resolved : (rpc : Text) (records : Fields) → Resolved
  unresolved : (last_err : Text) → Resolved

module _ (message : Error → Text) (providers : Providers) (ens_name : Text) where
  unfoldable pub try_candidates : Text → List Text → Resolved
  try_candidates last_err [] = unresolved last_err
  try_candidates last_err (rpc ∷ rest) = elim (providers (trim rpc) ens_name) [
    | err e ↦ try_candidates (message e) rest
    | ok none ↦ try_candidates (codes "no resolver") rest
    | ok (some resolver) ↦ resolved rpc (chain_records resolver)
  ]

module _ (c : Codec) where
  abbrev parsed_or_null : Option Json → Json
  parsed_or_null none = null
  parsed_or_null (some v) = v

  abbrev pub history_of : Option Json → Json
  history_of none = null
  history_of (some raw) = parsed_or_null (c.parse (js_string raw))

  -- `buildPayload`
  abbrev pub build_payload : (ens_name source : Text) → Fields → Fields → Json
  build_payload ens_name source records extra = obj (
      field (codes "ens") (str ens_name) (
        field (codes "source") (str source) (
          field (codes "ensAppUrl") (str (codes "https://app.ens.domains/" ++ ens_name)) (
            field (codes "records") (obj records) (
              field (codes "history")
                (history_of
                  (truthy_value (member (codes "com.sealedsky.validation_history") (obj records))))
                extra)))))

  abbrev pub found_reply : (ens_name : Text) → Fields → Text → Reply
  found_reply ens_name records matched = record {
    status = 200;
    body = build_payload ens_name (codes "namestone") records (
        field (codes "matched") (str matched) (
          field (codes "hint")
            (str
              (codes "Include Authorization (API key) on get-names if your subnames are private."))
            end));
  }

  abbrev optional_number : Text → Option ℕ → Fields → Fields
  optional_number k none rest = rest
  optional_number k (some n) rest = field k (num n) rest

  abbrev optional_text : Text → Option Text → Fields → Fields
  optional_text k none rest = rest
  optional_text k (some t) rest = field k (str t) rest

  abbrev missing_json : Text → Option ℕ → Option Text → Json
  missing_json reason status detail = obj (
      field (codes "ok") (bool false) (
        field (codes "reason") (str reason)
          (optional_number (codes "status") status (optional_text (codes "detail") detail end))))

  abbrev pub chain_reply : Text → Text → Option ℕ → Option Text → Resolved → Reply
  chain_reply ens_name reason status detail (resolved rpc records) = record {
    status = 200;
    body = build_payload ens_name (codes "ens") records (
        field (codes "mainnetRpc") (str (trim rpc))
          (field (codes "namestoneFallback") (str reason) end));
  }
  chain_reply ens_name reason status detail (unresolved last_err) = record {
    status = 502;
    body = obj (
        field (codes "error") (str last_err) (
          field (codes "hint")
            (str (
              codes
                "NameStone reads: use the same API key as publish (private subnames need Authorization). ENS fallback: set ENS_MAINNET_RPC_URL to a full archive/mainnet provider if CCIP calls fail."))
            (field (codes "namestone") (missing_json reason status detail) end)));
  }

  abbrev or_blank : Option Text → Text
  or_blank none = []
  or_blank (some t) = t

  abbrev query_text : Option Json → Result Text
  query_text none = ok []
  query_text (some (str s)) = ok s
  query_text (some v) = err type_error

  module _ (lower : Text → Text) (message : Error → Text) (g : Config)
      (fetch : Text → Text → Listing) (providers : Providers) (candidates : List Text) where
    abbrev pub answer_of : Text → Result Lookup → Reply
    answer_of ens_name (err e) = record {
      status = 500;
      body = obj (field (codes "error") (str (message e)) end);
    }
    answer_of ens_name (ok (found records matched)) = found_reply ens_name records matched
    answer_of ens_name (ok (missing reason status detail)) =
        chain_reply ens_name reason status detail (
          try_candidates message providers ens_name (reason ++ codes ": " ++ or_blank detail)
            candidates)

    abbrev pub answer_name : Text → Reply
    answer_name [] = record {
      status = 400;
      body = obj (
          field (codes "error") (str (codes "missing ?ens= (example: oracle-validation.id144.eth)"))
            end);
    }
    answer_name (x ∷ ens_name) =
        answer_of (x ∷ ens_name)
          (read_validation_text_records_via_name_stone lower g fetch (x ∷ ens_name))

    -- A query that is no string makes the handler throw.
    unfoldable pub read_validation_ens : Option Json → Result Reply
    unfolding try_candidates read_validation_text_records_via_name_stone
    read_validation_ens ens = do name ← query_text (truthy_value ens); ok (answer_name (trim name))
