-- ===== src/Examples/Publications.antt =====
-- A history of two rows, published under a name and read back.
use sealed_sky_verification.Common.{if◌then◌else◌, ◌≡◌, refl, none, some, List, [], ◌∷◌}
use sealed_sky_verification.Common.Text.{Text, codes, text_eq}
use sealed_sky_verification.Codec.Simple as SimpleCodec
use sealed_sky_verification.Errors.{type_error, ok, err}
use sealed_sky_verification.Js.{trim, to_string}
use sealed_sky_verification.Js.Numeric.{number_of}
use sealed_sky_verification.Json.{
  Json, null, str, arr, obj, field, end, is_plain, member, get_field, js_string,
}
use sealed_sky_verification.Server.{Config, Reply, to_items}
use sealed_sky_verification.Server.Label.{sanitize_ens_label}
use sealed_sky_verification.Server.Label.Laws.{IsLabel, sanitize_ens_label-IsLabel}
use sealed_sky_verification.Server.Publish.{Plan, full, plan_of, rows_text}
use sealed_sky_verification.Server.Publish.Request.{label_of, set_name_body}
use sealed_sky_verification.Server.Publish.Fit.{IsPublishable, plan_of-IsPublishable}
use sealed_sky_verification.Server.Lookup.{Listing, answered}
use sealed_sky_verification.Server.Lookup.Chain.{Providers, read_validation_ens}
use sealed_sky_verification.Server.Lookup.Chain.Order.{IsOutcome, try_candidates-cases}
use sealed_sky_verification.Server.Lookup.Published.{ens_name_of, plan_of-read_validation_ens}
use sealed_sky_verification.Examples.Backend.{lower_of, message_of}

abbrev accepted_event : Json
accepted_event = obj (field (codes "status") (str (codes "accepted")) end)

abbrev two_events : List Json
two_events = accepted_event ∷ accepted_event ∷ []

abbrev no_options : Json
no_options = obj end

abbrev two_plan : Plan
two_plan = record {
  scope = full;
  rows = two_events;
  payload = rows_text SimpleCodec.simple two_events;
  description = codes "Trusted Edge Oracle validation history (2 events, last 2 published)";
  total = 2;
}

two_events-plan_of : plan_of SimpleCodec.simple no_options two_events ≡ ok two_plan
unfolding plan_of SimpleCodec.simple get_field number_of to_string
two_events-plan_of = refl

plan_of-IsPublishable_example : IsPublishable SimpleCodec.simple no_options two_events two_plan
plan_of-IsPublishable_example =
    plan_of-IsPublishable SimpleCodec.simple no_options two_events two_plan two_events-plan_of

sanitize_ens_label-IsLabel_example :
    IsLabel (sanitize_ens_label lower_of (some (str (codes "--my  label!-"))))
sanitize_ens_label-IsLabel_example =
    sanitize_ens_label-IsLabel lower_of (some (str (codes "--my  label!-")))

-- The first candidate fails, the second has no resolver and the third has one.
abbrev three_providers : Providers
three_providers rpc name =
    if text_eq rpc (codes "one")
    then err type_error
    else if text_eq rpc (codes "two")
    then ok none
    else ok (some (λ k. ok (str k)))

try_candidates-cases_example :
    IsOutcome message_of three_providers
      (codes "a.id144.eth")
      (codes "namestone_not_found: ")
      (codes "one" ∷ codes "two" ∷ codes "three" ∷ [])
try_candidates-cases_example =
    try_candidates-cases message_of three_providers (codes "a.id144.eth")
      (codes "namestone_not_found: ") (codes "one" ∷ codes "two" ∷ codes "three" ∷ [])

abbrev test_config : Config
test_config = record { api_key = codes "key"; parent_domain = codes "id144.eth" }

abbrev two_row : Json
two_row =
    set_name_body test_config (codes "0xowner") (codes "t1")
      (label_of SimpleCodec.simple lower_of no_options) two_plan

abbrev two_listing : Text → Text → Listing
two_listing domain key = answered 200 none (codes "OK") (ok (arr (to_items (null ∷ two_row ∷ []))))

nothing_there : SimpleCodec.simple.parse [] ≡ none
unfolding SimpleCodec.simple
nothing_there = refl

two_events-trim :
    trim (ens_name_of SimpleCodec.simple lower_of test_config no_options)
    ≡ ens_name_of SimpleCodec.simple lower_of test_config no_options
unfolding trim label_of get_field js_string
two_events-trim = refl

plan_of-read_validation_ens_example :
    (reply : Reply) × (read_validation_ens SimpleCodec.simple lower_of message_of test_config
        two_listing three_providers []
        (some (str (ens_name_of SimpleCodec.simple lower_of test_config no_options)))
      ≡ ok reply)
    × (reply.status ≡ 200)
    × (member (codes "history") reply.body ≡ some (arr (to_items two_events)))
unfolding is_plain
plan_of-read_validation_ens_example =
    plan_of-read_validation_ens SimpleCodec.simple SimpleCodec.simple-IsCodec nothing_there lower_of
      message_of test_config (codes "0xowner") (codes "t1") no_options two_events (refl, (refl, tt))
      two_plan two_listing three_providers [] (null ∷ []) [] none (codes "OK") two_events-plan_of
      refl refl two_events-trim (refl, tt) refl
