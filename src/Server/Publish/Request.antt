-- ===== src/Server/Publish/Request.antt =====
-- backend/server.js, POST /publish-validation-ens: the label, the request and the route.
use sealed_sky_verification.Common.{
  ℕ, Bool, true, false, not, ◌&&◌, ltb, Option, none, some, [], ◌∷◌, ◌++◌, length, if◌then◌else◌,
}
use sealed_sky_verification.Common.Text.{Text, codes, text_eq}
use sealed_sky_verification.Codec.{Codec}
use sealed_sky_verification.Errors.{Error, Result, ok, err, thrown, guard, ◌>>=◌, ◌>>◌}
use sealed_sky_verification.Http.{is_ok}
use sealed_sky_verification.Js.{trim, to_string}
use sealed_sky_verification.Json.{
  Json, null, bool, num, str, obj, Fields, end, field, member, js_string, truthy_value,
}
use sealed_sky_verification.Namestone.{Answer, rejected, answered, or_status}
use sealed_sky_verification.Server.{Config, File, Reply, read_history}
use sealed_sky_verification.Share.Url.{encode_uri_component}
use sealed_sky_verification.Server.Label.{sanitize_ens_label}
use sealed_sky_verification.Server.Publish.{Scope, scope_of, scope_text, Plan, plan_of, last, full}

-- The label: what the options give, or that of the scope.
abbrev pub default_sub : Scope → Text
default_sub last = codes "oracle-validation-last"
default_sub full = codes "oracle-validation"

abbrev pub given_or : Text → Option Json → Option Json
given_or other none = some (str other)
given_or other (some null) = some (str other)
given_or other (some v) = if text_eq (trim (js_string v)) [] then some (str other) else some v

abbrev text_record : Text → Text → Fields → Fields
text_record k t rest = field k (str t) rest

-- `label`, and the body of the request.
abbrev pub set_name_body : Config → (owner now label : Text) → Plan → Json
set_name_body g owner now label p = obj (
    field (codes "domain") (str g.parent_domain) (
      field (codes "name") (str label) (
        field (codes "address") (str owner) (
          field (codes "text_records")
            (obj (
              text_record (codes "com.sealedsky.validation_history") p.payload (
                text_record (codes "com.sealedsky.validation_total") (to_string p.total) (
                  text_record (codes "com.sealedsky.validation_slice") (to_string (length p.rows)) (
                    text_record (codes "com.sealedsky.validation_updated_at") now (
                      text_record (codes "com.sealedsky.validation_app")
                        (codes "trusted-edge-oracle")
                        (text_record (codes "com.sealedsky.validation_scope") (scope_text p.scope)
                          (text_record (codes "description") p.description end))))))))
            end))))

pub record Published : Type 0 where
  pub ens : Text
  pub scope : Scope
  pub truncated : Bool
  pub total : ℕ
  pub published : ℕ

abbrev is_full : Scope → Bool
is_full last = false
is_full full = true

abbrev pub published_of : Config → Text → Plan → Published
published_of g label p = record {
  ens = label ++ (b'.' ∷ g.parent_domain);
  scope = p.scope;
  truncated = is_full p.scope && ltb (length p.rows) p.total;
  total = p.total;
  published = length p.rows;
}

-- The network's answer to the request.
abbrev pub set_name_answer : Published → Answer → Result Published
set_name_answer done (rejected e) = err e
set_name_answer done (answered status text status_text) =
    (guard (is_ok status) (
        thrown (
          codes "NameStone set-name HTTP "
          ++ to_string status
          ++ codes ": "
          ++ or_status text status_text))
      >> ok done)

abbrev is_set : Text → Bool
is_set t = not (text_eq t [])

module _ (c : Codec) (lower : Text → Text) where
  unfoldable pub label_of : Json → Text
  unfolding sanitize_ens_label
  label_of options =
      sanitize_ens_label lower
        (given_or (default_sub (scope_of options)) (member (codes "subdomain") options))

  -- `fetch` takes the key and the body.
  unfoldable pub publish_validation_history_to_ens :
      Config → (owner now : Text) → (Text → Json → Answer) → Json → File → Result Published
  unfolding read_history plan_of label_of
  publish_validation_history_to_ens g owner now fetch options file = do
    guard (is_set g.api_key && is_set g.parent_domain) (
        thrown (
          codes
            "NameStone not configured: set VITE_NAMESTONE_API_KEY and VITE_NAMESTONE_DOMAIN in sealed-sky-web/_env.local or .env.local (or NAMESTONE_* in backend/.env)"))
    history ← read_history c file
    plan ← plan_of c options history
    set_name_answer (published_of g (label_of options) plan)
        (fetch g.api_key (set_name_body g owner now (label_of options) plan))

  abbrev or_no_options : Option Json → Json
  or_no_options none = obj end
  or_no_options (some v) = v

  abbrev published_reply : (message : Error → Text) → Result Published → Reply
  published_reply message (err e) = record {
    status = 400;
    body = obj (field (codes "success") (bool false) (field (codes "error") (str (message e)) end));
  }
  published_reply message (ok out) = record {
    status = 200;
    body = obj (
        field (codes "success") (bool true) (
          field (codes "ens") (str out.ens) (
            field (codes "scope") (str (scope_text out.scope)) (
              field (codes "ensAppUrl") (str (codes "https://app.ens.domains/" ++ out.ens)) (
                field (codes "readApiUrl")
                  (str (
                    codes "http://localhost:3000/read-validation-ens?ens="
                    ++ encode_uri_component c out.ens))
                  (field (codes "total") (num out.total) (
                    field (codes "published") (num out.published)
                      (field (codes "truncated") (bool out.truncated) end))))))));
  }

  -- The route: what is thrown is a reply.
  unfoldable pub publish_validation_ens :
      (message : Error → Text)
      → Config
      → (owner now : Text) → (Text → Json → Answer)
      → Option Json
      → File
      → Reply
  unfolding publish_validation_history_to_ens
  publish_validation_ens message g owner now fetch body file =
      published_reply message (
        publish_validation_history_to_ens g owner now fetch (or_no_options (truthy_value body))
          file)
