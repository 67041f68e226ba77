-- ===== src/Examples/Recipients.antt =====
-- A name that is typed into the form and resolved.
use sealed_sky_verification.Common.{ℕ, ◌≡◌, refl, false, Option, none, some, [], ◌∷◌}
use sealed_sky_verification.Common.Text.{Text, codes, text_eq}
use sealed_sky_verification.Errors.{Error}
use sealed_sky_verification.Js.{trim}
use sealed_sky_verification.Ens.{looks_like_ens}
use sealed_sky_verification.Queue.{ctrng}
use sealed_sky_verification.Compose.{idle, resolved, Search, Form, set_recipient, search_answered}
use sealed_sky_verification.Compose.Steps.{Reach, here, next, types, answers, Reach-resolved}

abbrev same_case : Text → Text
same_case t = t

abbrev resolve_test : Text → Option Text
resolve_test name = some (codes "0x1")

abbrev no_time : Text → Option ℕ
no_time t = none

abbrev any_message : Error → Text
any_message e = []

abbrev fresh_form : Form
fresh_form = record {
  message = [];
  unlock_at = [];
  backend = ctrng;
  recipient = [];
  recipient_status = idle;
  searches = [];
  busy = false;
  failure = none;
}

abbrev test_search : Search
test_search = record { name = codes "a.eth"; cancelled = false }

abbrev typed_form : Form
typed_form = set_recipient same_case (codes " a.eth") fresh_form

abbrev shown_form : Form
shown_form = search_answered test_search (resolve_test (codes "a.eth")) [] typed_form

typed_form-searches : typed_form.searches ≡ test_search ∷ []
unfolding set_recipient looks_like_ens trim text_eq
typed_form-searches = refl

shown_form-status : shown_form.recipient_status ≡ resolved (codes "0x1")
unfolding search_answered
shown_form-status = refl

shown_form-Reach : Reach same_case any_message resolve_test no_time [] fresh_form shown_form
shown_form-Reach =
    next (next (here fresh_form) (types (codes " a.eth") fresh_form))
      (answers test_search [] [] typed_form typed_form-searches)

Reach-resolved_example : resolve_test (trim shown_form.recipient) ≡ some (codes "0x1")
Reach-resolved_example =
    Reach-resolved same_case any_message resolve_test no_time [] fresh_form shown_form (codes "0x1")
      refl refl shown_form-Reach shown_form-status
