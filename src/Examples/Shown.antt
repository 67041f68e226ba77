-- ===== src/Examples/Shown.antt =====
-- The history panel over a server that has one accepted row.
use sealed_sky_verification.Json.{
  obj, str, field, end, Json, nil, arr, is_plain, get_field, js_string, property,
}
use sealed_sky_verification.Panels.View.Latest.{latest_limit_param, card_view-IsProved}
use sealed_sky_verification.Panels.View.Card.{CardView, latest_view, card_view}
use sealed_sky_verification.Panels.History.{
  begin_publish, end_publish, latest_row, HistoryPanel, begin_load, end_load,
}
use sealed_sky_verification.Common.{
  true, ◌≡◌, refl, false, none, some, inl, List, [], ◌∷◌, ◌++◌, All, length, min, arith,
}
use sealed_sky_verification.Http.{Response, replied}
use mathlib.Core.List.{reverse, Memᴰ}
use sealed_sky_verification.Common.Text.{Text, codes, text_eq}
use sealed_sky_verification.Codec.Simple as SimpleCodec
use sealed_sky_verification.Errors.{ok}
use sealed_sky_verification.Js.{trim, to_string_16, read_digits}
use sealed_sky_verification.Js.Numeric.{number_of}
use sealed_sky_verification.Panels.View.{
  history_limit_param, accepted, RowView, status_class, row_view, fmt,
}
use sealed_sky_verification.Panels.View.Shown.{over_wire, end_load-get_history, shown-IsProved}
use sealed_sky_verification.Server.{
  Reply, to_items, to_list, normalize_proof_hex, history_limit, get_history,
}
use sealed_sky_verification.Server.Log.{IsPlain, Holds, read_history-Holds}
use sealed_sky_verification.Server.Recent.{recent_reply}
use sealed_sky_verification.Server.Submit.{is_claim_valid, canonical_payload, Pending, accepted_row}
use sealed_sky_verification.Server.Submit.Proofs.{IsProved, IsAuthentic}
use sealed_sky_verification.Examples.Backend.{
  lower_of, length_digest, box_pending, pretty_of-parsed, settled_file,
}

abbrev shown_row : Json
shown_row = accepted_row box_pending (codes "0xtx")

abbrev one_row : List Json
one_row = shown_row ∷ []

one_row-IsPlain : All IsPlain one_row
unfolding is_plain
one_row-IsPlain = (refl, tt)

one_row-Holds : Holds SimpleCodec.simple settled_file one_row
unfolding is_plain
one_row-Holds = pretty_of-parsed (arr (to_items one_row)) refl

abbrev empty_panel : HistoryPanel
empty_panel = record {
  items = nil;
  busy = false;
  status = [];
  status_err = false;
  ens_publish = none;
  ens_publish_latest = none;
  ens_publish_error = none;
  ens_busy = false;
}

end_load-get_history_example :
    (reply : Reply) × (older : List Json) × (newest : List Json) × (get_history SimpleCodec.simple
        (some history_limit_param)
        settled_file
      ≡ ok reply)
    × (one_row ≡ older ++ newest)
    × (length newest ≡ min 3 (length one_row))
    × ((end_load (over_wire SimpleCodec.simple reply) (begin_load empty_panel)).items
        ≡ to_items (reverse newest))
    × ((end_load (over_wire SimpleCodec.simple reply) (begin_load empty_panel)).busy ≡ false)
end_load-get_history_example =
    end_load-get_history SimpleCodec.simple SimpleCodec.simple-IsCodec settled_file one_row
      one_row-Holds one_row-IsPlain (omega arith) empty_panel

box_pending-IsProved : IsProved lower_of length_digest box_pending
unfolding number_of text_eq normalize_proof_hex js_string to_string_16 trim is_claim_valid
    canonical_payload
box_pending-IsProved = record {
  valid = refl;
  proof_given = refl;
  digest = refl;
  payload_of = inl refl;
}

one_row-IsAuthentic : All (IsAuthentic lower_of length_digest) one_row
one_row-IsAuthentic = ((λ e. (box_pending, codes "0xtx", refl, box_pending-IsProved)), tt)

one_row-get_history :
    get_history SimpleCodec.simple (some history_limit_param) settled_file
    ≡ ok (recent_reply 1 one_row)
unfolding get_history history_limit number_of trim read_digits is_plain
one_row-get_history =
    rw (read_history-Holds SimpleCodec.simple settled_file one_row one_row-Holds) refl

one_reply-parsed :
    SimpleCodec.simple.parse (SimpleCodec.simple.stringify (recent_reply 1 one_row).body)
    ≡ some (recent_reply 1 one_row).body
unfolding is_plain
one_reply-parsed = SimpleCodec.simple-IsCodec.parse-stringify (recent_reply 1 one_row).body refl

shown_items :
    (end_load
      (over_wire SimpleCodec.simple (recent_reply 1 one_row))
      (begin_load empty_panel)).items
    ≡ to_items one_row
unfolding end_load begin_load property get_field text_eq
shown_items = rw one_reply-parsed refl

shown_row-Memᴰ : Memᴰ shown_row (
    to_list
      (end_load
        (over_wire SimpleCodec.simple (recent_reply 1 one_row))
        (begin_load empty_panel)).items)
shown_row-Memᴰ = rw shown_items (Memᴰ.head refl)

abbrev shown_view : RowView
shown_view = record {
  badge = accepted;
  status = codes "accepted";
  lines =
      (codes "stage:", codes "submit_chain")
      ∷ (codes "receivedAt:", codes "t0")
      ∷ (codes "Sealed Sky Text:", codes "box")
      ∷ (codes "timestamp:", codes "17")
      ∷ (codes "imageHash:", codes "abc")
      ∷ (codes "proof:", codes "a")
      ∷ (codes "tx:", codes "0xtx")
      ∷ [];
}

shown_row-row_view : row_view shown_row ≡ ok shown_view
unfolding row_view fmt property get_field text_eq js_string status_class
shown_row-row_view = refl

shown-IsProved_example :
    (q : Pending) × (tx : Text) × (shown_row ≡ accepted_row q tx)
    × IsProved lower_of length_digest q
shown-IsProved_example =
    shown-IsProved SimpleCodec.simple SimpleCodec.simple-IsCodec settled_file one_row one_row-Holds
      one_row-IsPlain (omega arith) lower_of length_digest empty_panel shown_row shown_view
      one_row-IsAuthentic (recent_reply 1 one_row) one_row-get_history shown_row-Memᴰ
      shown_row-row_view refl

abbrev name_reply : Response Json
name_reply = replied 200 (ok (obj (field (codes "ens") (str (codes "a.eth")) end)))

abbrev published_panel : HistoryPanel
published_panel =
    end_publish name_reply (over_wire SimpleCodec.simple (recent_reply 1 one_row))
      (begin_publish (codes "Publishing") empty_panel)

abbrev shown_card : CardView
shown_card = record {
  scope = none;
  ens = some (str (codes "a.eth"));
  app = none;
  json = none;
  latest = some (latest_view shown_row);
  published = none;
  truncated = false;
}

one_row-latest :
    get_history SimpleCodec.simple (some latest_limit_param) settled_file
    ≡ ok (recent_reply 1 one_row)
unfolding get_history history_limit number_of trim read_digits text_eq
one_row-latest = rw (read_history-Holds SimpleCodec.simple settled_file one_row one_row-Holds) refl

published_panel-card_view : card_view published_panel ≡ some shown_card
unfolding end_publish begin_publish card_view latest_row property get_field text_eq
published_panel-card_view = rw (one_reply-parsed, latest_row) refl

shown_row-accepted : (latest_view shown_row).accepted ≡ true
unfolding latest_view status_class get_field text_eq
shown_row-accepted = refl

card_view-IsProved_example :
    (q : Pending) × (tx : Text) × (latest_view shown_row ≡ latest_view (accepted_row q tx))
    × IsProved lower_of length_digest q
card_view-IsProved_example =
    card_view-IsProved SimpleCodec.simple SimpleCodec.simple-IsCodec settled_file one_row
      one_row-Holds one_row-IsPlain (omega arith) lower_of length_digest empty_panel
      (codes "Publishing") name_reply (recent_reply 1 one_row) shown_card (latest_view shown_row)
      one_row-IsAuthentic one_row-latest published_panel-card_view refl shown_row-accepted
