-- ===== src/Examples/Page.antt =====
-- A capsule from its sealing to its plaintext, event by event, with a codec that knows its one
-- envelope.
use sealed_sky_verification.Common.{
  arith, ◌++◌, ◌/◌, ◌%◌, filter, ℕ, ◌≡◌, refl, true, none, some, List, [], ◌∷◌, map, All,
}
use sealed_sky_verification.Panels.Utc.Calendar.{count_days}
use sealed_sky_verification.Panels.Utc.Format.{format_utc-count_days}
use sealed_sky_verification.Panels.Utc.{format_utc, date_text, time_text}
use sealed_sky_verification.Queue.{
  collapse, truncate, ctrng, sealed, ready, unsealing, unsealed, QueueItem, as_stored, Store,
  load_queue, save_queue,
}
use sealed_sky_verification.App.Sorted.{is_at, IsSorted, sorted_items_lem, sorted_items}
use sealed_sky_verification.View.Opened.{shown-Opened}
use sealed_sky_verification.View.{RowView, row_view, queue_view, backends, preview}
use sealed_sky_verification.Js.{pad_start, to_string_16, trim}
use sealed_sky_verification.Bytes.{bytes_to_hex, concat, u64_be_bytes, bytes_to_b64, b64_to_bytes}
use sealed_sky_verification.Symmetric.{
  constant_time_eq_hex, eq_hex_value, commitment, sym_open, verify_commitment,
}
use sealed_sky_verification.App.Step.{
  tick_item, State, boot, add_item, commit, tick, resume, has_id, task_id, Step, Reach,
}
use sealed_sky_verification.Json.{property, js_string, str}
use sealed_sky_verification.Base64.{atob, btoa, char_of}
use sealed_sky_verification.Envelope.{
  open_payload, bytes_of, CtrngArgs, ParsedCtrngEnvelope, ctrng_payload, unpack_ctrng,
}
use sealed_sky_verification.App.{
  update_item, run_task, Task, awaiting_beacon, awaiting_check, awaiting_open, beacon_reply,
  computed,
}
use sealed_sky_verification.Common.Text.{Text, codes, text_eq}
use sealed_sky_verification.Codec.{Codec}
use sealed_sky_verification.Errors.{ok}
use sealed_sky_verification.Ctrng.{BeaconBlock}
use sealed_sky_verification.App.Patches.{Opened}
use sealed_sky_verification.App.Ids.{Distinct}
use sealed_sky_verification.App.Safety.{IsSafe}
use sealed_sky_verification.App.Reached.{
  boot-IsSafe, reached-Justified, reached-in_flight, reload-IsSafe,
}
use sealed_sky_verification.Examples.Data.{crypto, beacon, capsule_key, capsule_iv}
use mathlib.Core.List.{Memᴰ, Perm}

-- Text is its own encoding, and what is parsed is the one payload.
abbrev blank : Codec
blank = record { stringify = λ v. []; parse = λ t. none; encode = λ t. t; decode = λ b. b }

abbrev args : CtrngArgs
args = record {
  unlock_unix = 1990;
  target_sequence = none;
  ct = codes "hi";
  iv = capsule_iv;
  commit = commitment blank crypto capsule_key capsule_iv 1990;
  sender_ens = none;
  recipient_ens = none;
}

abbrev one : Codec
one = record blank { parse = λ t. some (ctrng_payload args) }

abbrev capsule : QueueItem
capsule = record {
  id = codes "a";
  backend = ctrng;
  envelope = [];
  unlock_unix = some 1990;
  created_at = 7;
  status = sealed;
  plaintext = none;
  error = none;
  round = none;
  ctrng_key_b64 = some (codes "AQID");
  ctrng_target_sequence = none;
  ctrng_witness_sequence = none;
  ctrng_witness_timestamp = none;
  ctrng_witness_value = none;
  ctrng_witness_url = none;
  sender_ens = none;
  recipient_ens = none;
  capsule_ens = none;
  capsule_publish_error = none;
}

abbrev ready_capsule : QueueItem
ready_capsule = record capsule { status = ready }

abbrev parsed : ParsedCtrngEnvelope
parsed = record {
  unlock_unix = some 1990;
  target_sequence = none;
  ct = codes "hi";
  iv = capsule_iv;
  commit = some (str args.commit);
  payload = ctrng_payload args;
}

abbrev at_beacon : Task
at_beacon = awaiting_beacon ready_capsule parsed

abbrev at_check : Task
at_check = awaiting_check ready_capsule parsed beacon capsule_key

abbrev at_open : Task
at_open = awaiting_open ready_capsule parsed beacon capsule_key

-- The timer marks the capsule ready, and starts its unsealing after the next render.
abbrev added : State
added = commit (add_item capsule (boot []))

abbrev marked : State
marked = commit (tick one crypto 2000000 added)

abbrev launched : State
launched = tick one crypto 2002500 marked

abbrev checking : State
checking = resume one crypto at_beacon (beacon_reply (ok beacon)) launched

abbrev opening : State
opening = resume one crypto at_check computed checking

abbrev opened : State
opened = resume one crypto at_open computed opening

-- What a run computes by, gathered once.
run_launched : launched.tasks ≡ at_beacon ∷ []
unfolding commit tick tick_item add_item boot unpack_ctrng commitment ctrng_payload text_eq
    update_item run_task open_payload b64_to_bytes atob filter trim property bytes_of js_string
    bytes_to_b64 btoa char_of
run_launched = refl

run_checking : checking.tasks ≡ at_check ∷ []
unfolding commit tick tick_item add_item boot resume unpack_ctrng commitment ctrng_payload text_eq
    update_item run_task open_payload b64_to_bytes atob filter trim property bytes_of js_string
    bytes_to_b64 btoa char_of
run_checking = refl

run_opening : opening.tasks ≡ at_open ∷ []
unfolding commit tick tick_item add_item boot resume unpack_ctrng verify_commitment eq_hex_value
    constant_time_eq_hex bytes_to_hex concat u64_be_bytes pad_start to_string_16 commitment
    ctrng_payload text_eq update_item run_task open_payload b64_to_bytes atob filter trim property
    bytes_of js_string bytes_to_b64 btoa char_of
run_opening = refl

abbrev shown : QueueItem
shown = record ready_capsule {
  status = unsealed;
  plaintext = some (codes "hi");
  ctrng_witness_sequence = some 40;
  ctrng_witness_timestamp = some 2000;
  ctrng_witness_value = some (str (codes "7f"));
  ctrng_witness_url = some (codes "https://ipfs.io");
}

run_opened : opened.items ≡ shown ∷ []
unfolding commit tick tick_item add_item boot resume unpack_ctrng verify_commitment eq_hex_value
    constant_time_eq_hex bytes_to_hex concat u64_be_bytes pad_start to_string_16 sym_open commitment
    ctrng_payload text_eq update_item run_task open_payload b64_to_bytes atob filter trim property
    bytes_of js_string bytes_to_b64 btoa char_of
run_opened = refl

only : {A : Type 0} {x : A} (xs : List A) → xs ≡ x ∷ [] → Memᴰ x xs
only xs e = rw e (Memᴰ.head refl)

Reach-launched : Reach one crypto (boot []) launched
unfolding add_item boot commit tick
Reach-launched =
    Reach.next
      (Reach.next
        (Reach.next
          (Reach.next (Reach.next Reach.here (Step.adds capsule (boot []) refl (tt, tt, tt)))
            (Step.commits (add_item capsule (boot []))))
          (Step.ticks 2000000 added))
        (Step.commits (tick one crypto 2000000 added)))
      (Step.ticks 2002500 marked)

Reach-opened : Reach one crypto (boot []) opened
Reach-opened =
    Reach.next
      (Reach.next
        (Reach.next Reach-launched (
          Step.resumes at_beacon (beacon_reply (ok beacon)) launched
            (only launched.tasks run_launched)))
        (Step.resumes at_check computed checking (only checking.tasks run_checking)))
      (Step.resumes at_open computed opening (only opening.tasks run_opening))

abbrev no_store : Store
no_store = record { stringify_items = λ items. []; parse_items = λ text. none }

reached-Justified_example :
    (text : Text) × (w : BeaconBlock) × Opened one crypto shown text w
    × (shown.plaintext ≡ some text)
    × (shown.ctrng_witness_timestamp ≡ some w.timestamp)
    × (shown.ctrng_witness_sequence ≡ some w.sequence)
unfolding load_queue
reached-Justified_example =
    reached-Justified one crypto no_store none opened shown tt tt Reach-opened
      (only opened.items run_opened) refl refl

abbrev opened_row : RowView
opened_row = row_view opened.selected_id 2003000 shown

opened_row-Memᴰ :
    Memᴰ opened_row (queue_view (sorted_items opened.items) opened.selected_id 2003000).rows
unfolding sorted_items queue_view
opened_row-Memᴰ = rw run_opened (Memᴰ.head refl)

shown-Opened_example :
    (it : QueueItem) × Memᴰ it opened.items
    × ((text : Text) × (w : BeaconBlock) × Opened one crypto it text w
        × (codes "hi" ≡ truncate text 60))
unfolding load_queue row_view backends preview truncate trim collapse
shown-Opened_example =
    shown-Opened one crypto no_store none opened 2003000 opened_row (codes "hi") tt tt Reach-opened
      opened_row-Memᴰ refl refl

abbrev two_items : List QueueItem
two_items = shown ∷ record shown { unlock_unix = some 5 } ∷ []

sorted_items_lem_example :
    Perm (sorted_items two_items) two_items
    × ((t : ℕ) → filter (is_at t) (sorted_items two_items) ≡ filter (is_at t) two_items)
    × IsSorted (sorted_items two_items)
sorted_items_lem_example = sorted_items_lem two_items ((_, refl), ((5, refl), tt))

boot_empty-IsSafe : IsSafe one crypto (boot [])
boot_empty-IsSafe = boot-IsSafe one crypto [] tt tt tt

reached-in_flight_example :
    Distinct launched.in_flight
    × (launched.in_flight ≡ map task_id launched.tasks)
    × All (λ it. it.status ≡ unsealing → has_id it.id launched.in_flight ≡ true) launched.items
reached-in_flight_example =
    reached-in_flight one crypto (boot []) launched boot_empty-IsSafe Reach-launched

-- A storage that holds the one capsule.
abbrev full_store : Store
full_store = record {
  stringify_items = λ items. codes "x";
  parse_items = λ text. some (as_stored capsule ∷ []);
}

capsule-IsSafe : IsSafe one crypto (boot (capsule ∷ []))
capsule-IsSafe =
    boot-IsSafe one crypto (capsule ∷ []) ((λ b u. cc), tt) ((λ u. cc), tt)
      (((λ e. (refl, refl, refl)), tt), tt)

reload-IsSafe_example :
    IsSafe one crypto (boot (load_queue full_store (some (save_queue full_store (capsule ∷ [])))))
unfolding save_queue boot
reload-IsSafe_example =
    reload-IsSafe one crypto full_store (boot (capsule ∷ [])) refl (λ e. cc) capsule-IsSafe

format_utc-count_days_example :
    format_utc 1700000000
    ≡ ok (
        date_text (count_days (1700000000 / 86400))
        ++ (b' ' ∷ time_text (1700000000 % 86400) ++ codes " UTC"))
format_utc-count_days_example = format_utc-count_days 1700000000 (omega arith)
