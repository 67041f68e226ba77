-- ===== src/Panels/View/Shown.antt =====
-- components/ValidationHistoryPanel.tsx over /history of backend/server.js.
use sealed_sky_verification.Json.{null, Json, str, obj, get_field, property, member, is_plain}
use sealed_sky_verification.Js.Numeric.{number_of}
use sealed_sky_verification.Js.{trim, read_digits}
use sealed_sky_verification.Common.{
  ℕ, ◌^◌, ◌≡◌, ◌<◌, refl, ap, sym, ◌∙◌, min, ltb, Bool, true, false, Bool-cases, inl, inr, Option,
  none, some, List, ◌++◌, All, All-reverse, All-suffix, All_of_Memᴰ, length, arith, if◌then◌else◌,
}
use mathlib.Core.Path.{subst}
use mathlib.Core.List.{reverse, Memᴰ}
use sealed_sky_verification.Common.Text.{Text, codes, text_eq, eq_of_text_eq}
use sealed_sky_verification.Codec.{Codec, IsCodec}
use sealed_sky_verification.Errors.{ok, bad_json, or_throw, ok-injective}
use sealed_sky_verification.Http.{Response, replied}
use sealed_sky_verification.Panels.History.{HistoryPanel, begin_load, end_load}
use sealed_sky_verification.Panels.View.{
  history_limit_param, accepted, device_signed, rejected, status_class, RowView, row_view,
}
use sealed_sky_verification.Server.{File, Reply, to_list, to_items, history_limit, get_history}
use sealed_sky_verification.Server.Log.{IsPlain, Holds, arr-IsPlain, to_list-to_items}
use sealed_sky_verification.Server.Recent.{recent_reply, get_history-Holds}
use sealed_sky_verification.Server.Submit.{Pending, accepted_row}
use sealed_sky_verification.Server.Submit.Proofs.{IsProved, IsAuthentic}

-- The server's reply as the page reads it: a status and the text of its body.
abbrev pub over_wire : Codec → Reply → Response Json
over_wire c r = replied r.status (or_throw bad_json (c.parse (c.stringify r.body)))

pub recent_reply-IsPlain :
    (total : ℕ) (newest : List Json)
    → ltb total (2 ^ 53) ≡ true
    → ltb (length newest) (2 ^ 53) ≡ true
    → All IsPlain newest
    → IsPlain ((recent_reply total newest).body)
unfolding is_plain text_eq
recent_reply-IsPlain total newest small few plain =
    let rows = arr-IsPlain (reverse newest) (All-reverse IsPlain newest plain) in
    ground (arith, rows, small, few)

pub accepted_class :
    (status : Option Json) → status_class status ≡ accepted → status ≡ some (str (codes "accepted"))
unfolding status_class
accepted_class none h = absurd (cc h)
accepted_class (some (str s)) h = elim (Bool-cases (text_eq s (codes "accepted"))) [
  | inl e ↦ ap (λ t. some (str t)) (eq_of_text_eq s (codes "accepted") e)
  | inr e ↦ absurd (other (text_eq s (codes "device_signed")) (rw (e, status_class) at h))
]
  where
    other : (b : Bool) → (if b then device_signed else rejected) ≡ accepted → ⊥
    other true k = cc k
    other false k = cc k
accepted_class (some v) h = absurd (cc h)

view_of_status :
    (row : Json) (view : RowView) (status : Option Json)
    → property (codes "status") row ≡ ok status
    → row_view row ≡ ok view
    → view.badge ≡ status_class status
unfolding row_view
view_of_status row view status e h = sym (ap (λ v. v.badge) (ok-injective _ view (rw e at h)))

null_row : (view : RowView) → row_view null ≡ ok view → ⊥
unfolding row_view property
null_row view h = cc h

accepted_view :
    (row : Json) (view : RowView)
    → row_view row ≡ ok view
    → view.badge ≡ accepted
    → member (codes "status") row ≡ some (str (codes "accepted"))
unfolding property
accepted_view null view h badge = absurd (null_row view h)
accepted_view (obj fs) view h badge =
    accepted_class (get_field (codes "status") fs)
      (sym (view_of_status (obj fs) view (get_field (codes "status") fs) refl h) ∙ badge)
accepted_view v view h badge = accepted_class none (sym (view_of_status v view none refl h) ∙ badge)

three : history_limit (some history_limit_param) ≡ 3
unfolding history_limit number_of trim read_digits text_eq
three = refl

module _ (c : Codec) (laws : IsCodec c) (file : File) (log : List Json) (holds : Holds c file log)
    (plain : All IsPlain log) (small : length log < 2 ^ 53) where
  -- The page's load of the history shows the newest rows of the log, at most three, the newest first.
  pub end_load-get_history :
      (p : HistoryPanel)
      → (reply : Reply) × (older : List Json) × (newest : List Json) × (get_history c
            (some history_limit_param)
            file
          ≡ ok reply)
        × (log ≡ older ++ newest)
        × (length newest ≡ min 3 (length log))
        × ((end_load (over_wire c reply) (begin_load p)).items ≡ to_items (reverse newest))
        × ((end_load (over_wire c reply) (begin_load p)).busy ≡ false)
  unfolding end_load begin_load text_eq get_field property
  end_load-get_history p =
      let (older, newest, parts, few, replies) =
        get_history-Holds c (some history_limit_param) file log holds (rw three (omega arith)) in
      let few3 : length newest ≡ min 3 (length log) = few ∙ ap (λ n. min n (length log)) three in
      let plain_rows = All-suffix IsPlain older newest (subst (All IsPlain) parts plain) in
      let parsed =
        laws.parse-stringify (recent_reply (length log) newest).body
          (recent_reply-IsPlain (length log) newest (ground arith) (ground arith) plain_rows) in
      (
        recent_reply (length log) newest,
        older,
        newest,
        replies,
        parts,
        few3,
        rw parsed refl,
        rw parsed refl,
      )

  -- A row that the panel shows as accepted, after a load from a server whose log is authentic, is the
  -- row of a claim whose proof is the device's digest of its payload, and of a transaction.
  pub shown-IsProved :
      (lower hmac : Text → Text) (p : HistoryPanel) (row : Json) (view : RowView)
      → All (IsAuthentic lower hmac) log
      → (reply : Reply) → get_history c (some history_limit_param) file ≡ ok reply
      → Memᴰ row (to_list (end_load (over_wire c reply) (begin_load p)).items)
      → row_view row ≡ ok view
      → view.badge ≡ accepted
      → (q : Pending) × (tx : Text) × (row ≡ accepted_row q tx) × IsProved lower hmac q
  shown-IsProved lower hmac p row view authentic reply replies shown viewed badge =
      let (reply', older, newest, replies', parts, few, items, idle) = end_load-get_history p in
      let same = ok-injective reply' reply (sym replies' ∙ replies) in
      let items_of_reply : (end_load (over_wire c reply) (begin_load p)).items
          ≡ to_items (reverse newest) =
        subst (λ r. (end_load (over_wire c r) (begin_load p)).items ≡ to_items (reverse newest))
          same items in
      let rows = ap to_list items_of_reply ∙ to_list-to_items (reverse newest) in
      let newest_authentic = All-reverse (IsAuthentic lower hmac) newest (
        All-suffix (IsAuthentic lower hmac) older newest
          (subst (All (IsAuthentic lower hmac)) parts authentic)) in
      All_of_Memᴰ (IsAuthentic lower hmac) (reverse newest) newest_authentic
        (subst (λ rs. Memᴰ row rs) rows shown) (accepted_view row view viewed badge)
