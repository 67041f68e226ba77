-- ===== src/Queue.antt =====
-- sealed-sky-web/src/lib/backend.ts and queue.ts: the items of the queue and their storage.
pub mod Laws
use sealed_sky_verification.Common.{
  ℕ, ◌+◌, ◌-◌, Bool, true, false, Option, none, some, List, [], ◌∷◌, ◌++◌, map, leb, if◌then◌else◌,
  length, take, find,
}
use sealed_sky_verification.Common.Text.{Text, text_eq}
use sealed_sky_verification.Errors.{Error}
use sealed_sky_verification.Json.{Json}
use sealed_sky_verification.Js.{is_white, trim}

pub data Backend : Type 0 where
  drand ctrng : Backend

abbrev pub backend_order : List Backend
backend_order = ctrng ∷ drand ∷ []

abbrev pub default_backend : Backend
default_backend = ctrng

pub data ItemStatus : Type 0 where
  sealed ready unsealing unsealed failed : ItemStatus

-- `failed` is the status "error"; `error` holds the error whose message the source stores.
pub record QueueItem : Type 0 where
  pub id : Text
  pub backend : Backend
  pub envelope : Text
  pub unlock_unix : Option ℕ
  pub created_at : ℕ
  pub status : ItemStatus
  pub plaintext : Option Text
  pub error : Option Error
  pub round : Option ℕ
  pub ctrng_key_b64 : Option Text
  pub ctrng_target_sequence : Option ℕ
  pub ctrng_witness_sequence : Option ℕ
  pub ctrng_witness_timestamp : Option ℕ
  pub ctrng_witness_value : Option Json
  pub ctrng_witness_url : Option Text
  pub sender_ens : Option Text
  pub recipient_ens : Option Text
  pub capsule_ens : Option Text
  pub capsule_publish_error : Option Error

-- What JSON.parse returns for a stored item: an old one may lack the backend, and may have the
-- legacy field `preview`.
pub record StoredItem : Type 0 where
  pub item : QueueItem
  pub stored_backend : Option Backend
  pub preview : Option Text

abbrev or_drand : Option Backend → Backend
or_drand none = drand
or_drand (some b) = b

abbrev pub settled : ItemStatus → ItemStatus
settled unsealing = ready
settled s = s

-- The callback of `loadQueue`; `preview` is dropped.
unfoldable pub migrate : StoredItem → QueueItem
migrate s = record s.item { backend = or_drand s.stored_backend; status = settled s.item.status }

-- The text storage of the browser under the queue's key, and JSON over lists of items; `none` where
-- the text is no JSON or the value has no `map`.
pub record Store : Type 0 where
  pub stringify_items : List StoredItem → Text
  pub parse_items : Text → Option (List StoredItem)

abbrev pub as_stored : QueueItem → StoredItem
as_stored it = record { item = it; stored_backend = some it.backend; preview = none }

module _ (store : Store) where
  abbrev loaded : Option (List StoredItem) → List QueueItem
  loaded none = []
  loaded (some parsed) = map migrate parsed

  -- An empty string counts as nothing stored.
  unfoldable pub load_queue : Option Text → List QueueItem
  load_queue none = []
  load_queue (some []) = []
  load_queue (some (c ∷ raw)) = loaded (store.parse_items (c ∷ raw))

  -- The text that `saveQueue` stores.
  unfoldable pub save_queue : List QueueItem → Text
  save_queue items = store.stringify_items (map as_stored items)

-- `text.replace(/\s+/g, " ")`: each run of white space becomes one space; `in_run` tells that the
-- space of the run is written.
collapse_from : Bool → Text → Text
collapse_from in_run [] = []
collapse_from in_run (c ∷ s) =
    let rest = collapse_from (is_white c) s in
    if is_white c then (if in_run then rest else 32 ∷ rest) else c ∷ rest

unfoldable pub collapse : Text → Text
unfolding collapse_from
collapse text = collapse_from false text

-- 0x2026 is the ellipsis.
unfoldable pub truncate : Text → ℕ → Text
truncate text n =
    let single = trim (collapse text) in
    if leb (length single) n then single else take (n - 1) single ++ (0x2026 ∷ [])

unfoldable pub find_by_envelope : List QueueItem → Text → Option QueueItem
unfolding find
find_by_envelope items envelope = find (λ it. text_eq it.envelope envelope) items
