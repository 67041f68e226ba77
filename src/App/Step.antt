-- ===== src/App/Step.antt =====
-- The state of the page and its events: React's queue of updates is `items`, and `rendered` is the
-- list that the handlers and the timer of the last render close over.
use sealed_sky_verification.Common.{
  ℕ, ◌*◌, Bool, true, false, not, ◌&&◌, Option, none, some, List, [], ◌∷◌, ◌++◌, map, leb,
  if◌then◌else◌, any, filter, find, ◌≡◌, All,
}
use sealed_sky_verification.Common.Text.{Text, text_eq}
use sealed_sky_verification.Codec.{Codec}
use sealed_sky_verification.Symmetric.{Crypto}
use sealed_sky_verification.Queue.{ItemStatus, sealed, ready, QueueItem, find_by_envelope}
use sealed_sky_verification.App.{
  Patch, mark_ready, published, publish_failed, update_item, Task, starting, task_item, Reply,
  computed, Progress, suspend, finish, run_task,
}
use sealed_sky_verification.Errors.{Error}
use mathlib.Core.List.{Memᴰ}

pub record State : Type 0 where
  pub items : List QueueItem
  pub rendered : List QueueItem
  pub selected_id : Option Text
  pub in_flight : List Text
  pub tasks : List Task

-- The state when the page is loaded: the queue of the storage, no selection and nothing in flight.
unfoldable pub boot : List QueueItem → State
boot items = record {
  items = items;
  rendered = items;
  selected_id = none;
  in_flight = [];
  tasks = [];
}

abbrev pub task_id : Task → Text
task_id t = (task_item t).id

-- `inFlight.current.has(id)`
unfoldable pub has_id : Text → List Text → Bool
has_id id ids = any (λ j. text_eq j id) ids

abbrev pub patch_option : Text → Option Patch → List QueueItem → List QueueItem
patch_option id none items = items
patch_option id (some p) items = update_item id p items

abbrev pub replace_task : Text → Task → List Task → List Task
replace_task id t tasks = map (λ u. if text_eq (task_id u) id then t else u) tasks

abbrev pub remove_task : Text → List Task → List Task
remove_task id tasks = filter (λ u. not (text_eq (task_id u) id)) tasks

-- The `finally` of `tryUnseal` takes the id out of the set.
unfoldable pub advance : Text → Progress → State → State
advance id (suspend p t) a = record a {
  items = patch_option id p a.items;
  tasks = replace_task id t a.tasks;
}
advance id (finish p) a = record a {
  items = update_item id p a.items;
  in_flight = filter (λ j. not (text_eq j id)) a.in_flight;
  tasks = remove_task id a.tasks;
}

abbrev pub is_sealed : ItemStatus → Bool
is_sealed sealed = true
is_sealed _ = false

abbrev pub is_ready : ItemStatus → Bool
is_ready ready = true
is_ready _ = false

-- `it.unlock_unix <= Date.now() / 1000`, with the time in milliseconds; false on undefined.
abbrev pub is_due : ℕ → Option ℕ → Bool
is_due now none = false
is_due now (some unlock) = leb (unlock * 1000) now

abbrev pub deselect : Text → Option Text → Option Text
deselect id none = none
deselect id (some s) = if text_eq s id then none else some s

module _ (c : Codec) (k : Crypto) where
  -- A call of `tryUnseal`, up to its first await.
  unfoldable pub try_unseal : QueueItem → State → State
  unfolding advance has_id
  try_unseal it a =
      if has_id it.id a.in_flight
      then a
      else advance it.id (run_task c k (starting it) computed) (record a {
        in_flight = a.in_flight ++ (it.id ∷ []);
        tasks = a.tasks ++ (starting it ∷ []);
      })

  -- The body of the timer's loop for one item of the rendered list.
  unfoldable pub tick_item : ℕ → QueueItem → State → State
  unfolding try_unseal
  tick_item now it a =
      let a' =
        if is_sealed it.status && is_due now it.unlock_unix
        then record a { items = update_item it.id mark_ready a.items }
        else a in
      if is_ready it.status && is_due now it.unlock_unix && not (has_id it.id a.in_flight)
      then try_unseal it a'
      else a'

  unfoldable pub tick_loop : ℕ → List QueueItem → State → State
  tick_loop now [] a = a
  tick_loop now (it ∷ its) a = tick_loop now its (tick_item now it a)

  unfoldable pub tick : ℕ → State → State
  unfolding tick_loop tick_item
  tick now a = tick_loop now a.rendered a

  unfoldable pub resume : Task → Reply → State → State
  unfolding advance
  resume t reply a = advance (task_id t) (run_task c k t reply) a

  abbrev pub unseal_found : Option QueueItem → State → State
  unseal_found none a = a
  unseal_found (some it) a = try_unseal it a

  unfoldable pub handle_unseal : Text → State → State
  unfolding try_unseal find
  handle_unseal id a = unseal_found (find (λ it. text_eq it.id id) a.rendered) a

unfoldable pub handle_delete : Text → State → State
handle_delete id a = record a {
  items = filter (λ it. not (text_eq it.id id)) a.items;
  selected_id = deselect id a.selected_id;
}

-- The end of `sealDrand` and of `sealCtrng`.
unfoldable pub add_item : QueueItem → State → State
add_item it a = record a { items = a.items ++ (it ∷ []); selected_id = some it.id }

-- The end of the import at boot: a capsule that is there already is selected.
abbrev pub import_found : Option QueueItem → QueueItem → State → State
import_found (some existing) it a = record a { selected_id = some existing.id }
import_found none it a = record a { items = a.items ++ (it ∷ []); selected_id = some it.id }

unfoldable pub import_item : QueueItem → State → State
import_item it a = import_found (find_by_envelope a.items it.envelope) it a

-- A new render: its closures see the current list.
unfoldable pub commit : State → State
commit a = record a { rendered = a.items }

-- An id that nothing of the page uses.
abbrev pub IsFresh : Text → State → Type 0
IsFresh id a =
    All (λ it. text_eq it.id id ≡ false) a.items
    × All (λ it. text_eq it.id id ≡ false) a.rendered
    × All (λ t. text_eq (task_id t) id ≡ false) a.tasks

-- The events of the page. A new item is sealed and has a fresh id, as `newId` makes them.
pub data Step (c : Codec) (k : Crypto) : State → State → Type 0 where
  ticks : (now : ℕ) (a : State) → Step c k a (tick c k now a)
  resumes :
      (t : Task) (reply : Reply) (a : State) → Memᴰ t a.tasks → Step c k a (resume c k t reply a)
  unseals : (id : Text) (a : State) → Step c k a (handle_unseal c k id a)
  deletes : (id : Text) (a : State) → Step c k a (handle_delete id a)
  selects : (id : Option Text) (a : State) → Step c k a (record a { selected_id = id })
  adds :
      (it : QueueItem) (a : State)
      → it.status ≡ sealed
      → IsFresh it.id a
      → Step c k a (add_item it a)
  imports :
      (it : QueueItem) (a : State)
      → it.status ≡ sealed
      → IsFresh it.id a
      → Step c k a (import_item it a)
  publishes :
      (id fqn : Text) (a : State)
      → Step c k a (record a { items = update_item id (published fqn) a.items })
  publish_fails :
      (id : Text) (e : Error) (a : State)
      → Step c k a (record a { items = update_item id (publish_failed e) a.items })
  commits : (a : State) → Step c k a (commit a)

pub data Reach (c : Codec) (k : Crypto) (s : State) : State → Type 0 where
  here : Reach c k s s
  next : {t u : State} → Reach c k s t → Step c k t u → Reach c k s u
