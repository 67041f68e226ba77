-- ===== src/App/Safety.antt =====
-- What holds of the page after any events in any order.
use sealed_sky_verification.Common.{
  ◌≡◌, ap, sym, ◌∙◌, true, false, Bool-cases, inl, inr, Option, none, some, List, map, All, All-map,
  All-filter, All_of_Memᴰ, All-map_of, if◌then◌else◌,
}
use sealed_sky_verification.Common.Text.{Text, text_eq, eq_of_text_eq}
use sealed_sky_verification.Codec.{Codec}
use sealed_sky_verification.Symmetric.{Crypto}
use sealed_sky_verification.Queue.{unsealing, QueueItem}
use sealed_sky_verification.App.{
  Patch, apply_patch, update_item, Task, task_item, Progress, suspend, finish,
}
use sealed_sky_verification.App.Step.{
  State, has_id, task_id, patch_option, replace_task, remove_task, advance,
}
use sealed_sky_verification.App.Patches.{
  SameCapsule, Justified, IsSoundPatch, apply_patch-Justified, apply_patch-SameCapsule,
  apply_patch-id, settled_of_Settles,
}
use sealed_sky_verification.App.Tasks.{IsSoundTask, IsSoundOption, IsSoundProgress}
use sealed_sky_verification.App.Ids.{
  Distinct, without, has_id-without, Distinct-without, map-remove_task, map-replace_task,
  has_id_of_Memᴰ,
}
use sealed_sky_verification.App.Coherent.{
  IsCoherent, update_item-IsCoherent, patch_option-IsCoherent,
}
use mathlib.Core.Path.{subst}
use mathlib.Core.List.{Memᴰ}

-- An item is justified, is the same capsule wherever its id occurs, and is unsealing only while a
-- task is in flight for it.
pub record IsGood (c : Codec) (k : Crypto) (rendered : List QueueItem) (tasks : List Task)
    (in_flight : List Text) (it : QueueItem) : Type 0 where
  pub justified : Justified c k it
  pub with_rendered : All (SameCapsule it) rendered
  pub with_tasks : All (λ t. SameCapsule it (task_item t)) tasks
  pub busy : it.status ≡ unsealing → has_id it.id in_flight ≡ true

abbrev pub IsGoodIn : Codec → Crypto → State → QueueItem → Type 0
IsGoodIn c k a = IsGood c k a.rendered a.tasks a.in_flight

-- The ids in flight are those of the tasks, each once, and items with one id are one capsule.
pub record IsSafe (c : Codec) (k : Crypto) (a : State) : Type 0 where
  pub items : All (IsGoodIn c k a) a.items
  pub tasks : All (IsSoundTask c k) a.tasks
  pub in_flight_ids : a.in_flight ≡ map task_id a.tasks
  pub distinct : Distinct a.in_flight
  pub coherent : IsCoherent a.items

pub update_item-All :
    (P Q : QueueItem → Type 0) (id : Text) (p : Patch) (items : List QueueItem)
    → ((it : QueueItem) → P it → Q (if text_eq it.id id then apply_patch p it else it))
    → All P items
    → All Q (update_item id p items)
unfolding update_item
update_item-All P Q id p items f h = All-map P Q _ f items h

module _ (c : Codec) (k : Crypto) where
  -- One item under an update for the item of a task `x`.
  patched-IsGood :
      (p : Patch) (x it : QueueItem) (rendered : List QueueItem) (tasks tasks' : List Task)
      (ids ids' : List Text)
      → IsSoundPatch c k x p
      → SameCapsule it x
      → (All (λ t. SameCapsule it (task_item t)) tasks
          → All (λ t. SameCapsule it (task_item t)) tasks')
      → (text_eq it.id x.id ≡ true
          → (apply_patch p it).status ≡ unsealing
          → has_id it.id ids' ≡ true)
      → (text_eq it.id x.id ≡ false → has_id it.id ids ≡ true → has_id it.id ids' ≡ true)
      → IsGood c k rendered tasks ids it
      → IsGood c k rendered tasks' ids' (if text_eq it.id x.id then apply_patch p it else it)
  patched-IsGood p x it rendered tasks tasks' ids ids' s same keep busy quiet g =
      elim (Bool-cases (text_eq it.id x.id)) [
        | inl e ↦ rw e (record {
          justified =
              apply_patch-Justified c k p it x (same (eq_of_text_eq it.id x.id e)) s g.justified;
          with_rendered = All-map_of (apply_patch-SameCapsule p it) rendered g.with_rendered;
          with_tasks =
              All-map_of (λ t h. apply_patch-SameCapsule p it (task_item t) h) tasks'
                (keep g.with_tasks);
          busy = λ u. rw (apply_patch-id p it) (busy e u);
        })
        | inr e ↦ rw e (record {
          justified = g.justified;
          with_rendered = g.with_rendered;
          with_tasks = keep g.with_tasks;
          busy = λ u. quiet e (g.busy u);
        })
      ]

  module _ (t t' : Task) (same_item : task_item t' ≡ task_item t) where
    replace_task-All :
        (P : Task → Type 0) (tasks : List Task)
        → P t'
        → All P tasks
        → All P (replace_task (task_id t) t' tasks)
    replace_task-All P tasks h =
        All-map P P (λ u. if text_eq (task_id u) (task_id t) then t' else u)
          (λ u g. elim (Bool-cases (text_eq (task_id u) (task_id t))) [
            | inl e ↦ rw e h
            | inr e ↦ rw e g
          ])
          tasks

    replace_task-SameCapsule :
        (it : QueueItem) (tasks : List Task)
        → Memᴰ t tasks
        → All (λ u. SameCapsule it (task_item u)) tasks
        → All (λ u. SameCapsule it (task_item u)) (replace_task (task_id t) t' tasks)
    replace_task-SameCapsule it tasks m h =
        replace_task-All (λ u. SameCapsule it (task_item u)) tasks
          (subst (SameCapsule it) (sym same_item) (All_of_Memᴰ _ tasks h m)) h

  -- A task that waits again, and a task that ends.
  suspend-IsSafe :
      (a : State) (t t' : Task) (p : Option Patch)
      → Memᴰ t a.tasks
      → IsSoundProgress c k (task_item t) (suspend p t')
      → IsSafe c k a
      → IsSafe c k (advance (task_id t) (suspend p t') a)
  unfolding advance
  suspend-IsSafe a t t' p m (same_item, sound, known) s = record {
    items = items p sound;
    tasks = replace_task-All t t' same_item (IsSoundTask c k) a.tasks known s.tasks;
    in_flight_ids =
        s.in_flight_ids
        ∙ sym (map-replace_task (task_id t) t' a.tasks (ap (λ (it : QueueItem). it.id) same_item));
    distinct = s.distinct;
    coherent = patch_option-IsCoherent (task_id t) p a.items s.coherent;
  }
    where
      tasks' : List Task
      tasks' = replace_task (task_id t) t' a.tasks

      keep :
          (it : QueueItem)
          → All (λ u. SameCapsule it (task_item u)) a.tasks
          → All (λ u. SameCapsule it (task_item u)) tasks'
      keep it h = replace_task-SameCapsule t t' same_item it a.tasks m h

      in_flight : has_id (task_id t) a.in_flight ≡ true
      in_flight = rw s.in_flight_ids (has_id_of_Memᴰ a.tasks m)

      items :
          (p : Option Patch)
          → IsSoundOption c k (task_item t) p
          → All (IsGood c k a.rendered tasks' a.in_flight) (patch_option (task_id t) p a.items)
      items none sound =
          All-map_of
            (λ it g. record {
              justified = g.justified;
              with_rendered = g.with_rendered;
              with_tasks = keep it g.with_tasks;
              busy = g.busy;
            })
            a.items s.items
      items (some q) sound =
          update_item-All (IsGoodIn c k a) (IsGood c k a.rendered tasks' a.in_flight) (task_id t) q
            a.items
            (λ it g.
              patched-IsGood q (task_item t) it a.rendered a.tasks tasks' a.in_flight a.in_flight
                sound (All_of_Memᴰ _ a.tasks g.with_tasks m) (keep it)
                (λ e u. rw (eq_of_text_eq it.id (task_id t) e) in_flight) (λ e b. b) g)
            s.items

  finish-IsSafe :
      (a : State) (t : Task) (p : Patch)
      → Memᴰ t a.tasks
      → IsSoundProgress c k (task_item t) (finish p)
      → IsSafe c k a
      → IsSafe c k (advance (task_id t) (finish p) a)
  unfolding advance
  finish-IsSafe a t p m (sound, settles) s = record {
    items =
        update_item-All (IsGoodIn c k a)
          (IsGood c k a.rendered (remove_task (task_id t) a.tasks)
            (without (task_id t) a.in_flight))
          (task_id t) p a.items
          (λ it g.
            patched-IsGood p (task_item t) it a.rendered a.tasks (remove_task (task_id t) a.tasks)
              a.in_flight (without (task_id t) a.in_flight) sound
              (All_of_Memᴰ _ a.tasks g.with_tasks m) (All-filter _ _ a.tasks)
              (λ e u. absurd (settled_of_Settles p it settles u))
              (λ e b. has_id-without it.id (task_id t) a.in_flight e ∙ b) g)
          s.items;
    tasks = All-filter (IsSoundTask c k) _ a.tasks s.tasks;
    in_flight_ids =
        ap (without (task_id t)) s.in_flight_ids ∙ sym (map-remove_task (task_id t) a.tasks);
    distinct = Distinct-without (task_id t) a.in_flight s.distinct;
    coherent = update_item-IsCoherent (task_id t) p a.items s.coherent;
  }

  pub advance-IsSafe :
      (a : State) (t : Task) (pr : Progress)
      → Memᴰ t a.tasks
      → IsSoundProgress c k (task_item t) pr
      → IsSafe c k a
      → IsSafe c k (advance (task_id t) pr a)
  advance-IsSafe a t (suspend p t') m sound s = suspend-IsSafe a t t' p m sound s
  advance-IsSafe a t (finish p) m sound s = finish-IsSafe a t p m sound s
