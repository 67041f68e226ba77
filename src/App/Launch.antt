-- ===== src/App/Launch.antt =====
-- The timer and a call of `tryUnseal` keep the page safe, and so does an update from outside.
use sealed_sky_verification.Common.{
  ℕ, ◌≡◌, refl, ap, sym, ◌∙◌, true, false, not, Bool, Bool-cases, inl, inr, some, List, [], ◌∷◌,
  ◌++◌, ◌&&◌, find, All, All-append, All_of_Memᴰ, All-map_of, if◌then◌else◌,
}
use sealed_sky_verification.Common.Text.{Text, text_eq}
use sealed_sky_verification.Codec.{Codec}
use sealed_sky_verification.Symmetric.{Crypto}
use sealed_sky_verification.Errors.{Error}
use sealed_sky_verification.Queue.{unsealing, QueueItem}
use sealed_sky_verification.App.{
  Patch, mark_ready, published, publish_failed, apply_patch, update_item, starting, task_item,
  Progress, suspend, finish, computed, run_task,
}
use sealed_sky_verification.App.Step.{
  State, has_id, advance, try_unseal, tick_item, tick_loop, is_sealed, is_ready, is_due,
}
use sealed_sky_verification.App.Patches.{
  SameCapsule, IsSoundPatch, apply_patch-Justified, apply_patch-SameCapsule, apply_patch-id,
}
use sealed_sky_verification.App.Tasks.{IsSoundTask, run_task-IsSound}
use sealed_sky_verification.App.Ids.{Distinct-append, has_id-append, map-append_one}
use sealed_sky_verification.App.Coherent.{update_item-IsCoherent}
use sealed_sky_verification.App.Safety.{IsGoodIn, IsSafe, update_item-All, advance-IsSafe}
use mathlib.Core.Path.{subst}
use mathlib.Core.List.{Memᴰ}

pub mem_self : {A : Type 0} (xs : List A) → All (λ x. Memᴰ x xs) xs
mem_self [] = tt
mem_self (x ∷ xs) = (Memᴰ.head refl, All-map_of (λ y m. Memᴰ.tail m) xs (mem_self xs))

mem_last : {A : Type 0} (xs : List A) (x : A) → Memᴰ x (xs ++ (x ∷ []))
mem_last [] x = Memᴰ.head refl
mem_last (y ∷ xs) x = Memᴰ.tail (mem_last xs x)

pub mem_of_find : {A : Type 0} (p : A → Bool) (xs : List A) (x : A) → find p xs ≡ some x → Memᴰ x xs
unfolding find
mem_of_find p [] x e = cc
mem_of_find p (y ∷ xs) x e = elim (Bool-cases (p y)) [
  | inl t ↦ Memᴰ.head (cc (rw t at e))
  | inr f ↦ Memᴰ.tail (mem_of_find p xs x (rw f at e))
]

-- An update from outside the tasks that shows no plaintext and starts no unsealing.
pub record IsHarmless (c : Codec) (k : Crypto) (p : Patch) : Type 0 where
  pub sound : (it : QueueItem) → IsSoundPatch c k it p
  pub calm : (it : QueueItem) → (apply_patch p it).status ≡ unsealing → it.status ≡ unsealing

mark_ready-IsHarmless : (c : Codec) (k : Crypto) → IsHarmless c k mark_ready
unfolding apply_patch
mark_ready-IsHarmless c k = record { sound = λ it. tt; calm = λ it e. cc }

pub published-IsHarmless : (c : Codec) (k : Crypto) (fqn : Text) → IsHarmless c k (published fqn)
unfolding apply_patch
published-IsHarmless c k fqn = record { sound = λ it. tt; calm = λ it e. e }

pub publish_failed-IsHarmless :
    (c : Codec) (k : Crypto) (e : Error) → IsHarmless c k (publish_failed e)
unfolding apply_patch
publish_failed-IsHarmless c k e = record { sound = λ it. tt; calm = λ it e. e }

advance-rendered : (id : Text) (pr : Progress) (a : State) → (advance id pr a).rendered ≡ a.rendered
unfolding advance
advance-rendered id (suspend p t) a = refl
advance-rendered id (finish p) a = refl

module _ (c : Codec) (k : Crypto) where
  pub outside-IsSafe :
      (id : Text) (p : Patch) (a : State)
      → IsHarmless c k p
      → IsSafe c k a
      → IsSafe c k (record a { items = update_item id p a.items })
  outside-IsSafe id p a h s = record {
    items = update_item-All (IsGoodIn c k a) (IsGoodIn c k a) id p a.items one s.items;
    tasks = s.tasks;
    in_flight_ids = s.in_flight_ids;
    distinct = s.distinct;
    coherent = update_item-IsCoherent id p a.items s.coherent;
  }
    where
      patched : (it : QueueItem) → IsGoodIn c k a it → IsGoodIn c k a (apply_patch p it)
      patched it g = record {
        justified = apply_patch-Justified c k p it it (refl, refl, refl) (h.sound it) g.justified;
        with_rendered = All-map_of (apply_patch-SameCapsule p it) a.rendered g.with_rendered;
        with_tasks =
            All-map_of (λ t same. apply_patch-SameCapsule p it (task_item t) same) a.tasks
              g.with_tasks;
        busy = λ u. rw (apply_patch-id p it) (g.busy (h.calm it u));
      }

      one :
          (it : QueueItem)
          → IsGoodIn c k a it
          → IsGoodIn c k a (if text_eq it.id id then apply_patch p it else it)
      one it g = elim (Bool-cases (text_eq it.id id)) [
        | inl e ↦ rw e (patched it g)
        | inr e ↦ rw e g
      ]

  abbrev started : QueueItem → State → State
  started it a = record a {
    in_flight = a.in_flight ++ (it.id ∷ []);
    tasks = a.tasks ++ (starting it ∷ []);
  }

  started-IsSafe :
      (it : QueueItem) (a : State)
      → Memᴰ it a.rendered
      → has_id it.id a.in_flight ≡ false
      → IsSafe c k a
      → IsSafe c k (started it a)
  started-IsSafe it a m free s = record {
    items =
        All-map_of
          (λ x g. record {
            justified = g.justified;
            with_rendered = g.with_rendered;
            with_tasks =
                All-append (λ t. SameCapsule x (task_item t)) a.tasks (starting it ∷ [])
                  g.with_tasks (All_of_Memᴰ (SameCapsule x) a.rendered g.with_rendered m, tt);
            busy = λ u. rw (has_id-append x.id a.in_flight (it.id ∷ []), g.busy u) refl;
          })
          a.items s.items;
    tasks = All-append (IsSoundTask c k) a.tasks (starting it ∷ []) s.tasks (tt, tt);
    in_flight_ids =
        ap (λ ids. ids ++ (it.id ∷ [])) s.in_flight_ids
        ∙ sym (map-append_one a.tasks (starting it));
    distinct = Distinct-append it.id a.in_flight free s.distinct;
    coherent = s.coherent;
  }

  pub try_unseal-IsSafe :
      (it : QueueItem) (a : State)
      → Memᴰ it a.rendered
      → IsSafe c k a
      → IsSafe c k (try_unseal c k it a)
  unfolding try_unseal
  try_unseal-IsSafe it a m s = elim (Bool-cases (has_id it.id a.in_flight)) [
    | inl e ↦ rw e s
    | inr e ↦ rw e (
        advance-IsSafe c k (started it a) (starting it) (run_task c k (starting it) computed)
          (mem_last a.tasks (starting it)) (run_task-IsSound c k (starting it) computed tt)
          (started-IsSafe it a m e s))
  ]

  try_unseal-rendered : (it : QueueItem) (a : State) → (try_unseal c k it a).rendered ≡ a.rendered
  unfolding try_unseal
  try_unseal-rendered it a = elim (Bool-cases (has_id it.id a.in_flight)) [
    | inl e ↦ rw e refl
    | inr e ↦ rw e (advance-rendered it.id (run_task c k (starting it) computed) (started it a))
  ]

  marked-IsSafe :
      (b : Bool) (id : Text) (a : State)
      → IsSafe c k a
      → IsSafe c k (if b then record a { items = update_item id mark_ready a.items } else a)
  marked-IsSafe true id a s = outside-IsSafe id mark_ready a (mark_ready-IsHarmless c k) s
  marked-IsSafe false id a s = s

  marked-rendered :
      (b : Bool) (id : Text) (a : State)
      → (if b then record a { items = update_item id mark_ready a.items } else a).rendered
        ≡ a.rendered
  marked-rendered true id a = refl
  marked-rendered false id a = refl

  tick_item-IsSafe :
      (now : ℕ) (it : QueueItem) (a : State)
      → Memᴰ it a.rendered
      → IsSafe c k a
      → IsSafe c k (tick_item c k now it a)
  unfolding tick_item
  tick_item-IsSafe now it a m s =
      let due = is_sealed it.status && is_due now it.unlock_unix in
      let s' = marked-IsSafe due it.id a s in
      elim (Bool-cases
        (is_ready it.status && is_due now it.unlock_unix && not (has_id it.id a.in_flight))) [
          | inl e ↦ rw e (
              try_unseal-IsSafe it
                (if due then record a { items = update_item it.id mark_ready a.items } else a)
                (subst (λ r. Memᴰ it r) (sym (marked-rendered due it.id a)) m) s')
          | inr e ↦ rw e s'
        ]

  tick_item-rendered :
      (now : ℕ) (it : QueueItem) (a : State) → (tick_item c k now it a).rendered ≡ a.rendered
  unfolding tick_item
  tick_item-rendered now it a =
      let due = is_sealed it.status && is_due now it.unlock_unix in
      elim (Bool-cases
        (is_ready it.status && is_due now it.unlock_unix && not (has_id it.id a.in_flight))) [
          | inl e ↦ rw e (
              try_unseal-rendered it
                (if due then record a { items = update_item it.id mark_ready a.items } else a)
              ∙ marked-rendered due it.id a)
          | inr e ↦ rw e (marked-rendered due it.id a)
        ]

  pub tick_loop-IsSafe :
      (now : ℕ) (its : List QueueItem) (a : State)
      → All (λ it. Memᴰ it a.rendered) its
      → IsSafe c k a
      → IsSafe c k (tick_loop c k now its a)
  unfolding tick_loop
  tick_loop-IsSafe now [] a ms s = s
  tick_loop-IsSafe now (it ∷ its) a (m, ms) s =
      tick_loop-IsSafe now its (tick_item c k now it a)
        (subst (λ r. All (λ x. Memᴰ x r) its) (sym (tick_item-rendered now it a)) ms)
        (tick_item-IsSafe now it a m s)
