-- ===== src/App/Events.antt =====
-- Each event of the page keeps it safe.
use sealed_sky_verification.Common.{
  ◌≡◌, refl, not, Option, none, some, List, [], ◌∷◌, find, All, All-append, All-filter, All_of_Memᴰ,
  All-map_of,
}
use sealed_sky_verification.Common.Text.{Text, text_eq, text_eq_refl}
use sealed_sky_verification.Codec.{Codec}
use sealed_sky_verification.Symmetric.{Crypto}
use sealed_sky_verification.Queue.{sealed, QueueItem, find_by_envelope}
use sealed_sky_verification.App.{published, publish_failed, run_task}
use sealed_sky_verification.App.Step.{
  State, tick, resume, unseal_found, handle_unseal, handle_delete, add_item, import_found,
  import_item, commit, IsFresh, Step, Reach,
}
use sealed_sky_verification.App.Patches.{SameCapsule}
use sealed_sky_verification.App.Tasks.{run_task-IsSound}
use sealed_sky_verification.App.Coherent.{filter-IsCoherent, fresh-SameCapsule, append-IsCoherent}
use sealed_sky_verification.App.Safety.{IsGoodIn, IsSafe, advance-IsSafe}
use sealed_sky_verification.App.Launch.{
  mem_self, mem_of_find, published-IsHarmless, publish_failed-IsHarmless, outside-IsSafe,
  try_unseal-IsSafe, tick_loop-IsSafe,
}

pub All-both :
    {A : Type 0} {P Q R : A → Type 0} (f : (x : A) → P x → Q x → R x) (xs : List A)
    → All P xs
    → All Q xs
    → All R xs
All-both f [] h k = tt
All-both f (x ∷ xs) (p, h) (q, k) = (f x p q, All-both f xs h k)

module _ (c : Codec) (k : Crypto) where
  unseal_found-IsSafe :
      (id : Text) (o : Option QueueItem) (a : State)
      → find (λ it. text_eq it.id id) a.rendered ≡ o
      → IsSafe c k a
      → IsSafe c k (unseal_found c k o a)
  unseal_found-IsSafe id none a e s = s
  unseal_found-IsSafe id (some it) a e s =
      try_unseal-IsSafe c k it a (mem_of_find (λ x. text_eq x.id id) a.rendered it e) s

  delete-IsSafe : (id : Text) (a : State) → IsSafe c k a → IsSafe c k (handle_delete id a)
  unfolding handle_delete
  delete-IsSafe id a s = record {
    items = All-filter (IsGoodIn c k a) (λ it. not (text_eq it.id id)) a.items s.items;
    tasks = s.tasks;
    in_flight_ids = s.in_flight_ids;
    distinct = s.distinct;
    coherent = filter-IsCoherent (λ it. not (text_eq it.id id)) a.items s.coherent;
  }

  add_item-IsSafe :
      (it : QueueItem) (a : State)
      → it.status ≡ sealed
      → IsFresh it.id a
      → IsSafe c k a
      → IsSafe c k (add_item it a)
  unfolding add_item
  add_item-IsSafe it a new (fresh, unseen, unused) s = record {
    items = All-append (IsGoodIn c k a) a.items (it ∷ []) s.items (good, tt);
    tasks = s.tasks;
    in_flight_ids = s.in_flight_ids;
    distinct = s.distinct;
    coherent = append-IsCoherent it a.items fresh s.coherent;
  }
    where
      good : IsGoodIn c k a it
      good = record {
        justified = λ b u. absurd (cc (new, u));
        with_rendered = fresh-SameCapsule it a.rendered unseen;
        with_tasks =
            All-map_of (λ t e. λ same. absurd (cc (e, text_eq_refl it.id, same))) a.tasks unused;
        busy = λ u. absurd (cc (new, u));
      }

  select-IsSafe :
      (id : Option Text) (a : State) → IsSafe c k a → IsSafe c k (record a { selected_id = id })
  select-IsSafe id a s = record {
    items = s.items;
    tasks = s.tasks;
    in_flight_ids = s.in_flight_ids;
    distinct = s.distinct;
    coherent = s.coherent;
  }

  import_found-IsSafe :
      (o : Option QueueItem) (it : QueueItem) (a : State)
      → it.status ≡ sealed
      → IsFresh it.id a
      → IsSafe c k a
      → IsSafe c k (import_found o it a)
  unfolding add_item
  import_found-IsSafe none it a new fresh s = add_item-IsSafe it a new fresh s
  import_found-IsSafe (some x) it a new fresh s = select-IsSafe (some x.id) a s

  commit-IsSafe : (a : State) → IsSafe c k a → IsSafe c k (commit a)
  unfolding commit
  commit-IsSafe a s = record {
    items =
        All-both {Q = λ it. All (SameCapsule it) a.items}
          (λ it g same. record {
            justified = g.justified;
            with_rendered = same;
            with_tasks = g.with_tasks;
            busy = g.busy;
          })
          a.items s.items s.coherent;
    tasks = s.tasks;
    in_flight_ids = s.in_flight_ids;
    distinct = s.distinct;
    coherent = s.coherent;
  }

  Step-IsSafe : {a b : State} → Step c k a b → IsSafe c k a → IsSafe c k b
  unfolding tick resume handle_unseal import_item
  Step-IsSafe (Step.ticks now a) s = tick_loop-IsSafe c k now a.rendered a (mem_self a.rendered) s
  Step-IsSafe (Step.resumes t reply a m) s =
      advance-IsSafe c k a t (run_task c k t reply) m
        (run_task-IsSound c k t reply (All_of_Memᴰ _ a.tasks s.tasks m)) s
  Step-IsSafe (Step.unseals id a) s =
      unseal_found-IsSafe id (find (λ it. text_eq it.id id) a.rendered) a refl s
  Step-IsSafe (Step.deletes id a) s = delete-IsSafe id a s
  Step-IsSafe (Step.selects id a) s = select-IsSafe id a s
  Step-IsSafe (Step.adds it a new fresh) s = add_item-IsSafe it a new fresh s
  Step-IsSafe (Step.imports it a new fresh) s =
      import_found-IsSafe (find_by_envelope a.items it.envelope) it a new fresh s
  Step-IsSafe (Step.publishes id fqn a) s =
      outside-IsSafe c k id (published fqn) a (published-IsHarmless c k fqn) s
  Step-IsSafe (Step.publish_fails id e a) s =
      outside-IsSafe c k id (publish_failed e) a (publish_failed-IsHarmless c k e) s
  Step-IsSafe (Step.commits a) s = commit-IsSafe a s

  pub Reach-IsSafe : {a b : State} → Reach c k a b → IsSafe c k a → IsSafe c k b
  Reach-IsSafe Reach.here s = s
  Reach-IsSafe (Reach.next r st) s = Step-IsSafe st (Reach-IsSafe r s)
