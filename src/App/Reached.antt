-- ===== src/App/Reached.antt =====
-- What every state of the page satisfies, from the load of the queue on.
use sealed_sky_verification.Common.{
  ◌≡◌, ◌≢◌, refl, true, Option, some, List, [], map, All, All-map_of, All_of_Memᴰ, All-map, arith,
}
use sealed_sky_verification.Common.Text.{Text}
use sealed_sky_verification.Codec.{Codec}
use sealed_sky_verification.Symmetric.{Crypto}
use sealed_sky_verification.Ctrng.{BeaconBlock}
use sealed_sky_verification.Queue.{
  ctrng, ItemStatus, unsealing, unsealed, settled, QueueItem, as_stored, Store, load_queue,
  save_queue,
}
use sealed_sky_verification.Queue.Laws.{load_queue-settled, load_queue-save_queue, reloaded}
use sealed_sky_verification.App.Step.{State, boot, has_id, task_id, Reach}
use sealed_sky_verification.App.Patches.{SameCapsule, Opened, Justified}
use sealed_sky_verification.App.Ids.{Distinct}
use sealed_sky_verification.App.Coherent.{IsCoherent}
use sealed_sky_verification.App.Safety.{IsSafe}
use sealed_sky_verification.App.Events.{All-both, Reach-IsSafe}
use mathlib.Core.List.{Memᴰ}

unsealed_of_settled : (s : ItemStatus) → settled s ≡ unsealed → s ≡ unsealed
unsealed_of_settled s h = ground arith

module _ (c : Codec) (k : Crypto) where
  -- A page that is loaded with a queue of justified items, of which items with one id are one
  -- capsule and none is unsealing, is safe.
  pub boot-IsSafe :
      (items : List QueueItem)
      → All (Justified c k) items
      → All (λ it. it.status ≢ unsealing) items
      → IsCoherent items
      → IsSafe c k (boot items)
  unfolding boot
  boot-IsSafe items justified calm coherent = record {
    items =
        All-both {Q = λ it. (it.status ≢ unsealing) × All (SameCapsule it) items}
          (λ it j r. record {
            justified = j;
            with_rendered = r.1;
            with_tasks = tt;
            busy = λ u. absurd (r.0 u);
          })
          items justified
          (All-both {P = λ it. it.status ≢ unsealing} {Q = λ it. All (SameCapsule it) items}
            (λ it n r. (n, r)) items calm coherent);
    tasks = tt;
    in_flight_ids = refl;
    distinct = tt;
    coherent = coherent;
  }

  -- In every state that the page reaches from a stored queue of justified items, of which items
  -- with one id are one capsule, by any events and replies in any order, an item of the beacon's
  -- backend that is unsealed shows what its key opens, with a verified commitment, and the block
  -- it records is not before the unlock time of its envelope.
  pub reached-Justified :
      (store : Store) (raw : Option Text) (a : State) (it : QueueItem)
      → All (Justified c k) (load_queue store raw)
      → IsCoherent (load_queue store raw)
      → Reach c k (boot (load_queue store raw)) a
      → Memᴰ it a.items
      → it.backend ≡ ctrng
      → it.status ≡ unsealed
      → (text : Text) × (w : BeaconBlock) × Opened c k it text w
        × (it.plaintext ≡ some text)
        × (it.ctrng_witness_timestamp ≡ some w.timestamp)
        × (it.ctrng_witness_sequence ≡ some w.sequence)
  reached-Justified store raw a it justified coherent r m b u =
      let s =
        Reach-IsSafe c k r
          (boot-IsSafe (load_queue store raw) justified (load_queue-settled store raw) coherent) in
      (All_of_Memᴰ _ a.items s.items m).justified b u

  -- From any safe state: the ids in flight are distinct and are the ids of the tasks, in order, so
  -- an item has at most one call of `tryUnseal` at a time, and an item that is unsealing has one.
  pub reached-in_flight :
      (a b : State)
      → IsSafe c k a
      → Reach c k a b
      → Distinct b.in_flight
        × (b.in_flight ≡ map task_id b.tasks)
        × All (λ it. it.status ≡ unsealing → has_id it.id b.in_flight ≡ true) b.items
  reached-in_flight a b s r =
      let t = Reach-IsSafe c k r s in
      (t.distinct, t.in_flight_ids, All-map_of (λ it g. g.busy) b.items t.items)

  reloaded-Justified : (it : QueueItem) → Justified c k it → Justified c k (reloaded it)
  reloaded-Justified it j = λ b u.
      let (text, w, o, p, t, q) = j b (unsealed_of_settled it.status u) in
      (
        text,
        w,
        record {
          parsed = o.parsed;
          key = o.key;
          unlock = o.unlock;
          unpacked = o.unpacked;
          key_decoded = o.key_decoded;
          has_unlock = o.has_unlock;
          due = o.due;
          verified = o.verified;
          opened = o.opened;
        },
        p,
        t,
        q,
      )

  reloaded-IsCoherent :
      (items : List QueueItem) → IsCoherent items → IsCoherent (map reloaded items)
  reloaded-IsCoherent items h =
      All-map (λ it. All (SameCapsule it) items) (λ it. All (SameCapsule it) (map reloaded items))
        reloaded
        (λ it g.
          All-map (SameCapsule it) (SameCapsule (reloaded it)) reloaded (λ x same. same) items g)
        items h

  -- A safe page that is closed, with its queue saved, and loaded again is safe again: if JSON gives
  -- the items back, and their text is not empty.
  pub reload-IsSafe :
      (store : Store) (a : State)
      → store.parse_items (save_queue store a.items) ≡ some (map as_stored a.items)
      → save_queue store a.items ≢ []
      → IsSafe c k a
      → IsSafe c k (boot (load_queue store (some (save_queue store a.items))))
  reload-IsSafe store a back full s =
      let e = load_queue-save_queue store a.items back full in
      boot-IsSafe (load_queue store (some (save_queue store a.items)))
        (rw e (
          All-map (Justified c k) (Justified c k) reloaded reloaded-Justified a.items
            (All-map_of (λ it g. g.justified) a.items s.items)))
        (load_queue-settled store (some (save_queue store a.items)))
        (rw e (reloaded-IsCoherent a.items s.coherent))
