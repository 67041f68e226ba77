-- ===== src/View/Opened.antt =====
-- components/Queue.tsx over the page: the texts that the queue shows.
use sealed_sky_verification.Common.{
  ℕ, ◌≡◌, refl, ap, sym, ◌∙◌, Option, none, some, List, [], ◌∷◌, map, All, All-map_of, All_of_Memᴰ,
}
use mathlib.Core.List.{Memᴰ}
use sealed_sky_verification.Common.Text.{Text, codes, text_eq}
use sealed_sky_verification.Codec.{Codec}
use sealed_sky_verification.Symmetric.{Crypto}
use sealed_sky_verification.Ctrng.{BeaconBlock}
use sealed_sky_verification.Queue.{
  Backend, drand, ctrng, ItemStatus, sealed, ready, unsealing, unsealed, failed, QueueItem, Store,
  load_queue, truncate,
}
use sealed_sky_verification.App.Step.{State, boot, Reach}
use sealed_sky_verification.App.Patches.{Opened, Justified}
use sealed_sky_verification.App.Coherent.{IsCoherent}
use sealed_sky_verification.App.Reached.{reached-Justified}
use sealed_sky_verification.App.Sorted.{sorted_items, All-sorted_items}
use sealed_sky_verification.View.{RowView, backends, preview, row_view, queue_view}

Memᴰ-map {ℓ κ} :
    {A : Type ℓ} {B : Type κ} (f : A → B) (xs : List A) {y : B}
    → Memᴰ y (map f xs)
    → (x : A) × Memᴰ x xs × (y ≡ f x)
Memᴰ-map f [] m = elim m [ ]
Memᴰ-map f (x ∷ xs) (Memᴰ.head e) = (x, Memᴰ.head refl, e)
Memᴰ-map f (x ∷ xs) (Memᴰ.tail m) = let (z, n, e) = Memᴰ-map f xs m in (z, Memᴰ.tail n, e)

All-Memᴰ {ℓ} : {A : Type ℓ} (xs : List A) → All (λ x. Memᴰ x xs) xs
All-Memᴰ [] = tt
All-Memᴰ (x ∷ xs) = (Memᴰ.head refl, All-map_of (λ y m. Memᴰ.tail m) xs (All-Memᴰ xs))

Memᴰ_of_sorted :
    (items : List QueueItem) {it : QueueItem} → Memᴰ it (sorted_items items) → Memᴰ it items
Memᴰ_of_sorted items m =
    All_of_Memᴰ (λ it. Memᴰ it items) (sorted_items items)
      (All-sorted_items (λ it. Memᴰ it items) items (All-Memᴰ items)) m

-- A row of the queue is that of an item that is shown.
row-Memᴰ :
    (items : List QueueItem) (selected_id : Option Text) (now : ℕ) {row : RowView}
    → Memᴰ row (queue_view items selected_id now).rows
    → (it : QueueItem) × Memᴰ it items × (row ≡ row_view selected_id now it)
unfolding queue_view
row-Memᴰ [] selected_id now m = elim m [ ]
row-Memᴰ (it ∷ items) selected_id now m = Memᴰ-map (row_view selected_id now) (it ∷ items) m

ctrng_of_short : (b : Backend) → (backends b).short ≡ codes "cTRNG" → b ≡ ctrng
unfolding backends text_eq
ctrng_of_short ctrng h = refl
ctrng_of_short drand h = absurd (cc (ap (λ t. text_eq t (codes "cTRNG")) h))

preview-some :
    (s : ItemStatus) (plaintext : Option Text) (shown : Text)
    → preview s plaintext ≡ some shown
    → (s ≡ unsealed) × ((full : Text) × (plaintext ≡ some full) × (shown ≡ truncate full 60))
unfolding preview
preview-some unsealed (some full) shown h = (refl, (full, refl, cc h))
preview-some unsealed none shown h = absurd (cc h)
preview-some sealed plaintext shown h = absurd (cc h)
preview-some ready plaintext shown h = absurd (cc h)
preview-some unsealing plaintext shown h = absurd (cc h)
preview-some failed plaintext shown h = absurd (cc h)

module _ (c : Codec) (k : Crypto) where
  -- In every state that the page reaches from a stored queue of justified items, of which items with
  -- one id are one capsule, by any events and replies in any order, a text that a row of the queue
  -- shows, with the badge of the beacon's backend, is the truncated message that the key of an item
  -- of the queue opens, with a verified commitment, after a block that is not before the unlock time
  -- of its envelope.
  pub shown-Opened :
      (store : Store) (raw : Option Text) (a : State) (now : ℕ) (row : RowView) (shown : Text)
      → All (Justified c k) (load_queue store raw)
      → IsCoherent (load_queue store raw)
      → Reach c k (boot (load_queue store raw)) a
      → Memᴰ row (queue_view (sorted_items a.items) a.selected_id now).rows
      → row.backend ≡ codes "cTRNG"
      → row.preview ≡ some shown
      → (it : QueueItem) × Memᴰ it a.items
        × ((text : Text) × (w : BeaconBlock) × Opened c k it text w × (shown ≡ truncate text 60))
  unfolding row_view
  shown-Opened store raw a now row shown justified coherent r m backend previewed =
      let (it, n, e) = row-Memᴰ (sorted_items a.items) a.selected_id now m in
      let (done, (full, has, cut)) =
        preview-some it.status it.plaintext shown (sym (ap (λ v. v.preview) e) ∙ previewed) in
      let here = Memᴰ_of_sorted a.items n in
      let (text, w, opened, plain, time, sequence) =
        reached-Justified c k store raw a it justified coherent r here
          (ctrng_of_short it.backend (sym (ap (λ v. v.backend) e) ∙ backend)) done in
      let same : full ≡ text = cc (has, plain) in
      (it, here, (text, w, opened, cut ∙ ap (λ t. truncate t 60) same))
