-- ===== src/Queue/Laws.antt =====
-- Loading what was saved.
use sealed_sky_verification.Common.{
  ℕ, ◌-◌, ◌≤◌, ◌≡◌, ◌≢◌, refl, ap, Option, none, some, List, [], ◌∷◌, ◌∙◌, map, All, arith, length,
  length-append, length-take, take, Option-cases, inl, inr,
}
use sealed_sky_verification.Common.Text.{Text}
use sealed_sky_verification.Js.{trim}
use sealed_sky_verification.Queue.{
  QueueItem, unsealing, settled, as_stored, StoredItem, migrate, Store, load_queue, save_queue,
  truncate, loaded, collapse,
}

-- An item as a reload shows it: an interrupted unsealing is ready again, and all else is kept.
abbrev pub reloaded : QueueItem → QueueItem
reloaded it = record it { status = settled it.status }

migrate-as_stored :
    (items : List QueueItem) → map migrate (map as_stored items) ≡ map reloaded items
unfolding migrate
migrate-as_stored [] = refl
migrate-as_stored (it ∷ items) = ap (λ r. reloaded it ∷ r) (migrate-as_stored items)

load_queue-parse :
    (store : Store) (raw : Text)
    → raw ≢ []
    → load_queue store (some raw) ≡ loaded store (store.parse_items raw)
unfolding load_queue
load_queue-parse store [] h = absurd (h refl)
load_queue-parse store (c ∷ raw) h = refl

-- Loading the saved queue gives its items in order, with every field kept, save that an item that
-- was unsealing is ready: if JSON gives the items back, and their text is not empty.
pub load_queue-save_queue :
    (store : Store) (items : List QueueItem)
    → store.parse_items (save_queue store items) ≡ some (map as_stored items)
    → save_queue store items ≢ []
    → load_queue store (some (save_queue store items)) ≡ map reloaded items
load_queue-save_queue store items h ne =
    load_queue-parse store _ ne ∙ ap (loaded store) h ∙ migrate-as_stored items

migrate-settled : (s : StoredItem) → (migrate s).status ≢ unsealing
unfolding migrate
migrate-settled s = ground arith

All-settled : (parsed : List StoredItem) → All (λ it. it.status ≢ unsealing) (map migrate parsed)
All-settled [] = tt
All-settled (s ∷ parsed) = (migrate-settled s, All-settled parsed)

-- Whatever is stored, no loaded item is unsealing.
pub load_queue-settled :
    (store : Store) (raw : Option Text) → All (λ it. it.status ≢ unsealing) (load_queue store raw)
unfolding load_queue
load_queue-settled store none = tt
load_queue-settled store (some []) = tt
load_queue-settled store (some (c ∷ raw)) = elim (Option-cases (store.parse_items (c ∷ raw))) [
  | inl e ↦ rw e tt
  | inr (parsed, e) ↦ rw e (All-settled parsed)
]

-- The text that the queue shows is not longer than the bound, for a bound of at least 1.
length-truncate : (text : Text) (n : ℕ) → 1 ≤ n → length (truncate text n) ≤ n
unfolding truncate
length-truncate text n h = ground (
  arith,
  length-append {0} (take (n - 1) (trim (collapse text))) (0x2026 ∷ []),
  length-take {0} (n - 1) (trim (collapse text)),
)

-- A text that fits is shown with its white space collapsed and nothing cut.
truncate_short :
    (text : Text) (n : ℕ)
    → length (trim (collapse text)) ≤ n
    → truncate text n ≡ trim (collapse text)
unfolding truncate
truncate_short text n h = ground arith
