-- ===== src/App/Sorted.antt =====
-- sealed-sky-web/src/App.tsx: the order in which the queue is shown, and the item of the detail.
use sealed_sky_verification.Common.{
  ◌≤◌, ℕ, ◌≡◌, refl, ◌∙◌, Bool, true, false, Bool-cases, inl, inr, Option, none, some, List, [],
  ◌∷◌, All, All-map_of, ltb, ◌==◌, if◌then◌else◌, filter, find, arith,
}
use mathlib.Core.List.{Perm}
use mathlib.Core.List.Perm
use sealed_sky_verification.Common.Text.{Text, text_eq}
use sealed_sky_verification.Queue.{QueueItem}

-- Whether `a.unlock_unix - b.unlock_unix` is positive; NaN counts as 0.
abbrev is_after : Option ℕ → Option ℕ → Bool
is_after (some a) (some b) = ltb b a
is_after _ _ = false

-- The stable sort of JavaScript arrays with that comparison.
unfoldable insert_item : QueueItem → List QueueItem → List QueueItem
insert_item it [] = it ∷ []
insert_item it (x ∷ xs) =
    let rest = insert_item it xs in
    if is_after it.unlock_unix x.unlock_unix then x ∷ rest else it ∷ x ∷ xs

unfoldable pub sorted_items : List QueueItem → List QueueItem
unfolding insert_item
sorted_items [] = []
sorted_items (it ∷ items) = insert_item it (sorted_items items)

unfoldable pub selected : List QueueItem → Option Text → Option QueueItem
unfolding find
selected items none = none
selected items (some id) = find (λ it. text_eq it.id id) items

-- One item unlocks no later than another.
abbrev IsBefore : QueueItem → QueueItem → Type 0
IsBefore a b = (s t : ℕ) → a.unlock_unix ≡ some s → b.unlock_unix ≡ some t → s ≤ t

abbrev pub IsSorted : List QueueItem → Type 0
IsSorted [] = Unit
IsSorted (x ∷ xs) = All (IsBefore x) xs × IsSorted xs

abbrev HasTime : QueueItem → Type 0
HasTime it = (t : ℕ) × (it.unlock_unix ≡ some t)

abbrev pub is_at : ℕ → QueueItem → Bool
is_at t it = elim it.unlock_unix [ none ↦ false | some u ↦ u == t ]

insert_item-Perm : (it : QueueItem) (xs : List QueueItem) → Perm (insert_item it xs) (it ∷ xs)
unfolding insert_item
insert_item-Perm it [] = Perm.refl (it ∷ [])
insert_item-Perm it (x ∷ xs) = elim (Bool-cases (is_after it.unlock_unix x.unlock_unix)) [
  | inl e ↦ rw e (Perm.trans (Perm.cons x (insert_item-Perm it xs)) (Perm.swap it x xs))
  | inr e ↦ rw e (Perm.refl (it ∷ x ∷ xs))
]

sorted_items-Perm : (items : List QueueItem) → Perm (sorted_items items) items
unfolding sorted_items
sorted_items-Perm [] = Perm.refl []
sorted_items-Perm (it ∷ items) =
    Perm.trans (insert_item-Perm it (sorted_items items)) (Perm.cons it (sorted_items-Perm items))

All-insert_item {κ} :
    (P : QueueItem → Type κ) (it : QueueItem) (xs : List QueueItem)
    → P it
    → All P xs
    → All P (insert_item it xs)
unfolding insert_item
All-insert_item P it [] p h = (p, tt)
All-insert_item P it (x ∷ xs) p (q, h) = elim (Bool-cases (is_after it.unlock_unix x.unlock_unix)) [
  | inl e ↦ rw e (q, All-insert_item P it xs p h)
  | inr e ↦ rw e (p, (q, h))
]

pub All-sorted_items {κ} :
    (P : QueueItem → Type κ) (items : List QueueItem) → All P items → All P (sorted_items items)
unfolding sorted_items
All-sorted_items P [] h = tt
All-sorted_items P (it ∷ items) (p, h) =
    All-insert_item P it (sorted_items items) p (All-sorted_items P items h)

later-IsBefore : (a b : QueueItem) → is_after a.unlock_unix b.unlock_unix ≡ true → IsBefore b a
later-IsBefore a b h s t e f = ground arith

not_later-IsBefore : (a b : QueueItem) → is_after a.unlock_unix b.unlock_unix ≡ false → IsBefore a b
not_later-IsBefore a b h s t e f = ground arith

IsBefore-trans : (a b x : QueueItem) → HasTime b → IsBefore a b → IsBefore b x → IsBefore a x
IsBefore-trans a b x (t, e) h k s u f g = ground (arith, h s t f e, k t u e g)

insert_item-IsSorted :
    (it : QueueItem) (xs : List QueueItem)
    → HasTime it
    → All HasTime xs
    → IsSorted xs
    → IsSorted (insert_item it xs)
unfolding insert_item
insert_item-IsSorted it [] t ts s = (tt, tt)
insert_item-IsSorted it (x ∷ xs) t (u, ts) (b, s) =
    elim (Bool-cases (is_after it.unlock_unix x.unlock_unix)) [
      | inl e ↦ rw e (
        All-insert_item (IsBefore x) it xs (later-IsBefore it x e) b,
        insert_item-IsSorted it xs t ts s,
      )
      | inr e ↦ rw e (
        (
          not_later-IsBefore it x e,
          All-map_of (λ y k. IsBefore-trans it x y u (not_later-IsBefore it x e) k) xs b,
        ),
        (b, s),
      )
    ]

-- An item that is put before items that are not earlier keeps its place among those of one time.
filter-insert_item :
    (t : ℕ) (it : QueueItem) (xs : List QueueItem)
    → filter (is_at t) (insert_item it xs) ≡ filter (is_at t) (it ∷ xs)
unfolding insert_item filter
filter-insert_item t it [] = refl
filter-insert_item t it (x ∷ xs) = ground (arith, filter-insert_item t it xs)

filter-sorted_items :
    (t : ℕ) (items : List QueueItem)
    → filter (is_at t) (sorted_items items) ≡ filter (is_at t) items
unfolding sorted_items filter
filter-sorted_items t [] = refl
filter-sorted_items t (it ∷ items) =
    filter-insert_item t it (sorted_items items) ∙ rw (filter-sorted_items t items) refl

sorted_items-IsSorted : (items : List QueueItem) → All HasTime items → IsSorted (sorted_items items)
unfolding sorted_items
sorted_items-IsSorted [] h = tt
sorted_items-IsSorted (it ∷ items) (t, h) =
    insert_item-IsSorted it (sorted_items items) t (All-sorted_items HasTime items h)
      (sorted_items-IsSorted items h)

-- The queue is shown with each of its items as often as it has it, those of one unlock time in the
-- order of the queue, and each with an unlock time no later than that of any below it, where all have an
-- unlock time.
pub sorted_items_lem :
    (items : List QueueItem)
    → All HasTime items
    → Perm (sorted_items items) items
      × ((t : ℕ) → filter (is_at t) (sorted_items items) ≡ filter (is_at t) items)
      × IsSorted (sorted_items items)
sorted_items_lem items h =
    (sorted_items-Perm items, λ t. filter-sorted_items t items, sorted_items-IsSorted items h)
