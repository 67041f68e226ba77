-- ===== src/App/Coherent.antt =====
-- Items of the queue with one id are one capsule, under every change of the queue.
use sealed_sky_verification.Common.{
  ◌≡◌, refl, sym, false, Bool, Bool-cases, inl, inr, Option, none, some, List, [], ◌∷◌, ◌++◌,
  filter, All, All-append, All-map, All-filter, All-map_of, if◌then◌else◌,
}
use sealed_sky_verification.Common.Text.{Text, text_eq, text_eq_refl}
use sealed_sky_verification.Queue.{QueueItem}
use mathlib.Core.Path.{subst}
use sealed_sky_verification.App.{Patch, mark_ready, apply_patch, update_item}
use sealed_sky_verification.App.Step.{patch_option}
use sealed_sky_verification.App.Patches.{SameCapsule, apply_patch-SameCapsule}

abbrev pub IsCoherent : List QueueItem → Type 0
IsCoherent items = All (λ it. All (SameCapsule it) items) items

-- Two lists of which all pairs agree.
abbrev Agree : List QueueItem → List QueueItem → Type 0
Agree xs ys = All (λ it. All (SameCapsule it) ys) xs

apply_patch-SameCapsule_right :
    (p : Patch) (it x : QueueItem) → SameCapsule it x → SameCapsule it (apply_patch p x)
unfolding apply_patch
apply_patch-SameCapsule_right mark_ready it x h = h
apply_patch-SameCapsule_right _ it x h = h

left :
    (id : Text) (p : Patch) (it x : QueueItem)
    → SameCapsule it x
    → SameCapsule (if text_eq it.id id then apply_patch p it else it) x
left id p it x h = elim (Bool-cases (text_eq it.id id)) [
  | inl e ↦
      subst (λ b. SameCapsule (if b then apply_patch p it else it) x) (sym e)
        (apply_patch-SameCapsule p it x h)
  | inr e ↦ subst (λ b. SameCapsule (if b then apply_patch p it else it) x) (sym e) h
]

right :
    (id : Text) (p : Patch) (it x : QueueItem)
    → SameCapsule it x
    → SameCapsule it (if text_eq x.id id then apply_patch p x else x)
right id p it x h = elim (Bool-cases (text_eq x.id id)) [
  | inl e ↦
      subst (λ b. SameCapsule it (if b then apply_patch p x else x)) (sym e)
        (apply_patch-SameCapsule_right p it x h)
  | inr e ↦ subst (λ b. SameCapsule it (if b then apply_patch p x else x)) (sym e) h
]

pub update_item-IsCoherent :
    (id : Text) (p : Patch) (items : List QueueItem)
    → IsCoherent items
    → IsCoherent (update_item id p items)
unfolding update_item
update_item-IsCoherent id p items h =
    All-map (λ it. All (SameCapsule it) items) (λ it. All (SameCapsule it) (update_item id p items))
      _
      (λ it g.
        All-map (SameCapsule it) (SameCapsule (if text_eq it.id id then apply_patch p it else it)) _
          (λ x s.
            right id p (if text_eq it.id id then apply_patch p it else it) x (left id p it x s))
          items g)
      items h

pub patch_option-IsCoherent :
    (id : Text) (p : Option Patch) (items : List QueueItem)
    → IsCoherent items
    → IsCoherent (patch_option id p items)
patch_option-IsCoherent id none items h = h
patch_option-IsCoherent id (some p) items h = update_item-IsCoherent id p items h

pub filter-IsCoherent :
    (p : QueueItem → Bool) (items : List QueueItem) → IsCoherent items → IsCoherent (filter p items)
filter-IsCoherent p items h =
    All-filter (λ it. All (SameCapsule it) (filter p items)) p items
      (All-map_of (λ it g. All-filter (SameCapsule it) p items g) items h)

-- A fresh id agrees with all.
pub fresh-SameCapsule :
    (it : QueueItem) (items : List QueueItem)
    → All (λ x. text_eq x.id it.id ≡ false) items
    → All (SameCapsule it) items
fresh-SameCapsule it items h =
    All-map_of (λ x e. λ same. absurd (cc (e, text_eq_refl it.id, same))) items h

pub append-IsCoherent :
    (it : QueueItem) (items : List QueueItem)
    → All (λ x. text_eq x.id it.id ≡ false) items
    → IsCoherent items
    → IsCoherent (items ++ (it ∷ []))
append-IsCoherent it items fresh h =
    All-append (λ y. All (SameCapsule y) (items ++ (it ∷ []))) items (it ∷ []) (old items h fresh)
      (
        All-append (SameCapsule it) items (it ∷ []) (fresh-SameCapsule it items fresh)
            ((λ e. (refl, refl, refl)), tt),
        tt,
      )
  where
    old :
        (xs : List QueueItem)
        → Agree xs items
        → All (λ x. text_eq x.id it.id ≡ false) xs
        → Agree xs (items ++ (it ∷ []))
    old [] g f = tt
    old (x ∷ xs) (g, gs) (e, f) = (
      All-append (SameCapsule x) items (it ∷ []) g
          ((λ same. absurd (cc (e, text_eq_refl it.id, same))), tt),
      old xs gs f,
    )
