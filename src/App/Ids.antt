-- ===== src/App/Ids.antt =====
-- The set of ids in flight, and the list of tasks beside it.
use sealed_sky_verification.Common.{
  ◌≡◌, refl, ap, sym, true, false, not, Bool-cases, inl, inr, List, [], ◌∷◌, ◌++◌, ◌||◌, map,
  filter, arith,
}
use sealed_sky_verification.Common.Text.{Text, text_eq, text_eq_refl, eq_of_text_eq, text_eq_iff}
use sealed_sky_verification.App.{Task}
use sealed_sky_verification.App.Step.{has_id, task_id, replace_task, remove_task}
use mathlib.Core.List.{Memᴰ}

abbrev pub Distinct : List Text → Type 0
Distinct [] = Unit
Distinct (x ∷ xs) = (has_id x xs ≡ false) × Distinct xs

abbrev pub without : Text → List Text → List Text
without id ids = filter (λ j. not (text_eq j id)) ids

text_eq_comm : (a b : Text) → text_eq a b ≡ text_eq b a
text_eq_comm a b = elim (Bool-cases (text_eq a b)) [
  | inl e ↦ rw (e, eq_of_text_eq a b e) (sym (text_eq_refl b))
  | inr e ↦ elim (Bool-cases (text_eq b a)) [
    | inl e' ↦ absurd (cc (e, eq_of_text_eq b a e', text_eq_refl a))
    | inr e' ↦ rw (e, e')
  ]
]

pub has_id-append :
    (id : Text) (xs ys : List Text) → has_id id (xs ++ ys) ≡ (has_id id xs || has_id id ys)
unfolding has_id
has_id-append id [] ys = refl
has_id-append id (x ∷ xs) ys = ground (arith, has_id-append id xs ys)

-- Taking out another id leaves an id where it is.
pub has_id-without :
    (j id : Text) (ids : List Text)
    → text_eq j id ≡ false
    → has_id j (without id ids) ≡ has_id j ids
unfolding has_id filter
has_id-without j id [] h = refl
has_id-without j id (x ∷ ids) h =
    ground (arith, has_id-without j id ids h, text_eq_iff x j, text_eq_iff x id, text_eq_iff j id)

has_id-without_of_false :
    (j id : Text) (ids : List Text) → has_id j ids ≡ false → has_id j (without id ids) ≡ false
unfolding has_id filter
has_id-without_of_false j id [] h = refl
has_id-without_of_false j id (x ∷ ids) h = ground (arith, has_id-without_of_false j id ids)

pub Distinct-without : (id : Text) (ids : List Text) → Distinct ids → Distinct (without id ids)
unfolding filter
Distinct-without id [] h = tt
Distinct-without id (x ∷ ids) (new, h) = elim (Bool-cases (text_eq x id)) [
  | inl e ↦ rw e (Distinct-without id ids h)
  | inr e ↦ rw e (has_id-without_of_false x id ids new, Distinct-without id ids h)
]

pub Distinct-append :
    (id : Text) (ids : List Text)
    → has_id id ids ≡ false
    → Distinct ids
    → Distinct (ids ++ (id ∷ []))
unfolding has_id
Distinct-append id [] n h = (refl, tt)
Distinct-append id (x ∷ ids) n (new, h) = (
  rw (has_id-append x ids (id ∷ [])) (ground (arith, text_eq_comm x id)),
  Distinct-append id ids (ground arith) h,
)

pub map-append_one :
    (tasks : List Task) (t : Task)
    → map task_id (tasks ++ (t ∷ [])) ≡ map task_id tasks ++ (task_id t ∷ [])
map-append_one [] t = refl
map-append_one (u ∷ tasks) t = ap (λ r. task_id u ∷ r) (map-append_one tasks t)

pub map-remove_task :
    (id : Text) (tasks : List Task)
    → map task_id (remove_task id tasks) ≡ without id (map task_id tasks)
unfolding filter
map-remove_task id [] = refl
map-remove_task id (u ∷ tasks) = ground (arith, map-remove_task id tasks)

pub map-replace_task :
    (id : Text) (t : Task) (tasks : List Task)
    → task_id t ≡ id
    → map task_id (replace_task id t tasks) ≡ map task_id tasks
map-replace_task id t [] e = refl
map-replace_task id t (u ∷ tasks) e =
    ground (arith, map-replace_task id t tasks e, text_eq_iff (task_id u) id)

pub has_id_of_Memᴰ :
    {t : Task} (tasks : List Task) → Memᴰ t tasks → has_id (task_id t) (map task_id tasks) ≡ true
unfolding has_id
has_id_of_Memᴰ {t} [] m = elim m [ ]
has_id_of_Memᴰ {t} (u ∷ tasks) (Memᴰ.head e) =
    ground (arith, text_eq_refl (task_id u), ap task_id e)
has_id_of_Memᴰ {t} (u ∷ tasks) (Memᴰ.tail m) = ground (arith, has_id_of_Memᴰ tasks m)
