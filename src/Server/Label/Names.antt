-- ===== src/Server/Label/Names.antt =====
-- backend/server.js: splitEnsSubdomainAndParent, which splits a name at its last dot but one.
use sealed_sky_verification.Common.{
  ℕ, suc, ◌+◌, ◌-◌, ◌≡◌, ◌≤◌, ◌<◌, refl, ap, sym, ◌∙◌, true, false, ◌==◌, ltb, Bool-cases, inl, inr,
  none, some, List, [], ◌∷◌, ◌++◌, length, length-append, take-append, drop-append, arith,
  if◌then◌else◌,
}
use sealed_sky_verification.Common.Text.{Text}
use sealed_sky_verification.Js.{trim}
use sealed_sky_verification.Share.Url.{split_on}
use sealed_sky_verification.Server.Label.{join_dots, parts_of, split_ens_subdomain_and_parent}

abbrev pub count_dots : Text → ℕ
count_dots [] = 0
count_dots (c ∷ s) = let rest = count_dots s in if c == 46 then suc rest else rest

split_on-cons : (s : Text) → (p : Text) × (ps : List Text) × (split_on 46 s ≡ p ∷ ps)
unfolding split_on
split_on-cons [] = ([], [], refl)
split_on-cons (c ∷ s) = elim (Bool-cases (c == 46)) [
  | inl e ↦ ([], split_on 46 s, rw e refl)
  | inr e ↦ let (p, ps, h) = split_on-cons s in (c ∷ p, ps, rw e (rw h refl))
]

length-split_on : (s : Text) → length (split_on 46 s) ≡ suc (count_dots s)
unfolding split_on
length-split_on [] = refl
length-split_on (c ∷ s) = elim (Bool-cases (c == 46)) [
  | inl e ↦ rw e (ap suc (length-split_on s))
  | inr e ↦ let (p, ps, h) = split_on-cons s in let l = length-split_on s in rw e (rw h (rw h at l))
]

join_dots-cons :
    (c : ℕ) (p : Text) (ps : List Text) → join_dots ((c ∷ p) ∷ ps) ≡ c ∷ join_dots (p ∷ ps)
unfolding join_dots
join_dots-cons c p [] = refl
join_dots-cons c p (q ∷ ps) = refl

join_dots-split_on : (s : Text) → join_dots (split_on 46 s) ≡ s
unfolding split_on join_dots
join_dots-split_on [] = refl
join_dots-split_on (c ∷ s) =
    let (p, ps, h) = split_on-cons s in
    let same : join_dots (p ∷ ps) ≡ s = rw (sym h) (join_dots-split_on s) in
    elim (Bool-cases (c == 46)) [
      | inl e ↦ let dot : c ≡ 46 = ground (arith, e) in rw e (rw h (rw dot (ap (λ r. 46 ∷ r) same)))
      | inr e ↦ rw e (rw h (join_dots-cons c p ps ∙ ap (λ r. c ∷ r) same))
    ]

split_on-append : (s t : Text) → split_on 46 (s ++ (46 ∷ t)) ≡ split_on 46 s ++ split_on 46 t
unfolding split_on
split_on-append [] t = refl
split_on-append (c ∷ s) t = elim (Bool-cases (c == 46)) [
  | inl e ↦ rw e (ap (λ r. [] ∷ r) (split_on-append s t))
  | inr e ↦
      let (p, ps, h) = split_on-cons s in
      let same = split_on-append s t in rw e (rw same (rw h refl))
]

parts_of-nonempty :
    (l p : Text)
    → 1 ≤ length l
    → 1 ≤ length p
    → parts_of l p ≡ some (record { label = l; parent = p; full = l ++ (46 ∷ p) })
parts_of-nonempty [] p h k = absurd (omega (arith, h))
parts_of-nonempty (c ∷ l) [] h k = absurd (omega (arith, k))
parts_of-nonempty (c ∷ l) (d ∷ p) h k = refl

length_of_dots : (p : Text) → 1 ≤ count_dots p → 1 ≤ length p
length_of_dots [] h = absurd (omega (arith, h))
length_of_dots (c ∷ p) h = omega arith

module _ (lower : Text → Text) where
  -- A name that is a label, a dot, and a parent with one dot is split into the two, where the label
  -- is not empty and trimming and lowercasing leave the name as it is: a label may have dots.
  pub split_ens_subdomain_and_parent-full :
      (label parent : Text)
      → 1 ≤ length label
      → count_dots parent ≡ 1
      → lower (trim (label ++ (46 ∷ parent))) ≡ label ++ (46 ∷ parent)
      → split_ens_subdomain_and_parent lower (label ++ (46 ∷ parent))
        ≡ some (record { label = label; parent = parent; full = label ++ (46 ∷ parent) })
  unfolding split_ens_subdomain_and_parent
  split_ens_subdomain_and_parent-full label parent nonempty dots keeps =
      let xs = split_on 46 label in
      let ys = split_on 46 parent in
      let two : length ys ≡ 2 = length-split_on parent ∙ ap suc dots in
      let some_x = length-split_on label in
      let n : length (xs ++ ys) ≡ length xs + 2 =
        length-append xs ys ∙ ap (λ k. length xs + k) two in
      let cut : length xs + 2 - 2 ≡ length xs = omega arith in
      let enough : ltb (length xs + 2) 3 ≡ false = ground arith in
      rw keeps (
        rw (split_on-append label parent) (
          rw n (
            rw (enough, cut)
              (rw (take-append xs ys, drop-append xs ys)
                (rw (join_dots-split_on label, join_dots-split_on parent)
                  (parts_of-nonempty label parent nonempty
                    (length_of_dots parent (omega (arith, dots)))))))))

  -- A name with fewer than two dots has no parts.
  split_ens_subdomain_and_parent-none :
      (name : Text)
      → count_dots (lower (trim name)) < 2
      → split_ens_subdomain_and_parent lower name ≡ none
  unfolding split_ens_subdomain_and_parent
  split_ens_subdomain_and_parent-none name few =
      let n = length-split_on (lower (trim name)) in
      rw n (let f : ltb (suc (count_dots (lower (trim name)))) 3 ≡ true = ground arith in rw f refl)
