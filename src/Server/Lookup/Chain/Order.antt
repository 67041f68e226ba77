-- ===== src/Server/Lookup/Chain/Order.antt =====
-- backend/server.js, GET /read-validation-ens: the order in which the candidates are asked.
use sealed_sky_verification.Common.{
  ◌≡◌, ◌⊎◌, inl, inr, refl, ap, ◌∙◌, Option-cases, none, some, List, [], ◌∷◌, ◌++◌, All,
}
use sealed_sky_verification.Common.Text.{Text, codes}
use sealed_sky_verification.Errors.{Error, ok, err, Result-cases}
use sealed_sky_verification.Js.{trim}
use sealed_sky_verification.Server.Lookup.Chain.{
  Resolver, Providers, Resolved, resolved, unresolved, chain_records, try_candidates,
}

module _ (message : Error → Text) (providers : Providers) (ens_name : Text) where
  -- A candidate that fails or has no resolver, with what is kept as the last error.
  unfoldable pub Fails : Text → Text → Type 0
  Fails rpc last_err =
      ((e : Error) × (providers (trim rpc) ens_name ≡ err e) × (last_err ≡ message e))
      ⊎ ((providers (trim rpc) ens_name ≡ ok none) × (last_err ≡ codes "no resolver"))

  -- The first candidate that has a resolver, all before it having failed.
  unfoldable pub IsFirst : List Text → Resolved → Type 0
  IsFirst candidates r =
      (before : List Text) × (rpc : Text) × (rest : List Text) × (resolver : Resolver) × (candidates
        ≡ before ++ (rpc ∷ rest))
      × All (λ u. (last_err : Text) × Fails u last_err) before
      × (providers (trim rpc) ens_name ≡ ok (some resolver))
      × (r ≡ resolved rpc (chain_records resolver))

  -- The error of the last candidate, or the first error where there is none.
  unfoldable pub IsLastError : Text → List Text → Text → Type 0
  IsLastError first [] last_err = last_err ≡ first
  IsLastError first (rpc ∷ rest) last_err = (e : Text) × Fails rpc e × IsLastError e rest last_err

  abbrev pub IsOutcome : Text → List Text → Type 0
  IsOutcome first candidates =
      IsFirst candidates (try_candidates message providers ens_name first candidates)
      ⊎ ((last_err : Text) × (try_candidates message providers ens_name first candidates
            ≡ unresolved last_err)
          × IsLastError first candidates last_err)

  failed_first :
      (first rpc e : Text) (rest : List Text)
      → Fails rpc e
      → (try_candidates message providers ens_name first (rpc ∷ rest)
          ≡ try_candidates message providers ens_name e rest)
      → IsOutcome e rest
      → IsOutcome first (rpc ∷ rest)
  unfolding IsFirst IsLastError
  failed_first first rpc e rest f same
        (inl (before, found, after, resolver, parts, failed, given, is)) =
      inl (
        rw same (
          rpc ∷ before,
          found,
          after,
          resolver,
          ap (λ us. rpc ∷ us) parts,
          ((e, f), failed),
          given,
          is,
        ))
  failed_first first rpc e rest f same (inr (last_err, is, last)) =
      inr (rw same (last_err, is, (e, f, last)))

  -- The fallback asks the candidates in their order: it ends with the records of the first one that
  -- has a resolver, all before it having failed, and where none has, with the error of the last one,
  -- or the first error if there is no candidate.
  pub try_candidates-cases : (first : Text) (candidates : List Text) → IsOutcome first candidates
  unfolding try_candidates IsLastError IsFirst Fails
  try_candidates-cases first [] = inr (first, refl, refl)
  try_candidates-cases first (rpc ∷ rest) = elim (Result-cases (providers (trim rpc) ens_name)) [
    | inl (x, h) ↦
        failed_first first rpc (message x) rest (inl (x, h, refl)) (rw (h, try_candidates) refl)
          (try_candidates-cases (message x) rest)
    | inr (o, h) ↦ elim (Option-cases o) [
      | inl n ↦
          let none_found = h ∙ ap ok n in
          failed_first first rpc (codes "no resolver") rest (inr (none_found, refl))
            (rw (none_found, try_candidates) refl) (try_candidates-cases (codes "no resolver") rest)
      | inr (resolver, s) ↦
          let found = h ∙ ap ok s in
          inl (rw (found, try_candidates) ([], rpc, rest, resolver, refl, tt, found, refl))
    ]
  ]
