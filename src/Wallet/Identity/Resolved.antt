-- ===== src/Wallet/Identity/Resolved.antt =====
-- components/WalletConnect.tsx: whose name the page seals with.
use sealed_sky_verification.Common.{
  ◌≡◌, ◌⊎◌, inl, inr, refl, sym, true, false, Bool-cases, Option, none, some, List, [], ◌∷◌, ◌++◌,
  map, All, All-without,
}
use mathlib.Core.Path.{subst}
use sealed_sky_verification.Common.Text.{Text}
use sealed_sky_verification.Share.{truthy}
use sealed_sky_verification.Wallet.Identity.{
  Search, Identity, Bar, nobody, cancel_search, start_search, is_same, set_address, open_bar,
  with_name, search_ended,
}

-- `Answers address name`: a lookup of the address may answer the name, or that there is none.
module _ (Answers : Text → Option Text → Type 0) where
  pub data Step : Bar → Bar → Type 0 where
    changes : (address : Option Text) (b : Bar) → Step b (set_address address b)
    answers :
        (s : Search) (name : Option Text) (before rest : List Search) (b : Bar)
        → b.searches ≡ before ++ (s ∷ rest)
        → Answers s.address name
        → Step b (search_ended s name (before ++ rest) b)

  pub data Reach : Bar → Bar → Type 0 where
    here : (b : Bar) → Reach b b
    next : {a b d : Bar} → Reach a b → Step b d → Reach a d

  -- A search that is not cancelled is that of the address.
  abbrev IsLive : Option Text → Search → Type 0
  IsLive address s = s.cancelled ≡ false → truthy address ≡ some s.address

  -- The identity is nobody, or an account with a name that a lookup of it answered.
  abbrev pub IsNamed : Identity → Type 0
  IsNamed i = (i ≡ nobody) ⊎ ((a : Text) × (i.address ≡ some a) × Answers a i.ens)

  record IsResolved (b : Bar) : Type 0 where
    live : All (IsLive b.address) b.searches
    named : IsNamed b.identity
    current : b.resolving ≡ false → b.identity.address ≡ truthy b.address

  all_cancelled :
      (address : Option Text) (ss : List Search) → All (IsLive address) (map cancel_search ss)
  all_cancelled address [] = tt
  all_cancelled address (s ∷ ss) = (λ e. absurd (cc e), all_cancelled address ss)

  start_search-IsResolved :
      (found : Option Text) (b : Bar)
      → truthy b.address ≡ found
      → All (IsLive b.address) b.searches
      → IsNamed b.identity
      → IsResolved (start_search found b)
  unfolding start_search
  start_search-IsResolved none b e live named = record {
    live = live;
    named = inl refl;
    current = λ r. sym e;
  }
  start_search-IsResolved (some a) b e live named = record {
    live = ((λ r. e), live);
    named = named;
    current = λ r. absurd (cc r);
  }

  set_address-IsResolved :
      (address : Option Text) (b : Bar) → IsResolved b → IsResolved (set_address address b)
  unfolding set_address
  set_address-IsResolved address b h = elim (Bool-cases (is_same address b.address)) [
    | inl e ↦ rw e h
    | inr e ↦ rw e (
        start_search-IsResolved (truthy address)
          (record b { address = address; searches = map cancel_search b.searches }) refl
          (all_cancelled address b.searches) h.named)
  ]

  search_ended-IsResolved :
      (s : Search) (name : Option Text) (before rest : List Search) (b : Bar)
      → b.searches ≡ before ++ (s ∷ rest)
      → Answers s.address name
      → IsResolved b
      → IsResolved (search_ended s name (before ++ rest) b)
  unfolding search_ended
  search_ended-IsResolved s name before rest b parts answer h =
      let (live, others) =
        All-without (IsLive b.address) before s rest
          (subst (All (IsLive b.address)) parts h.live) in
      elim (Bool-cases s.cancelled) [
        | inl e ↦ rw e (record { live = others; named = h.named; current = h.current })
        | inr e ↦ rw e (of_live (of_search live e) others)
      ]
    where
      of_search : IsLive b.address s → s.cancelled ≡ false → truthy b.address ≡ some s.address
      of_search l e = l e

      of_live :
          truthy b.address ≡ some s.address
          → All (IsLive b.address) (before ++ rest)
          → IsResolved (with_name s.address name (record b { searches = before ++ rest }))
      of_live e others = record {
        live = others;
        named = inr (s.address, refl, answer);
        current = λ r. sym e;
      }

  Step-IsResolved : {a b : Bar} → Step a b → IsResolved a → IsResolved b
  Step-IsResolved (changes address b) h = set_address-IsResolved address b h
  Step-IsResolved (answers s name before rest b parts answer) h =
      search_ended-IsResolved s name before rest b parts answer h

  Reach-IsResolved : {a b : Bar} → Reach a b → IsResolved a → IsResolved b
  Reach-IsResolved (here b) h = h
  Reach-IsResolved (next r s) h = Step-IsResolved s (Reach-IsResolved r h)

  open_bar-IsResolved : (address : Option Text) → IsResolved (open_bar address)
  unfolding open_bar
  open_bar-IsResolved address =
      start_search-IsResolved (truthy address)
        (record {
          address = address;
          ens = none;
          resolving = false;
          identity = nobody;
          searches = [];
        })
        refl tt (inl refl)

  -- Whichever accounts the wallet changes to and whenever the lookups answer: the page seals as
  -- nobody, or as an account with what a lookup of that same account answered for its name; and the
  -- account is the one that is connected, unless a name is being resolved.
  pub reached-IsNamed :
      (address : Option Text) (b : Bar)
      → Reach (open_bar address) b
      → IsNamed b.identity × ((b.resolving ≡ true) ⊎ (b.identity.address ≡ truthy b.address))
  reached-IsNamed address b r =
      let h = Reach-IsResolved r (open_bar-IsResolved address) in
      (h.named, elim (Bool-cases b.resolving) [ inl e ↦ inl e | inr e ↦ inr (h.current e) ])
