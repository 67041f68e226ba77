-- ===== src/Compose/Steps.antt =====
-- components/Compose.tsx: the events of the form, and its searches for a recipient.
use sealed_sky_verification.Common.{
  ℕ, ◌≡◌, ◌⊎◌, inl, inr, refl, sym, ap, ◌∙◌, false, not, ◌||◌, Bool-cases, Option, none, some, List,
  [], ◌∷◌, ◌++◌, map, All, All-without,
}
use mathlib.Core.Path.{subst}
use sealed_sky_verification.Common.Text.{Text, text_eq}
use sealed_sky_verification.Js.{trim}
use sealed_sky_verification.Ens.{looks_like_ens}
use sealed_sky_verification.Errors.{Error, Result, ok, err}
use sealed_sky_verification.Queue.{Backend}
use sealed_sky_verification.Compose.{
  RecipientStatus, idle, checking, resolved, Search, Form, cancel, recipient_effect, set_recipient,
  status_of, search_answered, seal_at, begin_seal, end_seal,
}

module _ (lower : Text → Text) (message_of : Error → Text) (resolve : Text → Option Text)
    (to_unix : Text → Option ℕ) (default_unlock : Text) where
  -- The events of the form, in any order; a search is answered when it is.
  pub data Step : Form → Form → Type 0 where
    types : (text : Text) (f : Form) → Step f (set_recipient lower text f)
    edits :
        (text unlock : Text) (backend : Backend) (f : Form)
        → Step f (record f { message = text; unlock_at = unlock; backend = backend })
    answers :
        (s : Search) (before rest : List Search) (f : Form)
        → f.searches ≡ before ++ (s ∷ rest)
        → Step f (search_answered s (resolve s.name) (before ++ rest) f)
    seals : (f : Form) → Step f (begin_seal to_unix f).0
    ends :
        (result : Result (Unit {0})) (f : Form)
        → Step f (end_seal lower message_of default_unlock result f)

  pub data Reach : Form → Form → Type 0 where
    here : (f : Form) → Reach f f
    next : {f g h : Form} → Reach f g → Step g h → Reach f h

  abbrev pub IsLive : Text → Search → Type 0
  IsLive recipient s = s.cancelled ≡ false → s.name ≡ trim recipient

  -- A status that says nothing yet, or what the name in the field resolves to.
  abbrev pub Agrees : Text → RecipientStatus → Type 0
  Agrees recipient status =
      (status ≡ idle) ⊎ (status ≡ checking) ⊎ (status ≡ status_of (resolve (trim recipient)))

  pub record IsCurrent (f : Form) : Type 0 where
    pub live : All (IsLive f.recipient) f.searches
    pub agrees : Agrees f.recipient f.recipient_status

  all_cancelled : (recipient : Text) (ss : List Search) → All (IsLive recipient) (map cancel ss)
  all_cancelled recipient [] = tt
  all_cancelled recipient (s ∷ ss) = (λ e. absurd (cc e), all_cancelled recipient ss)

  effect-IsCurrent :
      (f : Form) → All (IsLive f.recipient) f.searches → IsCurrent (recipient_effect lower f)
  unfolding recipient_effect
  effect-IsCurrent f live =
      elim (Bool-cases
        (text_eq (trim f.recipient) [] || not (looks_like_ens lower (trim f.recipient)))) [
          | inl e ↦ rw e (record { live = live; agrees = inl refl })
          | inr e ↦ rw e (record { live = (λ c. refl, live); agrees = inr (inl refl) })
        ]

  set_recipient-IsCurrent :
      (text : Text) (f : Form) → IsCurrent f → IsCurrent (set_recipient lower text f)
  unfolding set_recipient
  set_recipient-IsCurrent text f current = elim (Bool-cases (text_eq text f.recipient)) [
    | inl e ↦ rw e current
    | inr e ↦ rw e (
        effect-IsCurrent (record f { recipient = text; searches = map cancel f.searches })
          (all_cancelled text f.searches))
  ]

  answered-IsCurrent :
      (s : Search) (before rest : List Search) (f : Form)
      → f.searches ≡ before ++ (s ∷ rest)
      → IsCurrent f
      → IsCurrent (search_answered s (resolve s.name) (before ++ rest) f)
  unfolding search_answered
  answered-IsCurrent s before rest f parts current =
      let (live, others) =
        All-without (IsLive f.recipient) before s rest
          (subst (All (IsLive f.recipient)) parts current.live) in
      elim (Bool-cases s.cancelled) [
        | inl e ↦ rw e (record { live = others; agrees = current.agrees })
        | inr e ↦ rw e (record {
          live = others;
          agrees = inr (inr (ap (λ n. status_of (resolve n)) (live e)));
        })
      ]

  seal_at-IsCurrent : (unix : Option ℕ) (f : Form) → IsCurrent f → IsCurrent (seal_at unix f).0
  seal_at-IsCurrent none f current = record { live = current.live; agrees = current.agrees }
  seal_at-IsCurrent (some unix) f current = record { live = current.live; agrees = current.agrees }

  begin_seal-IsCurrent : (f : Form) → IsCurrent f → IsCurrent (begin_seal to_unix f).0
  unfolding begin_seal
  begin_seal-IsCurrent f current = elim (Bool-cases (text_eq (trim f.message) [])) [
    | inl e ↦ rw e (record { live = current.live; agrees = current.agrees })
    | inr e ↦ rw e (
        seal_at-IsCurrent (to_unix f.unlock_at) (record f { failure = none })
          (record { live = current.live; agrees = current.agrees }))
  ]

  end_seal-IsCurrent :
      (result : Result (Unit {0})) (f : Form)
      → IsCurrent f
      → IsCurrent (end_seal lower message_of default_unlock result f)
  unfolding end_seal
  end_seal-IsCurrent (ok done) f current =
      let reset = set_recipient-IsCurrent [] f current in
      record { live = reset.live; agrees = inl refl }
  end_seal-IsCurrent (err e) f current = record { live = current.live; agrees = current.agrees }

  Step-IsCurrent : {f g : Form} → Step f g → IsCurrent f → IsCurrent g
  Step-IsCurrent (types text f) current = set_recipient-IsCurrent text f current
  Step-IsCurrent (edits text unlock backend f) current = record {
    live = current.live;
    agrees = current.agrees;
  }
  Step-IsCurrent (answers s before rest f parts) current =
      answered-IsCurrent s before rest f parts current
  Step-IsCurrent (seals f) current = begin_seal-IsCurrent f current
  Step-IsCurrent (ends result f) current = end_seal-IsCurrent result f current

  Reach-IsCurrent : {f g : Form} → Reach f g → IsCurrent f → IsCurrent g
  Reach-IsCurrent (here f) current = current
  Reach-IsCurrent (next r step) current = Step-IsCurrent step (Reach-IsCurrent r current)

  -- From a form with no recipient, no status and no searches, by any typing, sealing and answers to
  -- the searches in any order: where the form shows an address, it is the one that the name which
  -- now stands in the field resolves to.
  pub Reach-resolved :
      (f g : Form) (address : Text)
      → f.searches ≡ []
      → f.recipient_status ≡ idle
      → Reach f g
      → g.recipient_status ≡ resolved address
      → resolve (trim g.recipient) ≡ some address
  Reach-resolved f g address none_yet quiet r shown =
      let start : IsCurrent f = record {
        live = subst (All (IsLive f.recipient)) (sym none_yet) tt;
        agrees = inl quiet;
      } in
      of_status (Reach-IsCurrent r start).agrees
    where
      of_option : (o : Option Text) → status_of o ≡ resolved address → o ≡ some address
      of_option none e = absurd (cc e)
      of_option (some []) e = absurd (cc e)
      of_option (some (c ∷ t)) e = cc e

      of_status : Agrees g.recipient g.recipient_status → resolve (trim g.recipient) ≡ some address
      of_status (inl e) = absurd (cc (e, shown))
      of_status (inr (inl e)) = absurd (cc (e, shown))
      of_status (inr (inr e)) = of_option (resolve (trim g.recipient)) (sym e ∙ shown)
