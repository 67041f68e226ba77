-- ===== src/Usb/Form/Hashing.antt =====
-- components/UsbSignInference.tsx: the events of the form, and the digest that it shows.
use sealed_sky_verification.Common.{
  ℕ, ◌≡◌, ◌≢◌, ◌⊎◌, inl, inr, refl, ap, sym, ◌∙◌, Bool, true, false, not, ◌&&◌, Bool-cases, Option,
  none, some, List, [], ◌∷◌, ◌++◌, map, All, All-without, arith,
}
use mathlib.Core.Path.{subst}
use sealed_sky_verification.Common.Text.{Text, text_eq}
use sealed_sky_verification.Codec.{Codec}
use sealed_sky_verification.Symmetric.{Crypto}
use sealed_sky_verification.Usb.{
  Status, Reply, SignRequest, SignForm, sha_256_utf8_hex_0x, normalize_proof_hex, begin_sign,
  sign_request, end_sign, end_submit, begin_submit, SubmitForm, Submission,
}
use sealed_sky_verification.Usb.Form.{
  Run, UsbForm, cancel_run, start_hash, with_hash, set_sealed_sky_text, reset_form, first_form,
  mount, select_item, hash_ended, fill_proof, same_signature, fills, can_send, click_sign, sent,
  click_submit, sign_replied, submit_replied,
}

module _ (c : Codec) (k : Crypto) where
  abbrev pub digest_of : Text → Text
  digest_of text = sha_256_utf8_hex_0x c k text

  -- What a run ends with: the digest of its text, or nothing where the browser has no digests.
  abbrev pub result_of : Bool → Text → Option Text
  result_of false text = none
  result_of true text = some (digest_of text)

  -- The events, in any order; a reply may come at any time, and a run ends when it does.
  pub data Step : UsbForm → UsbForm → Type 0 where
    selects :
        (item_id plaintext : Text) (now : ℕ) (f : UsbForm)
        → Step f (select_item item_id plaintext now f)
    types : (text : Text) (f : UsbForm) → Step f (set_sealed_sky_text text f)
    edits :
        (timestamp proof : Text) (f : UsbForm)
        → Step f (record f { timestamp = timestamp; proof = proof })
    hashes :
        (r : Run) (works : Bool) (before rest : List Run) (f : UsbForm)
        → f.runs ≡ before ++ (r ∷ rest)
        → Step f (hash_ended r (result_of works r.text) (before ++ rest) f)
    signs : (f : UsbForm) → Step f (click_sign f).0
    signed : (reply : Reply) (f : UsbForm) → Step f (sign_replied c reply f)
    submits : (time : Text) (f : UsbForm) → Step f (click_submit time f).0
    submitted : (reply : Reply) (f : UsbForm) → Step f (submit_replied c reply f)

  pub data Reach : UsbForm → UsbForm → Type 0 where
    here : (f : UsbForm) → Reach f f
    next : {f g h : UsbForm} → Reach f g → Step g h → Reach f h

  abbrev IsLive : Text → Run → Type 0
  IsLive text r = r.cancelled ≡ false → r.text ≡ text

  -- A run that is not cancelled is that of the text in the field, and a digest that is not being
  -- computed is that text's, or none.
  record IsHashed (f : UsbForm) : Type 0 where
    live : All (IsLive f.sealed_sky_text) f.runs
    shown :
        f.hash_busy ≡ false → (f.content_hash ≡ []) ⊎ (f.content_hash ≡ digest_of f.sealed_sky_text)

  all_cancelled : (text : Text) (rs : List Run) → All (IsLive text) (map cancel_run rs)
  all_cancelled text [] = tt
  all_cancelled text (r ∷ rs) = (λ e. absurd (cc e), all_cancelled text rs)

  start_hash-IsHashed : (f : UsbForm) → IsHashed (start_hash f)
  unfolding start_hash
  start_hash-IsHashed f = record {
    live = (λ e. refl, all_cancelled f.sealed_sky_text f.runs);
    shown = λ e. absurd (cc e);
  }

  set_text-IsHashed :
      (text : Text) (f : UsbForm) → IsHashed f → IsHashed (set_sealed_sky_text text f)
  unfolding set_sealed_sky_text
  set_text-IsHashed text f h = elim (Bool-cases (text_eq text f.sealed_sky_text)) [
    | inl e ↦ rw e h
    | inr e ↦ rw e (start_hash-IsHashed (record f { sealed_sky_text = text }))
  ]

  -- A step that leaves the text, the digest and the runs as they are.
  kept :
      (f g : UsbForm)
      → g.sealed_sky_text ≡ f.sealed_sky_text
      → g.content_hash ≡ f.content_hash
      → g.hash_busy ≡ f.hash_busy
      → g.runs ≡ f.runs
      → IsHashed f
      → IsHashed g
  kept f g text hash busy runs h = record {
    live = rw (text, runs) h.live;
    shown = rw (text, hash, busy) h.shown;
  }

  select_item-IsHashed :
      (item_id plaintext : Text) (now : ℕ) (f : UsbForm)
      → IsHashed f
      → IsHashed (select_item item_id plaintext now f)
  unfolding select_item reset_form
  select_item-IsHashed item_id plaintext now f h =
      elim (Bool-cases (text_eq item_id f.item_id && text_eq plaintext f.plaintext)) [
        | inl e ↦ rw e h
        | inr e ↦ rw e (
            set_text-IsHashed plaintext
              (reset_form now (record f { item_id = item_id; plaintext = plaintext }))
              (kept f (reset_form now (record f { item_id = item_id; plaintext = plaintext })) refl
                refl refl refl h))
      ]

  hash_ended-IsHashed :
      (r : Run) (works : Bool) (before rest : List Run) (f : UsbForm)
      → f.runs ≡ before ++ (r ∷ rest)
      → IsHashed f
      → IsHashed (hash_ended r (result_of works r.text) (before ++ rest) f)
  unfolding hash_ended
  hash_ended-IsHashed r works before rest f parts h =
      let (live, others) =
        All-without (IsLive f.sealed_sky_text) before r rest
          (subst (All (IsLive f.sealed_sky_text)) parts h.live) in
      elim (Bool-cases r.cancelled) [
        | inl e ↦ rw e (record { live = others; shown = h.shown })
        | inr e ↦ rw e (of_result works (live_text live e) others)
      ]
    where
      live_text : IsLive f.sealed_sky_text r → r.cancelled ≡ false → r.text ≡ f.sealed_sky_text
      live_text l e = l e

      of_result :
          (w : Bool)
          → r.text ≡ f.sealed_sky_text
          → All (IsLive f.sealed_sky_text) (before ++ rest)
          → IsHashed (with_hash (result_of w r.text) (record f { runs = before ++ rest }))
      of_result false same others = record { live = others; shown = λ e. inl refl }
      of_result true same others = record { live = others; shown = λ e. inr (ap digest_of same) }

  fill_proof-IsHashed :
      (before : SignForm) (f : UsbForm) → IsHashed f → IsHashed (fill_proof before f)
  unfolding fill_proof
  fill_proof-IsHashed before f h =
      elim (Bool-cases (not (same_signature before f.sign) && fills f.sign)) [
        | inl e ↦ rw e (
            kept f (record f { proof = normalize_proof_hex f.sign.hmac_out }) refl refl refl refl h)
        | inr e ↦ rw e h
      ]

  click_sign-IsHashed : (f : UsbForm) → IsHashed f → IsHashed (click_sign f).0
  unfolding click_sign
  click_sign-IsHashed f h = elim (Bool-cases (can_send f.sign.sign_status f.content_hash)) [
    | inl e ↦ rw e (kept f (record f { sign = begin_sign f.sign }) refl refl refl refl h)
    | inr e ↦ rw e h
  ]

  click_submit-IsHashed :
      (time : Text) (f : UsbForm) → IsHashed f → IsHashed (click_submit time f).0
  unfolding click_submit
  click_submit-IsHashed time f h =
      elim (Bool-cases (can_send f.submit.submit_status f.content_hash)) [
        | inl e ↦
            rw e (sent-IsHashed (begin_submit f.sealed_sky_text f.timestamp f.content_hash f.proof))
        | inr e ↦ rw e h
      ]
    where
      sent-IsHashed : (r : SubmitForm × Option Submission) → IsHashed (sent time f r).0
      sent-IsHashed (form, request) =
          kept f (record f { submit = form; lock_time = time }) refl refl refl refl h

  Step-IsHashed : {f g : UsbForm} → Step f g → IsHashed f → IsHashed g
  unfolding sign_replied submit_replied
  Step-IsHashed (selects item_id plaintext now f) h = select_item-IsHashed item_id plaintext now f h
  Step-IsHashed (types text f) h = set_text-IsHashed text f h
  Step-IsHashed (edits timestamp proof f) h =
      kept f (record f { timestamp = timestamp; proof = proof }) refl refl refl refl h
  Step-IsHashed (hashes r works before rest f parts) h =
      hash_ended-IsHashed r works before rest f parts h
  Step-IsHashed (signs f) h = click_sign-IsHashed f h
  Step-IsHashed (signed reply f) h =
      fill_proof-IsHashed f.sign (record f { sign = end_sign c reply f.sign })
        (kept f (record f { sign = end_sign c reply f.sign }) refl refl refl refl h)
  Step-IsHashed (submits time f) h = click_submit-IsHashed time f h
  Step-IsHashed (submitted reply f) h =
      kept f (record f { submit = end_submit c reply f.submit }) refl refl refl refl h

  Reach-IsHashed : {f g : UsbForm} → Reach f g → IsHashed f → IsHashed g
  Reach-IsHashed (here f) h = h
  Reach-IsHashed (next r step) h = Step-IsHashed step (Reach-IsHashed r h)

  mount-IsHashed : (item_id plaintext : Text) (now : ℕ) → IsHashed (mount item_id plaintext now)
  unfolding mount
  mount-IsHashed item_id plaintext now = start_hash-IsHashed (first_form item_id plaintext now)

  nothing_sent : (status : Status) (hash : Text) → hash ≡ [] → can_send status hash ≡ true → ⊥
  unfolding text_eq
  nothing_sent status hash n e = absurd (ground (arith, n, e))

  -- A request that a click sends is that of what the fields hold, and the digest is there.
  clicked_request :
      (f : UsbForm) (request : SignRequest)
      → (click_sign f).1 ≡ some request
      → (f.content_hash ≢ [])
        × (sign_request f.sealed_sky_text f.timestamp f.content_hash ≡ request)
  unfolding click_sign text_eq
  clicked_request f request clicked =
      elim (Bool-cases (can_send f.sign.sign_status f.content_hash)) [
        | inl e ↦
            let sends = rw (e, click_sign) at clicked in
            (λ n. nothing_sent f.sign.sign_status f.content_hash n e, cc sends)
        | inr e ↦ absurd (let sends = rw (e, click_sign) at clicked in cc sends)
      ]

  signed_hash :
      (f : UsbForm) (request : SignRequest)
      → IsHashed f
      → f.hash_busy ≡ false
      → (click_sign f).1 ≡ some request
      → request ≡ sign_request f.sealed_sky_text f.timestamp (digest_of f.sealed_sky_text)
  signed_hash f request h done clicked =
      let (there, same) = clicked_request f request clicked in
      elim (h.shown done) [
        | inl none_yet ↦ absurd (there none_yet)
        | inr digest ↦ sym same ∙ ap (λ d. sign_request f.sealed_sky_text f.timestamp d) digest
      ]

  -- Whatever is selected, typed, signed, submitted and answered in any order since the form was
  -- shown, where no digest is being computed the request for a signature that a click sends carries
  -- the digest of the text that stands in the field, with that text and the timestamp.
  pub Reach-click_sign :
      (item_id plaintext : Text) (now : ℕ) (g : UsbForm) (request : SignRequest)
      → Reach (mount item_id plaintext now) g
      → g.hash_busy ≡ false
      → (click_sign g).1 ≡ some request
      → request ≡ sign_request g.sealed_sky_text g.timestamp (digest_of g.sealed_sky_text)
  Reach-click_sign item_id plaintext now g request r done clicked =
      signed_hash g request (Reach-IsHashed r (mount-IsHashed item_id plaintext now)) done clicked
