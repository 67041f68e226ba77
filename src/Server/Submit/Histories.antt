-- ===== src/Server/Submit/Histories.antt =====
-- backend/server.js: the requests of a server's life, in any order, over one history file: claims,
-- the contract's answers to what waits, and signatures of the device.
use sealed_sky_verification.Common.{
  All-without, ◌≡◌, ◌≢◌, inl, inr, refl, ap, sym, ◌∙◌, Bool, true, false, Option, some, List, [],
  ◌∷◌, ◌++◌, All, All-append, to_list,
}
use mathlib.Core.Path.{subst}
use mathlib.Core.List.{append-nil, append_assoc}
use sealed_sky_verification.Common.Text.{Text, codes, text_eq}
use sealed_sky_verification.Codec.{Codec}
use sealed_sky_verification.Errors.{Error, Result, ok, err, ok-injective, ◌>>=◌}
use sealed_sky_verification.Json.{Json, str, null, get_field, member}
use sealed_sky_verification.Server.{File, Reply}
use sealed_sky_verification.Server.Log.{IsPlain, Holds, log_and_reply-Holds}
use sealed_sky_verification.Server.Submit.{
  Claim, Pending, Submitted, replied, waits, read_claim, check_claim, submit, settle, accepted_row,
  failed_row, accepted_reply, failed_reply,
}
use sealed_sky_verification.Server.Submit.Plain.{
  IsPlainClaim, read_claim-IsPlain, accepted_row-IsPlain, failed_row-IsPlain,
}
use sealed_sky_verification.Server.Submit.Proofs.{IsProved, IsAuthentic, check_claim-cases}
use sealed_sky_verification.Server.Sign.{Ending, sign_claim, sign_inference}
use sealed_sky_verification.Server.Sign.Rows.{printed, sign_claim-Logs}

-- The file, and the handlers that wait for the contract.
pub record State : Type 0 where
  pub file : File
  pub waiting : List Pending

abbrev pub admit : Submitted → List Pending → List Pending
admit (replied reply) ps = ps
admit (waits p) ps = p ∷ ps

unfoldable says_accepted : Option Json → Bool
says_accepted (some (str s)) = text_eq s (codes "accepted")
says_accepted _ = false

rejected_accepted :
    (row : Json)
    → member (codes "status") row ≡ some (str (codes "rejected"))
    → member (codes "status") row ≢ some (str (codes "accepted"))
unfolding says_accepted text_eq
rejected_accepted row s e =
    let other : false ≡ true = ap says_accepted (sym s ∙ e) in absurd (cc other)

module _ (c : Codec) (pretty : Json → Text) (lower hmac : Text → Text) (keccak : Text → Result Text)
    (message : Error → Text) where
  pub data Step : State → State → Type 0 where
    submits :
        (at : Text) (request : Json) (outcome : Submitted) (file file' : File) (ps : List Pending)
        → IsPlain request
        → submit c pretty lower hmac keccak at (some request) file ≡ ok (outcome, file')
        → Step
            (record { file = file; waiting = ps })
            (record { file = file'; waiting = admit outcome ps })
    settles :
        (p : Pending) (now : Text) (answer : Result Text) (reply : Reply) (file file' : File)
        → (before after : List Pending)
        → settle c pretty message p now answer file ≡ ok (reply, file')
        → Step
            (record { file = file; waiting = before ++ (p ∷ after) })
            (record { file = file'; waiting = before ++ after })
    signs :
        (at : Text) (request : Json) (q : Claim) (device : Text → Ending) (reply : Reply)
        → (file file' : File) (ps : List Pending) → IsPlain request
        → read_claim at (some request) ≡ ok q
        → c.parse (printed c device q) ≢ some null
        → All IsPlain (to_list (c.parse (printed c device q)))
        → sign_inference c pretty lower device at (some request) file ≡ ok (reply, file')
        → Step (record { file = file; waiting = ps }) (record { file = file'; waiting = ps })

  pub data Reach : State → State → Type 0 where
    here : (s : State) → Reach s s
    next : {s t u : State} → Reach s t → Step t u → Reach s u

  unfoldable IsWaiting : Pending → Type 0
  IsWaiting p = IsPlainClaim p.claim × IsProved lower hmac p

  -- The file holds the log, whose accepted rows are proved, and what waits is proved.
  pub record IsSound (s : State) (log : List Json) : Type 0 where
    pub holds : Holds c s.file log
    pub plain : All IsPlain log
    pub authentic : All (IsAuthentic lower hmac) log
    pub waiting : All (λ p. IsPlainClaim p.claim × IsProved lower hmac p) s.waiting

  -- More rows, possibly none.
  unfoldable Grows : List Json → State → Type 0
  Grows log s = (rows : List Json) × IsSound s (log ++ rows)

  module _ (parse-pretty : (v : Json) → IsPlain v → c.parse (pretty v) ≡ some v) where
    unaccepted :
        (row : Json)
        → member (codes "status") row ≢ some (str (codes "accepted"))
        → IsAuthentic lower hmac row
    unaccepted row n s = absurd (n s)

    settle-cases :
        (p : Pending) (now : Text) (answer : Result Text) (file : File) (log : List Json)
        → IsWaiting p
        → Holds c file log
        → All IsPlain log
        → (done : Reply × File) × (row : Json) × (settle c pretty message p now answer file
            ≡ ok done)
          × IsAuthentic lower hmac row
          × Holds c (done.1) (log ++ (row ∷ []))
          × All IsPlain (log ++ (row ∷ []))
    unfolding settle IsWaiting text_eq get_field
    settle-cases p now (ok tx) file log (q, proved) h plain =
        let (file', e, holds, plain') =
          log_and_reply-Holds c pretty parse-pretty (accepted_row p tx)
            (accepted_reply tx p.claim.received_at) file log h plain
            (accepted_row-IsPlain p q tx) in
        (
          (accepted_reply tx p.claim.received_at, file'),
          accepted_row p tx,
          rw e refl,
          λ s. (p, tx, refl, proved),
          holds,
          plain',
        )
    settle-cases p now (err x) file log (q, proved) h plain =
        let (file', e, holds, plain') =
          log_and_reply-Holds c pretty parse-pretty (failed_row p now (message x))
            (failed_reply (message x) p.claim.received_at) file log h plain
            (failed_row-IsPlain p q now (message x)) in
        (
          (failed_reply (message x) p.claim.received_at, file'),
          failed_row p now (message x),
          e,
          unaccepted (failed_row p now (message x)) (λ s. cc),
          holds,
          plain',
        )

    Grows-one :
        (s : State) (log : List Json) (row : Json)
        → IsSound s log
        → (file' : File) → Holds c file' (log ++ (row ∷ []))
        → All IsPlain (log ++ (row ∷ []))
        → IsAuthentic lower hmac row
        → (ps : List Pending) → All IsWaiting ps
        → Grows log (record { file = file'; waiting = ps })
    unfolding Grows IsWaiting
    Grows-one s log row sound file' holds plain a ps w = (
      row ∷ [],
      record {
        holds = holds;
        plain = plain;
        authentic = All-append (IsAuthentic lower hmac) log (row ∷ []) sound.authentic (a, tt);
        waiting = w;
      },
    )

    -- A claim is checked.
    submits-Grows :
        (q : Claim) (outcome : Submitted) (file file' : File) (ps : List Pending) (log : List Json)
        → IsPlainClaim q
        → check_claim c pretty lower hmac keccak q file ≡ ok (outcome, file')
        → IsSound (record { file = file; waiting = ps }) log
        → Grows log (record { file = file'; waiting = admit outcome ps })
    unfolding IsWaiting Grows text_eq get_field
    submits-Grows q outcome file file' ps log pq e sound =
        elim (check_claim-cases c pretty lower hmac keccak parse-pretty q file log sound.holds
          sound.plain pq) [
            | inl (_, (p, e', proved, same, _)) ↦
                let done = ok-injective (waits p, file) (outcome, file') (sym e' ∙ e) in
                subst (λ d. Grows log (record { file = d.1; waiting = admit (d.0) ps })) done
                  (
                    [],
                    record {
                      holds = rw (append-nil log) sound.holds;
                      plain = rw (append-nil log) sound.plain;
                      authentic = rw (append-nil log) sound.authentic;
                      waiting = ((rw same pq, proved), sound.waiting);
                    },
                  )
            | inr (inl (_, (_, _, _, _, e'))) ↦ absurd (cc (e, e'))
            | inr (inr (_, (reply, row, f, e', s, holds, plain))) ↦
                let done = ok-injective (replied reply, f) (outcome, file') (sym e' ∙ e) in
                subst (λ d. Grows log (record { file = d.1; waiting = admit (d.0) ps })) done
                  (Grows-one (record { file = file; waiting = ps }) log row sound f holds plain
                    (unaccepted row (rejected_accepted row s)) ps sound.waiting)
          ]

    -- The request is read, and then the claim is checked.
    submitted-Grows :
        (at : Text) (request : Json) (outcome : Submitted) (file file' : File) (ps : List Pending)
        → (log : List Json) (r : Result Claim) → IsPlain request
        → read_claim at (some request) ≡ r
        → (r >>= λ q. check_claim c pretty lower hmac keccak q file) ≡ ok (outcome, file')
        → IsSound (record { file = file; waiting = ps }) log
        → Grows log (record { file = file'; waiting = admit outcome ps })
    submitted-Grows at request outcome file file' ps log (err x) plain given e sound = absurd (cc e)
    submitted-Grows at request outcome file file' ps log (ok q) plain given e sound =
        submits-Grows q outcome file file' ps log
          (read_claim-IsPlain at (some request) q (plain, tt) given) e sound

    settles-Grows :
        (p : Pending) (now : Text) (answer : Result Text) (done : Reply × File) (file : File)
        → (before rest : List Pending) (log : List Json)
        → settle c pretty message p now answer file ≡ ok done
        → IsSound (record { file = file; waiting = before ++ (p ∷ rest) }) log
        → Grows log (record { file = done.1; waiting = before ++ rest })
    unfolding IsWaiting
    settles-Grows p now answer done file before rest log e sound =
        let (w, ws) = All-without IsWaiting before p rest sound.waiting in
        let (done', row, e', a, holds, plain) =
          settle-cases p now answer file log w sound.holds sound.plain in
        subst (λ d. Grows log (record { file = d.1; waiting = before ++ rest }))
          (ok-injective done' done (sym e' ∙ e))
          (Grows-one (record { file = file; waiting = before ++ (p ∷ rest) }) log row sound
            (done'.1) holds plain a (before ++ rest) ws)

    signs-Grows :
        (q : Claim) (device : Text → Ending) (done : Reply × File) (file : File)
        → (ps : List Pending) (log : List Json) → IsPlainClaim q
        → c.parse (printed c device q) ≢ some null
        → All IsPlain (to_list (c.parse (printed c device q)))
        → sign_claim c pretty lower device q file ≡ ok done
        → IsSound (record { file = file; waiting = ps }) log
        → Grows log (record { file = done.1; waiting = ps })
    unfolding IsWaiting
    signs-Grows q device done file ps log pq n answer e sound =
        let (reply, row, f, e', other, holds, plain) =
          sign_claim-Logs c pretty lower parse-pretty q file log sound.holds sound.plain pq device n
            answer in
        subst (λ d. Grows log (record { file = d.1; waiting = ps }))
          (ok-injective (reply, f) done (sym e' ∙ e))
          (Grows-one (record { file = file; waiting = ps }) log row sound f holds plain
            (unaccepted row other) ps sound.waiting)

    Step-Grows : {s t : State} (log : List Json) → Step s t → IsSound s log → Grows log t
    unfolding submit sign_inference
    Step-Grows log (submits at request outcome file file' ps plain e) sound =
        submitted-Grows at request outcome file file' ps log (read_claim at (some request)) plain
          refl e sound
    Step-Grows log (settles p now answer reply file file' before rest e) sound =
        settles-Grows p now answer (reply, file') file before rest log e sound
    Step-Grows log (signs at request q device reply file file' ps plain given n answer e) sound =
        signs-Grows q device (reply, file') file ps log
          (read_claim-IsPlain at (some request) q (plain, tt) given) n answer (rw given at e) sound

    -- From a state whose file holds a log of plain rows, the accepted ones proved, and in which all
    -- that waits for the contract is proved, any requests and answers in any order leave a file that
    -- holds that log followed by more rows, and again each row that says accepted is that of a claim
    -- whose proof is the device's digest of its payload.
    pub Reach-IsSound :
        {s t : State} (log : List Json)
        → Reach s t
        → IsSound s log
        → (rows : List Json) × IsSound t (log ++ rows)
    unfolding Grows
    Reach-IsSound log (here s) sound = ([], rw (append-nil log) sound)
    Reach-IsSound log (next r step) sound =
        let (rows, reached) = Reach-IsSound log r sound in
        let (more, final) = Step-Grows (log ++ rows) step reached in
        (rows ++ more, rw (sym (append_assoc log rows more)) final)
