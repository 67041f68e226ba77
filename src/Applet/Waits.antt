-- ===== src/Applet/Waits.antt =====
-- scripts/test-helpers.ts: the first line of a reply, and the loop that waits.
use sealed_sky_verification.Common.{
  ℕ, ◌≡◌, ◌≢◌, ◌≤◌, ◌<◌, refl, ap, true, false, ◌==◌, ltb, Bool-cases, inl, inr, Option, some, List,
  [], ◌∷◌, ◌++◌, All, arith,
}
use sealed_sky_verification.Common.Text.{Text}
use sealed_sky_verification.Errors.{Error, ok, err, Result-cases}
use sealed_sky_verification.Json.{Json}
use sealed_sky_verification.Applet.{first_line, Probe, answered, still_waiting, wait_for_device}

-- A reply is read to the end of its first line, whatever follows.
first_line-append :
    (line rest : Text)
    → All (λ x. (x == b'\n') ≡ false) line
    → first_line (line ++ (b'\n' ∷ rest)) ≡ line
unfolding first_line
first_line-append [] rest h = refl
first_line-append (x ∷ line) rest (p, h) = rw p (ap (λ s. x ∷ s) (first_line-append line rest h))

-- The wait ends once the clock is at the deadline: it does not go on after such a round.
wait_for_device-ends :
    (deadline : ℕ) (last : Option Error) (before : List Probe) (p : Probe) (after : List Probe)
    → deadline ≤ p.now
    → wait_for_device deadline last (before ++ (p ∷ after)) ≢ still_waiting
unfolding wait_for_device
wait_for_device-ends deadline last [] p after late e =
    let out : ltb p.now deadline ≡ false = ground (arith, late) in
    absurd (cc (rw (out, wait_for_device) at e))
wait_for_device-ends deadline last (q ∷ before) p after late e =
    elim (Bool-cases (ltb q.now deadline)) [
      | inr out ↦ absurd (cc (rw (out, wait_for_device) at e))
      | inl on ↦ elim (Result-cases q.reply) [
        | inr (v, r) ↦ absurd (cc (rw (r, wait_for_device) at (rw (on, wait_for_device) at e)))
        | inl (x, r) ↦
            wait_for_device-ends deadline (some x) before p after late
              (rw (r, wait_for_device) at (rw (on, wait_for_device) at e))
      ]
    ]

-- Rounds before the deadline that fail.
abbrev FailsBefore : ℕ → Probe → Type 0
FailsBefore deadline q = (ltb q.now deadline ≡ true) × ((x : Error) × (q.reply ≡ err x))

-- The first reply before the deadline ends the wait, all rounds before it having failed.
wait_for_device-answered :
    (deadline : ℕ) (last : Option Error) (before : List Probe) (p : Probe) (after : List Probe)
    → All (FailsBefore deadline) before
    → p.now < deadline
    → (v : Json) × (p.reply ≡ ok v)
    → wait_for_device deadline last (before ++ (p ∷ after)) ≡ answered
unfolding wait_for_device
wait_for_device-answered deadline last [] p after h early (v, r) =
    let on : ltb p.now deadline ≡ true = ground (arith, early) in
    rw (on, wait_for_device) (rw (r, wait_for_device) refl)
wait_for_device-answered deadline last (q ∷ before) p after ((on, (x, failed)), h) early given =
    rw (on, wait_for_device)
      (rw (failed, wait_for_device)
        (wait_for_device-answered deadline (some x) before p after h early given))
