-- ===== src/Applet.antt =====
-- scripts/test-helpers.ts: a call of the applet through `nc`, and the loop that waits for the device.
-- What `nc` ends with and the readings of the clock are arguments.
pub mod Waits
pub mod Setup
use sealed_sky_verification.Common.{
  ℕ, Bool, true, false, not, ◌||◌, Option, none, some, List, [], ◌∷◌, ◌++◌, ◌==◌, ltb,
  if◌then◌else◌,
}
use sealed_sky_verification.Common.Text.{Text, codes, text_eq}
use sealed_sky_verification.Codec.{Codec}
use sealed_sky_verification.Errors.{
  Error, Result, ok, err, thrown, bad_json, or_throw, guard, ◌>>=◌, ◌>>◌,
}
use sealed_sky_verification.Js.{trim, to_string}
use sealed_sky_verification.Json.{
  Json, null, str, obj, end, field, property, js_string, truthy_value,
}

pub record Exited : Type 0 where
  pub exit : ℕ
  pub stdout : Text
  pub stderr : Text

unfoldable pub applet_request : Codec → (method input : Text) → Text
applet_request c method input =
    c.stringify (obj (field (codes "Method") (str method) (field (codes "Input") (str input) end)))
    ++ (b'\n' ∷ [])

-- Up to the first line break, or all.
unfoldable pub first_line : Text → Text
first_line [] = []
first_line (x ∷ s) = let rest = first_line s in if x == b'\n' then [] else x ∷ rest

abbrev or_exit : ℕ → Text → Text
or_exit exit [] = codes "nc exited " ++ to_string exit
or_exit exit (x ∷ s) = x ∷ s

abbrev no_error : Option Json → Result (Unit {0})
no_error none = ok tt
no_error (some e) = err (thrown (js_string e))

-- `reply.Output ?? ''`
abbrev or_blank : Option Json → Json
or_blank none = str []
or_blank (some null) = str []
or_blank (some v) = v

module _ (c : Codec) where
  unfoldable pub read_applet : Exited → Result Json
  unfolding first_line
  read_applet p = do
    guard (not (not (p.exit == 0) || text_eq p.stdout [])) (thrown (or_exit p.exit (trim p.stderr)))
    reply ← or_throw bad_json (c.parse (first_line p.stdout))
    e ← property (codes "Error") reply
    no_error (truthy_value e)
    output ← property (codes "Output") reply
    ok (or_blank output)

  unfoldable pub call_applet : (Text → Exited) → (method input : Text) → Result Json
  unfolding read_applet applet_request
  call_applet nc method input = read_applet (nc (applet_request c method input))

-- One round of the loop: the clock before it, and what the probe gives.
pub record Probe : Type 0 where
  pub now : ℕ
  pub reply : Result Json

pub data Waited : Type 0 where
  answered : Waited
  still_waiting : Waited
  gave_up : (last : Option Error) → Waited

-- The loop on the rounds that the clock and the device give it, as far as they are known.
unfoldable pub wait_for_device : (deadline : ℕ) → Option Error → List Probe → Waited
wait_for_device deadline last_err [] = still_waiting
wait_for_device deadline last_err (p ∷ probes) =
    if not (ltb p.now deadline)
    then gave_up last_err
    else elim p.reply [ ok v ↦ answered | err e ↦ wait_for_device deadline (some e) probes ]
