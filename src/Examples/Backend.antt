-- ===== src/Examples/Backend.antt =====
-- The server's handlers on concrete requests, with a codec by hand and a digest that is the length
-- of a payload.
use sealed_sky_verification.Js.Numeric.{Numeric, finite, number_of}
use sealed_sky_verification.Server.Submit.Matching.{canonical_of}
use sealed_sky_verification.Server.Submit.Proofs.{IsProved}
use sealed_sky_verification.Common.{
  ◌≡◌, ◌≢◌, refl, ◌%◌, none, some, List, [], ◌∷◌, ◌++◌, All, length, sym, ap, ◌∙◌,
}
use sealed_sky_verification.Common.Text.{Text, codes, text_eq}
use sealed_sky_verification.Codec.Simple as SimpleCodec
use sealed_sky_verification.Errors.{Error, Result, ok}
use sealed_sky_verification.Js.{to_string, to_string_16, trim}
use sealed_sky_verification.Json.{
  Json, null, num, str, arr, obj, field, end, is_plain, get_field, js_string,
}
use sealed_sky_verification.Server.{
  File, to_items, read_history, append_history, normalize_proof_hex, log_and_reply,
  sealed_sky_text_from_body,
}
use sealed_sky_verification.Server.Log.{IsPlain, Holds, append_history-Holds}
use sealed_sky_verification.Server.Sign.Page.{sign_claim_of, page_sign-submit}
use sealed_sky_verification.Usb.{Submission, sign_request, sign_body, submit_body, begin_submit}
use sealed_sky_verification.Server.Sign.{sign_inference, Ending}
use sealed_sky_verification.Server.Sign.Rows.{printed}
use sealed_sky_verification.Server.Sign.Device.{answer_of}
use sealed_sky_verification.Server.Submit.{
  Claim, Pending, waits, submit, settle, accepted_row, accepted_reply, canonical_payload,
}
use sealed_sky_verification.Server.Submit.Histories.{
  State, Reach, here, next, submits, settles, IsSound, Reach-IsSound,
}

abbrev pub lower_of : Text → Text
lower_of t = t

abbrev pub length_digest : Text → Text
length_digest t = to_string_16 (length t % 256)

abbrev hash_of : Text → Result Text
hash_of t = ok (codes "0x01")

abbrev pub message_of : Error → Text
message_of e = codes "failed"

abbrev pretty_of : Json → Text
pretty_of v = SimpleCodec.simple.stringify v

pub pretty_of-parsed : (v : Json) → IsPlain v → SimpleCodec.simple.parse (pretty_of v) ≡ some v
pretty_of-parsed v h = SimpleCodec.simple-IsCodec.parse-stringify v h

abbrev box_claim : Claim
box_claim = record {
  received_at = codes "t0";
  sealed_sky_text = codes "box";
  timestamp = some (num 17);
  image_hash = some (str (codes "abc"));
  proof = some (str (codes "0xa"));
}

abbrev box_row : Json
box_row = obj (field (codes "status") (str (codes "device_signed")) end)

abbrev box_file : File
box_file = some (pretty_of (arr (to_items (box_row ∷ []))))

box_file-Holds : Holds SimpleCodec.simple box_file (box_row ∷ [])
unfolding is_plain
box_file-Holds = pretty_of-parsed (arr (to_items (box_row ∷ []))) refl

append_history-Holds_example :
    (file' : File) × (append_history SimpleCodec.simple pretty_of box_row box_file ≡ ok file')
    × Holds SimpleCodec.simple file' (box_row ∷ box_row ∷ [])
    × All IsPlain (box_row ∷ box_row ∷ [])
    × (read_history SimpleCodec.simple file' ≡ ok (box_row ∷ box_row ∷ []))
unfolding is_plain
append_history-Holds_example =
    append_history-Holds SimpleCodec.simple pretty_of pretty_of-parsed box_file (box_row ∷ [])
      box_row box_file-Holds (refl, tt) refl

abbrev box_request : Json
box_request = obj (
    field (codes "sealedSkyText") (str (codes "box")) (
      field (codes "timestamp") (num 17) (
        field (codes "imageHash") (str (codes "abc"))
          (field (codes "proof") (str (codes "0xa")) end))))

abbrev pub box_pending : Pending
box_pending = record {
  claim = box_claim;
  proof = codes "a";
  payload = codes "box|17|abc";
  payload_hash = codes "0x01";
}

box_request-submit :
    submit SimpleCodec.simple pretty_of lower_of length_digest hash_of
      (codes "t0")
      (some box_request)
      none
    ≡ ok (waits box_pending, none)
unfolding submit trim number_of get_field text_eq normalize_proof_hex js_string to_string_16
    sealed_sky_text_from_body
box_request-submit = refl

abbrev pub settled_file : File
settled_file = some (pretty_of (arr (to_items (accepted_row box_pending (codes "0xtx") ∷ []))))

box_pending-settle :
    settle SimpleCodec.simple pretty_of message_of box_pending (codes "t1") (ok (codes "0xtx")) none
    ≡ ok (accepted_reply (codes "0xtx") (codes "t0"), settled_file)
unfolding settle log_and_reply
box_pending-settle = refl

abbrev empty_state : State
empty_state = record { file = none; waiting = [] }

abbrev ServerReach : State → State → Type 0
ServerReach = Reach SimpleCodec.simple pretty_of lower_of length_digest hash_of message_of

box_request-IsPlain : IsPlain box_request
unfolding is_plain
box_request-IsPlain = refl

accepted_state-ServerReach : ServerReach empty_state (record { file = settled_file; waiting = [] })
accepted_state-ServerReach =
    next
      (next (here empty_state) (
        submits (codes "t0") box_request (waits box_pending) none none [] box_request-IsPlain
          box_request-submit))
      (settles box_pending (codes "t1") (ok (codes "0xtx"))
        (accepted_reply (codes "0xtx") (codes "t0")) none settled_file [] [] box_pending-settle)

abbrev ServerIsSound : State → List Json → Type 0
ServerIsSound = IsSound SimpleCodec.simple pretty_of lower_of length_digest hash_of message_of

empty_state-ServerIsSound : ServerIsSound empty_state []
empty_state-ServerIsSound = record { holds = refl; plain = tt; authentic = tt; waiting = tt }

Reach-IsSound_example :
    (rows : List Json) × ServerIsSound (record { file = settled_file; waiting = [] }) ([] ++ rows)
Reach-IsSound_example =
    Reach-IsSound SimpleCodec.simple pretty_of lower_of length_digest hash_of message_of
      pretty_of-parsed [] accepted_state-ServerReach empty_state-ServerIsSound

-- A device that prints the digest of what it is asked, which is ten units long.
abbrev box_device : Text → Ending
box_device line = record {
  status = some 0;
  stdout = some (pretty_of (answer_of (codes "a")));
  stderr = none;
}

box_answer : trim (pretty_of (answer_of (codes "a"))) ≡ pretty_of (answer_of (codes "a"))
unfolding trim SimpleCodec.simple
box_answer = refl

box_answer-parsed :
    SimpleCodec.simple.parse (printed SimpleCodec.simple box_device box_claim)
    ≡ some (answer_of (codes "a"))
unfolding is_plain
box_answer-parsed = rw box_answer (pretty_of-parsed (answer_of (codes "a")) refl)

nothing-parsed : SimpleCodec.simple.parse [] ≡ none
unfolding SimpleCodec.simple
nothing-parsed = refl

box_answer-given : printed SimpleCodec.simple box_device box_claim ≢ []
box_answer-given e =
    let both : none ≡ some (answer_of (codes "a")) =
      sym nothing-parsed ∙ ap SimpleCodec.simple.parse (sym e) ∙ box_answer-parsed in
    absurd (cc both)

box_answer-other :
    SimpleCodec.simple.parse (printed SimpleCodec.simple box_device box_claim) ≢ some null
box_answer-other e =
    let both : some null ≡ some (answer_of (codes "a")) = sym e ∙ box_answer-parsed in
    absurd (cc both)

box_claim-digest : length_digest (canonical_of box_claim) ≡ codes "a"
unfolding canonical_payload to_string_16 js_string
box_claim-digest = refl

abbrev number_json : Numeric → Json
number_json (finite minus n exact) = num n
number_json _ = null

page_claim-digest :
    length_digest
      (canonical_of (sign_claim_of (codes "t0") (codes "box") (codes " 17 ") (codes "abc")))
    ≡ codes "a"
unfolding canonical_payload to_string_16 js_string sealed_sky_text_from_body trim sign_body
    sign_request get_field text_eq
page_claim-digest = refl

page_sign-submit_example :
    (file' : File) × (s : Submission) × (p : Pending) × (sign_inference SimpleCodec.simple pretty_of
        lower_of box_device
        (codes "t0")
        (SimpleCodec.simple.parse (
          SimpleCodec.simple.stringify
            (sign_body (sign_request (codes "box") (codes " 17 ") (codes "abc")))))
        none
      ≡ ok
          (record { status = 200; body = obj (field (codes "hash") (str (codes "a")) end) }, file'))
    × ((begin_submit (codes "box") (codes " 17 ") (codes "abc") (codes "a")).1 ≡ some s)
    × (submit SimpleCodec.simple pretty_of lower_of length_digest hash_of
          (codes "t1")
          (SimpleCodec.simple.parse (SimpleCodec.simple.stringify (submit_body number_json s)))
          file'
        ≡ ok (waits p, file'))
    × IsProved lower_of length_digest p
    × (hash_of p.payload ≡ ok p.payload_hash)
unfolding is_plain trim to_string
page_sign-submit_example =
    page_sign-submit SimpleCodec.simple SimpleCodec.simple-IsCodec pretty_of lower_of length_digest
      hash_of pretty_of-parsed (λ t h. refl) box_device none [] refl tt number_json (codes "t0")
      (codes "t1") (codes "box") (codes " 17 ") (codes "abc") 17 refl refl refl 97 [] (codes "0x01")
      page_claim-digest refl (refl, tt) refl refl box_answer-given box_answer-parsed
