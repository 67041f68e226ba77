-- ===== src/Server/Log.antt =====
-- backend/server.js: the history file, seen as a log to which rows are appended.
use sealed_sky_verification.Common.{◌≡◌, refl, ap, sym, true, none, some, List, [], ◌∷◌, ◌++◌, All}
use sealed_sky_verification.Common.Text.{Text}
use sealed_sky_verification.Codec.{Codec}
use sealed_sky_verification.Errors.{ok}
use sealed_sky_verification.Json.{Json, arr, is_plain, are_plain}
use sealed_sky_verification.Server.{
  File, Reply, to_list, to_items, read_history, append_history, log_and_reply,
}

abbrev pub IsPlain : Json → Type 0
IsPlain v = is_plain v ≡ true

-- A file that holds a log: none holds the empty one, and one that has content holds the array that
-- JSON.parse reads from it.
abbrev pub Holds : Codec → File → List Json → Type 0
Holds c none log = log ≡ []
Holds c (some content) log = c.parse content ≡ some (arr (to_items log))

pub to_list-to_items : (log : List Json) → to_list (to_items log) ≡ log
to_list-to_items [] = refl
to_list-to_items (v ∷ log) = ap (λ r. v ∷ r) (to_list-to_items log)

-- Reading gives the log.
pub read_history-Holds :
    (c : Codec) (file : File) (log : List Json) → Holds c file log → read_history c file ≡ ok log
unfolding read_history
read_history-Holds c none log h = ap ok (sym h)
read_history-Holds c (some content) log h = rw h (ap ok (to_list-to_items log))

are_plain-to_items : (log : List Json) → All IsPlain log → are_plain (to_items log) ≡ true
unfolding is_plain
are_plain-to_items [] h = refl
are_plain-to_items (v ∷ log) (p, h) = rw (p, are_plain-to_items log h) refl

All-snoc :
    (log : List Json) (row : Json) → All IsPlain log → IsPlain row → All IsPlain (log ++ (row ∷ []))
All-snoc [] row h p = (p, tt)
All-snoc (v ∷ log) row (q, h) p = (q, All-snoc log row h p)

pub arr-IsPlain : (log : List Json) → All IsPlain log → IsPlain (arr (to_items log))
unfolding is_plain
arr-IsPlain log h = are_plain-to_items log h

module _ (c : Codec) (pretty : Json → Text)
    (parse-pretty : (v : Json) → IsPlain v → c.parse (pretty v) ≡ some v) where
  -- The file refines a log of plain rows: from a file that holds a log, `appendHistory` succeeds and
  -- its file holds the log with the row at its end, and `readHistory` then reads that log back.
  pub append_history-Holds :
      (file : File) (log : List Json) (row : Json)
      → Holds c file log
      → All IsPlain log
      → IsPlain row
      → (file' : File) × (append_history c pretty row file ≡ ok file')
        × Holds c file' (log ++ (row ∷ []))
        × All IsPlain (log ++ (row ∷ []))
        × (read_history c file' ≡ ok (log ++ (row ∷ [])))
  unfolding append_history
  append_history-Holds file log row h p q =
      let log' = log ++ (row ∷ []) in
      let file' = some (pretty (arr (to_items log'))) in
      let plain = All-snoc log row p q in
      let holds = parse-pretty (arr (to_items log')) (arr-IsPlain log' plain) in
      (
        file',
        rw (read_history-Holds c file log h) refl,
        holds,
        plain,
        read_history-Holds c file' log' holds,
      )

  -- A handler that appends a row and replies does just that.
  pub log_and_reply-Holds :
      (row : Json) (reply : Reply) (file : File) (log : List Json)
      → Holds c file log
      → All IsPlain log
      → IsPlain row
      → (file' : File) × (log_and_reply c pretty row reply file ≡ ok (reply, file'))
        × Holds c file' (log ++ (row ∷ []))
        × All IsPlain (log ++ (row ∷ []))
  unfolding log_and_reply
  log_and_reply-Holds row reply file log h p q =
      let (file', e, holds, plain, same) = append_history-Holds file log row h p q in
      (file', rw e refl, holds, plain)
