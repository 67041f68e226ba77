-- ===== src/Server/Recent.antt =====
-- backend/server.js, GET /history: the newest rows of the history.
use sealed_sky_verification.Common.{
  ℕ, ◌≡◌, ◌≤◌, refl, sym, ◌∙◌, ◌+◌, ◌-◌, ◌==◌, min, false, Option, List, [], ◌∷◌, ◌++◌, arith,
  length, drop, take, length-drop, take-append-drop,
}
use mathlib.Core.List.{reverse, reverse_aux}
use sealed_sky_verification.Common.Text.{codes}
use sealed_sky_verification.Codec.{Codec}
use sealed_sky_verification.Errors.{ok}
use sealed_sky_verification.Json.{Json, num, arr, obj, field, end}
use sealed_sky_verification.Server.{
  File, Reply, to_items, last_of, history_limit, history_reply, get_history,
}
use sealed_sky_verification.Server.Log.{Holds, read_history-Holds}

-- `slice(-n)` for a positive n.
pub last_of-parts :
    (n : ℕ) (rows : List Json)
    → 1 ≤ n
    → (older : List Json) × (rows ≡ older ++ last_of n rows)
      × (length (last_of n rows) ≡ min n (length rows))
last_of-parts n rows h =
    let positive : (n == 0) ≡ false = ground arith in
    let few : length (drop (length rows - n) rows) ≡ min n (length rows) =
      (let l = length-drop (length rows - n) rows in omega arith) in
    rw positive (take (length rows - n) rows, sym (take-append-drop (length rows - n) rows), few)

length-reverse_aux : (xs ys : List Json) → length (reverse_aux xs ys) ≡ length xs + length ys
length-reverse_aux [] ys = omega arith
length-reverse_aux (x ∷ xs) ys = length-reverse_aux xs (x ∷ ys) ∙ omega arith

length-reverse : (xs : List Json) → length (reverse xs) ≡ length xs
length-reverse xs = length-reverse_aux xs [] ∙ omega arith

abbrev pub recent_reply : (total : ℕ) → List Json → Reply
recent_reply total newest = record {
  status = 200;
  body = obj (
      field (codes "total") (num total) (
        field (codes "count") (num (length newest))
          (field (codes "items") (arr (to_items (reverse newest))) end)));
}

-- On a file that holds a log, and for a limit that is not rounded down to 0, `/history` replies with
-- the length of the log and with its newest rows, the newest first: as many as the limit, or all
-- where the log has fewer.
pub get_history-Holds :
    (c : Codec) (limit : Option Json) (file : File) (log : List Json)
    → Holds c file log
    → 1 ≤ history_limit limit
    → (older : List Json) × (newest : List Json) × (log ≡ older ++ newest)
      × (length newest ≡ min (history_limit limit) (length log))
      × (get_history c limit file ≡ ok (recent_reply (length log) newest))
unfolding get_history history_reply
get_history-Holds c limit file log h positive =
    let (older, parts, few) = last_of-parts (history_limit limit) log positive in
    (
      older,
      last_of (history_limit limit) log,
      parts,
      few,
      rw (read_history-Holds c file log h)
          (rw (length-reverse (last_of (history_limit limit) log)) refl),
    )
