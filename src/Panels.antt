-- ===== src/Panels.antt =====
-- What the smaller parts of the page compute: lib/format.ts, components/Compose.tsx, Queue.tsx and
-- ValidationHistoryPanel.tsx of sealed-sky-web/src.
pub mod History
pub mod View
pub mod Utc
use sealed_sky_verification.Common.{
  ℕ, ◌*◌, ◌/◌, ◌%◌, Bool, true, false, not, Option, none, some, List, [], ◌∷◌, ◌++◌, ltb, ◌==◌,
  if◌then◌else◌,
}
use sealed_sky_verification.Common.Text.{Text, codes}
use sealed_sky_verification.Js.{to_string, trim}
use sealed_sky_verification.Queue.{Backend, drand, ctrng, QueueItem}

-- The parts that the countdown shows, the largest two, or one below a minute; a time that is over
-- is 0.
unfoldable pub format_countdown : ℕ → Text
format_countdown ms =
    let s = ms / 1000 in
    let d = s / 86400 in
    let h = s % 86400 / 3600 in
    let m = s % 3600 / 60 in
    if ms == 0
    then codes "0s"
    else if ltb 0 d
    then to_string d ++ (codes "d " ++ (to_string h ++ codes "h"))
    else if ltb 0 h
    then to_string h ++ (codes "h " ++ (to_string m ++ codes "m"))
    else if ltb 0 m
    then to_string m ++ (codes "m " ++ (to_string (s % 60) ++ codes "s"))
    else to_string (s % 60) ++ codes "s"

abbrev drand_badge : Option ℕ → Text
drand_badge none = codes "drand"
drand_badge (some round) = codes "drand · round " ++ to_string round

abbrev ctrng_badge : Option ℕ → Text
ctrng_badge none = codes "cTRNG"
ctrng_badge (some target) = codes "cTRNG · seq ~" ++ to_string target

abbrev badge_of : Backend → QueueItem → Text
badge_of drand it = drand_badge it.round
badge_of ctrng it = ctrng_badge it.ctrng_target_sequence

unfoldable pub backend_badge : QueueItem → Text
backend_badge it = badge_of it.backend it
