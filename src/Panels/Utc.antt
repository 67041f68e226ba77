-- ===== src/Panels/Utc.antt =====
-- lib/format.ts, `formatUtc`: a time in seconds as a date and a time of the day, in UTC. The date is
-- that of `Date.prototype.toISOString`, by the proleptic Gregorian calendar.
pub mod Calendar
pub mod Format
use sealed_sky_verification.Errors.{Result, ok, err, range_error, ◌>>=◌}
use sealed_sky_verification.Common.{
  ℕ, ◌+◌, ◌-◌, ◌*◌, ◌/◌, ◌%◌, ◌≤◌, ◌<◌, ◌≡◌, refl, Bool, true, false, ◌&&◌, ◌||◌, not, List, [],
  ◌∷◌, ◌++◌, ltb, leb, ◌==◌, if◌then◌else◌, arith,
}
use sealed_sky_verification.Common.Text.{Text, codes}
use sealed_sky_verification.Js.{to_string, pad_start, is_digit}

pub record Date : Type 0 where
  pub year : ℕ
  pub month : ℕ
  pub day : ℕ

-- Years begin in March here, and eras of 400 years on 1 March of the year 0.
abbrev pub year_of_era : ℕ → ℕ
year_of_era doe = (doe - doe / 1460 + doe / 36524 - doe / 146096) / 365

abbrev pub day_of_year : ℕ → ℕ → ℕ
day_of_year doe yoe = doe - (365 * yoe + yoe / 4 - yoe / 100)

abbrev pub month_of_march : ℕ → ℕ
month_of_march mp = if ltb mp 10 then mp + 3 else mp - 9

abbrev pub date_of : (era yoe doy : ℕ) → Date
date_of era yoe doy =
    let mp = (5 * doy + 2) / 153 in
    record {
      year = yoe + era * 400 + (if ltb mp 10 then 0 else 1);
      month = month_of_march mp;
      day = doy - (153 * mp + 2) / 5 + 1;
    }

-- The date of a day, counted from the first of January 1970.
unfoldable pub date_of_day : ℕ → Date
date_of_day n =
    let z = n + 719468 in
    let doe = z % 146097 in
    let yoe = year_of_era doe in date_of (z / 146097) yoe (day_of_year doe yoe)

abbrev pub is_leap : ℕ → Bool
is_leap y = y % 4 == 0 && (not (y % 100 == 0) || y % 400 == 0)

abbrev pub month_length : ℕ → ℕ → ℕ
month_length y m =
    if m == 2
    then (if is_leap y then 29 else 28)
    else if m == 4 || m == 6 || m == 9 || m == 11
    then 30
    else 31

-- The day after a date.
unfoldable pub next_date : Date → Date
next_date d =
    if ltb d.day (month_length d.year d.month)
    then record d { day = d.day + 1 }
    else if d.month == 12
    then record { year = d.year + 1; month = 1; day = 1 }
    else record d { month = d.month + 1; day = 1 }

tests :
    (date_of_day 0 ≡ record { year = 1970; month = 1; day = 1 })
    × (date_of_day 19782 ≡ record { year = 2024; month = 2; day = 29 })
    × (date_of_day 19783 ≡ record { year = 2024; month = 3; day = 1 })
unfolding date_of_day
tests = (refl, refl, refl)

abbrev pub two : ℕ → Text
two n = pad_start 2 b'0' (to_string n)

-- A year of more than four digits has a sign and six digits.
abbrev pub year_text : ℕ → Text
year_text y =
    if ltb y 10000 then pad_start 4 b'0' (to_string y) else b'+' ∷ pad_start 6 b'0' (to_string y)

abbrev pub time_text : ℕ → Text
time_text s = two (s / 3600) ++ (b':' ∷ two (s % 3600 / 60) ++ (b':' ∷ two (s % 60)))

abbrev pub date_text : Date → Text
date_text d = year_text d.year ++ (b'-' ∷ two d.month ++ (b'-' ∷ two d.day))

abbrev pub iso_end : ℕ → Text
iso_end ms = b'.' ∷ pad_start 3 b'0' (to_string (ms % 1000)) ++ codes "Z"

-- `new Date(ms).toISOString()`: beyond the range of a Date it throws.
unfoldable pub to_iso_string : ℕ → Result Text
to_iso_string ms =
    if leb ms 8640000000000000
    then ok (
        date_text (date_of_day (ms / 86400000))
        ++ (b'T' ∷ time_text (ms % 86400000 / 1000) ++ iso_end ms))
    else err range_error

-- `s.replace("T", " ")`
unfoldable pub replace_t : Text → Text
replace_t [] = []
replace_t (c ∷ s) = let rest = replace_t s in if c == b'T' then b' ' ∷ s else c ∷ rest

-- `\d*Z$` and `\d+Z$`
abbrev digits_then_z : Text → Bool
digits_then_z [] = false
digits_then_z (c ∷ []) = c == b'Z'
digits_then_z (c ∷ d ∷ s) = is_digit c && digits_then_z (d ∷ s)

abbrev is_fraction : Text → Bool
is_fraction [] = false
is_fraction (c ∷ s) = is_digit c && digits_then_z s

-- `s.replace(/\.\d+Z$/, " UTC")`
unfoldable pub replace_fraction : Text → Text
replace_fraction [] = []
replace_fraction (c ∷ s) =
    let rest = replace_fraction s in if c == b'.' && is_fraction s then codes " UTC" else c ∷ rest

unfoldable pub format_utc : ℕ → Result Text
format_utc unix = do iso ← to_iso_string (unix * 1000); ok (replace_fraction (replace_t iso))

printed :
    (format_utc 0 ≡ ok (codes "1970-01-01 00:00:00 UTC"))
    × (format_utc 1700000000 ≡ ok (codes "2023-11-14 22:13:20 UTC"))
unfolding format_utc to_iso_string date_of_day to_string pad_start replace_t replace_fraction
printed = (refl, refl)
