-- ===== src/Panels/Utc/Format.antt =====
-- lib/format.ts, `formatUtc`: what it makes of the text of `toISOString`.
use sealed_sky_verification.Common.{
  ℕ, zero, suc, ◌-◌, ◌*◌, ◌/◌, ◌%◌, ◌≤◌, ◌≡◌, refl, ap, ◌∙◌, Bool, true, ◌||◌, [], ◌∷◌, ◌++◌, ◌==◌,
  All, All-append, replicate, length, arith, all, leb, inl, inr, Bool-cases, ltb,
}
use sealed_sky_verification.Common.Text.{Text, codes}
use sealed_sky_verification.Errors.{ok}
use sealed_sky_verification.Js.{to_string, pad_start, is_digit, is_decimal}
use sealed_sky_verification.Js.Decimal.{to_string-is_decimal}
use sealed_sky_verification.Panels.Utc.{
  Date, two, year_text, date_text, time_text, iso_end, to_iso_string, replace_t, replace_fraction,
  format_utc,
}
use sealed_sky_verification.Panels.Utc.Calendar.{count_days, date_of_day-count_days}

-- What dates and times are written with.
abbrev is_mark : ℕ → Bool
is_mark c = is_digit c || c == b'-' || c == b'+' || c == b':'

abbrev IsMarks : Text → Type 0
IsMarks t = All (λ c. is_mark c ≡ true) t

digits-IsMarks : (s : Text) → all is_digit s ≡ true → IsMarks s
digits-IsMarks [] h = tt
digits-IsMarks (c ∷ s) h = (ground arith, digits-IsMarks s (ground arith))

decimal-IsMarks : (s : Text) → is_decimal s ≡ true → IsMarks s
unfolding is_decimal
decimal-IsMarks [] h = tt
decimal-IsMarks (c ∷ s) h = digits-IsMarks (c ∷ s) h

zeros-IsMarks : (n : ℕ) → IsMarks (replicate n b'0')
zeros-IsMarks zero = tt
zeros-IsMarks (suc n) = (refl, zeros-IsMarks n)

padded-IsMarks : (width n : ℕ) → IsMarks (pad_start width b'0' (to_string n))
unfolding pad_start
padded-IsMarks width n =
    All-append (λ c. is_mark c ≡ true) (replicate (width - length (to_string n)) b'0') (to_string n)
      (zeros-IsMarks (width - length (to_string n)))
      (decimal-IsMarks (to_string n) (to_string-is_decimal n))

append-IsMarks : (s t : Text) → IsMarks s → IsMarks t → IsMarks (s ++ t)
append-IsMarks s t h k = All-append (λ c. is_mark c ≡ true) s t h k

year_text-IsMarks : (y : ℕ) → IsMarks (year_text y)
year_text-IsMarks y = elim (Bool-cases (ltb y 10000)) [
  | inl e ↦ rw e (padded-IsMarks 4 y)
  | inr e ↦ rw e (refl, padded-IsMarks 6 y)
]

date_text-IsMarks : (d : Date) → IsMarks (date_text d)
date_text-IsMarks d =
    append-IsMarks (year_text d.year) (b'-' ∷ two d.month ++ (b'-' ∷ two d.day))
      (year_text-IsMarks d.year)
      (
        refl,
        append-IsMarks (two d.month) (b'-' ∷ two d.day) (padded-IsMarks 2 d.month)
            (refl, padded-IsMarks 2 d.day),
      )

time_text-IsMarks : (s : ℕ) → IsMarks (time_text s)
time_text-IsMarks s =
    append-IsMarks (two (s / 3600)) (b':' ∷ two (s % 3600 / 60) ++ (b':' ∷ two (s % 60)))
      (padded-IsMarks 2 (s / 3600))
      (
        refl,
        append-IsMarks (two (s % 3600 / 60)) (b':' ∷ two (s % 60))
            (padded-IsMarks 2 (s % 3600 / 60)) (refl, padded-IsMarks 2 (s % 60)),
      )

replace_t-append : (s t : Text) → IsMarks s → replace_t (s ++ (b'T' ∷ t)) ≡ s ++ (b' ' ∷ t)
unfolding replace_t
replace_t-append [] t h = refl
replace_t-append (c ∷ s) t (m, h) = ground (arith, replace_t-append s t h)

replace_fraction-append :
    (s t : Text) → IsMarks s → replace_fraction (s ++ t) ≡ s ++ replace_fraction t
unfolding replace_fraction
replace_fraction-append [] t h = refl
replace_fraction-append (c ∷ s) t (m, h) = ground (arith, replace_fraction-append s t h)

-- The fraction of a whole second.
replace_fraction-end : (ms : ℕ) → ms % 1000 ≡ 0 → replace_fraction (iso_end ms) ≡ codes " UTC"
unfolding replace_fraction to_string pad_start
replace_fraction-end ms h = rw h refl

to_iso_string-second :
    (unix : ℕ)
    → unix * 1000 ≤ 8640000000000000
    → to_iso_string (unix * 1000)
      ≡ ok (
          date_text (count_days (unix / 86400))
          ++ (b'T' ∷ time_text (unix % 86400) ++ iso_end (unix * 1000)))
unfolding to_iso_string
to_iso_string-second unix h =
    let day : unix * 1000 / 86400000 ≡ unix / 86400 = omega arith in
    let second : unix * 1000 % 86400000 / 1000 ≡ unix % 86400 = omega arith in
    let small : leb (unix * 1000) 8640000000000000 ≡ true = ground arith in
    rw (small, day, second)
      (ap (λ d. ok (date_text d ++ (b'T' ∷ time_text (unix % 86400) ++ iso_end (unix * 1000))))
        (date_of_day-count_days (unix / 86400)))

-- A time in seconds that a Date can hold is printed as the date that the calendar reaches when it is
-- counted day by day from the first of January 1970, with a leap day in every fourth year that is not
-- the hundredth, unless it is the four hundredth; then a blank, the time of that day to the second,
-- and ` UTC`.
pub format_utc-count_days :
    (unix : ℕ)
    → unix * 1000 ≤ 8640000000000000
    → format_utc unix
      ≡ ok (
          date_text (count_days (unix / 86400))
          ++ (b' ' ∷ time_text (unix % 86400) ++ codes " UTC"))
unfolding format_utc replace_fraction
format_utc-count_days unix h =
    let date = date_text (count_days (unix / 86400)) in
    let time = time_text (unix % 86400) in
    rw (to_iso_string-second unix h) (
      ap ok (
        ap replace_fraction (
          replace_t-append date (time ++ iso_end (unix * 1000))
            (date_text-IsMarks (count_days (unix / 86400))))
        ∙ replace_fraction-append date (b' ' ∷ time ++ iso_end (unix * 1000))
            (date_text-IsMarks (count_days (unix / 86400)))
        ∙ ap (λ x. date ++ (b' ' ∷ x))
            (replace_fraction-append time (iso_end (unix * 1000)) (time_text-IsMarks (unix % 86400))
              ∙ ap (λ x. time ++ x) (replace_fraction-end (unix * 1000) (omega arith)))))
