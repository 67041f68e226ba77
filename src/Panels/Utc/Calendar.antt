-- ===== src/Panels/Utc/Calendar.antt =====
-- lib/format.ts, `formatUtc`: its dates are those of the calendar.
use sealed_sky_verification.Common.{
  zero, suc, ltb→lt, ℕ, ◌+◌, ◌-◌, ◌*◌, ◌/◌, ◌%◌, ◌<◌, ◌≡◌, inl, inr, refl, ap, sym, ◌∙◌, false, ltb,
  if◌then◌else◌, arith, Bool-cases,
}
use sealed_sky_verification.Panels.Utc.{
  Date, year_of_era, day_of_year, date_of, date_of_day, is_leap, next_date,
}

-- The days before a year of an era.
abbrev days_before : ℕ → ℕ
days_before yoe = 365 * yoe + yoe / 4 - yoe / 100

-- The days of the year that begins in March of year `yoe` and ends in February of the next.
abbrev year_length : ℕ → ℕ
year_length yoe = if is_leap (yoe + 1) then 366 else 365

yoe_bound : (doe : ℕ) → doe < 146097 → year_of_era doe < 400
yoe_bound doe h = omega arith

doe_parts :
    (doe : ℕ)
    → doe < 146097
    → days_before (year_of_era doe) + day_of_year doe (year_of_era doe) ≡ doe
doe_parts doe h = omega arith

doy_bound :
    (doe : ℕ) → doe < 146097 → day_of_year doe (year_of_era doe) < year_length (year_of_era doe)
doy_bound doe h = ground arith

year_of_era-days_before :
    (yoe doy : ℕ) → yoe < 400 → doy < year_length yoe → year_of_era (days_before yoe + doy) ≡ yoe
year_of_era-days_before yoe doy h k = ground arith

date_of_later :
    (era yoe doy : ℕ)
    → yoe < 400
    → doy + 1 < year_length yoe
    → next_date (date_of era yoe doy) ≡ date_of era yoe (doy + 1)
unfolding next_date
date_of_later era yoe doy h k = ground arith

date_of_last :
    (era yoe doy : ℕ)
    → yoe < 400
    → doy + 1 ≡ year_length yoe
    → next_date (date_of era yoe doy) ≡ date_of era (yoe + 1) 0
unfolding next_date
date_of_last era yoe doy h k = ground arith

-- The date of a day of an era.
abbrev date_of_doe : (era doe : ℕ) → Date
date_of_doe era doe = date_of era (year_of_era doe) (day_of_year doe (year_of_era doe))

date_of_doe-parts :
    (era yoe doy : ℕ)
    → yoe < 400
    → doy < year_length yoe
    → date_of_doe era (days_before yoe + doy) ≡ date_of era yoe doy
date_of_doe-parts era yoe doy h k =
    let same = year_of_era-days_before yoe doy h k in
    ap (λ y. date_of era y (day_of_year (days_before yoe + doy) y)) same
    ∙ ap (λ d. date_of era yoe d) (omega arith)

next_year_of_last :
    (yoe doy : ℕ)
    → yoe < 400
    → doy + 1 ≡ year_length yoe
    → days_before yoe + doy + 1 < 146097
    → yoe + 1 < 400
next_year_of_last yoe doy h k small = ground arith

days_before-next :
    (yoe doy : ℕ)
    → yoe + 1 < 400
    → doy + 1 ≡ year_length yoe
    → days_before yoe + doy + 1 ≡ days_before (yoe + 1) + 0
days_before-next yoe doy h k = ground arith

some_days : (yoe : ℕ) → 0 < year_length yoe
some_days yoe = ground arith

not_inside : (m n : ℕ) → m < n → ltb (m + 1) n ≡ false → m + 1 ≡ n
not_inside m n h e = ground arith

-- The next day of a year, or the first of the next year.
next_doe :
    (era yoe doy : ℕ)
    → yoe < 400
    → doy < year_length yoe
    → days_before yoe + doy + 1 < 146097
    → date_of_doe era (days_before yoe + doy + 1) ≡ next_date (date_of era yoe doy)
next_doe era yoe doy h k small = elim (Bool-cases (ltb (doy + 1) (year_length yoe))) [
  | inl e ↦
      let inside : doy + 1 < year_length yoe = ltb→lt (doy + 1) (year_length yoe) e in
      let moved : days_before yoe + doy + 1 ≡ days_before yoe + (doy + 1) = omega arith in
      ap (date_of_doe era) moved
      ∙ date_of_doe-parts era yoe (doy + 1) h inside
      ∙ sym (date_of_later era yoe doy h inside)
  | inr e ↦
      let last : doy + 1 ≡ year_length yoe = not_inside doy (year_length yoe) k e in
      let next_year = next_year_of_last yoe doy h last small in
      ap (date_of_doe era) (days_before-next yoe doy next_year last)
      ∙ date_of_doe-parts era (yoe + 1) 0 next_year (some_days (yoe + 1))
      ∙ sym (date_of_last era yoe doy h last)
]

-- The last day of an era is that of its last year.
last_doe : (era : ℕ) → next_date (date_of_doe era 146096) ≡ date_of_doe (era + 1) 0
unfolding next_date
last_doe era = ground arith

after_doe :
    (era doe : ℕ) → doe + 1 < 146097 → date_of_doe era (doe + 1) ≡ next_date (date_of_doe era doe)
after_doe era doe h =
    let yoe = year_of_era doe in
    let doy = day_of_year doe yoe in
    let small : doe < 146097 = omega arith in
    let parts = doe_parts doe small in
    ap (λ d. date_of_doe era (d + 1)) (sym parts)
    ∙ next_doe era yoe doy (yoe_bound doe small) (doy_bound doe small) (rw parts h)

same_era :
    (z : ℕ)
    → z % 146097 + 1 < 146097
    → ((z + 1) / 146097 ≡ z / 146097) × ((z + 1) % 146097 ≡ z % 146097 + 1)
same_era z h = (omega arith, omega arith)

next_era :
    (z : ℕ) → z % 146097 ≡ 146096 → ((z + 1) / 146097 ≡ z / 146097 + 1) × ((z + 1) % 146097 ≡ 0)
next_era z h = (omega arith, omega arith)

abbrev date_of_z : ℕ → Date
date_of_z z = date_of_doe (z / 146097) (z % 146097)

after_z : (z : ℕ) → date_of_z (z + 1) ≡ next_date (date_of_z z)
after_z z = elim (Bool-cases (ltb (z % 146097 + 1) 146097)) [
  | inl e ↦
      let (era, doe) = same_era z (ltb→lt (z % 146097 + 1) 146097 e) in
      ap (λ x. date_of_doe x ((z + 1) % 146097)) era
      ∙ ap (date_of_doe (z / 146097)) doe
      ∙ after_doe (z / 146097) (z % 146097) (ltb→lt (z % 146097 + 1) 146097 e)
  | inr e ↦
      let last : z % 146097 ≡ 146096 = ground arith in
      let (era, doe) = next_era z last in
      ap (λ x. date_of_doe x ((z + 1) % 146097)) era
      ∙ ap (date_of_doe (z / 146097 + 1)) doe
      ∙ sym (last_doe (z / 146097))
      ∙ ap (λ d. next_date (date_of_doe (z / 146097) d)) (sym last)
]

-- The calendar, counted day by day.
unfoldable pub count_days : ℕ → Date
unfolding next_date
count_days zero = record { year = 1970; month = 1; day = 1 }
count_days (suc n) = next_date (count_days n)

-- The date that is computed for a day is the one that the calendar reaches when it is counted day by
-- day from the first of January 1970, with a leap day in every fourth year that is not the hundredth,
-- unless it is the four hundredth.
pub date_of_day-count_days : (n : ℕ) → date_of_day n ≡ count_days n
unfolding date_of_day count_days
date_of_day-count_days zero = refl
date_of_day-count_days (suc n) =
    let moved : suc n + 719468 ≡ n + 719468 + 1 = omega arith in
    ap date_of_z moved ∙ after_z (n + 719468) ∙ ap next_date (date_of_day-count_days n)
