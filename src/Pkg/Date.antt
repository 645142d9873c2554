-- ===== src/Pkg/Date.antt =====
-- comp/src/pkg.rs: the civil date of `iso_date`, before it is printed. No number of it is negative.
use native.Mathlib.Decide.{dec_lt}
use nmerkar.Base.{
  ℕ, ◌+◌, ◌-◌, ◌*◌, ◌/◌, ◌%◌, ◌≤◌, ◌<◌, ◌≡◌, arith, Bool, if◌then◌else◌, leb, ltb, ◌≢◌, ◌⊎◌, ◌∙◌,
  not, ◌&&◌, ◌||◌, ◌==◌, true,
}

pub record Date : Type 0 where
  pub year : ℕ
  pub month : ℕ
  pub day : ℕ

-- The year of the era and the day of the year, from the day of the era of 146097 days.
unfoldable pub year_of_era : ℕ → ℕ
year_of_era doe = (doe - doe / 1460 + doe / 36524 - doe / 146096) / 365

abbrev pub day_of_year : ℕ → ℕ → ℕ
day_of_year doe yoe = doe - (365 * yoe + yoe / 4 - yoe / 100)

-- The month counted from March, and the date within a year that begins in March.
unfoldable pub month_and_day : ℕ → ℕ → Date
month_and_day y doy =
    let mp = (5 * doy + 2) / 153 in
    let d = doy - (153 * mp + 2) / 5 + 1 in
    let m = (if ltb mp 10 then mp + 3 else mp - 9) in
    record { year = (if leb m 2 then y + 1 else y); month = m; day = d }

unfoldable pub civil_date : ℕ → Date
civil_date secs =
    let z = secs / 86400 + 719468 in
    let era = z / 146097 in
    let doe = z - era * 146097 in
    let yoe = year_of_era doe in month_and_day (yoe + era * 400) (day_of_year doe yoe)

-- The year of an era begins no later than the day, and its last day is a leap day.
year_of_era_lem :
    (doe : ℕ)
    → doe < 146097
    → (365 * year_of_era doe + year_of_era doe / 4 ≤ doe + year_of_era doe / 100)
      × (day_of_year doe (year_of_era doe) ≤ 365)
      × (year_of_era doe ≤ 399)
unfolding year_of_era
year_of_era_lem doe h = omega arith

leap_day :
    (doe : ℕ)
    → doe < 146097
    → day_of_year doe (year_of_era doe) ≡ 365
    → ((year_of_era doe + 1) % 4 ≡ 0)
      × (((year_of_era doe + 1) % 100 ≢ 0) ⊎ ((year_of_era doe + 1) % 400 ≡ 0))
unfolding year_of_era
leap_day doe h e = omega arith

-- The number of days from 1970-01-01 to a date of the Gregorian calendar, from 1970 on.
unfoldable pub days_of : Date → ℕ
days_of date =
    let y = (if leb date.month 2 then date.year - 1 else date.year) in
    let mp = (if leb date.month 2 then date.month + 9 else date.month - 3) in
    let doy = (153 * mp + 2) / 5 + date.day - 1 in
    365 * y + y / 4 - y / 100 + y / 400 + doy - 719468

-- The months of a year that begins in March are laid out by `(153 * mp + 2) / 5`.
month_and_day_lem :
    (y doy : ℕ)
    → doy ≤ 365
    → (1 ≤ (month_and_day y doy).month)
      × ((month_and_day y doy).month ≤ 12)
      × (1 ≤ (month_and_day y doy).day)
      × ((month_and_day y doy).day ≤ 31)
unfolding month_and_day
month_and_day_lem y doy h = ground arith

days_of-month_and_day :
    (y doy : ℕ)
    → doy ≤ 365
    → days_of (month_and_day y doy) ≡ 365 * y + y / 4 - y / 100 + y / 400 + doy - 719468
unfolding month_and_day days_of
days_of-month_and_day y doy h = ground arith

abbrev pub is_leap : ℕ → Bool
is_leap y = (y % 4 == 0) && (not (y % 100 == 0) || (y % 400 == 0))

-- The days of a month of the Gregorian calendar.
abbrev pub month_length : ℕ → ℕ → ℕ
month_length y m =
    if m == 2
    then (if is_leap y then 29 else 28)
    else if m == 4 || m == 6 || m == 9 || m == 11
    then 30
    else 31

day-le-month_length :
    (y doy : ℕ)
    → doy ≤ 365
    → (doy ≡ 365 → is_leap (y + 1) ≡ true)
    → (month_and_day y doy).day
      ≤ month_length (month_and_day y doy).year (month_and_day y doy).month
unfolding month_and_day
day-le-month_length y doy h leap = elim (dec_lt doy 365) [
  | yes less ↦ ground arith
  | no last ↦ let e : doy ≡ 365 = omega arith in rw (e, leap e) (omega arith)
]

leap_year :
    (yoe era : ℕ)
    → (yoe + 1) % 4 ≡ 0
    → ((yoe + 1) % 100 ≢ 0) ⊎ ((yoe + 1) % 400 ≡ 0)
    → is_leap (yoe + era * 400 + 1) ≡ true
leap_year yoe era four rest = ground arith

-- A date of the Gregorian calendar.
pub record IsDate (d : Date) : Type 0 where
  pub month_from : 1 ≤ d.month
  pub month_to : d.month ≤ 12
  pub day_from : 1 ≤ d.day
  pub day_to : d.day ≤ month_length d.year d.month

-- The date of a time is a date of the Gregorian calendar, and its day count is the number of
-- whole days of the time.
pub civil_date_lem :
    (secs : ℕ) → IsDate (civil_date secs) × (days_of (civil_date secs) ≡ secs / 86400)
unfolding civil_date
civil_date_lem secs =
    let z : ℕ = secs / 86400 + 719468 in
    let era : ℕ = z / 146097 in
    let doe : ℕ = z - era * 146097 in
    let small : doe < 146097 = omega arith in
    let yoe : ℕ = year_of_era doe in
    let doy : ℕ = day_of_year doe yoe in
    let (start, within, years) = year_of_era_lem doe small in
    let (m1, m2, d1, d2) = month_and_day_lem (yoe + era * 400) doy within in
    let leap : (e : doy ≡ 365) → is_leap (yoe + era * 400 + 1) ≡ true =
      λ e. leap_year yoe era (leap_day doe small e).0 (leap_day doe small e).1 in
    (
      record {
        month_from = m1;
        month_to = m2;
        day_from = d1;
        day_to = day-le-month_length (yoe + era * 400) doy within leap;
      },
      days_of-month_and_day (yoe + era * 400) doy within ∙ omega (arith, start, years, within),
    )
