-- ===== src/Calendar/Dates.antt =====
-- What the calendar of src/util.rs gives.
use den_atlas.Prelude.{
  ℕ, zero, suc, ◌+◌, ◌-◌, ◌*◌, ◌/◌, ◌%◌, ◌≤◌, ◌<◌, ◌≡◌, arith, leb, Bool, true, false, ◌∙◌, ◌==◌,
  ◌&&◌, ◌||◌, not, if◌then◌else◌,
}
use den_atlas.Calendar.{year_of_era, day_of_year, month_of, day_of, from_march, civil_date}

-- Years of an era up to its end.
year_of_era-bound : (doe : ℕ) → doe < 146097 → year_of_era doe < 400
unfolding year_of_era
year_of_era-bound doe h = omega arith

day_of_year-bound : (doe : ℕ) → doe < 146097 → day_of_year doe ≤ 365
unfolding day_of_year year_of_era
day_of_year-bound doe h = omega arith

month_of-bound : (doy : ℕ) → doy ≤ 365 → month_of doy < 12
unfolding month_of
month_of-bound doy h = omega arith

day_of-bound : (doy : ℕ) → doy ≤ 365 → (1 ≤ day_of doy) × (day_of doy ≤ 31)
unfolding day_of month_of
day_of-bound doy h = omega arith

year_start-le :
    (doe : ℕ)
    → doe < 146097
    → 365 * year_of_era doe + year_of_era doe / 4 - year_of_era doe / 100 ≤ doe
unfolding year_of_era
year_start-le doe h = omega arith

-- The calendar's own rules: leap years, the days of a month, and the days before a date, from the first
-- of January of the year 0, counted year by year and month by month.
unfoldable pub is_leap : ℕ → Bool
is_leap y = y % 4 == 0 && (not (y % 100 == 0) || y % 400 == 0)

unfoldable pub days_in_month : ℕ → ℕ → ℕ
unfolding is_leap
days_in_month y m =
    if m == 2
    then (if is_leap y then 29 else 28)
    else if m == 4 || m == 6 || m == 9 || m == 11
    then 30
    else 31

unfoldable pub days_before_year : ℕ → ℕ
unfolding is_leap
days_before_year zero = 0
days_before_year (suc y) = days_before_year y + (if is_leap y then 366 else 365)

unfoldable pub days_before_month : ℕ → ℕ → ℕ
unfolding days_in_month
days_before_month y zero = 0
days_before_month y (suc zero) = 0
days_before_month y (suc (suc m)) = days_before_month y (suc m) + days_in_month y (suc m)

unfoldable pub days_before : ℕ × ℕ × ℕ → ℕ
unfolding days_before_year days_before_month
days_before (y, m, d) = days_before_year y + days_before_month y m + (d - 1)

-- The same by a formula, from the first of March of the year 0.
unfoldable day_number : ℕ → ℕ → ℕ → ℕ
day_number y m d =
    let y' = if leb m 2 then y - 1 else y in
    let mp = if leb m 2 then m + 9 else m - 3 in
    365 * y' + y' / 4 - y' / 100 + y' / 400 + (153 * mp + 2) / 5 + d - 1

pub IsDate : ℕ × ℕ × ℕ → Type 0
IsDate (y, m, d) = (1 ≤ m) × (m ≤ 12) × (1 ≤ d) × (d ≤ days_in_month y m)

-- The date that many days after the first of January 1970.
pub IsDateOf : ℕ → ℕ × ℕ × ℕ → Type 0
IsDateOf days date = IsDate date × (days_before date ≡ days_before (1970, 1, 1) + days)

month_number :
    (era yoe doy : ℕ)
    → yoe < 400
    → doy ≤ 365
    → day_number
        (yoe + era * 400 + (if leb (from_march (month_of doy)) 2 then 1 else 0))
        (from_march (month_of doy))
        (day_of doy)
      ≡ era * 146097 + (365 * yoe + yoe / 4 - yoe / 100) + doy
unfolding day_number month_of day_of
month_number era yoe doy hy hd = ground arith

leap_year :
    (era doe : ℕ)
    → doe < 146097
    → day_of_year doe ≡ 365
    → is_leap (year_of_era doe + era * 400 + 1) ≡ true
unfolding is_leap day_of_year year_of_era
leap_year era doe h e = ground arith

month_end :
    (era doe : ℕ)
    → doe < 146097
    → day_of (day_of_year doe)
      ≤ days_in_month
          (year_of_era doe
            + era * 400
            + (if leb (from_march (month_of (day_of_year doe))) 2 then 1 else 0))
          (from_march (month_of (day_of_year doe)))
unfolding days_in_month month_of day_of
month_end era doe h = ground (arith, leap_year era doe h, day_of_year-bound doe h)

month_in_range :
    (doy : ℕ) → doy ≤ 365 → (1 ≤ from_march (month_of doy)) × (from_march (month_of doy) ≤ 12)
month_in_range doy h = ground (arith, month_of-bound doy h)

day_in_era :
    (doe : ℕ)
    → doe < 146097
    → 365 * year_of_era doe + year_of_era doe / 4 - year_of_era doe / 100 + day_of_year doe ≡ doe
unfolding day_of_year
day_in_era doe h = omega (arith, year_start-le doe h)

era_rest : (z : ℕ) → z % 146097 < 146097
era_rest z = omega arith

civil_date-IsDate : (unix_secs : ℕ) → IsDate (civil_date unix_secs)
unfolding civil_date IsDate
civil_date-IsDate unix_secs =
    let z = unix_secs / 86400 + 719468 in
    let doy = day_of_year (z % 146097) in
    let small = day_of_year-bound (z % 146097) (era_rest z) in
    (
      (month_in_range doy small).0,
      (month_in_range doy small).1,
      (day_of-bound doy small).0,
      month_end (z / 146097) (z % 146097) (era_rest z),
    )

civil_date-days :
    (unix_secs : ℕ)
    → let (y, m, d) = civil_date unix_secs in
      day_number y m d ≡ day_number 1970 1 1 + unix_secs / 86400
unfolding civil_date day_number
civil_date-days unix_secs =
    let z = unix_secs / 86400 + 719468 in
    let doe = z % 146097 in
    month_number (z / 146097) (year_of_era doe) (day_of_year doe)
      (year_of_era-bound doe (era_rest z)) (day_of_year-bound doe (era_rest z))
    ∙ omega (arith, day_in_era doe (era_rest z))

leap_days :
    (y : ℕ)
    → (y + 3) / 4 + (y + 399) / 400 + y / 100 + (if is_leap y then 1 else 0)
      ≡ y / 4 + y / 400 + (y + 99) / 100 + 1
unfolding is_leap
leap_days y = ground arith

year_length : (y : ℕ) → (if is_leap y then 366 else 365) ≡ 365 + (if is_leap y then 1 else 0)
year_length y = ground arith

days_before_year_lem :
    (y : ℕ) → days_before_year y + (y + 99) / 100 ≡ 365 * y + (y + 3) / 4 + (y + 399) / 400
unfolding days_before_year
days_before_year_lem zero = omega arith
days_before_year_lem (suc y) = omega (arith, days_before_year_lem y, leap_days y, year_length y)

-- The days before a year, for dates up to February and after it.
early : (y : ℕ) → days_before_year (suc y) ≡ 365 * y + y / 4 - y / 100 + y / 400 + 366
early y = omega (arith, days_before_year_lem (suc y))

late :
    (y : ℕ)
    → days_before_year y + (if is_leap y then 1 else 0) ≡ 365 * y + y / 4 - y / 100 + y / 400 + 1
late y = omega (arith, days_before_year_lem y, leap_days y)

february : (y : ℕ) → days_in_month y 2 ≡ 28 + (if is_leap y then 1 else 0)
unfolding days_in_month
february y = ground arith

month_length :
    (y k : ℕ)
    → k ≤ 8
    → (153 * suc k + 2) / 5 ≡ (153 * k + 2) / 5 + days_in_month y (suc (suc (suc k)))
unfolding days_in_month
month_length y k h = ground arith

january : (y : ℕ) → days_in_month y 1 ≡ 31
unfolding days_in_month
january y = ground arith

from_third :
    (y k : ℕ)
    → k ≤ 9
    → days_before_month y (suc (suc (suc k)))
      ≡ (153 * k + 2) / 5 + 59 + (if is_leap y then 1 else 0)
unfolding days_before_month
from_third y zero h = omega (arith, january y, february y)
from_third y (suc k) h = omega (arith, from_third y k (omega arith), month_length y k (omega arith))

not_early : (k : ℕ) → leb (suc (suc (suc k))) 2 ≡ false
not_early k = ground arith

day_number-late :
    (y k d : ℕ)
    → day_number y (suc (suc (suc k))) d
      ≡ 365 * y + y / 4 - y / 100 + y / 400 + (153 * k + 2) / 5 + d - 1
unfolding day_number
day_number-late y k d = rw (not_early k) (omega arith)

days_before-day_number :
    (y m d : ℕ) → IsDate (suc y, m, d) → days_before (suc y, m, d) ≡ day_number (suc y) m d + 60
unfolding days_before days_before_month IsDate
days_before-day_number y zero d date = absurd (omega (arith, date.0))
days_before-day_number y (suc zero) d date = unfold day_number in omega (arith, early y, date.2)
days_before-day_number y (suc (suc zero)) d date =
    unfold day_number in omega (arith, early y, january (suc y), date.2)
days_before-day_number y (suc (suc (suc k))) d date = omega (
  arith,
  late (suc y),
  from_third (suc y) k (omega (arith, date.1)),
  day_number-late (suc y) k d,
  date.2,
)

days_before_positive :
    (y m d : ℕ) → 0 < y → IsDate (y, m, d) → days_before (y, m, d) ≡ day_number y m d + 60
days_before_positive zero m d h date = absurd (omega arith)
days_before_positive (suc y) m d h date = days_before-day_number y m d date

civil_date-positive : (unix_secs : ℕ) → 0 < (civil_date unix_secs).0
unfolding civil_date
civil_date-positive unix_secs = omega arith

-- The date of a time is a date of the calendar, leap years included, and as many days after the first of
-- January 1970 as whole days have passed, counted year by year and month by month.
pub civil_date-IsDateOf : (unix_secs : ℕ) → IsDateOf (unix_secs / 86400) (civil_date unix_secs)
unfolding IsDateOf day_number IsDate
civil_date-IsDateOf unix_secs =
    let (y, m, d) = civil_date unix_secs in
    let date = civil_date-IsDate unix_secs in
    (
      date,
      days_before_positive y m d (civil_date-positive unix_secs) date
          ∙ omega
              (arith, civil_date-days unix_secs, days_before_positive 1970 1 1 (omega arith) first),
    )
  where
    first : IsDate (1970, 1, 1)
    first = unfold days_in_month in omega arith
