-- ===== src/Calendar.antt =====
-- The date of a Unix time in src/util.rs. All the numbers are within 63 bits and none is below 0.
pub mod Dates
mod Tests
use den_atlas.Prelude.{
  ℕ, ◌+◌, ◌-◌, ◌*◌, ◌/◌, ◌%◌, List, [], ◌∷◌, ◌++◌, ltb, leb, if◌then◌else◌, length, replicate,
}
use den_atlas.Prelude.Bytes.{Text}
use den_atlas.Prelude.Decimal.{decimal}

-- The day of an era of 400 years as year of the era, and day of the year, which starts in March.
unfoldable pub year_of_era : ℕ → ℕ
year_of_era doe = (doe - doe / 1460 + doe / 36524 - doe / 146096) / 365

unfoldable pub day_of_year : ℕ → ℕ
unfolding year_of_era
day_of_year doe = let yoe = year_of_era doe in doe - (365 * yoe + yoe / 4 - yoe / 100)

-- The month, from March as 0, and the day of the month.
unfoldable pub month_of : ℕ → ℕ
month_of doy = (5 * doy + 2) / 153

unfoldable pub day_of : ℕ → ℕ
unfolding month_of
day_of doy = doy - (153 * month_of doy + 2) / 5 + 1

abbrev pub from_march : ℕ → ℕ
from_march mp = if ltb mp 10 then mp + 3 else mp - 9

unfoldable pub civil_date : ℕ → ℕ × ℕ × ℕ
unfolding year_of_era day_of_year month_of day_of
civil_date unix_secs =
    let z = unix_secs / 86400 + 719468 in
    let doe = z % 146097 in
    let doy = day_of_year doe in
    let month = from_march (month_of doy) in
    (year_of_era doe + z / 146097 * 400 + (if leb month 2 then 1 else 0), month, day_of doy)

-- `{:02}` and `{:04}`
abbrev padded : ℕ → ℕ → Text
padded width n = replicate (width - length (decimal n)) b'0' ++ decimal n

unfoldable pub rfc3339 : ℕ → Text
unfolding civil_date
rfc3339 unix_secs =
    let (year, month, day) = civil_date unix_secs in
    let secs = unix_secs % 86400 in
    padded 4 year
    ++ b'-'
      ∷ (padded 2 month
          ++ b'-'
            ∷ (padded 2 day
                ++ b'T'
                  ∷ (padded 2 (secs / 3600)
                      ++ b':'
                        ∷ (padded 2 (secs / 60 % 60)
                            ++ b':' ∷ (padded 2 (secs % 60) ++ b'Z' ∷ [])))))
