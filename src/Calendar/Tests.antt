-- ===== src/Calendar/Tests.antt =====
-- Times as dates in src/util.rs.
use den_atlas.Prelude.{ℕ, ◌+◌, ◌/◌, ◌≡◌, refl}
use den_atlas.Prelude.Bytes.{codes}
use den_atlas.Calendar.{civil_date, rfc3339}
use den_atlas.Calendar.Dates.{IsDateOf, civil_date-IsDateOf}

rfc3339_autumn : rfc3339 1790098005 ≡ codes "2026-09-22T17:26:45Z"
unfolding rfc3339 den_atlas.Prelude.Decimal.decimal
rfc3339_autumn = refl

civil_date_leap : civil_date 951782400 ≡ (2000, 2, 29)
unfolding civil_date
civil_date_leap = refl

civil_date-IsDateOf_example : IsDateOf (951782400 / 86400) (2000, 2, 29)
unfolding civil_date
civil_date-IsDateOf_example = civil_date-IsDateOf 951782400
