-- ===== src/Civil.antt =====
-- The civil-calendar helpers of app/lua/check.lua, lines 40-71, and the month derivation of its
-- step 2, lines 74-87. Every number is a whole number that is not negative: the epoch is late
-- enough for no difference below to pass under 0.
pub mod Inverse
pub mod Months
mod Tests
use quotaguard.Prelude.{Text, codes, if◌then◌else◌, leb, ltb, pad, ℕ, ◌*◌, ◌++◌, ◌+◌, ◌-◌, ◌/◌}

pub record CivilDate : Type 0 where
  pub year : ℕ
  pub month : ℕ
  pub day : ℕ

unfoldable pub civil_from_days : ℕ → CivilDate
civil_from_days days =
    let z = days + 719468 in
    let era = z / 146097 in
    let doe = z - era * 146097 in
    let yoe = (doe - doe / 1460 + doe / 36524 - doe / 146096) / 365 in
    let y = yoe + era * 400 in
    let doy = doe - (365 * yoe + yoe / 4 - yoe / 100) in
    let mp = (5 * doy + 2) / 153 in
    let d = doy - (153 * mp + 2) / 5 + 1 in
    let m = if leb 10 mp then mp - 9 else mp + 3 in
    record { year = if leb m 2 then y + 1 else y; month = m; day = d }

unfoldable pub days_from_civil : ℕ → ℕ → ℕ → ℕ
days_from_civil year m d =
    let y = if leb m 2 then year - 1 else year in
    let era = y / 400 in
    let yoe = y - era * 400 in
    let mp = if leb m 2 then m + 9 else m - 3 in
    let doy = (153 * mp + 2) / 5 + d - 1 in
    let doe = yoe * 365 + yoe / 4 - yoe / 100 + doy in era * 146097 + doe - 719468

-- `string.format('%04d-%02d', year, month)`
unfoldable pub format_month : ℕ → ℕ → Text
format_month year month = pad 4 year ++ codes "-" ++ pad 2 month

-- The first second of the month after the given one.
unfoldable pub next_month_start : ℕ → ℕ → ℕ
unfolding days_from_civil
next_month_start year month =
    if ltb 12 (month + 1)
    then days_from_civil (year + 1) 1 1 * 86400
    else days_from_civil year (month + 1) 1 * 86400

pub record Month : Type 0 where
  pub text : Text
  pub end_s : ℕ

unfoldable pub month_at : ℕ → Month
unfolding civil_from_days format_month next_month_start
month_at now_s =
    let date = civil_from_days (now_s / 86400) in
    record {
      text = format_month date.year date.month;
      end_s = next_month_start date.year date.month;
    }
