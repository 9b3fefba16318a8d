-- ===== src/Civil/Inverse.antt =====
-- The calendar helpers of the script are inverse to each other, and the month of a time contains it.
use quotaguard.Prelude.{
  Bool-cases, arith, false, if◌then◌else◌, inl, inr, leb, refl, true, ℕ, ◌*◌, ◌+◌, ◌-◌, ◌/◌, ◌<◌,
  ◌∙◌, ◌≡◌, ◌≤◌,
}
use quotaguard.Civil.{civil_from_days, days_from_civil}

-- The days before a year of an era, whose years begin in March.
abbrev pub year_start : ℕ → ℕ
year_start yoe = 365 * yoe + yoe / 4 - yoe / 100

abbrev pub year_of : ℕ → ℕ
year_of doe = (doe - doe / 1460 + doe / 36524 - doe / 146096) / 365

pub year_of-lt : (doe : ℕ) → doe < 146097 → year_of doe < 400
year_of-lt doe h = omega arith

pub year_start-le : (doe : ℕ) → doe < 146097 → year_start (year_of doe) ≤ doe
year_start-le doe h = omega arith

pub year_start-lt : (doe : ℕ) → doe < 146097 → doe < year_start (year_of doe) + 366
year_start-lt doe h = omega arith

pub year_end : (doe : ℕ) → doe < 146097 → year_of doe ≤ 398 → doe < year_start (year_of doe + 1)
year_end doe h k = omega arith

-- The day number of a date in a year of an era.
abbrev pub day_number : ℕ → ℕ → ℕ → ℕ → ℕ
day_number era yoe mp d =
    era * 146097 + (yoe * 365 + yoe / 4 - yoe / 100 + ((153 * mp + 2) / 5 + d - 1)) - 719468

pub from_march :
    (era yoe m d : ℕ)
    → yoe < 400
    → leb m 2 ≡ false
    → days_from_civil (yoe + era * 400) m d ≡ day_number era yoe (m - 3) d
unfolding days_from_civil
from_march era yoe m d hy hm =
    let q : (yoe + era * 400) / 400 ≡ era = omega arith in
    let r : yoe + era * 400 - era * 400 ≡ yoe = omega arith in rw (hm, q, r) refl

pub from_january :
    (era yoe m d : ℕ)
    → yoe < 400
    → leb m 2 ≡ true
    → days_from_civil (yoe + era * 400 + 1) m d ≡ day_number era yoe (m + 9) d
unfolding days_from_civil
from_january era yoe m d hy hm =
    let p : yoe + era * 400 + 1 - 1 ≡ yoe + era * 400 = omega arith in
    let q : (yoe + era * 400) / 400 ≡ era = omega arith in
    let r : yoe + era * 400 - era * 400 ≡ yoe = omega arith in rw (hm, p, q, r) refl

-- A date by its era, year of the era, and day of the year, is the day that it was read from.
from_parts :
    (era yoe doy : ℕ)
    → yoe < 400
    → doy < 366
    → let mp = (5 * doy + 2) / 153 in
      let m = if leb 10 mp then mp - 9 else mp + 3 in
      let y = yoe + era * 400 in
      days_from_civil (if leb m 2 then y + 1 else y) m (doy - (153 * mp + 2) / 5 + 1)
      ≡ era * 146097 + (yoe * 365 + yoe / 4 - yoe / 100 + doy) - 719468
from_parts era yoe doy hy hd =
    let mp = (5 * doy + 2) / 153 in
    let d = doy - (153 * mp + 2) / 5 + 1 in
    let back : (153 * mp + 2) / 5 + d - 1 ≡ doy = omega arith in
    elim (Bool-cases (leb 10 mp)) [
      | inl late ↦
          let low : leb (mp - 9) 2 ≡ true = ground arith in
          let mp_back : mp - 9 + 9 ≡ mp = ground arith in
          rw (late, low) (from_january era yoe (mp - 9) d hy low ∙ rw (mp_back, back) refl)
      | inr early ↦
          let high : leb (mp + 3) 2 ≡ false = ground arith in
          let mp_back : mp + 3 - 3 ≡ mp = omega arith in
          rw (early, high) (from_march era yoe (mp + 3) d hy high ∙ rw (mp_back, back) refl)
    ]

sum_of_parts :
    (days yoe : ℕ)
    → let z = days + 719468 in
      let doe = z - z / 146097 * 146097 in
      365 * yoe + yoe / 4 - yoe / 100 ≤ doe
      → z / 146097 * 146097
          + (yoe * 365 + yoe / 4 - yoe / 100 + (doe - (365 * yoe + yoe / 4 - yoe / 100)))
          - 719468
        ≡ days
sum_of_parts days yoe h = omega arith

-- The day number of the date of a day is the day, from the epoch on.
pub days_from_civil-civil_from_days :
    (days : ℕ) → let c = civil_from_days days in days_from_civil c.year c.month c.day ≡ days
unfolding civil_from_days
days_from_civil-civil_from_days days =
    let z = days + 719468 in
    let doe = z - z / 146097 * 146097 in
    let small : doe < 146097 = omega arith in
    let low = year_start-le doe small in
    let doy : ℕ = doe - year_start (year_of doe) in
    let high : doy < 366 = omega (arith, year_start-lt doe small) in
    from_parts (z / 146097) (year_of doe) doy (year_of-lt doe small) high
    ∙ sum_of_parts days (year_of doe) low
