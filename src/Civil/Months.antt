-- ===== src/Civil/Months.antt =====
-- The month that the script derives from a time contains the time.
use quotaguard.Prelude.{
  Bool-cases, arith, false, if◌then◌else◌, inl, inr, leb, leb→le, ltb, refl, true, ℕ, ◌*◌, ◌+◌, ◌-◌,
  ◌/◌, ◌<◌, ◌≡◌, ◌≤◌,
}
use quotaguard.Civil.{civil_from_days, days_from_civil, month_at, next_month_start}
use quotaguard.Civil.Inverse.{
  from_january, from_march, year_end, year_of, year_of-lt, year_start, year_start-le, year_start-lt,
}

-- The first day of the month after the `mp`-th one of a year from March, but for the last.
after_march :
    (era yoe doy y : ℕ)
    → yoe < 400
    → y ≡ yoe + era * 400
    → (5 * doy + 2) / 153 < 9
    → 719468 ≤ era * 146097 + (year_start yoe + doy)
    → era * 146097 + (year_start yoe + doy) - 719468 < days_from_civil y ((5 * doy + 2) / 153 + 4) 1
after_march era yoe doy y hy e hm z =
    let mp = (5 * doy + 2) / 153 in
    let high : leb (mp + 4) 2 ≡ false = ground arith in
    let at = from_march era yoe (mp + 4) 1 hy high in rw (e, at) (omega arith)

after_december :
    (era yoe doy mp m : ℕ)
    → yoe < 400
    → (5 * doy + 2) / 153 ≡ mp
    → 8 < mp
    → mp < 11
    → m + 8 ≡ mp
    → 719468 ≤ era * 146097 + (year_start yoe + doy)
    → era * 146097 + (year_start yoe + doy) - 719468 < days_from_civil (yoe + era * 400 + 1) m 1
after_december era yoe doy mp m hy e lo hi em z =
    let low : leb m 2 ≡ true = ground arith in
    let at = from_january era yoe m 1 hy low in rw at (omega arith)

-- The year from March ends before the next one.
after_february :
    (era yoe doy : ℕ)
    → yoe < 400
    → (yoe ≤ 398 → year_start yoe + doy < year_start (yoe + 1))
    → year_start yoe + doy < 146097
    → 719468 ≤ era * 146097 + (year_start yoe + doy)
    → era * 146097 + (year_start yoe + doy) - 719468 < days_from_civil (yoe + era * 400 + 1) 3 1
after_february era yoe doy hy within small z = elim (Bool-cases (leb yoe 398)) [
  | inl not_last ↦
      let e : yoe + era * 400 + 1 ≡ yoe + 1 + era * 400 = omega arith in
      let before = within (leb→le yoe 398 not_last) in
      let at = from_march era (yoe + 1) 3 1 (ground arith) refl in
      rw (e, at) (omega (arith, before))
  | inr last ↦
      let e : yoe + era * 400 + 1 ≡ 0 + (era + 1) * 400 = ground arith in
      let at = from_march (era + 1) 0 3 1 (omega arith) refl in rw (e, at) (omega arith)
]

-- The month of a day of the year from March, and the year that it falls in.
abbrev month_of : ℕ → ℕ
month_of doy = let mp = (5 * doy + 2) / 153 in if leb 10 mp then mp - 9 else mp + 3

abbrev year_in : ℕ → ℕ → ℕ
year_in y doy = if leb (month_of doy) 2 then y + 1 else y

start_of_parts :
    (era yoe doy : ℕ)
    → yoe < 400
    → doy < 366
    → days_from_civil (year_in (yoe + era * 400) doy) (month_of doy) 1
      ≤ era * 146097 + (year_start yoe + doy) - 719468
start_of_parts era yoe doy hy hd =
    let mp = (5 * doy + 2) / 153 in
    elim (Bool-cases (leb 10 mp)) [
      | inl late ↦
          let low : leb (mp - 9) 2 ≡ true = ground arith in
          let mp_back : mp - 9 + 9 ≡ mp = ground arith in
          let at = from_january era yoe (mp - 9) 1 hy low in
          rw (late, low) (rw at (rw mp_back (omega arith)))
      | inr early ↦
          let high : leb (mp + 3) 2 ≡ false = ground arith in
          let mp_back : mp + 3 - 3 ≡ mp = omega arith in
          let at = from_march era yoe (mp + 3) 1 hy high in
          rw (early, high) (rw at (rw mp_back (omega arith)))
    ]

next_in_year : (y m : ℕ) → m < 12 → next_month_start y m ≡ days_from_civil y (m + 1) 1 * 86400
unfolding next_month_start
next_in_year y m h = let no : ltb 12 (m + 1) ≡ false = ground arith in rw no refl

next_year : (y : ℕ) → next_month_start y 12 ≡ days_from_civil (y + 1) 1 1 * 86400
unfolding next_month_start
next_year y = refl

end_of_parts :
    (era yoe doy : ℕ)
    → yoe < 400
    → doy < 366
    → (yoe ≤ 398 → year_start yoe + doy < year_start (yoe + 1))
    → year_start yoe + doy < 146097
    → 719468 ≤ era * 146097 + (year_start yoe + doy)
    → (era * 146097 + (year_start yoe + doy) - 719468) * 86400 + 86400
      ≤ next_month_start (year_in (yoe + era * 400) doy) (month_of doy)
end_of_parts era yoe doy hy hd within small z =
    let mp = (5 * doy + 2) / 153 in
    elim (Bool-cases (leb 10 mp)) [
      | inl late ↦ elim (Bool-cases (leb mp 10)) [
        | inl january ↦
            let m : mp - 9 ≡ 1 = ground arith in
            let lt =
              after_december era yoe doy mp 2 hy refl (ground arith) (ground arith) (ground arith)
                z in
            rw (late, m)
              (rw (next_in_year (yoe + era * 400 + 1) 1 (omega arith)) (omega (arith, lt)))
        | inr february ↦
            let m : mp - 9 ≡ 2 = ground arith in
            let lt = after_february era yoe doy hy within small z in
            rw (late, m)
              (rw (next_in_year (yoe + era * 400 + 1) 2 (omega arith)) (omega (arith, lt)))
      ]
      | inr early ↦
          let high : leb (mp + 3) 2 ≡ false = ground arith in
          elim (Bool-cases (leb 9 mp)) [
            | inl december ↦
                let m : mp + 3 ≡ 12 = ground arith in
                let lt =
                  after_december era yoe doy mp 1 hy refl (ground arith) (ground arith)
                    (ground arith) z in
                rw (early, m) (rw (next_year (yoe + era * 400)) (omega (arith, lt)))
            | inr before ↦
                let four : mp + 3 + 1 ≡ mp + 4 = omega arith in
                let lt = after_march era yoe doy _ hy refl (ground arith) z in
                rw (early, high)
                  (rw (next_in_year (yoe + era * 400) (mp + 3) (ground arith), four)
                    (omega (arith, lt)))
          ]
    ]

month_of-range : (doy : ℕ) → doy < 366 → (1 ≤ month_of doy) × (month_of doy ≤ 12)
month_of-range doy h = ground arith

from_first_second : (first_day now_s : ℕ) → first_day ≤ now_s / 86400 → first_day * 86400 ≤ now_s
from_first_second first_day now_s h = omega arith

to_last_second : (end_s now_s : ℕ) → now_s / 86400 * 86400 + 86400 ≤ end_s → now_s < end_s
to_last_second end_s now_s h = omega arith

-- The month that the script derives is one of 1 to 12; its first second is not after the time, and the
-- time is before the month's end, which is the first second of the next month: of the month after it in
-- the same year, or after December of January of the next year.
pub month_at_contains :
    (now_s : ℕ)
    → let c = civil_from_days (now_s / 86400) in
      (1 ≤ c.month)
      × (c.month ≤ 12)
      × (days_from_civil c.year c.month 1 * 86400 ≤ now_s)
      × (now_s < (month_at now_s).end_s)
      × (c.month < 12 → (month_at now_s).end_s ≡ days_from_civil c.year (c.month + 1) 1 * 86400)
      × (c.month ≡ 12 → (month_at now_s).end_s ≡ days_from_civil (c.year + 1) 1 1 * 86400)
unfolding month_at civil_from_days
month_at_contains now_s =
    let days = now_s / 86400 in
    let z = days + 719468 in
    let era = z / 146097 in
    let doe = z - era * 146097 in
    let small : doe < 146097 = omega arith in
    let yoe = year_of doe in
    let low = year_start-le doe small in
    let doy : ℕ = doe - year_start yoe in
    let high : doy < 366 = omega (arith, year_start-lt doe small) in
    let doe_back : year_start yoe + doy ≡ doe = omega (arith, low) in
    let start = start_of_parts era yoe doy (year_of-lt doe small) high in
    let finish =
      end_of_parts era yoe doy (year_of-lt doe small) high (λ k. rw doe_back (year_end doe small k))
        (rw doe_back small) (rw doe_back (omega arith)) in
    let day_back : era * 146097 + (year_start yoe + doy) - 719468 ≡ days =
      rw doe_back (omega arith) in
    let (least, most) = month_of-range doy high in
    (
      least,
      most,
      from_first_second _ now_s (rw day_back at start),
      to_last_second _ now_s (rw day_back at finish),
      (λ h. next_in_year _ _ h),
      (λ h. rw h (next_year _)),
    )
