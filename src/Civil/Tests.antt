-- ===== src/Civil/Tests.antt =====
-- Dates that tests/test_civil_dates.py fixes: a leap day, a century, and both ends of 2026.
use quotaguard.Prelude.{codes, pad, refl, ◌*◌, ◌+◌, ◌/◌, ◌<◌, ◌≡◌, ◌≤◌}
use quotaguard.Civil.Months.{month_at_contains}
use quotaguard.Civil.Inverse.{days_from_civil-civil_from_days}
use quotaguard.Civil.{civil_from_days, days_from_civil, month_at}

leap_day : month_at 951782400 ≡ record { text = codes "2000-02"; end_s = 951868800 }
unfolding month_at pad
leap_day = refl

common_century : month_at 4107542399 ≡ record { text = codes "2100-02"; end_s = 4107542400 }
unfolding month_at pad
common_century = refl

last_second : month_at 1798761599 ≡ record { text = codes "2026-12"; end_s = 1798761600 }
unfolding month_at pad
last_second = refl

month_at_contains_example :
    let c = civil_from_days (951782400 / 86400) in
    (1 ≤ c.month)
    × (c.month ≤ 12)
    × (days_from_civil c.year c.month 1 * 86400 ≤ 951782400)
    × (951782400 < (month_at 951782400).end_s)
    × (c.month < 12 → (month_at 951782400).end_s ≡ days_from_civil c.year (c.month + 1) 1 * 86400)
    × (c.month ≡ 12 → (month_at 951782400).end_s ≡ days_from_civil (c.year + 1) 1 1 * 86400)
month_at_contains_example = month_at_contains 951782400

days_from_civil-civil_from_days_example :
    let c = civil_from_days 11016 in days_from_civil c.year c.month c.day ≡ 11016
days_from_civil-civil_from_days_example = days_from_civil-civil_from_days 11016
