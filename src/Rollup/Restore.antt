-- ===== src/Rollup/Restore.antt =====
-- The restore of a lost counter.
use quotaguard.Prelude.{
  Bool-cases, Text, ap, arith, false, if◌then◌else◌, inl, inr, ltb, max, refl, sym, text_eq,
  text_eq_self, text_eq_sound, ℕ, ◌+◌, ◌∙◌, ◌≡◌, ◌≢◌, ◌≤◌,
}
use quotaguard.Redis.{Redis, counter, expireat, set_string}
use quotaguard.Redis.Laws.{counter-set_string}
use quotaguard.Rollup.{restore}

-- The script's writes to a counter that is below the floor.
restore_writes :
    (key other : Text) (floor seconds : ℕ) (r : Redis)
    → counter other (expireat key seconds (set_string key floor r))
      ≡ (if text_eq key other then floor else counter other r)
unfolding expireat counter
restore_writes key other floor seconds r = counter-set_string key other floor r

restore-counter :
    (key other : Text) (floor month_end : ℕ) (r : Redis)
    → counter other (restore key floor month_end r).1
      ≡ (if text_eq key other then max (counter key r) floor else counter other r)
unfolding restore
restore-counter key other floor month_end r = elim (Bool-cases (ltb (counter key r) floor)) [
  | inl low ↦ rw low (ground (arith, restore_writes key other floor (month_end + 3_888_000) r))
  | inr high ↦ elim (Bool-cases (text_eq key other)) [
    | inl same ↦ let e = text_eq_sound key other same in rw (high, same) (rw (sym e) (ground arith))
    | inr different ↦ rw (high, different) refl
  ]
]

restore_reply :
    (key : Text) (floor month_end : ℕ) (r : Redis)
    → (restore key floor month_end r).0 ≡ max (counter key r) floor
unfolding restore
restore_reply key floor month_end r = ground arith

restore_again :
    (key : Text) (floor month_end : ℕ) (r : Redis)
    → floor ≤ counter key r
    → restore key floor month_end r ≡ (counter key r, r)
unfolding restore
restore_again key floor month_end r h = ground arith

-- The restore replies with the counter's new value, which is the greater of its old value and the
-- floor, leaves every other counter as it was, and does nothing the second time.
pub restore_raises :
    (key : Text) (floor month_end : ℕ) (r : Redis)
    → let (value, r') = restore key floor month_end r in
      (value ≡ max (counter key r) floor)
      × (counter key r' ≡ max (counter key r) floor)
      × ((other : Text) → other ≢ key → counter other r' ≡ counter other r)
      × (restore key floor month_end r' ≡ (value, r'))
restore_raises key floor month_end r =
    let r' = (restore key floor month_end r).1 in
    let value = restore_reply key floor month_end r in
    let raised : counter key r' ≡ max (counter key r) floor =
      restore-counter key key floor month_end r ∙ rw (text_eq_self key) refl in
    let again = restore_again key floor month_end r' (omega arith) in
    (
      value,
      raised,
      (λ other d.
          let different : text_eq key other ≡ false = ground (arith, text_eq_sound key other) in
          restore-counter key other floor month_end r ∙ rw different refl),
      again ∙ ap (λ v. (v, r')) (raised ∙ sym value),
    )
