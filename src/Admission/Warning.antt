-- ===== src/Admission/Warning.antt =====
-- The soft threshold: which call reports the crossing, and that no flag is won twice.
use quotaguard.Prelude.{
  Bool-cases, List, Text, [], arith, false, if◌then◌else◌, inl, inr, none, refl, text_eq,
  text_eq_sound, true, ℕ, ◌&&◌, ◌+◌, ◌<◌, ◌↔◌, ◌∷◌, ◌≡◌, ◌≤◌,
}
use quotaguard.Redis.{
  Redis, Time, counter, expireat, hset, incrby, is_set, pexpire, put, set_string, setnx, zadd,
  zremrangebyscore,
}
use quotaguard.Admission.{
  Argv, Decision, Doubles, Keys, Reading, check, consume, consume_bucket, consume_quota,
  consume_window, crosses, is_allowed, month_deadline, raise_flag, read, report, settle,
}
use quotaguard.Admission.Quota.{flag_key, quota_key}
use quotaguard.Admission.Runs.{Call, after, decide, final, total}

-- 1 if the flag is set
abbrev pub flag_bit : Text → Redis → ℕ
flag_bit f r = if is_set (r.strings f) then 1 else 0

-- 1 if the call reports a crossing under the flag
abbrev pub crossing : Text → Call → Decision → ℕ
crossing f c v = if v.soft_crossed && text_eq (flag_key c.keys c.time) f then 1 else 0

incrby-flag_bit-le : (f q : Text) (n : ℕ) (r : Redis) → flag_bit f r ≤ flag_bit f (incrby q n r).1
unfolding incrby set_string put is_set
incrby-flag_bit-le f q n r = ground arith

consume_quota-flag_bit-le :
    (a : Argv) (g : Reading) (f : Text) (r : Redis)
    → flag_bit f r ≤ flag_bit f (consume_quota a g r).1
unfolding consume_quota incrby month_deadline expireat set_string put is_set
consume_quota-flag_bit-le a g f r = ground arith

raise_flag-flag_bit :
    (a : Argv) (g : Reading) (n : ℕ) (f : Text) (r : Redis)
    → flag_bit f (raise_flag a g n r).1
      ≡ flag_bit f r + (if (raise_flag a g n r).0 && text_eq g.fkey f then 1 else 0)
unfolding raise_flag setnx month_deadline expireat set_string put is_set
raise_flag-flag_bit a g n f r = ground (arith, text_eq_sound g.fkey f)

settle-flag_bit-le :
    (k : Keys) (a : Argv) (g : Reading) (f : Text) (r : Redis)
    → flag_bit f r + (if (settle k a g r).0.soft_crossed && text_eq g.fkey f then 1 else 0)
      ≤ flag_bit f (settle k a g r).1
unfolding settle consume consume_window consume_bucket hset zadd pexpire
settle-flag_bit-le k a g f r = elim (Bool-cases (is_allowed a g)) [
  | inl e ↦
      let r1 = consume_window k a g (consume_bucket k a g r) in
      let c = consume_quota a g r1 in
      rw e (omega (arith, raise_flag-flag_bit a g c.0 f c.1, consume_quota-flag_bit-le a g f r1))
  | inr e ↦ rw e (omega arith)
]

module _ (d : Doubles) (f : Text) where
  check-flag_bit-le :
      (c : Call) (r : Redis) → flag_bit f r + crossing f c (decide d c r) ≤ flag_bit f (after d c r)
  unfolding check report read zremrangebyscore
  check-flag_bit-le c r =
      let (g, t) = read d c.keys c.argv c.time r in settle-flag_bit-le c.keys c.argv g f t

  crossings-flag_bit-le :
      (calls : List Call) (r : Redis)
      → flag_bit f r + total d (crossing f) calls r ≤ flag_bit f (final d calls r)
  unfolding total final
  crossings-flag_bit-le [] r = omega arith
  crossings-flag_bit-le (c ∷ cs) r =
      omega (arith, check-flag_bit-le c r, crossings-flag_bit-le cs (after d c r))

  -- At most once: over any sequence of calls, on any keys and at any times, at most one call reports
  -- that a month's soft threshold was crossed, and none if the flag was set before.
  pub warned_at_most_once :
      (calls : List Call) (r : Redis) → total d (crossing f) calls r + flag_bit f r ≤ 1
  warned_at_most_once calls r =
      let b = final d calls r in ground (arith, crossings-flag_bit-le calls r)

consume_quota-strings_ne :
    (a : Argv) (g : Reading) (f : Text) (r : Redis)
    → text_eq g.qkey f ≡ false
    → (consume_quota a g r).1.strings f ≡ r.strings f
unfolding consume_quota incrby month_deadline expireat set_string put
consume_quota-strings_ne a g f r h = ground arith

raise_flag_iff :
    (a : Argv) (g : Reading) (n : ℕ) (r : Redis)
    → ((raise_flag a g n r).0 ≡ true) ↔ ((crosses a g.used n ≡ true) × (r.strings g.fkey ≡ none))
unfolding raise_flag setnx is_set
raise_flag_iff a g n r = ground arith

new_used_lem :
    (a : Argv) (g : Reading) (r : Redis) → (consume_quota a g r).0 ≡ counter g.qkey r + a.cost
unfolding consume_quota incrby
new_used_lem a g r = refl

settle_crossed_iff :
    (k : Keys) (a : Argv) (g : Reading) (r : Redis)
    → text_eq g.qkey g.fkey ≡ false
    → ((settle k a g r).0.soft_crossed ≡ true) ↔ (
        (is_allowed a g ≡ true)
        × (crosses a g.used (counter g.qkey r + a.cost) ≡ true)
        × (r.strings g.fkey ≡ none))
unfolding settle consume consume_window consume_bucket hset zadd pexpire counter
settle_crossed_iff k a g r h =
    let r1 = consume_window k a g (consume_bucket k a g r) in
    let c = consume_quota a g r1 in
    ground (
      arith,
      raise_flag_iff a g c.0 c.1,
      consume_quota-strings_ne a g g.fkey r1 h,
      new_used_lem a g r1,
    )

module _ (d : Doubles) (k : Keys) (a : Argv) (time : Time) (r : Redis) where
  -- A call reports the crossing exactly when it is admitted, its plan has a soft threshold, its cost
  -- takes the month's counter from below the threshold to it or past it, and the flag is not set.
  pub soft_crossed_iff :
      text_eq (quota_key k time) (flag_key k time) ≡ false
      → let v = (check d k a time r).0 in
        let used = counter (quota_key k time) r in
        (v.soft_crossed ≡ true) ↔ (
          (v.allowed ≡ true)
          × (0 < a.quota_soft)
          × (used < a.quota_soft)
          × (a.quota_soft ≤ used + a.cost)
          × (r.strings (flag_key k time) ≡ none))
  unfolding check report read zremrangebyscore counter crosses
  soft_crossed_iff h =
      let (g, t) = read d k a time r in ground (arith, settle_crossed_iff k a g t h)
