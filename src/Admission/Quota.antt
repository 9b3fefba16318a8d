-- ===== src/Admission/Quota.antt =====
-- The monthly counter under the script: what one call adds, and what a run of calls adds up to.
use quotaguard.Prelude.{
  All, List, Text, [], arith, false, if◌then◌else◌, refl, text_eq, text_eq_self, text_eq_sound,
  true, ℕ, ◌&&◌, ◌++◌, ◌+◌, ◌∙◌, ◌∷◌, ◌≡◌, ◌≤◌,
}
use quotaguard.Redis.{
  Redis, Time, counter, expireat, hset, incrby, number_or_zero, pexpire, put, set_string, setnx,
  zadd, zremrangebyscore,
}
use quotaguard.Civil.{month_at}
use quotaguard.Admission.Runs.{Call, after, final, total}
use quotaguard.Admission.{
  Argv, Decision, Doubles, Keys, Reading, check, consume, consume_bucket, consume_quota,
  consume_window, is_allowed, month_deadline, quota_ok, raise_flag, read, report, settle,
}

counter-consume_quota :
    (a : Argv) (g : Reading) (j : Text) (r : Redis)
    → counter j (consume_quota a g r).1
      ≡ (if text_eq g.qkey j then counter g.qkey r + a.cost else counter j r)
unfolding consume_quota incrby month_deadline expireat counter set_string put number_or_zero
counter-consume_quota a g j r = ground arith

counter-raise_flag :
    (a : Argv) (g : Reading) (n : ℕ) (j : Text) (r : Redis)
    → text_eq g.fkey j ≡ false
    → counter j (raise_flag a g n r).1 ≡ counter j r
unfolding raise_flag setnx month_deadline expireat counter set_string put number_or_zero
counter-raise_flag a g n j r h = ground arith

counter-consume_layers :
    (k : Keys) (a : Argv) (g : Reading) (j : Text) (r : Redis)
    → counter j (consume_window k a g (consume_bucket k a g r)) ≡ counter j r
unfolding consume_bucket consume_window hset zadd pexpire counter
counter-consume_layers k a g j r = refl

counter-consume :
    (k : Keys) (a : Argv) (g : Reading) (j : Text) (r : Redis)
    → text_eq g.fkey j ≡ false
    → counter j (consume k a g r).1
      ≡ (if text_eq g.qkey j then counter g.qkey r + a.cost else counter j r)
unfolding consume
counter-consume k a g j r h =
    let r1 = consume_window k a g (consume_bucket k a g r) in
    let c = consume_quota a g r1 in
    counter-raise_flag a g c.0 j c.1 h
    ∙ rw (counter-consume_quota, counter-consume_layers) (rw counter-consume_layers)

counter-settle :
    (k : Keys) (a : Argv) (g : Reading) (j : Text) (r : Redis)
    → text_eq g.fkey j ≡ false
    → counter j (settle k a g r).1
      ≡ counter j r + (if is_allowed a g && text_eq g.qkey j then a.cost else 0)
unfolding settle
counter-settle k a g j r h = ground (arith, counter-consume k a g j r h, text_eq_sound g.qkey j)

-- The key of the month's counter, and of its flag, that a call reads.
abbrev pub quota_key : Keys → Time → Text
quota_key k time = k.quota_prefix ++ (month_at time.seconds).text

abbrev pub flag_key : Keys → Time → Text
flag_key k time = k.flag_prefix ++ (month_at time.seconds).text

counter-zremrangebyscore :
    (k j : Text) (b : ℕ) (r : Redis) → counter j (zremrangebyscore k b r) ≡ counter j r
unfolding counter zremrangebyscore
counter-zremrangebyscore k j b r = refl

-- What one call adds to the counter under a key: its cost, if it is admitted and the key is the
-- one of its month, and nothing otherwise.
abbrev pub charge : Text → Keys → Argv → Time → Decision → ℕ
charge j k a time v = if v.allowed && text_eq (quota_key k time) j then a.cost else 0

new_used-settle :
    (k : Keys) (a : Argv) (g : Reading) (r : Redis)
    → text_eq g.fkey g.qkey ≡ false
    → g.used ≡ counter g.qkey r
    → (settle k a g r).0.new_used ≡ counter g.qkey (settle k a g r).1
unfolding settle consume consume_quota incrby
new_used-settle k a g r h used = ground (
  arith,
  counter-consume k a g g.qkey r h,
  counter-consume_layers k a g g.qkey r,
  text_eq_self g.qkey,
)

module _ (d : Doubles) (k : Keys) (a : Argv) (time : Time) (r : Redis) where
  pub counter-check :
      (j : Text)
      → text_eq (flag_key k time) j ≡ false
      → counter j (check d k a time r).1 ≡ counter j r + charge j k a time (check d k a time r).0
  unfolding check report read
  counter-check j h =
      let (g, t) = read d k a time r in counter-settle k a g j t h ∙ rw counter-zremrangebyscore

  pub q_used-check :
      text_eq (flag_key k time) (quota_key k time) ≡ false
      → (check d k a time r).0.q_used ≡ counter (quota_key k time) (check d k a time r).1
  unfolding check report read
  q_used-check h = let (g, t) = read d k a time r in new_used-settle k a g t h refl

  pub admitted-le :
      (check d k a time r).0.allowed ≡ true → counter (quota_key k time) r + a.cost ≤ a.quota_hard
  unfolding check report read is_allowed quota_ok counter zremrangebyscore
  admitted-le h = ground arith

-- The calls do not use the counter's key as a flag, and those of this counter have the hard limit.
abbrev pub Counts : Text → ℕ → Call → Type 0
Counts j hard c =
    (text_eq (flag_key c.keys c.time) j ≡ false)
    × (text_eq (quota_key c.keys c.time) j ≡ true → c.argv.quota_hard ≡ hard)

abbrev pub quota_charge : Text → Call → Decision → ℕ
quota_charge j c v = charge j c.keys c.argv c.time v

pub call-counter-le :
    (d : Doubles) (j : Text) (hard : ℕ) (c : Call) (r : Redis)
    → Counts j hard c
    → counter j r ≤ hard
    → counter j (after d c r) ≤ hard
call-counter-le d j hard c r h low = ground (
  arith,
  counter-check d c.keys c.argv c.time r j h.0,
  admitted-le d c.keys c.argv c.time r,
  text_eq_sound (quota_key c.keys c.time) j,
)

-- No over-admission of a monthly quota: over any sequence of calls, on any keys and at any times,
-- the counter of a month grows by exactly the cost that was admitted against it, and never passes
-- the hard limit that the calls on it carry.
pub no_over_admission :
    (d : Doubles) (j : Text) (hard : ℕ) (calls : List Call) (r : Redis)
    → All (Counts j hard) calls
    → counter j r ≤ hard
    → (counter j (final d calls r) ≡ counter j r + total d (quota_charge j) calls r)
      × (counter j (final d calls r) ≤ hard)
unfolding final total
no_over_admission d j hard [] r h low = (omega arith, low)
no_over_admission d j hard (c ∷ cs) r h low =
    let rest =
      no_over_admission d j hard cs (after d c r) h.1 (call-counter-le d j hard c r h.0 low) in
    (omega (arith, rest.0, counter-check d c.keys c.argv c.time r j h.0.0), rest.1)
