-- ===== src/Admission.antt =====
-- The admission script, app/lua/check.lua, in its own order: refill the bucket, trim and count the
-- window, read the month's counter, decide, consume, report. Redis runs a script with nothing in
-- between, so a call is one function from a store to a decision and a store.
pub mod Runs
pub mod Denial
pub mod Warning
pub mod Burst
pub mod Window
mod Tests
pub mod Quota
pub mod Exact
pub mod Refill
use quotaguard.Prelude.{
  Bool, List, Option, Text, [], ceil_div, ceil_div_sub, codes, decimal, false, if◌then◌else◌, leb,
  ltb, none, not, some, ℕ, ℤ, ◌&&◌, ◌*◌, ◌++◌, ◌+◌, ◌-◌, ◌/◌, ◌==◌, ◌∷◌,
}
use quotaguard.Redis.{
  Member, Redis, Time, counter, expireat, hset, incrby, pexpire, setnx, zadd, zcard,
  zremrangebyscore,
}
use quotaguard.Civil.{Month, month_at}

abbrev pub utok : ℕ
utok = 1_000_000

-- 45 days
abbrev pub grace_s : ℕ
grace_s = 3_888_000

-- The three computations of the script in which a double may round: `elapsed >= (cap / rate) * UTOK`,
-- `math.floor((elapsed / UTOK) * rate)` and `math.ceil(add * UTOK / rate)`, whose product passes 2 ^ 53
-- for a credit of more than 9,007 tokens.
pub record Doubles : Type 0 where
  pub is_refilled : ℕ → ℕ → ℕ → Bool
  pub credit : ℕ → ℕ → ℕ
  pub spent : ℕ → ℕ → ℕ

pub record Keys : Type 0 where
  pub bucket : Text
  pub window : Text
  pub quota_prefix : Text
  pub flag_prefix : Text

pub record Argv : Type 0 where
  pub cap_utok : ℕ
  pub rate_utok : ℕ
  pub sustained_limit : ℕ
  pub window_us : ℕ
  pub quota_hard : ℕ
  pub quota_soft : ℕ
  pub cost : ℕ
  pub request_id : Text

pub record Tokens : Type 0 where
  pub tokens : ℕ
  pub ts : ℕ

-- The names of the layers. Where the script writes the empty text, the field is `none`.
pub data Layer : Type 0 where
  burst sustained quota : Layer

-- The 15 elements of the script's reply.
pub record Decision : Type 0 where
  pub allowed : Bool
  pub deny_layer : Option Layer
  pub b_limit : ℕ
  pub b_remaining : ℕ
  pub b_reset : ℤ
  pub s_limit : ℕ
  pub s_remaining : ℕ
  pub s_reset : ℕ
  pub q_limit : ℕ
  pub q_used : ℕ
  pub q_remaining : ℕ
  pub q_reset : ℕ
  pub soft_crossed : Bool
  pub month : Text
  pub retry_after : ℕ

-- What steps 1 to 5 read.
pub record Reading : Type 0 where
  pub now_s : ℕ
  pub now_us : ℕ
  pub month : Month
  pub qkey : Text
  pub fkey : Text
  pub bucket : Tokens
  pub count : ℕ
  pub used : ℕ

-- What step 7 leaves.
pub record Outcome : Type 0 where
  pub tokens : ℕ
  pub new_used : ℕ
  pub count_after : ℕ
  pub soft_crossed : Bool

unfoldable pub now_us_of : Time → ℕ
now_us_of t = t.seconds * utok + t.micros

module _ (d : Doubles) where
  -- Step 3, the branch of a bucket that is there. A difference below 0 is 0 here as there.
  unfoldable pub refill : Argv → ℕ → ℕ → ℕ → Tokens
  refill a now tokens ts =
      let elapsed = now - ts in
      let add = d.credit elapsed a.rate_utok in
      if d.is_refilled elapsed a.cap_utok a.rate_utok
      then record { tokens = a.cap_utok; ts = now }
      else if ltb 0 add
      then (if leb a.cap_utok (tokens + add)
          then record { tokens = a.cap_utok; ts = now }
          else record { tokens = tokens + add; ts = ts + d.spent add a.rate_utok })
      else record { tokens = tokens; ts = ts }

  unfoldable pub read_bucket : Argv → ℕ → Option ℕ → Option ℕ → Tokens
  read_bucket a now (some tokens) (some ts) = refill a now tokens ts
  read_bucket a now _ _ = record { tokens = a.cap_utok; ts = now }

  -- Steps 1 to 5. The second part is the store after the trim.
  unfoldable pub read : Keys → Argv → Time → Redis → Reading × Redis
  read k a time r =
      let now = now_us_of time in
      let m = month_at time.seconds in
      let hash = r.hashes k.bucket in
      let trimmed = zremrangebyscore k.window (now - a.window_us) r in
      let qkey = k.quota_prefix ++ m.text in
      (
        record {
          now_s = time.seconds;
          now_us = now;
          month = m;
          qkey = qkey;
          fkey = k.flag_prefix ++ m.text;
          bucket = read_bucket a now hash.t hash.ts;
          count = zcard k.window trimmed;
          used = counter qkey trimmed;
        },
        trimmed,
      )

-- Step 6.
unfoldable pub burst_ok : Argv → Reading → Bool
burst_ok a g = leb (a.cost * utok) g.bucket.tokens

unfoldable pub sustained_ok : Argv → Reading → Bool
sustained_ok a g = leb (g.count + 1) a.sustained_limit

unfoldable pub quota_ok : Argv → Reading → Bool
quota_ok a g = leb (g.used + a.cost) a.quota_hard

unfoldable pub is_allowed : Argv → Reading → Bool
is_allowed a g = burst_ok a g && sustained_ok a g && quota_ok a g

unfoldable pub deny_layer_of : Argv → Reading → Option Layer
deny_layer_of a g =
    if is_allowed a g
    then none
    else if not (burst_ok a g)
    then some burst
    else if not (sustained_ok a g)
    then some sustained
    else some quota

-- Step 7, one layer at a time.
unfoldable pub consume_bucket : Keys → Argv → Reading → Redis → Redis
consume_bucket k a g r =
    pexpire g.now_us k.bucket (ceil_div a.cap_utok a.rate_utok * 1000 + 60000)
      (hset k.bucket (g.bucket.tokens - a.cost * utok) g.bucket.ts r)

unfoldable pub consume_window : Keys → Argv → Reading → Redis → Redis
consume_window k a g r = pexpire g.now_us k.window (ceil_div a.window_us 1000 + 60000) (
    zadd k.window
      (record { score = g.now_us; name = decimal g.now_us ++ codes "-" ++ a.request_id }) r)

unfoldable pub month_deadline : Text → Reading → Redis → Redis
month_deadline key g r = expireat key (g.month.end_s + grace_s) r

unfoldable pub consume_quota : Argv → Reading → Redis → ℕ × Redis
consume_quota a g r =
    let (new_used, r') = incrby g.qkey a.cost r in
    (new_used, if new_used == a.cost then month_deadline g.qkey g r' else r')

unfoldable pub crosses : Argv → ℕ → ℕ → Bool
crosses a used new_used = ltb 0 a.quota_soft && ltb used a.quota_soft && leb a.quota_soft new_used

unfoldable pub raise_flag : Argv → Reading → ℕ → Redis → Bool × Redis
raise_flag a g new_used r =
    if crosses a g.used new_used
    then (let (won, r') = setnx g.fkey 1 r in (won, if won then month_deadline g.fkey g r' else r'))
    else (false, r)

unfoldable pub consume : Keys → Argv → Reading → Redis → Outcome × Redis
consume k a g r =
    let r1 = consume_window k a g (consume_bucket k a g r) in
    let (new_used, r2) = consume_quota a g r1 in
    let (crossed, r3) = raise_flag a g new_used r2 in
    (
      record {
        tokens = g.bucket.tokens - a.cost * utok;
        new_used = new_used;
        count_after = g.count + 1;
        soft_crossed = crossed;
      },
      r3,
    )

unfoldable pub settle : Keys → Argv → Reading → Redis → Outcome × Redis
settle k a g r = if is_allowed a g then consume k a g r else (
  record {
    tokens = g.bucket.tokens;
    new_used = g.used;
    count_after = g.count;
    soft_crossed = false;
  },
  r,
)

-- Step 8. The oldest member of the window is the first one.
unfoldable pub window_reset : Argv → ℕ → List Member → ℕ
window_reset a now [] = 0
window_reset a now (oldest ∷ _) = ceil_div (oldest.score + a.window_us - now) utok

unfoldable pub burst_retry : Argv → Reading → ℕ → ℕ
burst_retry a g tokens = if burst_ok a g then 0 else ceil_div (a.cost * utok - tokens) a.rate_utok

unfoldable pub retry_after_of : Argv → Reading → ℕ → ℕ → ℕ → ℕ
retry_after_of a g tokens s_reset q_reset =
    let retry1 = burst_retry a g tokens in
    let retry2 = if not (sustained_ok a g) && ltb retry1 s_reset then s_reset else retry1 in
    let retry3 = if not (quota_ok a g) && ltb retry2 q_reset then q_reset else retry2 in
    if is_allowed a g then 0 else retry3

unfoldable pub report : Keys → Argv → Reading → Outcome → Redis → Decision
report k a g o r =
    let s_reset = window_reset a g.now_us (r.zsets k.window) in
    let q_reset = g.month.end_s - g.now_s in
    record {
      allowed = is_allowed a g;
      deny_layer = deny_layer_of a g;
      b_limit = a.cap_utok / utok;
      b_remaining = o.tokens / utok;
      b_reset = ceil_div_sub a.cap_utok o.tokens a.rate_utok;
      s_limit = a.sustained_limit;
      s_remaining = a.sustained_limit - o.count_after;
      s_reset = s_reset;
      q_limit = a.quota_hard;
      q_used = o.new_used;
      q_remaining = a.quota_hard - o.new_used;
      q_reset = q_reset;
      soft_crossed = o.soft_crossed;
      month = g.month.text;
      retry_after = retry_after_of a g o.tokens s_reset q_reset;
    }

-- The whole script.
unfoldable pub check : Doubles → Keys → Argv → Time → Redis → Decision × Redis
check d k a time r =
    let (g, trimmed) = read d k a time r in
    let (o, after) = settle k a g trimmed in (report k a g o after, after)
