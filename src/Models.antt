-- ===== src/Models.antt =====
-- app/models.py: the tables' rows, the effective limits of a key, and its overrides.
pub mod Limits
mod Tests
use quotaguard.Civil.{civil_from_days}
use quotaguard.Prelude.{
  List, Option, Text, [], codes, if◌then◌else◌, none, pad, some, ℕ, ◌%◌, ◌++◌, ◌/◌, ◌==◌, ◌∷◌,
}

pub data RedisDownPolicy : Type 0 where
  fail_open fail_closed : RedisDownPolicy

-- The five columns that a plan and an override share, in the order of `OVERRIDE_TO_PLAN_FIELD`.
pub data LimitField : Type 0 where
  burst_capacity burst_refill_per_sec sustained_limit sustained_window_seconds monthly_quota :
      LimitField

abbrev pub limit_fields : List LimitField
limit_fields =
    burst_capacity ∷ burst_refill_per_sec ∷ sustained_limit ∷ sustained_window_seconds
    ∷ monthly_quota ∷ []

-- A time is a number of microseconds since the epoch.
pub record Plan : Type 0 where
  pub id : ℕ
  pub slug : Text
  pub name : Text
  pub limit : LimitField → ℕ
  pub quota_soft_pct : ℕ
  pub webhook_url : Option Text
  pub redis_down_policy : RedisDownPolicy

pub record ApiKey : Type 0 where
  pub id : ℕ
  pub key_id : Text
  pub key_hash : Text
  pub key_prefix : Text
  pub name : Text
  pub plan_id : ℕ
  pub override_of : LimitField → Option ℕ
  pub revoked_at : Option ℕ
  pub created_at : ℕ

pub record Rollup : Type 0 where
  pub id : ℕ
  pub api_key_id : ℕ
  pub month : Text
  pub used : ℕ
  pub quota_limit : ℕ

-- The check constraint allows one kind, `quota_soft`, which is every row's.
pub record WebhookOutbox : Type 0 where
  pub id : ℕ
  pub api_key_id : ℕ
  pub month : Text
  pub payload : Text
  pub attempts : ℕ
  pub next_attempt_at : ℕ
  pub delivered_at : Option ℕ
  pub last_error : Option Text

-- Python's `override or plan`: an override of 0 counts as none.
unfoldable pub or_plan : Option ℕ → ℕ → ℕ
or_plan none p = p
or_plan (some n) p = if n == 0 then p else n

unfoldable pub effective_limits : ApiKey → Plan → LimitField → ℕ
effective_limits key plan f = or_plan (key.override_of f) (plan.limit f)

unfoldable pub override_onto : ApiKey → LimitField → List (LimitField × ℕ) → List (LimitField × ℕ)
override_onto key f rest = elim (key.override_of f) [ none ↦ rest | some n ↦ (f, n) ∷ rest ]

unfoldable pub overrides_from : ApiKey → List LimitField → List (LimitField × ℕ)
overrides_from key [] = []
overrides_from key (f ∷ fs) = override_onto key f (overrides_from key fs)

unfoldable pub overrides : ApiKey → List (LimitField × ℕ)
overrides key = overrides_from key limit_fields

-- `override if override is not None else plan`, as app/services/rollup.py and usage.py write it.
unfoldable pub not_none_or : Option ℕ → ℕ → ℕ
not_none_or none p = p
not_none_or (some n) p = n

-- `to_iso_utc`: a time as ISO-8601 UTC, without its microseconds.
unfoldable pub to_iso_utc : ℕ → Text
unfolding civil_from_days
to_iso_utc at =
    let seconds = at / 1_000_000 in
    let date = civil_from_days (seconds / 86_400) in
    let of_day = seconds % 86_400 in
    pad 4 date.year
    ++ codes "-"
    ++ pad 2 date.month
    ++ codes "-"
    ++ pad 2 date.day
    ++ codes "T"
    ++ pad 2 (of_day / 3_600)
    ++ codes ":"
    ++ pad 2 (of_day / 60 % 60)
    ++ codes ":"
    ++ pad 2 (of_day % 60)
    ++ codes "Z"
