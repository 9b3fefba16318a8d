-- ===== src/Usage.antt =====
-- app/services/usage.py: the current month from Redis, and the history from the rollups.
pub mod History
mod Tests
use quotaguard.Prelude.{
  Bool, List, Option, Text, [], codes, false, if◌then◌else◌, leb, map, neg, none, pos, select, some,
  take, text_leb, ℕ, ℤ, ◌-◌, ◌==◌, ◌∷◌,
}
use quotaguard.Models.{ApiKey, Plan, Rollup, monthly_quota, not_none_or}
use quotaguard.Database.{Database, key_by_key_id, plan_by_id}
use quotaguard.Redis.{Redis, is_set}
use quotaguard.Errors.{Result, attribute_error, ok, raise}
use quotaguard.Rollup.{counter_key}

pub data Source : Type 0 where
  live rollup : Source

-- One month of the report.
pub record UsageMonth : Type 0 where
  pub month : Text
  pub used : ℕ
  pub quota : ℕ
  pub soft_threshold_crossed : Bool
  pub source : Source
  pub remaining : ℤ

pub record UsageReport : Type 0 where
  pub key_id : Text
  pub name : Text
  pub plan : Text
  pub months : List UsageMonth

-- `a - b` on Python's integers
unfoldable pub difference : ℕ → ℕ → ℤ
difference a b = if leb b a then pos (a - b) else neg (b - a)

unfoldable pub live_month : Text → Bool → ℕ → Option ℕ → Option UsageMonth
live_month month crossed quota none = none
live_month month crossed quota (some used) = some (record {
  month = month;
  used = used;
  quota = quota;
  soft_threshold_crossed = crossed;
  source = live;
  remaining = difference quota used;
})

-- The live month with the quota that `get_usage_report` puts into it. A server that fails gives none.
unfoldable pub get_live_usage : Text → Text → ℕ → Redis → Option UsageMonth
get_live_usage current_month key_id quota r =
    live_month current_month (is_set (r.strings (counter_key (codes "f") key_id current_month)))
      quota (r.strings (counter_key (codes "q") key_id current_month))

-- `order_by(desc(Rollup.month))`
unfoldable pub insert_desc : Rollup → List Rollup → List Rollup
insert_desc r [] = r ∷ []
insert_desc r (x ∷ xs) = if text_leb x.month r.month then r ∷ x ∷ xs else x ∷ insert_desc r xs

unfoldable pub sort_desc : List Rollup → List Rollup
sort_desc [] = []
sort_desc (r ∷ rs) = insert_desc r (sort_desc rs)

unfoldable pub history_month : Rollup → UsageMonth
history_month r = record {
  month = r.month;
  used = r.used;
  quota = r.quota_limit;
  soft_threshold_crossed = false;
  source = rollup;
  remaining = difference r.quota_limit r.used;
}

-- `months` is at least 1, by the route's check.
unfoldable pub history_rows : Database → ℕ → ℕ → List Rollup
history_rows db api_key_id months =
    take (months - 1) (sort_desc (select (λ (r : Rollup). r.api_key_id == api_key_id) db.rollups))

unfoldable pub get_rollup_history : Database → ℕ → ℕ → List UsageMonth
get_rollup_history db api_key_id months = map history_month (history_rows db api_key_id months)

abbrev pub live_first : Option UsageMonth → List UsageMonth → List UsageMonth
live_first none history = history
live_first (some month) history = month ∷ history

unfoldable pub report_with_plan :
    Text → ℕ → Redis → Database → ApiKey → Option Plan → Result (Option UsageReport)
report_with_plan current_month months r db key none = raise attribute_error
report_with_plan current_month months r db key (some plan) =
    let quota = not_none_or (key.override_of monthly_quota) (plan.limit monthly_quota) in
    ok (
      some (record {
        key_id = key.key_id;
        name = key.name;
        plan = plan.slug;
        months =
            live_first (get_live_usage current_month key.key_id quota r)
              (get_rollup_history db key.id months);
      }))

unfoldable pub report_of : Text → ℕ → Redis → Database → Option ApiKey → Result (Option UsageReport)
report_of current_month months r db none = ok none
report_of current_month months r db (some key) =
    report_with_plan current_month months r db key (plan_by_id key.plan_id db)

unfoldable pub get_usage_report : Text → Text → ℕ → Redis → Database → Result (Option UsageReport)
get_usage_report current_month key_id months r db =
    report_of current_month months r db (key_by_key_id key_id db)
