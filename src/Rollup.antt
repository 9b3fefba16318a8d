-- ===== src/Rollup.antt =====
-- app/services/rollup.py, with app/lua/restore.lua: the monthly rows from the
-- counters, the restore of a lost counter and the outbox rows that a crossing missed.
pub mod Parse
pub mod Restore
pub mod Reconcile
pub mod Upsert
pub mod Job
pub mod Lock
pub mod Monotone
pub mod Stored
pub mod Persist
mod Tests
use quotaguard.Prelude.{
  Bool, List, Option, Text, [], codes, false, if◌then◌else◌, ltb, none, pos, some, split, text_eq,
  true, ℕ, ℤ, ◌&&◌, ◌*◌, ◌++◌, ◌+◌, ◌==◌, ◌∷◌,
}
use quotaguard.Pool.{Pool, get_value}
use quotaguard.Redis.{Redis, counter, expireat, number_or_zero, set_string}
use quotaguard.Models.{ApiKey, Plan, Rollup, WebhookOutbox, monthly_quota, not_none_or}
use quotaguard.Database.{
  Database, key_by_key_id, next_id, outbox_for, plan_by_id, replace_rollup, rollup_for,
}
use quotaguard.Errors.{Result, attribute_error, ok, raise, sqlalchemy_error, ◌>>=◌}
use quotaguard.Civil.{days_from_civil}
use quotaguard.Webhooks.{Payload, enqueue}

abbrev pub colon : ℕ
colon = b':'

-- `f"qg:q:{key_id}:{month}"`, and the flag's key by its own letter
unfoldable pub counter_key : Text → Text → Text → Text
counter_key letter key_id month =
    codes "qg" ++ (colon ∷ (letter ++ (colon ∷ (key_id ++ (colon ∷ month)))))

unfoldable pub key_of_parts : Text → List Text → Option (Text × Text)
key_of_parts letter (p ∷ q ∷ key_id ∷ month ∷ []) =
    if text_eq p (codes "qg") && text_eq q letter then some (key_id, month) else none
key_of_parts letter _ = none

unfoldable pub parse_quota_key : Text → Option (Text × Text)
parse_quota_key key = key_of_parts (codes "q") (split colon key)

unfoldable pub parse_flag_key : Text → Option (Text × Text)
parse_flag_key key = key_of_parts (codes "f") (split colon key)

unfoldable pub month_end_seconds : ℕ → ℕ → ℕ
month_end_seconds year month =
    if month == 12
    then days_from_civil (year + 1) 1 1 * 86400
    else days_from_civil year (month + 1) 1 * 86400

unfoldable pub raise_rollup : ℕ → ℕ → Rollup → Database → Database
raise_rollup used quota_limit old db =
    if ltb old.used used
    then record db {
      rollups = replace_rollup (record old { used = used; quota_limit = quota_limit }) db.rollups;
    }
    else db

unfoldable pub upsert_found : ℕ → Text → ℕ → ℕ → Database → Option Rollup → Database
upsert_found api_key_id month used quota_limit db none = record db {
  rollups =
      db.rollups
      ++ record {
        id = next_id db.rollups;
        api_key_id = api_key_id;
        month = month;
        used = used;
        quota_limit = quota_limit;
      }
        ∷ [];
}
upsert_found api_key_id month used quota_limit db (some old) = raise_rollup used quota_limit old db

unfoldable pub upsert_rollup : ℕ → Text → ℕ → ℕ → Database → Database
upsert_rollup api_key_id month used quota_limit db =
    upsert_found api_key_id month used quota_limit db (rollup_for api_key_id month db)

-- The effective quota, for a key whose plan the query did or did not find.
unfoldable pub quota_limit_of : Option ℕ → Option Plan → Result ℕ
quota_limit_of none none = raise attribute_error
quota_limit_of (some n) none = ok n
quota_limit_of limit (some plan) = ok (not_none_or limit (plan.limit monthly_quota))

unfoldable pub upsert_key : Text → ℕ → Database → ApiKey → Option Plan → Result Database
upsert_key month used db key plan = do
  quota_limit ← quota_limit_of (key.override_of monthly_quota) plan
  ok (upsert_rollup key.id month used quota_limit db)

-- The count of upserts goes up only for a key that is in the table.
unfoldable pub upsert_row : Text → ℕ → Database → Option ApiKey → Result (ℕ × Database)
upsert_row month used db none = ok (0, db)
upsert_row month used db (some key) = do
  db' ← upsert_key month used db key (plan_by_id key.plan_id db)
  ok (1, db')

-- `broken`: the database fails at this row.
unfoldable pub upsert_parsed : Bool → ℕ → Database → Option (Text × Text) → Result (ℕ × Database)
upsert_parsed broken used db none = ok (0, db)
upsert_parsed true used db (some (key_id, month)) = raise sqlalchemy_error
upsert_parsed false used db (some (key_id, month)) =
    upsert_row month used db (key_by_key_id key_id db)

-- app/lua/restore.lua: the new value, and the server
unfoldable pub restore : Text → ℕ → ℕ → Redis → ℕ × Redis
restore key floor month_end r =
    if ltb (counter key r) floor
    then (floor, expireat key (month_end + 3_888_000) (set_string key floor r))
    else (counter key r, r)

unfoldable pub reconcile_enqueue :
    (Payload → Text) → ApiKey → Text → ℤ → ℕ → Database → Option Plan → ℕ × Database
reconcile_enqueue to_json key month used now db none = (0, db)
reconcile_enqueue to_json key month used now db (some plan) =
    let payload = to_json (record {
      key_id = key.key_id;
      key_name = key.name;
      plan = plan.slug;
      month = month;
      used = used;
      quota = not_none_or (key.override_of monthly_quota) (plan.limit monthly_quota);
      threshold_pct = plan.quota_soft_pct;
      sent_at = now;
    }) in
    (1, (enqueue key.id month payload now db).1)

-- A counter that cannot be read leaves the flag for another run.
unfoldable pub reconcile_read :
    (Payload → Text) → ApiKey → Text → ℕ → Database → Result (Option ℕ) → ℕ × Database
reconcile_read to_json key month now db (raise e) = (0, db)
reconcile_read to_json key month now db (ok used) =
    reconcile_enqueue to_json key month (pos (number_or_zero used)) now db
      (plan_by_id key.plan_id db)

unfoldable pub reconcile_missing :
    (Payload → Text) → Pool → ApiKey → Text → ℕ → Database → Option WebhookOutbox → ℕ × Database
reconcile_missing to_json pool key month now db (some row) = (0, db)
reconcile_missing to_json pool key month now db none =
    reconcile_read to_json key month now db
      (get_value pool (counter_key (codes "q") key.key_id month))

unfoldable pub reconcile_key :
    (Payload → Text) → Pool → Text → ℕ → Database → Option ApiKey → ℕ × Database
reconcile_key to_json pool month now db none = (0, db)
reconcile_key to_json pool month now db (some key) =
    reconcile_missing to_json pool key month now db (outbox_for key.id month db)

unfoldable pub reconcile_flag :
    (Payload → Text) → Pool → ℕ → Database → Option (Text × Text) → ℕ × Database
reconcile_flag to_json pool now db none = (0, db)
reconcile_flag to_json pool now db (some (key_id, month)) =
    reconcile_key to_json pool month now db (key_by_key_id key_id db)

-- The loop over the flags that the scan found. A key without a plan ends the loop in the code; here it
-- counts as none, since the foreign key forbids it.
unfoldable pub reconcile_soft_webhooks :
    (Payload → Text) → Pool → ℕ → List Text → Database → ℕ × Database
reconcile_soft_webhooks to_json pool now [] db = (0, db)
reconcile_soft_webhooks to_json pool now (flag ∷ flags) db =
    let (n, db1) = reconcile_flag to_json pool now db (parse_flag_key flag) in
    let (m, db2) = reconcile_soft_webhooks to_json pool now flags db1 in (n + m, db2)
