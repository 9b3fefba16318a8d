-- ===== src/Rollup/Job.antt =====
-- app/services/rollup.py: the job as a whole, with its lock and the release of app/lua/unlock.lua.
use quotaguard.Prelude.{
  Bool, List, Option, Text, [], any, codes, drop, false, if◌then◌else◌, leb, length, ltb, none,
  parse_digits, some, take, text_eq, true, ℕ, ◌&&◌, ◌+◌, ◌==◌, ◌∷◌,
}
use quotaguard.Models.{ApiKey, Rollup}
use quotaguard.Database.{Database, key_by_id}
use quotaguard.Errors.{
  Exception, Result, attribute_error, lock_not_acquired, ok, raise, sqlalchemy_error, value_error,
  ◌>>=◌,
}
use quotaguard.Redis.{Redis}
use quotaguard.Pool.{Pool, Scanned, scan_flag_keys, scan_quota_keys}
use quotaguard.Webhooks.{Payload}
use quotaguard.Rollup.{
  counter_key, month_end_seconds, parse_quota_key, reconcile_soft_webhooks, restore, upsert_parsed,
}

-- The value of the lock's key: the token of its holder.
abbrev pub Lock : Type 0
Lock = Option Text

-- What a run meets: its token, the clock, the pool, whether `SET` is answered, whether the replies of the
-- pool are text (a reply of bytes equals no text), at which counters the database fails, what others make
-- of the lock while the run works and between the two commands of its release, whether the first of these
-- is answered and the second reaches the server, and the fuel of the scans.
pub record Surroundings : Type 0 where
  pub token : Text
  pub now : ℕ
  pub pool : Pool
  pub reachable : Bool
  pub decodes : Bool
  pub broken_at : Text → Bool
  pub meanwhile : Lock → Lock
  pub between : Lock → Lock
  pub get_answered : Bool
  pub del_runs : Bool
  pub to_json : Payload → Text
  pub fuel : ℕ

pub record Stats : Type 0 where
  pub scanned : ℕ
  pub upserted : ℕ
  pub restored : ℕ
  pub reconciled : ℕ

-- `SET … NX PX`: the lock for the token, if no one holds it.
unfoldable pub acquire_lock : Bool → Text → Lock → Result Text × Lock
acquire_lock false token lock = (raise lock_not_acquired, lock)
acquire_lock true token none = (ok token, some token)
acquire_lock true token (some holder) = (raise lock_not_acquired, some holder)

-- Whether the reply of GET equals the token.
unfoldable pub is_held : Bool → Text → Lock → Bool
is_held decodes token none = false
is_held decodes token (some holder) = decodes && text_eq holder token

-- `release_lock`: no pool has the attribute `_script_registry`, so it takes the fallback, a GET and then a
-- DEL. What fails is logged; without an answer to GET there is no DEL.
unfoldable pub release_lock : Surroundings → Lock → Lock
release_lock s lock =
    if s.get_answered
    then (let later = s.between lock in
        if is_held s.decodes s.token lock && s.del_runs then none else later)
    else s.between lock

-- app/lua/unlock.lua: its reply, and the lock
unfoldable pub unlock : Text → Lock → ℕ × Lock
unlock token none = (0, none)
unlock token (some holder) = if text_eq holder token then (1, none) else (0, some holder)

-- What the loop does with a counter, and with those after it.
unfoldable pub upsert_then :
    (ℕ → Database → ℕ × Result (Unit {0}) × Database)
    → ℕ
    → Database
    → Result (ℕ × Database)
    → ℕ × Result (Unit {0}) × Database
upsert_then rest count db (raise e) = (count, raise e, db)
upsert_then rest count db (ok (n, db')) = rest (count + n) db'

-- The first phase of `run`: every scanned counter into its row. Each row is committed on its own, so an
-- exception leaves those before it, and the count of them.
unfoldable pub upsert_scanned :
    (Text → Bool) → List Scanned → ℕ → Database → ℕ × Result (Unit {0}) × Database
upsert_scanned broken_at [] count db = (count, ok tt, db)
upsert_scanned broken_at ((key, used) ∷ rest) count db =
    upsert_then (upsert_scanned broken_at rest) count db
      (upsert_parsed (broken_at key) used db (parse_quota_key key))

-- The attribute `scripts` of the registry, which app/redis_client.py does not give it.
unfoldable pub registry_scripts : Result (List Text)
registry_scripts = raise attribute_error

unfoldable pub int_of_text : Option ℕ → Result ℕ
int_of_text none = raise value_error
int_of_text (some n) = ok n

-- The years and months that `datetime` takes.
unfoldable pub is_month : ℕ → ℕ → Bool
is_month year month =
    if month == 12 then ltb year 9999 else leb month 11 && leb 1 year && leb year 9999

unfoldable pub valid_month : ℕ → ℕ → Result ℕ
valid_month year month =
    if is_month year month then ok (month_end_seconds year month) else raise value_error

unfoldable pub run_restore : List Text → Text → ℕ → ℕ → Redis → ℕ × Redis
run_restore scripts key value month_end r =
    let (result, r') = restore key value month_end r in
    if any (text_eq (codes "restore")) scripts
    then (if result == value then 1 else 0, r')
    else (0, r)

-- The body of the `try` of `restore_from_rollup`
unfoldable pub try_restore : Text → Text → ℕ → Redis → Result (ℕ × Redis)
try_restore key_id month value r = do
  year ← int_of_text (parse_digits (take 4 month))
  number ← int_of_text (parse_digits (take 2 (drop 5 month)))
  month_end ← valid_month year number
  scripts ← registry_scripts
  ok (run_restore scripts (counter_key (codes "q") key_id month) value month_end r)

unfoldable pub restore_from_rollup : Text → Text → ℕ → Redis → ℕ × Redis
restore_from_rollup key_id month value r = elim (try_restore key_id month value r) [
  | raise e ↦ (0, r)
  | ok done ↦ done
]

unfoldable pub restore_row : Option ApiKey → Rollup → Redis → ℕ × Redis
restore_row none row r = (0, r)
restore_row (some key) row r = restore_from_rollup key.key_id row.month row.used r

-- The second phase of `run`: the counters that were lost.
unfoldable pub restore_rows : Database → List Rollup → Redis → ℕ × Redis
restore_rows db [] r = (0, r)
restore_rows db (row ∷ rows) r =
    let (n, r1) = restore_row (key_by_id row.api_key_id db) row r in
    let (m, r2) = restore_rows db rows r1 in (n + m, r2)

-- The whole of `reconcile_soft_webhooks`: a scan that fails is logged.
unfoldable pub reconcile_flags :
    (Payload → Text) → Pool → ℕ → Database → Result (List Text) → ℕ × Database
reconcile_flags to_json pool now db (raise e) = (0, db)
reconcile_flags to_json pool now db (ok flags) = reconcile_soft_webhooks to_json pool now flags db

-- What a run leaves, and how it ends.
pub record Ended : Type 0 where
  pub outcome : Result Stats
  pub lock : Lock
  pub db : Database
  pub redis : Redis

-- The `finally` of `run`: the lock is released, if it was taken.
unfoldable pub finish : Surroundings → Result Stats → Database → Redis → Ended
finish s outcome db r = record {
  outcome = outcome;
  lock = release_lock s (s.meanwhile (some s.token));
  db = db;
  redis = r;
}

abbrev pub no_stats : ℕ → ℕ → Stats
no_stats scanned upserted = record {
  scanned = scanned;
  upserted = upserted;
  restored = 0;
  reconciled = 0;
}

unfoldable pub is_database_error : Exception → Bool
is_database_error sqlalchemy_error = true
is_database_error _ = false

-- The `except` of `run`: an error of the database ends the run with the counts so far, another goes on.
unfoldable pub caught : Surroundings → ℕ → ℕ → Exception → Database → Ended
caught s scanned count e db =
    finish s (if is_database_error e then ok (no_stats scanned count) else raise e) db s.pool.redis

-- The third phase, over the server that the second left.
unfoldable pub reconcile_phase :
    Surroundings → ℕ → ℕ → ℕ → Redis → Database → Option (Result (List Text)) → Option Ended
reconcile_phase s scanned count restored r db none = none
reconcile_phase s scanned count restored r db (some flags) =
    let (reconciled, db') =
      reconcile_flags s.to_json (record s.pool { redis = r }) s.now db flags in
    some (
      finish s
        (ok (record {
          scanned = scanned;
          upserted = count;
          restored = restored;
          reconciled = reconciled;
        }))
        db' r)

unfoldable pub restore_phase : Surroundings → ℕ → ℕ → Database → Option Ended
restore_phase s scanned count db =
    let (restored, r) = restore_rows db db.rollups s.pool.redis in
    reconcile_phase s scanned count restored r db
      (scan_flag_keys s.fuel (record s.pool { redis = r }))

unfoldable pub upsert_phase : Surroundings → ℕ → ℕ × Result (Unit {0}) × Database → Option Ended
upsert_phase s scanned (count, raise e, db) = some (caught s scanned count e db)
upsert_phase s scanned (count, ok t, db) = restore_phase s scanned count db

unfoldable pub scan_phase : Surroundings → Database → Option (Result (List Scanned)) → Option Ended
scan_phase s db none = none
scan_phase s db (some (raise e)) = some (caught s 0 0 e db)
scan_phase s db (some (ok found)) =
    upsert_phase s (length found) (upsert_scanned s.broken_at found 0 db)

unfoldable pub locked : Surroundings → Database → Result Text × Lock → Option Ended
locked s db (raise e, lock) =
    some (record { outcome = raise e; lock = lock; db = db; redis = s.pool.redis })
locked s db (ok token, lock) = scan_phase s db (scan_quota_keys s.fuel s.pool)

-- `run`; none is the end of the scans' fuel.
unfoldable pub run : Surroundings → Lock → Database → Option Ended
run s lock db = locked s db (acquire_lock s.reachable s.token lock)
