-- ===== src/Rollup/Lock.antt =====
-- The job's lock, and what a run never does.
use quotaguard.Prelude.{
  Bool, Bool-cases, List, Option, Text, [], arith, false, inl, inr, length, none, refl, some,
  text_eq, true, ℕ, ◌&&◌, ◌<◌, ◌∷◌, ◌≡◌, ◌⊎◌,
}
use quotaguard.Models.{ApiKey, Rollup}
use quotaguard.Database.{Database, key_by_id}
use quotaguard.Errors.{Exception, Result, lock_not_acquired, ok, raise}
use quotaguard.Redis.{Redis}
use quotaguard.Pool.{
  Scanned, flag_pattern, quota_pattern, read_values, scan_flag_keys, scan_quota_keys,
}
use quotaguard.Pool.Scans.{Descends, scan_from-some}
use quotaguard.Rollup.Job.{
  Ended, Lock, Stats, Surroundings, acquire_lock, caught, finish, is_database_error, is_held,
  locked, no_stats, reconcile_phase, registry_scripts, release_lock, restore_from_rollup,
  restore_phase, restore_row, restore_rows, run, scan_phase, try_restore, unlock, upsert_phase,
  upsert_scanned,
}

-- No restore succeeds: the attribute that it reads is not there.
restore_from_rollup-nothing :
    (key_id month : Text) (value : ℕ) (r : Redis)
    → restore_from_rollup key_id month value r ≡ (0, r)
unfolding restore_from_rollup try_restore registry_scripts
restore_from_rollup-nothing key_id month value r = ground arith

restore_row-nothing :
    (key : Option ApiKey) (row : Rollup) (r : Redis) → restore_row key row r ≡ (0, r)
unfolding restore_row
restore_row-nothing none row r = refl
restore_row-nothing (some key) row r = restore_from_rollup-nothing key.key_id row.month row.used r

pub restore_rows-nothing :
    (db : Database) (rows : List Rollup) (r : Redis) → restore_rows db rows r ≡ (0, r)
unfolding restore_rows
restore_rows-nothing db [] r = refl
restore_rows-nothing db (row ∷ rows) r =
    rw (restore_row-nothing (key_by_id row.api_key_id db) row r, restore_rows-nothing db rows r)
      refl

abbrev pub NoneRestored : Result Stats → Type 0
NoneRestored (ok stats) = stats.restored ≡ 0
NoneRestored (raise e) = Unit

-- What the release leaves of a lock. Where the replies are bytes, it deletes nothing; where they are text,
-- GET is answered, DEL reaches the server and nothing comes between them, it leaves what app/lua/unlock.lua leaves;
-- and it never gives the lock to anyone.
abbrev pub IsReleased : Surroundings → Lock → Lock → Type 0
IsReleased s before left =
    (s.decodes ≡ false → left ≡ s.between before)
    × (s.decodes ≡ true
        → s.get_answered ≡ true
        → s.del_runs ≡ true
        → s.between before ≡ before
        → left ≡ (unlock s.token before).1)
    × ((left ≡ none) ⊎ (left ≡ s.between before))

release_lock-IsReleased : (s : Surroundings) (lock : Lock) → IsReleased s lock (release_lock s lock)
unfolding release_lock unlock is_held
release_lock-IsReleased s none =
    ((λ h. ground arith), (λ h g d b. ground (arith, h, g, d, b)), ground arith)
release_lock-IsReleased s (some holder) = (
  (λ h. ground (arith, h)),
  (λ h g d b. ground (arith, h, g, d, b)),
  elim (Bool-cases (s.get_answered)) [
    | inl answered ↦
        rw answered (elim (Bool-cases ((s.decodes && text_eq holder s.token) && s.del_runs)) [
          | inl gone ↦ rw gone (inl refl)
          | inr left ↦ rw left (inr refl)
        ])
    | inr lost ↦ rw lost (inr refl)
  ],
)

-- How a run that took the lock ends: with its lock released, no counter restored, and the server's
-- counters as they were.
abbrev pub Ends : Surroundings → Option Ended → Type 0
Ends s none = ⊥
Ends s (some o) =
    IsReleased s (s.meanwhile (some s.token)) o.lock
    × (o.redis ≡ s.pool.redis)
    × NoneRestored o.outcome

finish-Ends :
    (s : Surroundings) (outcome : Result Stats) (db : Database)
    → NoneRestored outcome
    → Ends s (some (finish s outcome db s.pool.redis))
unfolding finish
finish-Ends s outcome db none_restored =
    (release_lock-IsReleased s (s.meanwhile (some s.token)), refl, none_restored)

caught-Ends :
    (s : Surroundings) (scanned count : ℕ) (e : Exception) (db : Database)
    → Ends s (some (caught s scanned count e db))
unfolding caught
caught-Ends s scanned count e db = elim (Bool-cases (is_database_error e)) [
  | inl database ↦ rw database (finish-Ends s (ok (no_stats scanned count)) db refl)
  | inr other ↦ rw other (finish-Ends s (raise e) db tt)
]

reconcile_phase-Ends :
    (s : Surroundings) (scanned count : ℕ) (db : Database) (flags : Option (Result (List Text)))
    → (r : Result (List Text)) × (flags ≡ some r)
    → Ends s (reconcile_phase s scanned count 0 s.pool.redis db flags)
unfolding reconcile_phase
reconcile_phase-Ends s scanned count db none (r, h) = cc
reconcile_phase-Ends s scanned count db (some flags) h = finish-Ends s _ _ refl

restore_phase-Ends :
    (s : Surroundings) (rank : ℕ → ℕ) (scanned count : ℕ) (db : Database)
    → Descends s.pool flag_pattern rank
    → rank 0 < s.fuel
    → Ends s (restore_phase s scanned count db)
unfolding restore_phase scan_flag_keys
restore_phase-Ends s rank scanned count db flags enough =
    rw (restore_rows-nothing db db.rollups s.pool.redis) (
      reconcile_phase-Ends s scanned count db (scan_flag_keys s.fuel s.pool)
        (scan_from-some s.pool flag_pattern ok rank s.fuel 0 flags enough))

upsert_phase-Ends :
    (s : Surroundings) (rank : ℕ → ℕ) (scanned : ℕ) (done : ℕ × Result (Unit {0}) × Database)
    → Descends s.pool flag_pattern rank
    → rank 0 < s.fuel
    → Ends s (upsert_phase s scanned done)
unfolding upsert_phase
upsert_phase-Ends s rank scanned (count, raise e, db) flags enough =
    caught-Ends s scanned count e db
upsert_phase-Ends s rank scanned (count, ok t, db) flags enough =
    restore_phase-Ends s rank scanned count db flags enough

scan_phase-Ends :
    (s : Surroundings) (rank : ℕ → ℕ) (db : Database) (found : Option (Result (List Scanned)))
    → Descends s.pool flag_pattern rank
    → rank 0 < s.fuel
    → (r : Result (List Scanned)) × (found ≡ some r)
    → Ends s (scan_phase s db found)
unfolding scan_phase
scan_phase-Ends s rank db none flags enough (r, h) = cc
scan_phase-Ends s rank db (some (raise e)) flags enough h = caught-Ends s 0 0 e db
scan_phase-Ends s rank db (some (ok found)) flags enough h =
    upsert_phase-Ends s rank (length found) (upsert_scanned s.broken_at found 0 db) flags enough

-- How a run ends, by the lock that it meets.
abbrev pub EndsFrom : Surroundings → Lock → Database → Option Ended → Type 0
EndsFrom s none db end = Ends s end
EndsFrom s (some holder) db end =
    end
    ≡ some (record {
      outcome = raise lock_not_acquired;
      lock = some holder;
      db = db;
      redis = s.pool.redis;
    })

pub acquire_lock-free :
    (token : Text) (up : Bool) → up ≡ true → acquire_lock up token none ≡ (ok token, some token)
unfolding acquire_lock
acquire_lock-free token up h = rw h refl

acquire_lock-held :
    (token holder : Text) (up : Bool)
    → up ≡ true
    → acquire_lock up token (some holder) ≡ (raise lock_not_acquired, some holder)
unfolding acquire_lock
acquire_lock-held token holder up h = rw h refl

-- On a server whose scans come back to the cursor 0, with more fuel than they have pages, and with `SET`
-- answered, every run ends, and: if another run holds the lock, with LockNotAcquired and nothing changed;
-- else, whatever fails on the way, not one counter has been restored, and of the lock, as others have
-- left it: the release deletes nothing where the replies are bytes, so that the run's own token stays;
-- where they are text, GET is answered, DEL reaches the server and nothing comes between them, the lock is
-- left as
-- app/lua/unlock.lua leaves it; and it is in any case deleted or left.
pub run-EndsFrom :
    (s : Surroundings) (rank : ℕ → ℕ) (lock : Lock) (db : Database)
    → s.reachable ≡ true
    → Descends s.pool quota_pattern rank
    → Descends s.pool flag_pattern rank
    → rank 0 < s.fuel
    → EndsFrom s lock db (run s lock db)
unfolding run locked scan_quota_keys
run-EndsFrom s rank (some holder) db up quotas flags enough =
    rw (acquire_lock-held s.token holder s.reachable up) refl
run-EndsFrom s rank none db up quotas flags enough = rw (acquire_lock-free s.token s.reachable up) (
    scan_phase-Ends s rank db (scan_quota_keys s.fuel s.pool) flags enough
      (scan_from-some s.pool quota_pattern (read_values s.pool) rank s.fuel 0 quotas enough))
