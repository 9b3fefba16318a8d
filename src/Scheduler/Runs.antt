-- ===== src/Scheduler/Runs.antt =====
-- What a run of the rollup leaves, however it ends.
use quotaguard.Prelude.{List, Option, Text, length, none, some, ℕ, ◌<◌, ◌≡◌}
use quotaguard.Errors.{Exception, Result, ok, raise}
use quotaguard.Database.{Database}
use quotaguard.Pool.{
  Scanned, flag_pattern, quota_pattern, read_values, scan_flag_keys, scan_quota_keys,
}
use quotaguard.Pool.Scans.{Descends, scan_from-some}
use quotaguard.Rollup.Upsert.{RowsFrom}
use quotaguard.Rollup.Job.{
  Ended, Lock, Surroundings, caught, finish, locked, reconcile_phase, restore_phase, run,
  scan_phase, upsert_phase, upsert_scanned,
}
use quotaguard.Rollup.Lock.{restore_rows-nothing}
use quotaguard.Rollup.Monotone.{Raises, Raises-refl, Raises-trans}
use quotaguard.Rollup.Persist.{Raises-rollups, reconcile_flags-rollups}
use quotaguard.Rollup.Stored.{upsert_scanned-AllStored}
use quotaguard.Webhooks.Delivery.{OutboxFrom}
use quotaguard.Scheduler.Grows.{Enlarges, Grows-refl, Grows-trans, reconcile_flags-Enlarges}

-- No use of any key and month goes down, no outbox row is lost, and the ids stay in order.
abbrev pub Kept : ℕ → Database → Database → Type 0
Kept max_attempts a b = Raises a b × Enlarges max_attempts a b

abbrev pub InOrder : Database → Type 0
InOrder db = RowsFrom 1 db.rollups × OutboxFrom 1 db.outbox

pub Kept-refl : (m : ℕ) (db : Database) → InOrder db → Kept m db db
Kept-refl m db h = (Raises-refl db h.0, (h.1, Grows-refl m db.outbox))

pub Kept-trans : (m : ℕ) (a b c : Database) → Kept m a b → Kept m b c → Kept m a c
Kept-trans m a b c (raised, (from, grown)) (raised', (from', grown')) = (
  Raises-trans a b c raised raised',
  (from', Grows-trans m a.outbox b.outbox c.outbox grown grown'),
)

-- What a run that ends has left.
abbrev pub KeptBy : ℕ → Database → Option Ended → Type 0
KeptBy max_attempts db none = ⊥
KeptBy max_attempts db (some o) = Kept max_attempts db o.db

reconcile_phase-KeptBy :
    (m : ℕ) (s : Surroundings) (scanned count : ℕ) (db mid : Database)
    → (flags : Option (Result (List Text))) → (r : Result (List Text)) × (flags ≡ some r)
    → Kept m db mid
    → KeptBy m db (reconcile_phase s scanned count 0 s.pool.redis mid flags)
unfolding reconcile_phase finish
reconcile_phase-KeptBy m s scanned count db mid none (r, h) kept = cc
reconcile_phase-KeptBy m s scanned count db mid (some flags) h kept =
    let same = reconcile_flags-rollups s.to_json s.pool s.now mid flags in
    let (raised, (from, grown)) = kept in
    let (from', grown') = reconcile_flags-Enlarges m s.to_json s.pool s.now mid flags from in
    (
      Raises-rollups db mid _ same raised,
      (from', Grows-trans m db.outbox mid.outbox _ grown grown'),
    )

restore_phase-KeptBy :
    (m : ℕ) (s : Surroundings) (rank : ℕ → ℕ) (scanned count : ℕ) (db mid : Database)
    → Descends s.pool flag_pattern rank
    → rank 0 < s.fuel
    → Kept m db mid
    → KeptBy m db (restore_phase s scanned count mid)
unfolding restore_phase scan_flag_keys
restore_phase-KeptBy m s rank scanned count db mid flags enough kept =
    rw (restore_rows-nothing mid mid.rollups s.pool.redis) (
      reconcile_phase-KeptBy m s scanned count db mid (scan_flag_keys s.fuel s.pool)
        (scan_from-some s.pool flag_pattern ok rank s.fuel 0 flags enough) kept)

caught-KeptBy :
    (m : ℕ) (s : Surroundings) (scanned count : ℕ) (e : Exception) (db mid : Database)
    → Kept m db mid
    → KeptBy m db (some (caught s scanned count e mid))
unfolding caught finish
caught-KeptBy m s scanned count e db mid kept = kept

upsert_phase-KeptBy :
    (m : ℕ) (s : Surroundings) (rank : ℕ → ℕ) (scanned count : ℕ) (db mid : Database)
    → (end : Result (Unit {0})) → Descends s.pool flag_pattern rank
    → rank 0 < s.fuel
    → Kept m db mid
    → KeptBy m db (upsert_phase s scanned (count, end, mid))
unfolding upsert_phase
upsert_phase-KeptBy m s rank scanned count db mid (raise e) flags enough kept =
    caught-KeptBy m s scanned count e db mid kept
upsert_phase-KeptBy m s rank scanned count db mid (ok t) flags enough kept =
    restore_phase-KeptBy m s rank scanned count db mid flags enough kept

scan_phase-KeptBy :
    (m : ℕ) (s : Surroundings) (rank : ℕ → ℕ) (db : Database)
    → (found : Option (Result (List Scanned))) → (r : Result (List Scanned)) × (found ≡ some r)
    → Descends s.pool flag_pattern rank
    → rank 0 < s.fuel
    → InOrder db
    → KeptBy m db (scan_phase s db found)
unfolding scan_phase
scan_phase-KeptBy m s rank db none (r, h) flags enough ids = cc
scan_phase-KeptBy m s rank db (some (raise e)) h flags enough ids =
    caught-KeptBy m s 0 0 e db db (Kept-refl m db ids)
scan_phase-KeptBy m s rank db (some (ok xs)) h flags enough ids =
    let ((raised, keys, outbox), all) = upsert_scanned-AllStored s.broken_at xs 0 db ids.0 in
    let kept : Enlarges m db (upsert_scanned s.broken_at xs 0 db).2 =
      rw outbox (ids.1, Grows-refl m db.outbox) in
    upsert_phase-KeptBy m s rank (length xs) _ db _ _ flags enough (raised, kept)

locked-KeptBy :
    (m : ℕ) (s : Surroundings) (rank : ℕ → ℕ) (db : Database) (token : Result Text) (lock : Lock)
    → Descends s.pool quota_pattern rank
    → Descends s.pool flag_pattern rank
    → rank 0 < s.fuel
    → InOrder db
    → KeptBy m db (locked s db (token, lock))
unfolding locked scan_quota_keys
locked-KeptBy m s rank db (raise e) lock quotas flags enough ids = Kept-refl m db ids
locked-KeptBy m s rank db (ok token) lock quotas flags enough ids =
    scan_phase-KeptBy m s rank db (scan_quota_keys s.fuel s.pool)
      (scan_from-some s.pool quota_pattern (read_values s.pool) rank s.fuel 0 quotas enough) flags
      enough ids

pub run-KeptBy :
    (m : ℕ) (s : Surroundings) (rank : ℕ → ℕ) (lock : Lock) (db : Database)
    → Descends s.pool quota_pattern rank
    → Descends s.pool flag_pattern rank
    → rank 0 < s.fuel
    → InOrder db
    → KeptBy m db (run s lock db)
unfolding run
run-KeptBy m s rank lock db quotas flags enough ids =
    locked-KeptBy m s rank db _ _ quotas flags enough ids
