-- ===== src/Rollup/Persist.antt =====
-- A whole run: no monthly row goes down, and a counter that the scan names is in its row.
use quotaguard.Pool.Scans.{Descends, Page, scan_from-some}
use quotaguard.Pool.Complete.{Finds, scan_quota_keys-Finds}
use quotaguard.Rollup.Upsert.{RowsFrom}
use quotaguard.Rollup.Lock.{acquire_lock-free, restore_rows-nothing}
use quotaguard.Prelude.{
  All-Among, Among, Bool, List, Option, Text, [], arith, false, inl, inr, length, none, refl, some,
  true, ℕ, ◌+◌, ◌<◌, ◌∙◌, ◌∷◌, ◌≡◌, ◌⊎◌,
}
use quotaguard.Models.{ApiKey}
use quotaguard.Database.{Database, key_by_key_id, rollup_for}
use quotaguard.Errors.{Exception, Result, ok, raise}
use quotaguard.Webhooks.{Payload, enqueue, insert_outbox}
use quotaguard.Pool.{Pool, Scanned, flag_pattern, quota_pattern, scan_flag_keys, scan_quota_keys}
use quotaguard.Rollup.{
  parse_flag_key, parse_quota_key, quota_limit_of, reconcile_enqueue, reconcile_flag, reconcile_key,
  reconcile_missing, reconcile_read, reconcile_soft_webhooks, upsert_key, upsert_parsed, upsert_row,
}
use quotaguard.Rollup.Job.{
  Ended, Surroundings, caught, finish, is_database_error, locked, reconcile_flags, reconcile_phase,
  restore_phase, run, scan_phase, upsert_phase, upsert_scanned, upsert_then,
}
use quotaguard.Rollup.Monotone.{Raises, Raises-refl}
use quotaguard.Rollup.Stored.{AllStored, KeptFor, Stored, upsert_scanned-AllStored}

pub reconcile_flag-rollups :
    (to_json : Payload → Text) (pool : Pool) (now : ℕ) (db : Database) (flag : Option (Text × Text))
    → (reconcile_flag to_json pool now db flag).1.rollups ≡ db.rollups
unfolding reconcile_flag reconcile_key reconcile_missing reconcile_read reconcile_enqueue enqueue
    insert_outbox
reconcile_flag-rollups to_json pool now db flag = ground arith

reconcile_soft_webhooks-rollups :
    (to_json : Payload → Text) (pool : Pool) (now : ℕ) (flags : List Text) (db : Database)
    → (reconcile_soft_webhooks to_json pool now flags db).1.rollups ≡ db.rollups
unfolding reconcile_soft_webhooks
reconcile_soft_webhooks-rollups to_json pool now [] db = refl
reconcile_soft_webhooks-rollups to_json pool now (flag ∷ flags) db =
    reconcile_soft_webhooks-rollups to_json pool now flags _
    ∙ reconcile_flag-rollups to_json pool now db (parse_flag_key flag)

pub reconcile_flags-rollups :
    (to_json : Payload → Text) (pool : Pool) (now : ℕ) (db : Database) (flags : Result (List Text))
    → (reconcile_flags to_json pool now db flags).1.rollups ≡ db.rollups
unfolding reconcile_flags
reconcile_flags-rollups to_json pool now db (raise e) = refl
reconcile_flags-rollups to_json pool now db (ok flags) =
    reconcile_soft_webhooks-rollups to_json pool now flags db

-- An exception of the upserts that is none of the database.
abbrev IsOther : Result (Unit {0}) → Type 0
IsOther (ok t) = Unit
IsOther (raise e) = is_database_error e ≡ false

upsert_row-raise :
    (month : Text) (used : ℕ) (db : Database) (key : Option ApiKey) (e : Exception)
    → upsert_row month used db key ≡ raise e
    → is_database_error e ≡ false
unfolding upsert_row upsert_key quota_limit_of is_database_error
upsert_row-raise month used db key e h = ground arith

upsert_parsed-raise :
    (used : ℕ) (db : Database) (parsed : Option (Text × Text)) (e : Exception)
    → upsert_parsed false used db parsed ≡ raise e
    → is_database_error e ≡ false
unfolding upsert_parsed
upsert_parsed-raise used db none e h = cc
upsert_parsed-raise used db (some (key_id, month)) e h = upsert_row-raise month used db _ e h

upsert_then-IsOther :
    (broken_at : Text → Bool) (rest : List Scanned) (count : ℕ) (db : Database)
    → (r : Result (ℕ × Database)) → ((e : Exception) → r ≡ raise e → is_database_error e ≡ false)
    → ((n : ℕ) (mid : Database) → IsOther (upsert_scanned broken_at rest n mid).1)
    → IsOther (upsert_then (upsert_scanned broken_at rest) count db r).1
unfolding upsert_then
upsert_then-IsOther broken_at rest count db (raise e) h later = h e refl
upsert_then-IsOther broken_at rest count db (ok (n, mid)) h later = later (count + n) mid

upsert_scanned-IsOther :
    (broken_at : Text → Bool) (found : List Scanned) (count : ℕ) (db : Database)
    → ((key : Text) → broken_at key ≡ false)
    → IsOther (upsert_scanned broken_at found count db).1
unfolding upsert_scanned
upsert_scanned-IsOther broken_at [] count db sound = tt
upsert_scanned-IsOther broken_at ((key, used) ∷ rest) count db sound =
    upsert_then-IsOther broken_at rest count db _
      (λ e h. upsert_parsed-raise used db (parse_quota_key key) e (rw (sound key) at h))
      (λ n mid. upsert_scanned-IsOther broken_at rest n mid sound)

-- What a run leaves of the rows; it may end with an exception before it has come to the counter.
abbrev pub Persists : Database → Text → ℕ → Option Ended → Type 0
Persists db key v none = ⊥
Persists db key v (some o) =
    Raises db o.db
    × (((e : Exception) × (o.outcome ≡ raise e)) ⊎ Stored v db o.db (parse_quota_key key))

pub Raises-rollups : (a b c : Database) → c.rollups ≡ b.rollups → Raises a b → Raises a c
unfolding rollup_for
Raises-rollups a b c e h = rw e h

KeptFor-rollups :
    (v : ℕ) (month : Text) (b c : Database) (key : Option ApiKey)
    → c.rollups ≡ b.rollups
    → KeptFor month v b key
    → KeptFor month v c key
unfolding rollup_for
KeptFor-rollups v month b c none e h = h
KeptFor-rollups v month b c (some key) e h = rw e h

Stored-rollups :
    (v : ℕ) (a b c : Database) (parsed : Option (Text × Text))
    → c.rollups ≡ b.rollups
    → Stored v a b parsed
    → Stored v a c parsed
unfolding rollup_for
Stored-rollups v a b c none e h = h
Stored-rollups v a b c (some (key_id, month)) e h =
    KeptFor-rollups v month b c (key_by_key_id key_id a) e h

reconcile_phase-Persists :
    (s : Surroundings) (scanned count : ℕ) (db mid : Database) (key : Text) (v : ℕ)
    → (flags : Option (Result (List Text))) → (r : Result (List Text)) × (flags ≡ some r)
    → Raises db mid
    → Stored v db mid (parse_quota_key key)
    → Persists db key v (reconcile_phase s scanned count 0 s.pool.redis mid flags)
unfolding reconcile_phase finish
reconcile_phase-Persists s scanned count db mid key v none (r, h) raised stored = cc
reconcile_phase-Persists s scanned count db mid key v (some flags) h raised stored =
    let kept = reconcile_flags-rollups s.to_json s.pool s.now mid flags in
    (
      Raises-rollups db mid _ kept raised,
      inr (Stored-rollups v db mid _ (parse_quota_key key) kept stored),
    )

restore_phase-Persists :
    (s : Surroundings) (rank : ℕ → ℕ) (scanned count : ℕ) (db mid : Database) (key : Text) (v : ℕ)
    → Descends s.pool flag_pattern rank
    → rank 0 < s.fuel
    → Raises db mid
    → Stored v db mid (parse_quota_key key)
    → Persists db key v (restore_phase s scanned count mid)
unfolding restore_phase scan_flag_keys
restore_phase-Persists s rank scanned count db mid key v flags enough raised stored =
    rw (restore_rows-nothing mid mid.rollups s.pool.redis) (
      reconcile_phase-Persists s scanned count db mid key v (scan_flag_keys s.fuel s.pool)
        (scan_from-some s.pool flag_pattern ok rank s.fuel 0 flags enough) raised stored)

caught-Persists :
    (s : Surroundings) (scanned count : ℕ) (e : Exception) (db mid : Database) (key : Text) (v : ℕ)
    → is_database_error e ≡ false
    → Raises db mid
    → Persists db key v (some (caught s scanned count e mid))
unfolding caught finish
caught-Persists s scanned count e db mid key v other raised = (raised, inl (e, rw other refl))

upsert_phase-Persists :
    (s : Surroundings) (rank : ℕ → ℕ) (scanned : ℕ) (db : Database) (key : Text) (v : ℕ)
    → (found : List Scanned) (count : ℕ) (end : Result (Unit {0})) (mid : Database)
    → Descends s.pool flag_pattern rank
    → rank 0 < s.fuel
    → Among (key, v) found
    → Raises db mid
    → AllStored db mid found end
    → IsOther end
    → Persists db key v (upsert_phase s scanned (count, end, mid))
unfolding upsert_phase
upsert_phase-Persists s rank scanned db key v found count (raise e) mid flags enough m raised all
      other =
    caught-Persists s scanned count e db mid key v other raised
upsert_phase-Persists s rank scanned db key v found count (ok t) mid flags enough m raised all
      other =
    restore_phase-Persists s rank scanned count db mid key v flags enough raised
      (All-Among (λ (x : Scanned). Stored x.1 db mid (parse_quota_key x.0)) found (key, v) all m)

scan_phase-Persists :
    (s : Surroundings) (rank : ℕ → ℕ) (db : Database) (key : Text) (v : ℕ)
    → (found : Option (Result (List Scanned))) (r : Result (List Scanned)) → found ≡ some r
    → Finds key v r
    → Descends s.pool flag_pattern rank
    → rank 0 < s.fuel
    → RowsFrom 1 db.rollups
    → ((name : Text) → s.broken_at name ≡ false)
    → Persists db key v (scan_phase s db found)
unfolding scan_phase is_database_error
scan_phase-Persists s rank db key v found (raise e) h finds flags enough ids sound =
    let other : is_database_error e ≡ false = rw finds refl in
    rw h (caught-Persists s 0 0 e db db key v other (Raises-refl db ids))
scan_phase-Persists s rank db key v found (ok xs) h finds flags enough ids sound =
    let ((raised, _, _), all) = upsert_scanned-AllStored s.broken_at xs 0 db ids in
    rw h (
      upsert_phase-Persists s rank (length xs) db key v xs _ _ _ flags enough finds raised all
        (upsert_scanned-IsOther s.broken_at xs 0 db sound))

-- A run that gets the lock, on rows with the ids 1, 2, …, on a server whose scans come back to the cursor
-- 0, with more fuel than they have pages, and on a database that does not fail: it ends, no use of any key
-- and month goes down, and each counter that a page of the scan names and that is there is in the row of
-- its key and month, with a use at least as great, if its name is that of a key in the table and the run
-- does not end with an exception.
pub run-Persists :
    (s : Surroundings) (rank : ℕ → ℕ) (db : Database) (keys : List Text) (key : Text) (v : ℕ)
    → s.reachable ≡ true
    → ((name : Text) → s.broken_at name ≡ false)
    → Descends s.pool quota_pattern rank
    → Descends s.pool flag_pattern rank
    → rank 0 < s.fuel
    → RowsFrom 1 db.rollups
    → Page s.pool quota_pattern 0 keys
    → Among key keys
    → s.pool.redis.strings key ≡ some v
    → Persists db key v (run s none db)
unfolding run locked
run-Persists s rank db keys key v up sound quotas flags enough ids p m there =
    let (r, found, finds) =
      scan_quota_keys-Finds s.pool rank s.fuel keys key v quotas enough p m there in
    rw (acquire_lock-free s.token s.reachable up) (
      scan_phase-Persists s rank db key v (scan_quota_keys s.fuel s.pool) r found finds flags enough
        ids sound)
