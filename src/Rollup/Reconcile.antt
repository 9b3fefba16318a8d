-- ===== src/Rollup/Reconcile.antt =====
-- The reconciliation beside the warnings of the check path.
use quotaguard.Prelude.{List, Option, Text, [], none, some, ℕ, ℤ, ◌∷◌, ◌≤◌}
use quotaguard.Models.{ApiKey, Plan, WebhookOutbox}
use quotaguard.Pool.{Pool}
use quotaguard.Errors.{Result, ok, raise}
use quotaguard.Database.{Database, key_by_key_id}
use quotaguard.Webhooks.{Payload, enqueue_soft_warning}
use quotaguard.Webhooks.Once.{Warn, enqueue-once, enqueue_soft_warning-once, warnings}
use quotaguard.Rollup.{
  parse_flag_key, reconcile_enqueue, reconcile_flag, reconcile_key, reconcile_missing,
  reconcile_read, reconcile_soft_webhooks,
}

-- What writes to the outbox: a warning of the check path, or a run of the reconciliation with the flags
-- that it scanned.
pub data Write : Type 0 where
  warn : Warn → Write
  reconcile : Pool → ℕ → List Text → Write

module _ (to_json : Payload → Text) where
  abbrev pub write : Write → Database → Database
  write (warn w) db = (enqueue_soft_warning to_json w.broken w.key w.month w.used w.now db).1
  write (reconcile pool now flags) db = (reconcile_soft_webhooks to_json pool now flags db).1

  unfoldable pub write_all : List Write → Database → Database
  write_all [] db = db
  write_all (w ∷ ws) db = write_all ws (write w db)

  reconcile_enqueue-once :
      (k : ApiKey) (m : Text) (used : ℤ) (now : ℕ) (db : Database) (plan : Option Plan)
      → (key : ℕ) (month : Text) → warnings key month db ≤ 1
      → warnings key month (reconcile_enqueue to_json k m used now db plan).1 ≤ 1
  unfolding reconcile_enqueue
  reconcile_enqueue-once k m used now db none key month h = h
  reconcile_enqueue-once k m used now db (some plan) key month h =
      enqueue-once k.id m _ now db key month h

  reconcile_read-once :
      (k : ApiKey) (m : Text) (now : ℕ) (db : Database) (used : Result (Option ℕ))
      → (key : ℕ) (month : Text) → warnings key month db ≤ 1
      → warnings key month (reconcile_read to_json k m now db used).1 ≤ 1
  unfolding reconcile_read
  reconcile_read-once k m now db (raise e) key month h = h
  reconcile_read-once k m now db (ok used) key month h =
      reconcile_enqueue-once k m _ now db _ key month h

  reconcile_missing-once :
      (pool : Pool) (k : ApiKey) (m : Text) (now : ℕ) (db : Database) (row : Option WebhookOutbox)
      → (key : ℕ) (month : Text) → warnings key month db ≤ 1
      → warnings key month (reconcile_missing to_json pool k m now db row).1 ≤ 1
  unfolding reconcile_missing
  reconcile_missing-once pool k m now db (some row) key month h = h
  reconcile_missing-once pool k m now db none key month h =
      reconcile_read-once k m now db _ key month h

  reconcile_key-once :
      (pool : Pool) (m : Text) (now : ℕ) (db : Database) (k : Option ApiKey)
      → (key : ℕ) (month : Text) → warnings key month db ≤ 1
      → warnings key month (reconcile_key to_json pool m now db k).1 ≤ 1
  unfolding reconcile_key
  reconcile_key-once pool m now db none key month h = h
  reconcile_key-once pool m now db (some k) key month h =
      reconcile_missing-once pool k m now db _ key month h

  reconcile_flag-once :
      (pool : Pool) (now : ℕ) (db : Database) (parsed : Option (Text × Text))
      → (key : ℕ) (month : Text) → warnings key month db ≤ 1
      → warnings key month (reconcile_flag to_json pool now db parsed).1 ≤ 1
  unfolding reconcile_flag
  reconcile_flag-once pool now db none key month h = h
  reconcile_flag-once pool now db (some (key_id, m)) key month h =
      reconcile_key-once pool m now db (key_by_key_id key_id db) key month h

  reconcile_soft_webhooks-once :
      (pool : Pool) (now : ℕ) (flags : List Text) (db : Database) (key : ℕ) (month : Text)
      → warnings key month db ≤ 1
      → warnings key month (reconcile_soft_webhooks to_json pool now flags db).1 ≤ 1
  unfolding reconcile_soft_webhooks
  reconcile_soft_webhooks-once pool now [] db key month h = h
  reconcile_soft_webhooks-once pool now (f ∷ flags) db key month h =
      reconcile_soft_webhooks-once pool now flags _ key month
        (reconcile_flag-once pool now db (parse_flag_key f) key month h)

  write-once :
      (w : Write) (db : Database) (key : ℕ) (month : Text)
      → warnings key month db ≤ 1
      → warnings key month (write w db) ≤ 1
  write-once (warn w) db key month h = enqueue_soft_warning-once to_json w db key month h
  write-once (reconcile pool now flags) db key month h =
      reconcile_soft_webhooks-once pool now flags db key month h

-- Over any sequence of warnings of the check path and of runs of the reconciliation, in any order and with
-- any flags and counters, a key has at most one outbox row for a month, if it had at most one at the start.
pub reconciled_once :
    (to_json : Payload → Text) (ws : List Write) (db : Database) (key : ℕ) (month : Text)
    → warnings key month db ≤ 1
    → warnings key month (write_all to_json ws db) ≤ 1
unfolding write_all
reconciled_once to_json [] db key month h = h
reconciled_once to_json (w ∷ ws) db key month h =
    reconciled_once to_json ws (write to_json w db) key month (write-once to_json w db key month h)
