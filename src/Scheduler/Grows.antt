-- ===== src/Scheduler/Grows.antt =====
-- An outbox that gets new rows at its end.
use quotaguard.Errors.{Result, ok, raise}
use quotaguard.Pool.{Pool}
use quotaguard.Prelude.{
  List, Option, Option-cases, Text, [], arith, inl, inr, length, none, refl, some, suc, ℕ, ℤ, ◌++◌,
  ◌+◌, ◌∷◌, ◌≡◌, ◌⊎◌,
}
use quotaguard.Models.{ApiKey, Plan, WebhookOutbox}
use quotaguard.Database.{Database, outbox_for}
use quotaguard.Webhooks.{Payload, enqueue, insert_outbox, outbox_row}
use quotaguard.Webhooks.Delivery.{OutboxFrom, Rowwise}
use quotaguard.Webhooks.Delivery.Attempts.{IsSafe, IsSafe-trans}
use quotaguard.Rollup.{
  parse_flag_key, reconcile_enqueue, reconcile_flag, reconcile_key, reconcile_missing,
  reconcile_read, reconcile_soft_webhooks,
}
use quotaguard.Rollup.Job.{reconcile_flags}

-- Every row is still at its place: as it was if it is delivered, with no fewer attempts, and no more than
-- the limit if they were within it. New rows come after them.
abbrev pub Grows : ℕ → List WebhookOutbox → List WebhookOutbox → Type 0
Grows max_attempts [] ws = Unit
Grows max_attempts (v ∷ vs) [] = ⊥
Grows max_attempts (v ∷ vs) (w ∷ ws) = IsSafe max_attempts v w × Grows max_attempts vs ws

Grows-append : (m : ℕ) (vs ws : List WebhookOutbox) → Grows m vs (vs ++ ws)
Grows-append m [] ws = tt
Grows-append m (v ∷ vs) ws = ((refl, (λ d. refl), omega arith, λ k. k), Grows-append m vs ws)

pub Grows-refl : (m : ℕ) (vs : List WebhookOutbox) → Grows m vs vs
Grows-refl m [] = tt
Grows-refl m (v ∷ vs) = ((refl, (λ d. refl), omega arith, λ k. k), Grows-refl m vs)

pub Grows-trans :
    (m : ℕ) (us vs ws : List WebhookOutbox) → Grows m us vs → Grows m vs ws → Grows m us ws
Grows-trans m [] vs ws h k = tt
Grows-trans m (u ∷ us) [] ws h k = absurd h
Grows-trans m (u ∷ us) (v ∷ vs) [] h k = absurd k
Grows-trans m (u ∷ us) (v ∷ vs) (w ∷ ws) h k =
    (IsSafe-trans m u v w h.0 k.0, Grows-trans m us vs ws h.1 k.1)

pub Rowwise-Grows : (m : ℕ) (vs ws : List WebhookOutbox) → Rowwise (IsSafe m) vs ws → Grows m vs ws
Rowwise-Grows m [] ws h = tt
Rowwise-Grows m (v ∷ vs) [] h = absurd h
Rowwise-Grows m (v ∷ vs) (w ∷ ws) h = (h.0, Rowwise-Grows m vs ws h.1)

OutboxFrom-append :
    (n : ℕ) (vs : List WebhookOutbox) (w : WebhookOutbox)
    → OutboxFrom n vs
    → w.id ≡ length vs + n
    → OutboxFrom n (vs ++ w ∷ [])
OutboxFrom-append n [] w h i = (omega arith, tt)
OutboxFrom-append n (v ∷ vs) w h i = (h.0, OutboxFrom-append (suc n) vs w h.1 (omega arith))

-- The outbox is as it was, or has one more row, with the next id.
abbrev IsEnqueued : List WebhookOutbox → List WebhookOutbox → Type 0
IsEnqueued vs ws = (ws ≡ vs) ⊎ ((w : WebhookOutbox) × (w.id ≡ length vs + 1) × (ws ≡ vs ++ w ∷ []))

-- The ids go up by 1 before and after, and the outbox grows.
abbrev pub Enlarges : ℕ → Database → Database → Type 0
Enlarges max_attempts a b = OutboxFrom 1 b.outbox × Grows max_attempts a.outbox b.outbox

IsEnqueued-Enlarges :
    (m : ℕ) (a b : Database) → OutboxFrom 1 a.outbox → IsEnqueued a.outbox b.outbox → Enlarges m a b
IsEnqueued-Enlarges m a b h (inl e) = rw e (h, Grows-refl m a.outbox)
IsEnqueued-Enlarges m a b h (inr (w, i, e)) =
    rw e (OutboxFrom-append 1 a.outbox w h i, Grows-append m a.outbox (w ∷ []))

insert_outbox-IsEnqueued :
    (row : WebhookOutbox) (db : Database) (old : Option WebhookOutbox)
    → row.id ≡ length db.outbox + 1
    → IsEnqueued db.outbox (insert_outbox row db old).1.outbox
unfolding insert_outbox
insert_outbox-IsEnqueued row db none i = inr (row, i, refl)
insert_outbox-IsEnqueued row db (some old) i = inl refl

enqueue-IsEnqueued :
    (key : ℕ) (month payload : Text) (now : ℕ) (db : Database)
    → IsEnqueued db.outbox (enqueue key month payload now db).1.outbox
unfolding enqueue outbox_row
enqueue-IsEnqueued key month payload now db = insert_outbox-IsEnqueued _ db _ refl

reconcile_enqueue-IsEnqueued :
    (to_json : Payload → Text) (key : ApiKey) (month : Text) (used : ℤ) (now : ℕ) (db : Database)
    → (plan : Option Plan)
    → IsEnqueued db.outbox (reconcile_enqueue to_json key month used now db plan).1.outbox
unfolding reconcile_enqueue
reconcile_enqueue-IsEnqueued to_json key month used now db none = inl refl
reconcile_enqueue-IsEnqueued to_json key month used now db (some plan) =
    enqueue-IsEnqueued key.id month _ now db

reconcile_read-IsEnqueued :
    (to_json : Payload → Text) (key : ApiKey) (month : Text) (now : ℕ) (db : Database)
    → (used : Result (Option ℕ))
    → IsEnqueued db.outbox (reconcile_read to_json key month now db used).1.outbox
unfolding reconcile_read
reconcile_read-IsEnqueued to_json key month now db (raise e) = inl refl
reconcile_read-IsEnqueued to_json key month now db (ok used) =
    reconcile_enqueue-IsEnqueued to_json key month _ now db _

reconcile_key-IsEnqueued :
    (to_json : Payload → Text) (pool : Pool) (month : Text) (now : ℕ) (db : Database)
    → (key : Option ApiKey)
    → IsEnqueued db.outbox (reconcile_key to_json pool month now db key).1.outbox
unfolding reconcile_key reconcile_missing
reconcile_key-IsEnqueued to_json pool month now db none = inl refl
reconcile_key-IsEnqueued to_json pool month now db (some key) =
    elim (Option-cases (outbox_for key.id month db)) [
      | inl fresh ↦ rw fresh (reconcile_read-IsEnqueued to_json key month now db _)
      | inr (row, there) ↦ rw there (inl refl)
    ]

reconcile_flag-IsEnqueued :
    (to_json : Payload → Text) (pool : Pool) (now : ℕ) (db : Database) (flag : Option (Text × Text))
    → IsEnqueued db.outbox (reconcile_flag to_json pool now db flag).1.outbox
unfolding reconcile_flag
reconcile_flag-IsEnqueued to_json pool now db none = inl refl
reconcile_flag-IsEnqueued to_json pool now db (some (key_id, month)) =
    reconcile_key-IsEnqueued to_json pool month now db _

reconcile_soft_webhooks-Enlarges :
    (m : ℕ) (to_json : Payload → Text) (pool : Pool) (now : ℕ) (flags : List Text) (db : Database)
    → OutboxFrom 1 db.outbox
    → Enlarges m db (reconcile_soft_webhooks to_json pool now flags db).1
unfolding reconcile_soft_webhooks
reconcile_soft_webhooks-Enlarges m to_json pool now [] db h = (h, Grows-refl m db.outbox)
reconcile_soft_webhooks-Enlarges m to_json pool now (flag ∷ flags) db h =
    let first_row =
      IsEnqueued-Enlarges m db (reconcile_flag to_json pool now db (parse_flag_key flag)).1 h
        (reconcile_flag-IsEnqueued to_json pool now db (parse_flag_key flag)) in
    let db1 = (reconcile_flag to_json pool now db (parse_flag_key flag)).1 in
    let rest = reconcile_soft_webhooks-Enlarges m to_json pool now flags db1 first_row.0 in
    (rest.0, Grows-trans m db.outbox db1.outbox _ first_row.1 rest.1)

pub reconcile_flags-Enlarges :
    (m : ℕ) (to_json : Payload → Text) (pool : Pool) (now : ℕ) (db : Database)
    → (flags : Result (List Text)) → OutboxFrom 1 db.outbox
    → Enlarges m db (reconcile_flags to_json pool now db flags).1
unfolding reconcile_flags
reconcile_flags-Enlarges m to_json pool now db (raise e) h = (h, Grows-refl m db.outbox)
reconcile_flags-Enlarges m to_json pool now db (ok flags) h =
    reconcile_soft_webhooks-Enlarges m to_json pool now flags db h
