-- ===== src/Scheduler/Kept.antt =====
-- What the loops keep, in any order of their iterations.
use quotaguard.Rollup.Monotone.{Raises-refl}
use quotaguard.Rollup.Persist.{Raises-rollups}
use quotaguard.Webhooks.Delivery.Attempts.{IsHandled-IsSafe, Rowwise-OutboxFrom, Rowwise-imp}
use quotaguard.Prelude.{All, Bool-cases, List, Option, [], inl, inr, none, some, ℕ, ◌<◌, ◌==◌, ◌∷◌}
use quotaguard.Database.{Database}
use quotaguard.Pool.{flag_pattern, quota_pattern}
use quotaguard.Pool.Scans.{Descends}
use quotaguard.Rollup.Job.{Ended}
use quotaguard.Webhooks.{Outside}
use quotaguard.Webhooks.Delivery.Pass.{delivery_handles_due}
use quotaguard.Webhooks.Delivery.Settled.{deliver_webhooks-keeps}
use quotaguard.Scheduler.{
  Iteration, Shared, after_run, and_then, iterate, loops, rollup, rollup_iteration,
  webhook_iteration, webhooks,
}
use quotaguard.Scheduler.Grows.{Rowwise-Grows}
use quotaguard.Scheduler.Runs.{InOrder, Kept, Kept-refl, Kept-trans, KeptBy, run-KeptBy}

-- The scans of a run come back to the cursor 0, with more fuel than they have pages.
abbrev pub ScansEnd : Iteration → Type 0
ScansEnd (webhooks o) = Unit
ScansEnd (rollup s) =
    (rank : ℕ → ℕ) × Descends s.pool quota_pattern rank
    × Descends s.pool flag_pattern rank
    × (rank 0 < s.fuel)

abbrev pub KeptIn : ℕ → Database → Option Shared → Type 0
KeptIn max_attempts db none = ⊥
KeptIn max_attempts db (some st) = Kept max_attempts db st.db

webhook_iteration-Kept :
    (m : ℕ) (o : Outside) (st : Shared) → InOrder st.db → Kept m st.db (webhook_iteration m o st).db
unfolding webhook_iteration
webhook_iteration-Kept m o st h =
    let step = Rowwise-imp _ _ (IsHandled-IsSafe o m) (delivery_handles_due o m st.db h.1).1 in
    let (keys, plans, rollups) = deliver_webhooks-keeps o m st.db in
    (
      Raises-rollups st.db st.db _ rollups (Raises-refl st.db h.0),
      (Rowwise-OutboxFrom m 1 _ _ step h.1, Rowwise-Grows m _ _ step),
    )

after_run-KeptIn :
    (m : ℕ) (db : Database) (o : Option Ended) → KeptBy m db o → KeptIn m db (after_run o)
unfolding after_run
after_run-KeptIn m db none h = h
after_run-KeptIn m db (some o) h = h

iterate-KeptIn :
    (interval m : ℕ) (i : Iteration) (st : Shared)
    → ScansEnd i
    → InOrder st.db
    → KeptIn m st.db (iterate interval m i st)
unfolding iterate rollup_iteration
iterate-KeptIn interval m (webhooks o) st ends h = webhook_iteration-Kept m o st h
iterate-KeptIn interval m (rollup s) st (rank, quotas, flags, enough) h =
    elim (Bool-cases (interval == 0)) [
      | inl off ↦ rw off (Kept-refl m st.db h)
      | inr on ↦
          rw on
            (after_run-KeptIn m st.db _ (run-KeptBy m s rank st.lock st.db quotas flags enough h))
    ]

chain-KeptIn :
    (m : ℕ) (a b : Database) (last : Option Shared) → Kept m a b → KeptIn m b last → KeptIn m a last
chain-KeptIn m a b none h k = k
chain-KeptIn m a b (some st) h k = Kept-trans m a b st.db h k

and_then-KeptIn :
    (m : ℕ) (a : Database) (st : Option Shared) (rest : Shared → Option Shared)
    → KeptIn m a st
    → ((st : Shared) → InOrder st.db → KeptIn m st.db (rest st))
    → KeptIn m a (and_then rest st)
unfolding and_then
and_then-KeptIn m a none rest h later = h
and_then-KeptIn m a (some st) rest h later =
    chain-KeptIn m a st.db (rest st) h (later st (h.0.0, h.1.0))

-- The two loops, in any order of their iterations, on tables whose rows have the ids 1, 2, …, with scans
-- that end: every iteration ends, whatever fails in it, no use of any key and month goes down, and every
-- outbox row stays at its place, as it is once it is delivered, and else with no fewer attempts, and no
-- more than the limit.
pub loops-Kept :
    (interval max_attempts : ℕ) (is : List Iteration) (st : Shared)
    → All ScansEnd is
    → InOrder st.db
    → KeptIn max_attempts st.db (loops interval max_attempts is st)
unfolding loops
loops-Kept interval m [] st ends h = Kept-refl m st.db h
loops-Kept interval m (i ∷ is) st ends h =
    and_then-KeptIn m st.db (iterate interval m i st) (loops interval m is)
      (iterate-KeptIn interval m i st ends.0 h) (λ st' h'. loops-Kept interval m is st' ends.1 h')
