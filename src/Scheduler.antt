-- ===== src/Scheduler.antt =====
-- app/scheduler.py: the two loops, in any order of their iterations. The intervals of sleep between them
-- and the cancellation at the end are left out.
pub mod Grows
pub mod Runs
pub mod Kept
mod Tests
use quotaguard.Prelude.{List, Option, [], if◌then◌else◌, none, some, ℕ, ◌==◌, ◌∷◌}
use quotaguard.Database.{Database}
use quotaguard.Webhooks.{Outside, deliver_webhooks}
use quotaguard.Rollup.Job.{Ended, Lock, Surroundings, run}

-- What the loops share: the lock of the rollup on the server, and the database.
pub record Shared : Type 0 where
  pub lock : Lock
  pub db : Database

-- One iteration of `webhook_loop`
unfoldable pub webhook_iteration : ℕ → Outside → Shared → Shared
webhook_iteration max_attempts o st = record st { db = (deliver_webhooks o max_attempts st.db).1 }

-- An exception of the run, `LockNotAcquired` or another, is logged and the loop goes on.
unfoldable pub after_run : Option Ended → Option Shared
after_run none = none
after_run (some o) = some (record { lock = o.lock; db = o.db })

-- One iteration of `rollup_loop`; an interval of 0 turns the loop off. None is the end of the scans' fuel.
unfoldable pub rollup_iteration : ℕ → Surroundings → Shared → Option Shared
rollup_iteration interval s st = if interval == 0 then some st else after_run (run s st.lock st.db)

pub data Iteration : Type 0 where
  webhooks : Outside → Iteration
  rollup : Surroundings → Iteration

unfoldable pub iterate : ℕ → ℕ → Iteration → Shared → Option Shared
iterate interval max_attempts (webhooks o) st = some (webhook_iteration max_attempts o st)
iterate interval max_attempts (rollup s) st = rollup_iteration interval s st

unfoldable pub and_then : (Shared → Option Shared) → Option Shared → Option Shared
and_then rest none = none
and_then rest (some st) = rest st

-- The iterations that the two tasks make, in the order in which they come.
unfoldable pub loops : ℕ → ℕ → List Iteration → Shared → Option Shared
loops interval max_attempts [] st = some st
loops interval max_attempts (i ∷ is) st =
    and_then (loops interval max_attempts is) (iterate interval max_attempts i st)
