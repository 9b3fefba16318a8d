-- ===== src/Admission/Runs.antt =====
-- Calls in the order in which Redis runs them, whoever made them: concurrent callers are some
-- order of such calls.
use quotaguard.Prelude.{List, [], arith, if◌then◌else◌, ℕ, ◌+◌, ◌∷◌, ◌≤◌}
use quotaguard.Redis.{Redis, Time}
use quotaguard.Admission.{Argv, Decision, Doubles, Keys, check, now_us_of}

pub record Call : Type 0 where
  pub keys : Keys
  pub argv : Argv
  pub time : Time

abbrev pub decide : Doubles → Call → Redis → Decision
decide d c r = (check d c.keys c.argv c.time r).0

abbrev pub after : Doubles → Call → Redis → Redis
after d c r = (check d c.keys c.argv c.time r).1

module _ (d : Doubles) where
  -- The store after all calls.
  unfoldable pub final : List Call → Redis → Redis
  final [] r = r
  final (c ∷ cs) r = final cs (after d c r)

  -- The sum of a number that each call and its decision give.
  unfoldable pub total : (Call → Decision → ℕ) → List Call → Redis → ℕ
  total weight [] r = 0
  total weight (c ∷ cs) r = weight c (decide d c r) + total weight cs (after d c r)

  -- What holds of every call with its decision.
  abbrev pub Along : (Call → Decision → Type 0) → List Call → Redis → Type 0
  Along P [] r = Unit
  Along P (c ∷ cs) r = P c (decide d c r) × Along P cs (after d c r)

abbrev pub admitted : Call → Decision → ℕ
admitted c v = if v.allowed then 1 else 0

-- Redis's clock does not go back from one call to the next, from a time `t` on.
abbrev pub IsOrdered : ℕ → List Call → Type 0
IsOrdered t [] = Unit
IsOrdered t (c ∷ cs) = (t ≤ now_us_of c.time) × IsOrdered (now_us_of c.time) cs

-- The time of the last call.
abbrev pub last_time : ℕ → List Call → ℕ
last_time t [] = t
last_time t (c ∷ cs) = last_time (now_us_of c.time) cs

pub last_time-le : (t : ℕ) (calls : List Call) → IsOrdered t calls → t ≤ last_time t calls
last_time-le t [] h = omega arith
last_time-le t (c ∷ cs) h = omega (arith, last_time-le (now_us_of c.time) cs h.1)
