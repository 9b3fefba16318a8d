-- ===== src/Admin/Resolved.antt =====
-- After any requests to the admin API, a key that a check resolves is within the bounds of the schemas.
use quotaguard.Prelude.{List, Option, Text, [], arith, first-All, none, refl, some, ℕ, ◌∷◌, ◌≡◌}
use quotaguard.Models.{
  ApiKey, LimitField, Plan, burst_capacity, burst_refill_per_sec, effective_limits, monthly_quota,
  or_plan, sustained_limit, sustained_window_seconds,
}
use quotaguard.Database.{Database, key_by_hash, plan_by_id}
use quotaguard.Errors.{Result, ok}
use quotaguard.KeyCache.{ResolvedKey, load, load_row, resolved_key, with_plan}
use quotaguard.Plans.{App}
use quotaguard.Schemas.{highest}
use quotaguard.Schemas.Bounds.{IsWithin}
use quotaguard.Checker.Marshal.{InBounds}
use quotaguard.Admin.{AdminRequest, Setting, handle_admin}
use quotaguard.Admin.Bounds.{IsBounded, IsKeyBounded, IsPlanBounded, OverrideHolds, guarded-Bounded}

-- A request with its surroundings and the token it carries.
abbrev pub Call : Type 0
Call = Setting × Option Text × AdminRequest

unfoldable pub handle_all : List Call → App → App
handle_all [] a = a
handle_all ((s, token, q) ∷ calls) a = handle_all calls (handle_admin s token q a).1

handle_all-Bounded :
    (calls : List Call) (a : App) → IsBounded a.db → IsBounded (handle_all calls a).db
unfolding handle_all handle_admin
handle_all-Bounded [] a h = h
handle_all-Bounded ((s, token, q) ∷ calls) a h =
    handle_all-Bounded calls _ (guarded-Bounded s q a _ h)

or_plan-Within :
    (f : LimitField) (o : Option ℕ) (n : ℕ)
    → OverrideHolds (IsWithin f) o
    → IsWithin f n
    → IsWithin f (or_plan o n)
unfolding or_plan
or_plan-Within f none n ho h = h
or_plan-Within f (some m) n ho h = ground arith

effective_limits-Within :
    (key : ApiKey) (plan : Plan) (f : LimitField)
    → IsKeyBounded key
    → IsPlanBounded plan
    → IsWithin f (effective_limits key plan f)
unfolding effective_limits
effective_limits-Within key plan f hk hp = or_plan-Within f (key.override_of f) _ (hk f) (hp.0 f)

resolved_key-InBounds :
    (key : ApiKey) (plan : Plan)
    → IsKeyBounded key
    → IsPlanBounded plan
    → InBounds (resolved_key key plan)
unfolding resolved_key highest
resolved_key-InBounds key plan hk hp = record {
  capacity_range = effective_limits-Within key plan burst_capacity hk hp;
  refill_range = effective_limits-Within key plan burst_refill_per_sec hk hp;
  sustained_range = effective_limits-Within key plan sustained_limit hk hp;
  window_range = effective_limits-Within key plan sustained_window_seconds hk hp;
  quota_range = effective_limits-Within key plan monthly_quota hk hp;
  soft_pct = hp.1;
}

-- A key that a lookup found.
abbrev pub FoundInBounds : Result (Option ResolvedKey) → Type 0
FoundInBounds (ok (some key)) = InBounds key
FoundInBounds _ = Unit

with_plan-InBounds :
    (db : Database) (k : ApiKey) (plan : Option Plan)
    → plan_by_id k.plan_id db ≡ plan
    → IsBounded db
    → IsKeyBounded k
    → FoundInBounds (with_plan k plan)
unfolding with_plan plan_by_id
with_plan-InBounds db k none found h hk = tt
with_plan-InBounds db k (some p) found h hk =
    resolved_key-InBounds k p hk (first-All IsPlanBounded _ db.plans p h.0 found)

load_row-InBounds :
    (db : Database) (digest : Text) (row : Option ApiKey)
    → key_by_hash digest db ≡ row
    → IsBounded db
    → FoundInBounds (load_row db row)
unfolding load_row key_by_hash
load_row-InBounds db digest none found h = tt
load_row-InBounds db digest (some k) found h =
    with_plan-InBounds db k _ refl h (first-All IsKeyBounded _ db.keys k h.1 found)

-- Over any sequence of requests to the admin API, with any tokens, bodies and surroundings, whether they
-- succeed or fail: the plans and the overrides stay within the bounds of the schemas, if they were at the
-- start, and a key that a lookup of any secret then finds is within the bounds that the arithmetic of the
-- check script is proved for.
pub handle_all-InBounds :
    (calls : List Call) (a : App) (digest : Text)
    → IsBounded a.db
    → IsBounded (handle_all calls a).db × FoundInBounds (load digest (handle_all calls a).db)
unfolding load
handle_all-InBounds calls a digest h =
    let bounded = handle_all-Bounded calls a h in
    (bounded, load_row-InBounds _ digest _ refl bounded)
