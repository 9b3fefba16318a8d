-- ===== src/Admin/Bounds.antt =====
-- The plans and the overrides keep within the bounds of the schemas, whatever the admin API is sent.
use quotaguard.Prelude.{All, Option, Text, arith, none, refl, some, ℕ, ◌≡◌, ◌≤◌}
use quotaguard.Models.{ApiKey, LimitField, Plan}
use quotaguard.Database.{Database}
use quotaguard.Errors.{Result, ok, raise}
use quotaguard.Plans.{
  App, Change, PlanCreate, PlanUpdate, apply_update, changed, create_plan, new_plan, null, unset,
  update_plan, value,
}
use quotaguard.Plans.Keeps.{create_plan-All, update_plan-All}
use quotaguard.Keys.{
  Draw, KeyUpdate, apply_overrides, changed_override, issue_key, new_key, revoke_key, update_key,
}
use quotaguard.Keys.Keeps.{issue_key-All, revoke_key-All, update_key-All}
use quotaguard.Schemas.{
  RawKeyUpdate, RawPlanCreate, RawPlanUpdate, read_key_update, read_plan_create, read_plan_update,
}
use quotaguard.Schemas.Bounds.{
  ChangeHolds, IsWithin, read_key_update-IsWithin, read_plan_create-IsWithin,
  read_plan_update-IsWithin,
}
use quotaguard.Admin.{
  AdminRequest, Setting, after_checks, guarded, list_all_keys, list_all_plans, patch_key,
  patch_key_route, patch_plan, patch_plan_route, post_key, post_key_route, post_plan,
  post_plan_route, post_revoke, post_revoke_route, read_key, read_plan, route,
}
use quotaguard.Admin.Untouched.{
  create_plan-keys, issue_key-plans, revoke_key-plans, update_key-plans, update_plan-keys,
}

abbrev pub IsPlanBounded : Plan → Type 0
IsPlanBounded p = ((f : LimitField) → IsWithin f (p.limit f)) × (p.quota_soft_pct ≤ 100)

abbrev pub OverrideHolds : (ℕ → Type 0) → Option ℕ → Type 0
OverrideHolds P none = Unit
OverrideHolds P (some n) = P n

abbrev pub IsKeyBounded : ApiKey → Type 0
IsKeyBounded k = (f : LimitField) → OverrideHolds (IsWithin f) (k.override_of f)

abbrev pub IsBounded : Database → Type 0
IsBounded db = All IsPlanBounded db.plans × All IsKeyBounded db.keys

changed-Holds :
    (P : ℕ → Type 0) (c : Change ℕ) (old : ℕ) → ChangeHolds P c → P old → P (changed c old)
changed-Holds P unset old hc h = h
changed-Holds P null old hc h = h
changed-Holds P (value n) old hc h = hc

changed_override-Holds :
    (P : ℕ → Type 0) (c : Change ℕ) (old : Option ℕ)
    → ChangeHolds P c
    → OverrideHolds P old
    → OverrideHolds P (changed_override c old)
changed_override-Holds P unset old hc h = h
changed_override-Holds P null old hc h = tt
changed_override-Holds P (value n) old hc h = hc

apply_update-Bounded :
    (u : PlanUpdate) (p : Plan)
    → ((f : LimitField) → ChangeHolds (IsWithin f) (u.limit f))
    → ChangeHolds (λ n. (0 ≤ n) × (n ≤ 100)) u.quota_soft_pct
    → IsPlanBounded p
    → IsPlanBounded (apply_update u p)
unfolding apply_update
apply_update-Bounded u p limits soft h = (
  λ f. changed-Holds (IsWithin f) (u.limit f) (p.limit f) (limits f) (h.0 f),
  (changed-Holds (λ n. (0 ≤ n) × (n ≤ 100)) u.quota_soft_pct p.quota_soft_pct soft
      (omega arith, h.1)).1,
)

apply_overrides-Bounded :
    (u : KeyUpdate) (k : ApiKey)
    → ((f : LimitField) → ChangeHolds (IsWithin f) (u.override_of f))
    → IsKeyBounded k
    → IsKeyBounded (apply_overrides u k)
unfolding apply_overrides
apply_overrides-Bounded u k limits h f =
    changed_override-Holds (IsWithin f) (u.override_of f) (k.override_of f) (limits f) (h f)

create-Bounded :
    (describe : Text → Text) (raw : RawPlanCreate) (a : App) (r : Result PlanCreate)
    → read_plan_create describe raw ≡ r
    → IsBounded a.db
    → IsBounded (after_checks a r (λ d. create_plan d a)).1.db
unfolding after_checks new_plan
create-Bounded describe raw a (raise e) q h = h
create-Bounded describe raw a (ok d) q h =
    let within = read_plan_create-IsWithin describe raw d q in
    (create_plan-All IsPlanBounded d a (λ id t required. within) h.0, rw (create_plan-keys d a) h.1)

update-Bounded :
    (describe : Text → Text) (slug : Text) (raw : RawPlanUpdate) (a : App) (r : Result PlanUpdate)
    → read_plan_update describe raw ≡ r
    → IsBounded a.db
    → IsBounded (after_checks a r (λ u. update_plan slug u a)).1.db
unfolding after_checks
update-Bounded describe slug raw a (raise e) q h = h
update-Bounded describe slug raw a (ok u) q h =
    let (limits, soft) = read_plan_update-IsWithin describe raw u q in
    (
      update_plan-All IsPlanBounded slug u a
          (λ p t old required. apply_update-Bounded u p limits soft old) h.0,
      rw (update_plan-keys slug u a) h.1,
    )

issue-Bounded :
    (hash : Text → Text) (draw : Draw) (a : App) (r : Result (Text × Text))
    → IsBounded a.db
    → IsBounded (after_checks a r (λ (plan, name). issue_key hash draw plan name a)).1.db
unfolding after_checks new_key
issue-Bounded hash draw a (raise e) h = h
issue-Bounded hash draw a (ok (plan, name)) h = (
  rw (issue_key-plans hash draw plan name a) h.0,
  issue_key-All IsKeyBounded hash draw plan name a (λ id p found f. tt) h.1,
)

override-Bounded :
    (describe : Text → Text) (key_id : Text) (raw : RawKeyUpdate) (a : App) (r : Result KeyUpdate)
    → read_key_update describe raw ≡ r
    → IsBounded a.db
    → IsBounded (after_checks a r (λ u. update_key key_id u a)).1.db
unfolding after_checks
override-Bounded describe key_id raw a (raise e) q h = h
override-Bounded describe key_id raw a (ok u) q h = (
  rw (update_key-plans key_id u a) h.0,
  update_key-All IsKeyBounded key_id u a
      (λ k. apply_overrides-Bounded u k (read_key_update-IsWithin describe raw u q)) h.1,
)

revoke-Bounded :
    (key_id : Text) (now : ℕ) (a : App) → IsBounded a.db → IsBounded (revoke_key key_id now a).1.db
revoke-Bounded key_id now a h = (
  rw (revoke_key-plans key_id now a) h.0,
  revoke_key-All IsKeyBounded key_id now a (λ k hk. hk) h.1,
)

route-Bounded :
    (s : Setting) (q : AdminRequest) (a : App) → IsBounded a.db → IsBounded (route s q a).1.db
unfolding route post_plan_route patch_plan_route post_key_route patch_key_route post_revoke_route
route-Bounded s (post_plan raw) a h = create-Bounded s.describe raw a _ refl h
route-Bounded s list_all_plans a h = h
route-Bounded s (read_plan slug) a h = h
route-Bounded s (patch_plan slug raw) a h = update-Bounded s.describe slug raw a _ refl h
route-Bounded s (post_key raw) a h = issue-Bounded s.hash_secret s.draw a _ h
route-Bounded s (list_all_keys slug) a h = h
route-Bounded s (read_key key_id) a h = h
route-Bounded s (patch_key key_id raw) a h = override-Bounded s.describe key_id raw a _ refl h
route-Bounded s (post_revoke key_id) a h = revoke-Bounded key_id s.draw.now a h

pub guarded-Bounded :
    (s : Setting) (q : AdminRequest) (a : App) (r : Result (Unit {0}))
    → IsBounded a.db
    → IsBounded (guarded s q a r).1.db
unfolding guarded
guarded-Bounded s q a (raise e) h = h
guarded-Bounded s q a (ok t) h = route-Bounded s q a h
