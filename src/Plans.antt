-- ===== src/Plans.antt =====
-- app/services/plans.py: the plans' operations. An operation returns its result and what it leaves of
-- the tables and of the key cache; a rollback leaves both as they were.
pub mod Keeps
pub mod Webhook
mod Tests
use quotaguard.Prelude.{
  Bool, List, Option, Text, [], codes, false, if◌then◌else◌, length, ltb, none, not, select, some,
  text_leb, true, ℕ, ◌&&◌, ◌++◌, ◌==◌, ◌∷◌,
}
use quotaguard.Models.{
  ApiKey, LimitField, Plan, RedisDownPolicy, burst_capacity, burst_refill_per_sec, limit_fields,
  monthly_quota, sustained_limit, sustained_window_seconds,
}
use quotaguard.Errors.{AppError, Result, app, conflict, not_found, ok, raise, validation}
use quotaguard.Database.{Database, next_id, plan_by_slug, replace_plan}
use quotaguard.KeyCache.{Cache, invalidate}

pub record App : Type 0 where
  pub db : Database
  pub cache : Cache

-- `PlanCreateRequest`, of app/schemas/plans.py, once it is validated
pub record PlanCreate : Type 0 where
  pub slug : Text
  pub name : Text
  pub limit : LimitField → ℕ
  pub quota_soft_pct : ℕ
  pub webhook_url : Option Text
  pub redis_down_policy : RedisDownPolicy

-- A field of an update: left out, an explicit null, or a value.
pub data Change {ℓ} (A : Type ℓ) : Type ℓ where
  unset null : Change A
  value : A → Change A

-- `PlanUpdateRequest`
pub record PlanUpdate : Type 0 where
  pub name : Change Text
  pub limit : LimitField → Change ℕ
  pub quota_soft_pct : Change ℕ
  pub webhook_url : Change Text
  pub redis_down_policy : Change RedisDownPolicy

-- `bool(webhook_url)`
unfoldable pub has_url : Option Text → Bool
has_url none = false
has_url (some []) = false
has_url (some (c ∷ s)) = true

abbrev pub webhook_required : AppError
webhook_required =
    validation (codes "webhook_url is required when quota_soft_pct is greater than 0.")

-- `_require_webhook_for_soft_threshold`
unfoldable pub require_webhook : ℕ → Option Text → Result (Unit {0})
require_webhook pct url =
    if ltb 0 pct && not (has_url url) then raise (app webhook_required) else ok tt

unfoldable pub found_plan : Text → Option Plan → Result Plan
found_plan slug none =
    raise (app (not_found (codes "No plan with slug '" ++ slug ++ codes "' exists.")))
found_plan slug (some plan) = ok plan

unfoldable pub get_plan : Database → Text → Result Plan
get_plan db slug = found_plan slug (plan_by_slug slug db)

unfoldable pub new_plan : ℕ → PlanCreate → Plan
new_plan id data_in = record {
  id = id;
  slug = data_in.slug;
  name = data_in.name;
  limit = data_in.limit;
  quota_soft_pct = data_in.quota_soft_pct;
  webhook_url = data_in.webhook_url;
  redis_down_policy = data_in.redis_down_policy;
}

abbrev pub slug_taken : Text → AppError
slug_taken slug = conflict (codes "A plan with slug '" ++ slug ++ codes "' already exists.")

-- The insert meets the unique constraint on the slug: what has the slug already, if anything.
unfoldable pub insert_plan : PlanCreate → App → Option Plan → Result Plan × App
insert_plan data_in a none =
    let plan = new_plan (next_id a.db.plans) data_in in
    (ok plan, record a { db = record a.db { plans = a.db.plans ++ plan ∷ [] } })
insert_plan data_in a (some _) = (raise (app (slug_taken data_in.slug)), a)

unfoldable pub create_checked : PlanCreate → App → Result (Unit {0}) → Result Plan × App
create_checked data_in a (raise e) = (raise e, a)
create_checked data_in a (ok _) = insert_plan data_in a (plan_by_slug data_in.slug a.db)

unfoldable pub create_plan : PlanCreate → App → Result Plan × App
create_plan data_in a =
    create_checked data_in a (require_webhook data_in.quota_soft_pct data_in.webhook_url)

-- `list_plans`, in the order of the slugs
unfoldable pub insert_by_slug : Plan → List Plan → List Plan
insert_by_slug p [] = p ∷ []
insert_by_slug p (q ∷ qs) = if text_leb p.slug q.slug then p ∷ q ∷ qs else q ∷ insert_by_slug p qs

unfoldable pub sort_by_slug : List Plan → List Plan
sort_by_slug [] = []
sort_by_slug (p ∷ ps) = insert_by_slug p (sort_by_slug ps)

unfoldable pub list_plans : Database → List Plan
list_plans db = sort_by_slug db.plans

unfoldable pub count_keys : Database → Plan → ℕ
count_keys db plan = length (select (λ (k : ApiKey). k.plan_id == plan.id) db.keys)

abbrev pub is_null {ℓ} : {A : Type ℓ} → Change A → Bool
is_null null = true
is_null _ = false

unfoldable pub field_name : LimitField → Text
field_name burst_capacity = codes "burst_capacity"
field_name burst_refill_per_sec = codes "burst_refill_per_sec"
field_name sustained_limit = codes "sustained_limit"
field_name sustained_window_seconds = codes "sustained_window_seconds"
field_name monthly_quota = codes "monthly_quota"

-- The first field, in the order of the request model, that is an explicit null and may not be one.
unfoldable pub null_limit : PlanUpdate → List LimitField → Option Text
null_limit u [] = none
null_limit u (f ∷ fs) = if is_null (u.limit f) then some (field_name f) else null_limit u fs

unfoldable pub null_field : PlanUpdate → Option Text
null_field u = if is_null u.name then some (codes "name") else elim (null_limit u limit_fields) [
  | some f ↦ some f
  | none ↦
      if is_null u.quota_soft_pct
      then some (codes "quota_soft_pct")
      else if is_null u.redis_down_policy
      then some (codes "redis_down_policy")
      else none
]

-- `changes.get(field, old)`, and what `setattr` leaves: null stands only where it is allowed.
abbrev pub changed {ℓ} : {A : Type ℓ} → Change A → A → A
changed (value v) old = v
changed _ old = old

abbrev pub changed_url : Change Text → Option Text → Option Text
changed_url unset old = old
changed_url null old = none
changed_url (value v) old = some v

unfoldable pub apply_update : PlanUpdate → Plan → Plan
apply_update u p = record p {
  name = changed u.name p.name;
  limit = λ f. changed (u.limit f) (p.limit f);
  quota_soft_pct = changed u.quota_soft_pct p.quota_soft_pct;
  webhook_url = changed_url u.webhook_url p.webhook_url;
  redis_down_policy = changed u.redis_down_policy p.redis_down_policy;
}

unfoldable pub save_plan : Plan → App → Result Plan × App
save_plan p a = (
  ok p,
  record { db = record a.db { plans = replace_plan p a.db.plans }; cache = invalidate a.cache },
)

unfoldable pub update_checked : Plan → App → Result (Unit {0}) → Result Plan × App
update_checked p a (raise e) = (raise e, a)
update_checked p a (ok _) = save_plan p a

unfoldable pub update_found : PlanUpdate → Plan → App → Option Text → Result Plan × App
update_found u p a (some f) = (raise (app (validation (f ++ codes " cannot be set to null."))), a)
update_found u p a none =
    let p' = apply_update u p in
    update_checked p' a (require_webhook p'.quota_soft_pct p'.webhook_url)

unfoldable pub update_result : PlanUpdate → App → Result Plan → Result Plan × App
update_result u a (raise e) = (raise e, a)
update_result u a (ok p) = update_found u p a (null_field u)

unfoldable pub update_plan : Text → PlanUpdate → App → Result Plan × App
update_plan slug u a = update_result u a (get_plan a.db slug)
