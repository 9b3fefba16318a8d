-- ===== src/Admin.antt =====
-- app/routers/admin.py, behind its token: a request's checks, the service's operation, and the
-- response. Bodies are records; the plans' timestamps are left out.
pub mod Atomic
pub mod Bounds
pub mod Guard
pub mod Keyed
pub mod Apart
pub mod Resolved
pub mod Untouched
mod Tests
use mathlib.Core.Option
use quotaguard.Prelude.{List, Option, Text, [], length, map, none, some, ℕ, ◌∷◌}
use quotaguard.Errors.{
  ErrorResponse, Result, attribute_error, handle, ok, raise, value_error, ◌>>=◌,
}
use quotaguard.Models.{
  ApiKey, LimitField, Plan, RedisDownPolicy, effective_limits, overrides, to_iso_utc,
}
use quotaguard.Database.{Database, plan_by_id}
use quotaguard.Plans.{App, count_keys, create_plan, get_plan, list_plans, update_plan}
use quotaguard.Keys.{Draw, get_key, issue_key, list_keys, revoke_key, update_key}
use quotaguard.Schemas.{
  RawKeyIssue, RawKeyUpdate, RawPlanCreate, RawPlanUpdate, read_key_issue, read_key_update,
  read_plan_create, read_plan_update,
}
use quotaguard.Endpoint.{require_admin}

-- A request to one of the routes, its body read as JSON.
pub data AdminRequest : Type 0 where
  post_plan : RawPlanCreate → AdminRequest
  list_all_plans : AdminRequest
  read_plan : Text → AdminRequest
  patch_plan : Text → RawPlanUpdate → AdminRequest
  post_key : RawKeyIssue → AdminRequest
  list_all_keys : Option Text → AdminRequest
  read_key : Text → AdminRequest
  patch_key : Text → RawKeyUpdate → AdminRequest
  post_revoke : Text → AdminRequest

-- `PlanOut`
pub record PlanOut : Type 0 where
  pub slug : Text
  pub name : Text
  pub limit : LimitField → ℕ
  pub quota_soft_pct : ℕ
  pub webhook_url : Option Text
  pub redis_down_policy : RedisDownPolicy

-- `KeyOut`, its times as they are serialized
pub record KeyOut : Type 0 where
  pub key_id : Text
  pub key_prefix : Text
  pub name : Text
  pub plan : Text
  pub overrides_out : List (LimitField × ℕ)
  pub revoked_at : Option Text
  pub created_at : Text

pub record KeyIssuedOut : Type 0 where
  pub key_id : Text
  pub name : Text
  pub plan : Text
  pub api_key : Text
  pub key_prefix : Text
  pub created_at : Text

pub data Body : Type 0 where
  plan_out : PlanOut → Body
  plan_detail : PlanOut → ℕ → Body
  plan_list : List PlanOut → ℕ → Body
  key_issued : KeyIssuedOut → Body
  key_list : List KeyOut → ℕ → Body
  key_detail : KeyOut → (LimitField → ℕ) → Body
  key_revoked : Text → Text → Body

pub data Response : Type 0 where
  success : ℕ → Body → Response
  failure : ErrorResponse → Response

-- What the surroundings give: the parameters of the services, and pydantic's words.
pub record Setting : Type 0 where
  pub admin_token : Text
  pub hash_secret : Text → Text
  pub describe : Text → Text
  pub draw : Draw

unfoldable pub plan_out_of : Plan → PlanOut
plan_out_of p = record {
  slug = p.slug;
  name = p.name;
  limit = p.limit;
  quota_soft_pct = p.quota_soft_pct;
  webhook_url = p.webhook_url;
  redis_down_policy = p.redis_down_policy;
}

unfoldable pub plan_of_key : Database → ApiKey → Result Plan
plan_of_key db key = elim (plan_by_id key.plan_id db) [
  | none ↦ raise attribute_error
  | some plan ↦ ok plan
]

-- `_key_out`
unfoldable pub key_out : Database → ApiKey → Result KeyOut
key_out db key = do
  plan ← plan_of_key db key
  ok (record {
    key_id = key.key_id;
    key_prefix = key.key_prefix;
    name = key.name;
    plan = plan.slug;
    overrides_out = overrides key;
    revoked_at = Option.map to_iso_utc key.revoked_at;
    created_at = to_iso_utc key.created_at;
  })

unfoldable pub key_outs : Database → List ApiKey → Result (List KeyOut)
key_outs db [] = ok []
key_outs db (k ∷ ks) = do out ← key_out db k; outs ← key_outs db ks; ok (out ∷ outs)

unfoldable pub key_detail_of : Database → ApiKey → Result Body
key_detail_of db key = do
  plan ← plan_of_key db key
  out ← key_out db key
  ok (key_detail out (effective_limits key plan))

unfoldable pub issued_of : Database → ApiKey × Text → Result Body
issued_of db (key, secret) = do
  plan ← plan_of_key db key
  ok (
      key_issued (record {
        key_id = key.key_id;
        name = key.name;
        plan = plan.slug;
        api_key = secret;
        key_prefix = key.key_prefix;
        created_at = to_iso_utc key.created_at;
      }))

-- `KeyRevokedOut` wants a time.
unfoldable pub revoked_of : ApiKey → Result Body
revoked_of key = elim key.revoked_at [
  | none ↦ raise value_error
  | some at ↦ ok (key_revoked key.key_id (to_iso_utc at))
]

-- A handler's value, or the response of the exception handlers.
unfoldable pub respond : ℕ → Result Body → Response
respond status (ok body) = success status body
respond status (raise e) = failure (handle e)

-- An operation of a service on what the body's checks gave.
unfoldable pub after_checks {ℓ κ} :
    {A : Type ℓ} {B : Type κ} → App → Result A → (A → Result B × App) → Result B × App
after_checks a (raise e) act = (raise e, a)
after_checks a (ok x) act = act x

unfoldable pub post_plan_route : Setting → RawPlanCreate → App → Result Body × App
post_plan_route s raw a =
    let (plan, a') =
      after_checks a (read_plan_create s.describe raw) (λ data_in. create_plan data_in a) in
    (plan >>= λ p. ok (plan_out (plan_out_of p)), a')

unfoldable pub patch_plan_route : Setting → Text → RawPlanUpdate → App → Result Body × App
patch_plan_route s slug raw a =
    let (plan, a') = after_checks a (read_plan_update s.describe raw) (λ u. update_plan slug u a) in
    (plan >>= λ p. ok (plan_out (plan_out_of p)), a')

unfoldable pub post_key_route : Setting → RawKeyIssue → App → Result Body × App
post_key_route s raw a =
    let (issued, a') =
      after_checks a (read_key_issue s.describe raw)
        (λ (plan, name). issue_key s.hash_secret s.draw plan name a) in
    (issued >>= issued_of a'.db, a')

unfoldable pub patch_key_route : Setting → Text → RawKeyUpdate → App → Result Body × App
patch_key_route s key_id raw a =
    let (key, a') = after_checks a (read_key_update s.describe raw) (λ u. update_key key_id u a) in
    (key >>= key_detail_of a'.db, a')

unfoldable pub post_revoke_route : Setting → Text → App → Result Body × App
post_revoke_route s key_id a =
    let (key, a') = revoke_key key_id s.draw.now a in (key >>= revoked_of, a')

unfoldable pub read_plan_body : Database → Plan → Body
read_plan_body db p = plan_detail (plan_out_of p) (count_keys db p)

unfoldable pub list_keys_body : Database → Option Text → Result Body
list_keys_body db slug = do
  records ← list_keys db slug
  outs ← key_outs db records
  ok (key_list outs (length records))

-- The status of a route that succeeds.
unfoldable pub status_of : AdminRequest → ℕ
status_of (post_plan raw) = 201
status_of (post_key raw) = 201
status_of _ = 200

-- The routes behind the token.
unfoldable pub route : Setting → AdminRequest → App → Result Body × App
route s (post_plan raw) a = post_plan_route s raw a
route s list_all_plans a =
    let records = list_plans a.db in (ok (plan_list (map plan_out_of records) (length records)), a)
route s (read_plan slug) a = ((get_plan a.db slug >>= λ p. ok (read_plan_body a.db p)), a)
route s (patch_plan slug raw) a = patch_plan_route s slug raw a
route s (post_key raw) a = post_key_route s raw a
route s (list_all_keys slug) a = (list_keys_body a.db slug, a)
route s (read_key key_id) a = ((get_key a.db key_id >>= key_detail_of a.db), a)
route s (patch_key key_id raw) a = patch_key_route s key_id raw a
route s (post_revoke key_id) a = post_revoke_route s key_id a

-- The router's dependency runs first, and the body is checked after it.
unfoldable pub guarded : Setting → AdminRequest → App → Result (Unit {0}) → Response × App
guarded s q a (raise e) = (failure (handle e), a)
guarded s q a (ok t) = let (body, a') = route s q a in (respond (status_of q) body, a')

unfoldable pub handle_admin : Setting → Option Text → AdminRequest → App → Response × App
handle_admin s token q a = guarded s q a (require_admin s.admin_token token)
