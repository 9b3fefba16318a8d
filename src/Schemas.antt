-- ===== src/Schemas.antt =====
-- app/schemas: the bounds of the request models, as pydantic checks them. A body's JSON is read already:
-- each number is an integer, each field is left out, null or a value. What pydantic says of a field is
-- the parameter `describe`.
pub mod Bounds
mod Tests
use quotaguard.Prelude.{
  Bool, List, Option, Text, [], codes, false, if◌then◌else◌, leb, length, map, negsuc, none, pos,
  pos_part, some, starts_with, text_eq, true, ℕ, ℤ, ◌&&◌, ◌++◌, ◌==◌, ◌||◌, ◌∷◌,
}
use quotaguard.Errors.{Problem, Result, ok, part_name, raise, request_validation}
use quotaguard.Models.{
  LimitField, RedisDownPolicy, burst_capacity, burst_refill_per_sec, fail_closed, fail_open,
  limit_fields, monthly_quota, sustained_limit, sustained_window_seconds,
}
use quotaguard.KeyCache.{is_some}
use quotaguard.Plans.{Change, PlanCreate, PlanUpdate, field_name, null, unset, value}
use quotaguard.Keys.{KeyUpdate}

-- `Field(ge=low, le=high)` for a low that is not negative.
unfoldable pub in_range : ℕ → ℕ → ℤ → Bool
in_range low high (pos n) = leb low n && leb n high
in_range low high (negsuc n) = false

-- `Field(min_length=low, max_length=high)`
unfoldable pub has_length : ℕ → ℕ → Text → Bool
has_length low high s = leb low (length s) && leb (length s) high

unfoldable pub highest : LimitField → ℕ
highest burst_capacity = 1_000_000
highest burst_refill_per_sec = 100_000
highest sustained_limit = 1_000_000
highest sustained_window_seconds = 86_400
highest monthly_quota = 1_000_000_000_000

unfoldable pub limit_ok : LimitField → ℤ → Bool
limit_ok f z = in_range 1 (highest f) z

unfoldable pub soft_pct_ok : ℤ → Bool
soft_pct_ok z = in_range 0 100 z

unfoldable pub is_lower_or_digit : ℕ → Bool
is_lower_or_digit c = leb b'a' c && leb c b'z' || leb b'0' c && leb c b'9'

-- `[a-z0-9-]`
unfoldable pub slug_char : ℕ → Bool
slug_char c = is_lower_or_digit c || c == b'-'

-- `[a-zA-Z0-9_.:/-]`
unfoldable pub resource_char : ℕ → Bool
resource_char c =
    is_lower_or_digit c
    || leb b'A' c && leb c b'Z'
    || c == b'_'
    || c == b'.'
    || c == b':'
    || c == b'/'
    || c == b'-'

unfoldable pub all_chars : (ℕ → Bool) → Text → Bool
all_chars p [] = true
all_chars p (c ∷ s) = p c && all_chars p s

-- `SLUG_PATTERN`
unfoldable pub slug_ok : Text → Bool
unfolding has_length all_chars slug_char is_lower_or_digit
slug_ok s = has_length 1 64 s && all_chars slug_char s

-- `RESOURCE_PATTERN`
unfoldable pub resource_ok : Text → Bool
unfolding has_length all_chars resource_char is_lower_or_digit
resource_ok s = has_length 1 128 s && all_chars resource_char s

unfoldable pub name_ok : Text → Bool
name_ok s = has_length 1 128 s

-- `WebhookUrl` and `_validate_webhook_url`
unfoldable pub url_ok : Text → Bool
unfolding has_length starts_with
url_ok s =
    has_length 1 2048 s && (starts_with (codes "http://") s || starts_with (codes "https://") s)

-- A field that may be left out or null passes there.
unfoldable pub change_ok {ℓ} : {A : Type ℓ} → (A → Bool) → Change A → Bool
change_ok p (value v) = p v
change_ok p _ = true

unfoldable pub option_ok {ℓ} : {A : Type ℓ} → (A → Bool) → Option A → Bool
option_ok p none = true
option_ok p (some v) = p v

-- The `Literal` of the policies.
unfoldable pub policy_of : Text → Option RedisDownPolicy
policy_of s =
    if text_eq s (codes "fail_open")
    then some fail_open
    else if text_eq s (codes "fail_closed")
    then some fail_closed
    else none

unfoldable pub policy_ok : Text → Bool
policy_ok s = is_some (policy_of s)

unfoldable pub policy_or_open : Option RedisDownPolicy → RedisDownPolicy
policy_or_open none = fail_open
policy_or_open (some p) = p

-- `PlanCreateRequest` before its checks; the fields with a default may be left out, and the body may
-- have a field that the model does not know.
pub record RawPlanCreate : Type 0 where
  pub slug : Text
  pub name : Text
  pub limit : LimitField → ℤ
  pub quota_soft_pct : Option ℤ
  pub webhook_url : Option Text
  pub redis_down_policy : Option Text
  pub unknown : List Text

pub record RawPlanUpdate : Type 0 where
  pub name : Change Text
  pub limit : LimitField → Change ℤ
  pub quota_soft_pct : Change ℤ
  pub webhook_url : Change Text
  pub redis_down_policy : Change Text
  pub unknown : List Text

pub record RawKeyIssue : Type 0 where
  pub plan : Text
  pub name : Text
  pub unknown : List Text

pub record RawKeyUpdate : Type 0 where
  pub name : Change Text
  pub override_of : LimitField → Change ℤ
  pub unknown : List Text

-- A check of one field, with the field's name.
abbrev pub FieldCheck : Type 0
FieldCheck = Text × Bool

unfoldable pub problem_at : (Text → Text) → Text → Problem
problem_at describe field = record {
  loc = part_name (codes "body") ∷ part_name field ∷ [];
  msg = describe field;
}

-- The problems of the checks that fail, in order, and then of the unknown fields.
unfoldable pub problems : (Text → Text) → List FieldCheck → List Text → List Problem
problems describe [] unknown = map (problem_at describe) unknown
problems describe ((field, passed) ∷ checks) unknown =
    let rest = problems describe checks unknown in
    if passed then rest else problem_at describe field ∷ rest

unfoldable pub validated {ℓ} : {A : Type ℓ} → A → List Problem → Result A
validated a [] = ok a
validated a (p ∷ ps) = raise (request_validation (p ∷ ps))

unfoldable pub limit_checks :
    (LimitField → Bool) → List LimitField → List FieldCheck → List FieldCheck
limit_checks passed [] rest = rest
limit_checks passed (f ∷ fs) rest = (field_name f, passed f) ∷ limit_checks passed fs rest

unfoldable pub plan_create_checks : RawPlanCreate → List FieldCheck
plan_create_checks r =
    (codes "slug", slug_ok r.slug)
    ∷ (codes "name", name_ok r.name)
    ∷ limit_checks (λ f. limit_ok f (r.limit f)) limit_fields
        ((codes "quota_soft_pct", option_ok soft_pct_ok r.quota_soft_pct)
          ∷ (codes "webhook_url", option_ok url_ok r.webhook_url)
          ∷ (codes "redis_down_policy", option_ok policy_ok r.redis_down_policy)
          ∷ [])

abbrev pub or_zero : Option ℤ → ℕ
or_zero none = 0
or_zero (some z) = pos_part z

abbrev pub policy_given : Option Text → Option RedisDownPolicy
policy_given none = none
policy_given (some s) = policy_of s

unfoldable pub plan_create_of : RawPlanCreate → PlanCreate
plan_create_of r = record {
  slug = r.slug;
  name = r.name;
  limit = λ f. pos_part (r.limit f);
  quota_soft_pct = or_zero r.quota_soft_pct;
  webhook_url = r.webhook_url;
  redis_down_policy = policy_or_open (policy_given r.redis_down_policy);
}

unfoldable pub read_plan_create : (Text → Text) → RawPlanCreate → Result PlanCreate
read_plan_create describe r =
    validated (plan_create_of r) (problems describe (plan_create_checks r) r.unknown)

unfoldable pub plan_update_checks : RawPlanUpdate → List FieldCheck
plan_update_checks r =
    (codes "name", change_ok name_ok r.name)
    ∷ limit_checks (λ f. change_ok (limit_ok f) (r.limit f)) limit_fields
        ((codes "quota_soft_pct", change_ok soft_pct_ok r.quota_soft_pct)
          ∷ (codes "webhook_url", change_ok url_ok r.webhook_url)
          ∷ (codes "redis_down_policy", change_ok policy_ok r.redis_down_policy)
          ∷ [])

abbrev pub change_map {ℓ κ} : {A : Type ℓ} {B : Type κ} → (A → B) → Change A → Change B
change_map f unset = unset
change_map f null = null
change_map f (value v) = value (f v)

unfoldable pub plan_update_of : RawPlanUpdate → PlanUpdate
plan_update_of r = record {
  name = r.name;
  limit = λ f. change_map pos_part (r.limit f);
  quota_soft_pct = change_map pos_part r.quota_soft_pct;
  webhook_url = r.webhook_url;
  redis_down_policy = change_map (λ s. policy_or_open (policy_of s)) r.redis_down_policy;
}

unfoldable pub read_plan_update : (Text → Text) → RawPlanUpdate → Result PlanUpdate
read_plan_update describe r =
    validated (plan_update_of r) (problems describe (plan_update_checks r) r.unknown)

unfoldable pub read_key_issue : (Text → Text) → RawKeyIssue → Result (Text × Text)
read_key_issue describe r =
    validated (r.plan, r.name) (problems describe ((codes "name", name_ok r.name) ∷ []) r.unknown)

unfoldable pub override_name : LimitField → Text
override_name f = codes "override_" ++ field_name f

unfoldable pub override_checks : (LimitField → Bool) → List LimitField → List FieldCheck
override_checks passed [] = []
override_checks passed (f ∷ fs) = (override_name f, passed f) ∷ override_checks passed fs

unfoldable pub key_update_checks : RawKeyUpdate → List FieldCheck
key_update_checks r =
    (codes "name", change_ok name_ok r.name)
    ∷ override_checks (λ f. change_ok (limit_ok f) (r.override_of f)) limit_fields

unfoldable pub key_update_of : RawKeyUpdate → KeyUpdate
key_update_of r = record { name = r.name; override_of = λ f. change_map pos_part (r.override_of f) }

unfoldable pub read_key_update : (Text → Text) → RawKeyUpdate → Result KeyUpdate
read_key_update describe r =
    validated (key_update_of r) (problems describe (key_update_checks r) r.unknown)
