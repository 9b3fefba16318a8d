-- ===== src/Admin/Tests.antt =====
-- The admin API on the demo rows.
use quotaguard.Schemas.Bounds.{IsWithin}
use quotaguard.Prelude.{
  List, Option, Text, [], arith, codes, none, pos, refl, some, text_eq, ℕ, ℤ, ◌∷◌, ◌≡◌,
}
use quotaguard.Models.{
  LimitField, burst_capacity, burst_refill_per_sec, monthly_quota, sustained_limit,
  sustained_window_seconds,
}
use quotaguard.Plans.{
  App, create_checked, create_plan, has_url, insert_plan, new_plan, null, require_webhook, unset,
  value,
}
use quotaguard.Schemas.{
  RawKeyUpdate, RawPlanCreate, all_chars, change_ok, has_length, highest, in_range,
  is_lower_or_digit, key_update_checks, key_update_of, limit_checks, limit_ok, name_ok, option_ok,
  override_checks, plan_create_checks, plan_create_of, policy_of, policy_ok, policy_or_open,
  problem_at, problems, read_key_update, read_plan_create, slug_char, slug_ok, validated,
}
use quotaguard.KeyCache.{is_some, load}
use quotaguard.Samples.{demo_app, demo_override, free_limit}
use quotaguard.Errors.{error_response, handle, status_code}
use quotaguard.Admin.{
  AdminRequest, Setting, after_checks, failure, guarded, handle_admin, list_all_plans, patch_key,
  patch_key_route, plan_out_of, post_plan, post_plan_route, post_revoke, post_revoke_route, respond,
  route, status_of, success,
}
use quotaguard.Admin.Keyed.{HasPlans}
use quotaguard.Admin.Atomic.{AllOrNothing, handle_admin-AllOrNothing}
use quotaguard.Admin.Bounds.{IsBounded, OverrideHolds}
use quotaguard.Admin.Resolved.{Call, FoundInBounds, handle_all, handle_all-InBounds}
use quotaguard.Database.{key_by_key_id, plan_by_slug}
use quotaguard.Endpoint.{compare_digest, if_same, is_ascii, require_admin}
use quotaguard.Keys.{
  found_key, get_key, revoke_key, revoke_live, revoke_result, update_key, update_key_result,
}

abbrev desk : Setting
desk = record {
  admin_token = codes "secret";
  hash_secret = λ s. s;
  describe = λ field. codes "Value is not allowed";
  draw = record { secret = codes "qg_live_bbbb"; key_id = codes "key_3"; now = 1_753_000_200 };
}

abbrev right : Option Text
right = some (codes "secret")

abbrev pro_body : ℤ → RawPlanCreate
pro_body capacity = record {
  slug = codes "pro";
  name = codes "Pro";
  limit = λ f. elim f [ burst_capacity ↦ capacity | _ ↦ pos 500 ];
  quota_soft_pct = none;
  webhook_url = none;
  redis_down_policy = some (codes "fail_closed");
  unknown = [];
}

abbrev raise_quota : RawKeyUpdate
raise_quota = record {
  name = unset;
  override_of =
      λ f. elim f [ monthly_quota ↦ value (pos 2000) | burst_capacity ↦ null | _ ↦ unset ];
  unknown = [];
}

unfoldable visit : Option Text → AdminRequest → App → ℕ
unfolding handle_admin guarded respond route post_plan_route patch_key_route post_revoke_route
    after_checks plan_out_of status_of require_admin compare_digest is_ascii if_same handle
    error_response status_code read_plan_create read_key_update problems validated problem_at
    plan_create_checks plan_create_of key_update_checks key_update_of limit_checks override_checks
    limit_ok in_range highest slug_ok name_ok has_length all_chars slug_char is_lower_or_digit
    change_ok option_ok policy_ok policy_of policy_or_open is_some create_plan create_checked
    insert_plan require_webhook has_url new_plan update_key update_key_result get_key found_key
    revoke_key revoke_result revoke_live plan_by_slug key_by_key_id text_eq
visit token q a = elim (handle_admin desk token q a).0 [ success n body ↦ n | failure e ↦ e.status ]

post_plan_test : visit right (post_plan (pro_body (pos 500))) demo_app ≡ 201
unfolding visit
post_plan_test = refl

too_large_test : visit right (post_plan (pro_body (pos 1_000_001))) demo_app ≡ 422
unfolding visit
too_large_test = refl

no_token_test : visit none list_all_plans demo_app ≡ 401
unfolding visit
no_token_test = refl

no_such_key_test : visit right (patch_key (codes "key_9") raise_quota) demo_app ≡ 404
unfolding visit
no_such_key_test = refl

revoked_test : visit right (post_revoke (codes "key_2")) demo_app ≡ 409
unfolding visit
revoked_test = refl

demo_app-HasPlans : HasPlans demo_app.db
demo_app-HasPlans = (refl, (refl, tt))

free_limit-Within : (f : LimitField) → IsWithin f (free_limit f)
unfolding highest
free_limit-Within burst_capacity = omega arith
free_limit-Within burst_refill_per_sec = omega arith
free_limit-Within sustained_limit = omega arith
free_limit-Within sustained_window_seconds = omega arith
free_limit-Within monthly_quota = omega arith

demo_override-Within : (f : LimitField) → OverrideHolds (IsWithin f) (demo_override f)
unfolding highest
demo_override-Within burst_capacity = omega arith
demo_override-Within burst_refill_per_sec = tt
demo_override-Within sustained_limit = tt
demo_override-Within sustained_window_seconds = tt
demo_override-Within monthly_quota = tt

demo_app-IsBounded : IsBounded demo_app.db
demo_app-IsBounded =
    (((free_limit-Within, omega arith), tt), (demo_override-Within, (demo_override-Within, tt)))

abbrev calls : List Call
calls =
    (desk, right, post_plan (pro_body (pos 500)))
    ∷ (desk, right, patch_key (codes "key_1") raise_quota)
    ∷ (desk, none, post_revoke (codes "key_1"))
    ∷ []

handle_all-InBounds_example :
    IsBounded (handle_all calls demo_app).db
    × FoundInBounds (load (codes "hash_1") (handle_all calls demo_app).db)
handle_all-InBounds_example = handle_all-InBounds calls demo_app (codes "hash_1") demo_app-IsBounded

handle_admin-AllOrNothing_example :
    let done = handle_admin desk right (patch_key (codes "key_1") raise_quota) demo_app in
    HasPlans done.1.db × AllOrNothing desk right demo_app done
handle_admin-AllOrNothing_example =
    handle_admin-AllOrNothing desk right (patch_key (codes "key_1") raise_quota) demo_app
      demo_app-HasPlans
