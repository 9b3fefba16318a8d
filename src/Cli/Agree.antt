-- ===== src/Cli/Agree.antt =====
-- A command leaves the tables that the admin API's route leaves, and exits with 0 where the route succeeds.
use quotaguard.Admin.{
  AdminRequest, Body, Setting, after_checks, key_detail_of, list_all_keys, list_all_plans,
  patch_key, patch_key_route, post_key, post_plan, post_revoke, post_revoke_route, revoked_of,
  route,
}
use quotaguard.Cli.{
  Command, exit_with, fresh_cache, key_issue, key_override, key_revoke, keys_list, main,
  plan_create, plans_list, run_command,
}
use quotaguard.Prelude.{Option, Text, [], if◌then◌else◌, inl, inr, none, some, ◌⊎◌}
use quotaguard.Database.{Database}
use quotaguard.Schemas.{name_ok}
use quotaguard.Admin.{
  AdminRequest, Body, Setting, after_checks, key_detail_of, list_all_keys, list_all_plans,
  patch_key, patch_key_route, post_key, post_plan, post_revoke, post_revoke_route, revoked_of,
  route,
}
use quotaguard.Cli.Override.{
  Changes, clear_all, clear_names, given_changes, overridable, raw_changes,
}
use quotaguard.Cli.{
  Command, exit_with, fresh_cache, key_issue, key_override, key_revoke, keys_list, main,
  plan_create, plans_list, run_command,
}

-- The request of the admin API that asks for the same, where there is one: the API checks the name of a
-- key, and knows no field that is not overridable.
abbrev pub override_request : Text → Text ⊎ Changes → Option AdminRequest
override_request key_id (inl name) = none
override_request key_id (inr changes) = some (patch_key key_id (raw_changes changes))

unfoldable pub request_of : Command → Option AdminRequest
request_of (plan_create raw) = some (post_plan raw)
request_of plans_list = some list_all_plans
request_of (key_issue plan name) =
    if name_ok name
    then some (post_key (record { plan = plan; name = name; unknown = [] }))
    else none
request_of (keys_list plan) = some (list_all_keys plan)
request_of (key_override key_id given clear) =
    override_request key_id (clear_all (clear_names clear) (given_changes given overridable))
request_of (key_revoke key_id) = some (post_revoke key_id)
