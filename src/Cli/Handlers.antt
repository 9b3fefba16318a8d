-- ===== src/Cli/Handlers.antt =====
-- The handlers of app/cli.py for plans and keys, but for the overrides.
use quotaguard.Prelude.{
  Bool, List, Option, Text, [], codes, decimal, if◌then◌else◌, join, length, map, none, some, ℕ,
  ◌++◌, ◌==◌, ◌∷◌,
}
use quotaguard.Models.{
  ApiKey, LimitField, Plan, burst_capacity, burst_refill_per_sec, monthly_quota, overrides,
  sustained_limit, sustained_window_seconds,
}
use quotaguard.Database.{Database}
use quotaguard.Errors.{Result, ok, ◌>>=◌}
use quotaguard.Plans.{App, count_keys, create_plan, field_name, list_plans}
use quotaguard.Keys.{issue_key, list_keys, revoke_key}
use quotaguard.Schemas.{RawPlanCreate, read_plan_create}
use quotaguard.Admin.{
  Body, Setting, after_checks, issued_of, key_issued, key_list, key_outs, key_revoked, plan_list,
  plan_of_key, plan_out, plan_out_of, revoked_of,
}
use quotaguard.Cli.Print.{grouped, policy_name, sort_texts, table, window}

pub record Options : Type 0 where
  pub as_json : Bool
  pub quiet : Bool

pub data Printed : Type 0 where
  out : Text → Printed
  err : Text → Printed
  dumped : Body → Printed

-- `_say`
unfoldable pub say : Options → Text → List Printed
say o message = if o.quiet then [] else out message ∷ []

-- `_fail`
unfoldable pub fail : Text → ℕ → ℕ × List Printed
fail message code = (code, err (codes "error: " ++ message) ∷ [])

-- What a handler gives: its exit code with what it printed, or its exception.
abbrev pub Handled : Type 0
Handled = Result (ℕ × List Printed)

unfoldable pub say_created : Options → Plan → ℕ × List Printed
say_created o p =
    if o.as_json
    then (0, dumped (plan_out (plan_out_of p)) ∷ [])
    else (0, say o (codes "created plan " ++ p.slug ++ codes " (" ++ p.name ++ codes ")"))

-- `_plan_create`
unfoldable pub plan_create_command : Setting → Options → RawPlanCreate → App → Handled × App
plan_create_command s o raw a =
    let (plan, a') =
      after_checks a (read_plan_create s.describe raw) (λ data_in. create_plan data_in a) in
    (plan >>= λ p. ok (say_created o p), a')

unfoldable pub plan_row : Database → Plan → List Text
plan_row db p =
    p.slug
    ∷ (decimal (p.limit burst_capacity)
        ++ codes " @ "
        ++ decimal (p.limit burst_refill_per_sec)
        ++ codes "/s")
    ∷ (grouped (p.limit sustained_limit)
        ++ codes " / "
        ++ window (p.limit sustained_window_seconds))
    ∷ grouped (p.limit monthly_quota)
    ∷ policy_name p.redis_down_policy
    ∷ decimal (count_keys db p)
    ∷ []

abbrev pub plan_headers : List Text
plan_headers =
    codes "slug"
    ∷ codes "burst"
    ∷ codes "sustained"
    ∷ codes "monthly"
    ∷ codes "policy"
    ∷ codes "keys"
    ∷ []

-- `_plan_list`
unfoldable pub plan_list_command : Options → Database → ℕ × List Printed
plan_list_command o db =
    let plans = list_plans db in
    if o.as_json
    then (0, dumped (plan_list (map plan_out_of plans) (length plans)) ∷ [])
    else if length plans == 0
    then (0, say o (codes "no plans yet - create one with: quotaguard plan create"))
    else (0, out (table plan_headers (map (plan_row db) plans)) ∷ [])

-- `KeyIssuedOut` is built before anything is printed.
unfoldable pub say_issued : Options → Text → Body → ℕ × List Printed
say_issued o secret (key_issued i) = if o.as_json then (0, dumped (key_issued i) ∷ []) else (
  0,
  say o (codes "issued key " ++ i.key_id ++ codes " (" ++ i.name ++ codes ") on plan " ++ i.plan)
      ++ out (codes "api key (shown once, store it now): " ++ secret) ∷ [],
)
say_issued o secret body = (0, [])

unfoldable pub issued_lines : Options → Database → ApiKey × Text → Handled
issued_lines o db (key, secret) = do
  body ← issued_of db (key, secret)
  ok (say_issued o secret body)

-- `_key_issue`
unfoldable pub key_issue_command : Setting → Options → Text → Text → App → Handled × App
key_issue_command s o plan name a =
    let (issued, a') = issue_key s.hash_secret s.draw plan name a in
    (issued >>= issued_lines o a'.db, a')

unfoldable pub override_names : ApiKey → List Text
override_names key = sort_texts (map (λ (f : LimitField × ℕ). field_name f.0) (overrides key))

unfoldable pub or_dash : Text → Text
or_dash [] = codes "-"
or_dash (c ∷ s) = c ∷ s

unfoldable pub key_row : Database → ApiKey → Result (List Text)
key_row db key = do
  plan ← plan_of_key db key
  ok (
      key.key_id
      ∷ key.key_prefix
      ∷ key.name
      ∷ plan.slug
      ∷ or_dash (join b',' (override_names key))
      ∷ elim key.revoked_at [ none ↦ codes "active" | some at ↦ codes "revoked" ]
      ∷ [])

unfoldable pub key_rows : Database → List ApiKey → Result (List (List Text))
key_rows db [] = ok []
key_rows db (k ∷ ks) = do row ← key_row db k; rows ← key_rows db ks; ok (row ∷ rows)

abbrev pub key_headers : List Text
key_headers =
    codes "key_id"
    ∷ codes "prefix"
    ∷ codes "name"
    ∷ codes "plan"
    ∷ codes "overrides"
    ∷ codes "status"
    ∷ []

unfoldable pub dump_keys : Database → List ApiKey → Handled
dump_keys db keys = do outs ← key_outs db keys; ok (0, dumped (key_list outs (length keys)) ∷ [])

unfoldable pub print_keys : Options → Database → List ApiKey → Handled
print_keys o db [] = ok (0, say o (codes "no keys yet - issue one with: quotaguard key issue"))
print_keys o db (k ∷ ks) = do rows ← key_rows db (k ∷ ks); ok (0, out (table key_headers rows) ∷ [])

-- `_key_list`
unfoldable pub key_list_command : Options → Option Text → Database → Handled
key_list_command o plan db = do
  keys ← list_keys db plan
  if o.as_json then dump_keys db keys else print_keys o db keys

unfoldable pub say_revoked : Options → Body → ℕ × List Printed
say_revoked o (key_revoked key_id at) =
    if o.as_json
    then (0, dumped (key_revoked key_id at) ∷ [])
    else (0, say o (codes "revoked key " ++ key_id ++ codes " at " ++ at))
say_revoked o body = (0, [])

-- `_key_revoke`
unfoldable pub key_revoke_command : Setting → Options → Text → App → Handled × App
key_revoke_command s o key_id a =
    let (key, a') = revoke_key key_id s.draw.now a in
    (key >>= revoked_of >>= λ body. ok (say_revoked o body), a')
