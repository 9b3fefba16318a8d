-- ===== src/Cli/Exit.antt =====
-- The exit code of each handler, beside the outcome of the admin API's route.
use quotaguard.Prelude.{
  Bool, List, Option, Text, [], arith, false, if◌then◌else◌, length, refl, sym, true, ℕ, ◌∙◌, ◌∷◌,
  ◌≡◌,
}
use quotaguard.Models.{ApiKey, LimitField, Plan}
use quotaguard.Database.{Database}
use quotaguard.Errors.{Exception, Result, app, ok, raise, request_validation, ◌>>=◌}
use quotaguard.Plans.{App, create_plan}
use quotaguard.Keys.{issue_key, list_keys}
use quotaguard.Schemas.{
  RawPlanCreate, name_ok, problems, read_key_issue, read_plan_create, validated,
}
use quotaguard.Admin.{
  Body, Setting, after_checks, issued_of, key_detail_of, key_list, key_out, key_outs,
  list_keys_body, plan_of_key, plan_out, plan_out_of, post_key_route, post_plan_route,
}
use quotaguard.Cli.Print.{table}
use quotaguard.Cli.Handlers.{
  Handled, Options, Printed, dump_keys, dumped, fail, issued_lines, key_headers, key_issue_command,
  key_list_command, key_row, key_rows, out, plan_create_command, plan_list_command, print_keys,
  say_created, say_issued, say_revoked,
}
use quotaguard.Cli.Override.{Changes, limits_of, override_lines}
use quotaguard.Cli.{exit_with}

-- The exit code of a handler's outcome.
abbrev pub code_of_error : Exception → ℕ
code_of_error (app e) = 1
code_of_error (request_validation ps) = 1
code_of_error _ = 2

abbrev pub code_of : {A : Type 0} → Result A → ℕ
code_of (ok x) = 0
code_of (raise e) = code_of_error e

-- The same changes, and an exit code that tells how the route ended.
abbrev pub Agrees : (Exception → Text) → Handled × App → Result Body × App → Type 0
Agrees class_name (handled, a) (body, b) =
    (a ≡ b) × ((exit_with class_name handled).0 ≡ code_of body)

pub exit_with-raise :
    (class_name : Exception → Text) (e : Exception)
    → (exit_with class_name (raise e)).0 ≡ code_of_error e
unfolding exit_with fail
exit_with-raise class_name e = ground arith

-- Two chains from one result, whose next steps end alike.
pub bind-Agrees :
    {A : Type 0} (class_name : Exception → Text) (r : Result A) (a : App)
    → (f : A → Handled) (g : A → Result Body)
    → ((x : A) → r ≡ ok x → (exit_with class_name (f x)).0 ≡ code_of (g x))
    → Agrees class_name ((r >>= f), a) ((r >>= g), a)
bind-Agrees class_name (raise e) a f g h = (refl, exit_with-raise class_name e)
bind-Agrees class_name (ok x) a f g h = (refl, h x refl)

pub say_created-code : (o : Options) (p : Plan) → (say_created o p).0 ≡ 0
unfolding say_created
say_created-code o p = ground arith

pub plan_list_command-code : (o : Options) (db : Database) → (plan_list_command o db).0 ≡ 0
unfolding plan_list_command
plan_list_command-code o db = ground arith

pub say_issued-code : (o : Options) (secret : Text) (body : Body) → (say_issued o secret body).0 ≡ 0
unfolding say_issued
say_issued-code o secret body = ground arith

pub say_revoked-code : (o : Options) (body : Body) → (say_revoked o body).0 ≡ 0
unfolding say_revoked
say_revoked-code o body = ground arith

pub create-Agrees :
    (s : Setting) (class_name : Exception → Text) (o : Options) (raw : RawPlanCreate) (a : App)
    → Agrees class_name (plan_create_command s o raw a) (post_plan_route s raw a)
unfolding plan_create_command post_plan_route exit_with
create-Agrees s class_name o raw a =
    bind-Agrees class_name
      (after_checks a (read_plan_create s.describe raw) (λ data_in. create_plan data_in a)).0
      (after_checks a (read_plan_create s.describe raw) (λ data_in. create_plan data_in a)).1
      (λ p. ok (say_created o p)) (λ p. ok (plan_out (plan_out_of p))) (λ p i. say_created-code o p)

-- A last step that cannot fail.
pub exit_with-bind :
    {A : Type 0} (class_name : Exception → Text) (r : Result A) (f : A → ℕ × List Printed)
    → ((x : A) → (f x).0 ≡ 0)
    → (exit_with class_name (r >>= λ x. ok (f x))).0 ≡ code_of r
unfolding exit_with
exit_with-bind class_name (raise e) f h = exit_with-raise class_name e
exit_with-bind class_name (ok x) f h = h x

pub read_key_issue-ok :
    (describe : Text → Text) (plan name : Text)
    → name_ok name ≡ true
    → read_key_issue describe (record { plan = plan; name = name; unknown = [] }) ≡ ok (plan, name)
unfolding read_key_issue problems validated
read_key_issue-ok describe plan name h = rw h refl

pub issue-Agrees :
    (s : Setting) (class_name : Exception → Text) (o : Options) (plan name : Text) (a : App)
    → name_ok name ≡ true
    → Agrees class_name
        (key_issue_command s o plan name a)
        (post_key_route s (record { plan = plan; name = name; unknown = [] }) a)
unfolding key_issue_command post_key_route after_checks issued_lines
issue-Agrees s class_name o plan name a h =
    let done = issue_key s.hash_secret s.draw plan name a in
    rw (read_key_issue-ok s.describe plan name h) (
      bind-Agrees class_name done.0 done.1 (issued_lines o done.1.db) (issued_of done.1.db)
        (λ (key, secret) i.
          exit_with-bind class_name (issued_of done.1.db (key, secret)) (say_issued o secret)
            (say_issued-code o secret)))

pub key_rows-code :
    (db : Database) (keys : List ApiKey) → code_of (key_rows db keys) ≡ code_of (key_outs db keys)
unfolding key_rows key_outs key_row key_out
key_rows-code db [] = refl
key_rows-code db (k ∷ ks) = ground (arith, key_rows-code db ks)

pub print_keys-code :
    (class_name : Exception → Text) (o : Options) (db : Database) (keys : List ApiKey)
    → (exit_with class_name (print_keys o db keys)).0 ≡ code_of (key_outs db keys)
unfolding print_keys key_outs exit_with
print_keys-code class_name o db [] = refl
print_keys-code class_name o db (k ∷ ks) =
    exit_with-bind class_name (key_rows db (k ∷ ks))
      (λ rows. (0, out (table key_headers rows) ∷ [])) (λ rows. refl)
    ∙ key_rows-code db (k ∷ ks)

code_of-bind : {A B : Type 0} (r : Result A) (f : A → B) → code_of (r >>= λ x. ok (f x)) ≡ code_of r
code_of-bind (raise e) f = refl
code_of-bind (ok x) f = refl

pub listed-code :
    (class_name : Exception → Text) (o : Options) (json : Bool) (db : Database)
    → (keys : List ApiKey)
    → (exit_with class_name (if json then dump_keys db keys else print_keys o db keys)).0
      ≡ code_of (key_outs db keys >>= λ outs. ok (key_list outs (length keys)))
unfolding dump_keys
listed-code class_name o true db keys =
    exit_with-bind class_name (key_outs db keys)
      (λ outs. (0, dumped (key_list outs (length keys)) ∷ [])) (λ outs. refl)
    ∙ sym (code_of-bind (key_outs db keys) (λ outs. key_list outs (length keys)))
listed-code class_name o false db keys =
    print_keys-code class_name o db keys
    ∙ sym (code_of-bind (key_outs db keys) (λ outs. key_list outs (length keys)))

pub listing-Agrees :
    (class_name : Exception → Text) (o : Options) (plan : Option Text) (a : App)
    → Agrees class_name (key_list_command o plan a.db, a) (list_keys_body a.db plan, a)
unfolding key_list_command list_keys_body
listing-Agrees class_name o plan a =
    bind-Agrees class_name (list_keys a.db plan) a
      (λ keys. if o.as_json then dump_keys a.db keys else print_keys o a.db keys)
      (λ keys. key_outs a.db keys >>= λ outs. ok (key_list outs (length keys)))
      (λ keys i. listed-code class_name o o.as_json a.db keys)

pub override_lines-plan :
    (class_name : Exception → Text) (o : Options) (changes : Changes) (before : LimitField → ℕ)
    → (db : Database) (key : ApiKey) (plan : Result Plan) → plan_of_key db key ≡ plan
    → (exit_with class_name (override_lines o changes before db key)).0
      ≡ code_of (key_detail_of db key)
unfolding override_lines limits_of key_detail_of key_out exit_with
override_lines-plan class_name o changes before db key (raise e) h =
    rw h (exit_with-raise class_name e)
override_lines-plan class_name o changes before db key (ok plan) h = rw h (ground arith)
