-- ===== src/Cli.antt =====
-- app/cli.py: the commands, from their parsed arguments to the exit code, what is printed, and what they
-- leave in the tables. argparse, the colours and the text of a JSON dump are left out: a dump is the value that is
-- dumped.
mod Print
mod Handlers
mod Override
pub mod Exit
pub mod Agree
mod Tests
use quotaguard.KeyCache.{Cache}
use quotaguard.Database.{Database}
use quotaguard.Prelude.{List, Option, Text, [], codes, join, ℕ, ℤ, ◌++◌, ◌∷◌}
use quotaguard.Models.{LimitField}
use quotaguard.Errors.{Exception, Problem, app, location, message_of, ok, raise, request_validation}
use quotaguard.Plans.{App}
use quotaguard.Schemas.{RawPlanCreate}
use quotaguard.Admin.{Setting}
use quotaguard.Cli.Handlers.{
  Handled, Options, Printed, fail, key_issue_command, key_list_command, key_revoke_command,
  plan_create_command, plan_list_command,
}
use quotaguard.Cli.Override.{key_override_command}

pub data Command : Type 0 where
  plan_create : RawPlanCreate → Command
  plans_list : Command
  key_issue : Text → Text → Command
  keys_list : Option Text → Command
  key_override : Text → (LimitField → Option ℤ) → Option Text → Command
  key_revoke : Text → Command

unfoldable pub run_command : Setting → Options → Command → App → Handled × App
run_command s o (plan_create raw) a = plan_create_command s o raw a
run_command s o plans_list a = (ok (plan_list_command o a.db), a)
run_command s o (key_issue plan name) a = key_issue_command s o plan name a
run_command s o (keys_list plan) a = (key_list_command o plan a.db, a)
run_command s o (key_override key_id given clear) a = key_override_command s o key_id given clear a
run_command s o (key_revoke key_id) a = key_revoke_command s o key_id a

-- The first problem alone; its place has no part of a request before it here.
unfoldable pub problem_line : List Problem → Text
problem_line [] = []
problem_line (p ∷ ps) = join b'.' (location p.loc) ++ codes ": " ++ p.msg ++ codes "."

-- The handlers of `main`; `class_name` is `exc.__class__.__name__`.
unfoldable pub exit_with : (Exception → Text) → Handled → ℕ × List Printed
exit_with class_name (ok done) = done
exit_with class_name (raise (app e)) = fail (message_of e) 1
exit_with class_name (raise (request_validation ps)) = fail (problem_line ps) 1
exit_with class_name (raise e) = fail (codes "unexpected failure: " ++ class_name e ++ codes ".") 2

-- The cache of a process at its start.
abbrev pub fresh_cache : Cache
fresh_cache = record { entries = []; generation = 0 }

-- `main`, from its parsed arguments and a configuration that loads, in a process of its own: what it
-- invalidates is its own cache, which ends with it, and the cache of a server is out of its reach.
unfoldable pub main :
    Setting → (Exception → Text) → Options → Command → Database → (ℕ × List Printed) × Database
main s class_name o c db =
    let (handled, a') = run_command s o c (record { db = db; cache = fresh_cache }) in
    (exit_with class_name handled, a'.db)
