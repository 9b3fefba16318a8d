-- ===== src/Registry/Tests.antt =====
-- A script that counts its calls, on a server that is flushed after it was loaded.
use quotaguard.Prelude.{
  Text, [], codes, false, if◌then◌else◌, insert, lookup, none, refl, some, text_eq, true, ℕ, ◌+◌,
  ◌==◌, ◌∷◌, ◌≡◌,
}
use quotaguard.Errors.{ok}
use quotaguard.Registry.Once.{Matches, Tried, run_script-Tried}
use quotaguard.Registry.Recovery.{run_script-exec}
use quotaguard.Registry.{
  Client, World, command, eval_act, eval_known, eval_with, evalsha, flush_if, is_no_script,
  known_sha, load_act, register, register_source, registered, retried, run_body, run_known,
  run_script, script_load, send, tick, up,
}

abbrev check_body : Text
check_body = codes "return redis.call('INCR', KEYS[1])"

-- SHA-1 is the identity, a script adds 1, and the cache is flushed before the first command.
abbrev counting : World ℕ ℕ
counting = record {
  source = λ name. if text_eq name (codes "check") then some check_body else none;
  sha1 = λ s. s;
  exec = λ body keys args n. (n + 1, n + 1);
  weather = λ i. up (i == 0);
}

abbrev loaded : Client counting
loaded = record {
  registry = record { shas = (codes "check", check_body) ∷ [] };
  server = record { scripts = (check_body, check_body) ∷ []; store = 7; commands = 0 };
}

readable : counting.source (codes "check") ≡ some check_body
unfolding text_eq
readable = refl

-- The flush is repaired, with three commands and one run.
flushed_test :
    let (r, c) = run_script counting (codes "check") [] [] loaded in
    (r ≡ ok 8) × (c.server.store ≡ 8) × (c.server.commands ≡ 3)
unfolding run_script run_known known_sha lookup text_eq retried is_no_script eval_known eval_with
    evalsha eval_act run_body command send tick flush_if register register_source registered
    script_load load_act insert
flushed_test = (refl, refl, refl)

check_only : (body : Text) → counting.source (codes "check") ≡ some body → check_body ≡ body
unfolding text_eq
check_only body e = cc

loaded-Matches : Matches counting loaded
loaded-Matches = ((check_only, tt), (refl, tt))

run_script-Tried_example :
    Tried counting check_body [] [] 7 (0 + 4) (run_script counting (codes "check") [] [] loaded)
run_script-Tried_example =
    run_script-Tried counting (codes "check") check_body [] [] loaded (λ a b e. e) readable
      loaded-Matches

run_script-exec_example :
    let (r, c) = run_script counting (codes "check") [] [] loaded in
    (r ≡ ok 8) × (c.server.store ≡ 8)
run_script-exec_example =
    run_script-exec counting (codes "check") check_body [] [] loaded (λ a b e. e) readable
      loaded-Matches ((true, refl), (false, refl), refl, refl)
