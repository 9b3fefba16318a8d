-- ===== src/Scheduler/Tests.antt =====
-- A pass of the delivery between two runs of the rollup.
use quotaguard.Models.{WebhookOutbox}
use quotaguard.Prelude.{List, Text, [], arith, codes, false, none, refl, some, true, ◌*◌, ◌∷◌}
use quotaguard.Pool.{Pool, flag_pattern, quota_pattern}
use quotaguard.Pool.Scans.{Descends}
use quotaguard.Redis.{empty, set_string}
use quotaguard.Rollup.Job.{Surroundings}
use quotaguard.Samples.{demo_db}
use quotaguard.Webhooks.{Outside, status}
use quotaguard.Scheduler.{Iteration, Shared, loops, rollup, webhooks}
use quotaguard.Scheduler.Kept.{KeptIn, ScansEnd, loops-Kept}

-- One counter, on one page.
abbrev one_counter : Pool
one_counter = record {
  scan = λ pattern cursor. some (0, codes "qg:q:key_1:2026-07" ∷ []);
  lost = λ key. false;
  redis = set_string (codes "qg:q:key_1:2026-07") 3 empty;
}

abbrev job : Surroundings
job = record {
  token = codes "token_1";
  now = 1_785_000_000_000_000;
  pool = one_counter;
  reachable = true;
  decodes = false;
  broken_at = λ key. false;
  meanwhile = λ lock. lock;
  between = λ lock. lock;
  get_answered = true;
  del_runs = true;
  to_json = λ p. p.key_id;
  fuel = 1;
}

abbrev refusing : Outside
refusing = record {
  hmac_hex = λ secret body. [];
  secret = none;
  post = λ p. status 503;
  now = 9;
  jittered = λ s. 1_000_000 * s;
}

abbrev waiting : WebhookOutbox
waiting = record {
  id = 1;
  api_key_id = 1;
  month = codes "2026-06";
  payload = codes "{}";
  attempts = 1;
  next_attempt_at = 5;
  delivered_at = none;
  last_error = none;
}

abbrev start : Shared
start = record { lock = none; db = record demo_db { outbox = waiting ∷ [] } }

abbrev three : List Iteration
three = rollup job ∷ webhooks refusing ∷ rollup job ∷ []

one_page : (pattern : Text) → Descends one_counter pattern (λ cursor. 0)
one_page pattern cursor following keys e more = ground arith

job-ScansEnd : ScansEnd (rollup job)
job-ScansEnd = ((λ cursor. 0), one_page quota_pattern, one_page flag_pattern, omega arith)

loops-Kept_example : KeptIn 5 start.db (loops 300 5 three start)
loops-Kept_example =
    loops-Kept 300 5 three start (job-ScansEnd, (tt, (job-ScansEnd, tt))) (tt, (refl, tt))
