-- ===== src/Rollup/Tests.antt =====
-- A counter's name and a restore.
use quotaguard.Prelude.{
  Lacks, Text, [], arith, codes, false, inl, max, none, pos, refl, some, split, text_eq, true, ◌↔◌,
  ◌∷◌, ◌≡◌, ◌≢◌, ◌≤◌,
}
use quotaguard.Rollup.{colon, counter_key, key_of_parts, parse_quota_key, restore, upsert_rollup}
use quotaguard.Rollup.Parse.{parse_quota_key_iff}
use quotaguard.Rollup.Upsert.{HasRow, upsert_raises, used_of}
use quotaguard.Models.{Rollup}
use quotaguard.Database.{Database, rollup_for}
use quotaguard.Samples.{demo_db, demo_key, free_plan}
use quotaguard.Rollup.Reconcile.{Write, reconcile, reconciled_once, warn, write_all}
use quotaguard.KeyCache.{resolved_key}
use quotaguard.Webhooks.Once.{Warn, warnings}
use quotaguard.Rollup.Restore.{restore_raises}
use quotaguard.Pool.{Pool, flag_pattern, quota_pattern}
use quotaguard.Pool.Scans.{Descends, first_page}
use quotaguard.Rollup.Job.{Surroundings, run}
use quotaguard.Rollup.Lock.{EndsFrom, run-EndsFrom}
use quotaguard.Rollup.Persist.{Persists, run-Persists}
use quotaguard.Redis.{Redis, counter, empty, put, set_string}

abbrev demo_name : Text
demo_name = codes "qg:q:key_1:2026-07"

parse_quota_key_iff_example :
    (parse_quota_key demo_name ≡ some (codes "key_1", codes "2026-07")) ↔ (
      (demo_name ≡ counter_key (codes "q") (codes "key_1") (codes "2026-07"))
      × Lacks colon (codes "key_1")
      × Lacks colon (codes "2026-07"))
parse_quota_key_iff_example = parse_quota_key_iff demo_name (codes "key_1") (codes "2026-07")

parsed_demo_name : parse_quota_key demo_name ≡ some (codes "key_1", codes "2026-07")
unfolding parse_quota_key key_of_parts split text_eq
parsed_demo_name = refl

abbrev low_redis : Redis
low_redis = set_string demo_name 3 empty

restore_raises_example :
    let (value, r') = restore demo_name 12 1_785_542_400 low_redis in
    (value ≡ max (counter demo_name low_redis) 12)
    × (counter demo_name r' ≡ max (counter demo_name low_redis) 12)
    × ((other : Text) → other ≢ demo_name → counter other r' ≡ counter other low_redis)
    × (restore demo_name 12 1_785_542_400 r' ≡ (value, r'))
restore_raises_example = restore_raises demo_name 12 1_785_542_400 low_redis

abbrev july_row : Rollup
july_row = record {
  id = 1;
  api_key_id = 1;
  month = codes "2026-07";
  used = 12;
  quota_limit = 1_000;
}

abbrev with_row : Database
with_row = record demo_db { rollups = july_row ∷ [] }

upsert_raises_example :
    let db' = upsert_rollup 1 (codes "2026-07") 15 1_000 with_row in
    HasRow 1 (codes "2026-07") (max (used_of (rollup_for 1 (codes "2026-07") with_row)) 15) db'
    × (upsert_rollup 1 (codes "2026-07") 15 1_000 db' ≡ db')
upsert_raises_example = upsert_raises 1 (codes "2026-07") 15 1_000 with_row (refl, tt)

abbrev july_warning : Warn
july_warning = record {
  broken = false;
  key = resolved_key demo_key free_plan;
  month = codes "2026-07";
  used = pos 801;
  now = 1_785_000_000_000_000;
}

-- A pool that names the counter in its only page, whatever the pattern.
abbrev small_pool : Pool
small_pool = record {
  scan = λ pattern cursor. some (0, demo_name ∷ []);
  lost = λ key. false;
  redis = low_redis;
}

abbrev july_flags : Write
july_flags = reconcile small_pool 1_785_000_000_000_000 (codes "qg:f:key_1:2026-07" ∷ [])

reconciled_once_example :
    warnings 1
      (codes "2026-07")
      (write_all (λ p. p.key_id) (warn july_warning ∷ july_flags ∷ []) with_row)
    ≤ 1
reconciled_once_example =
    reconciled_once (λ p. p.key_id) (warn july_warning ∷ july_flags ∷ []) with_row 1
      (codes "2026-07") (omega arith)

abbrev july_job : Surroundings
july_job = record {
  token = codes "token_1";
  now = 1_785_000_000_000_000;
  pool = small_pool;
  reachable = true;
  decodes = true;
  broken_at = λ key. false;
  meanwhile = λ lock. lock;
  between = λ lock. lock;
  get_answered = true;
  del_runs = true;
  to_json = λ p. p.key_id;
  fuel = 1;
}

one_page : (pattern : Text) → Descends small_pool pattern (λ cursor. 0)
one_page pattern cursor following keys e more = ground arith

run-EndsFrom_example : EndsFrom july_job none with_row (run july_job none with_row)
run-EndsFrom_example =
    run-EndsFrom july_job (λ cursor. 0) none with_row refl (one_page quota_pattern)
      (one_page flag_pattern) (omega arith)

counter_there : low_redis.strings demo_name ≡ some 3
unfolding set_string put text_eq
counter_there = refl

run-Persists_example : Persists with_row demo_name 3 (run july_job none with_row)
run-Persists_example =
    run-Persists july_job (λ cursor. 0) with_row (demo_name ∷ []) demo_name 3 refl (λ name. refl)
      (one_page quota_pattern) (one_page flag_pattern) (omega arith) (refl, tt)
      (first_page 0 0 (demo_name ∷ []) refl) (inl refl) counter_there
