-- ===== src/Samples.antt =====
-- Rows on which the theorems are run: the demo seed of docs/architecture.md, one plan and one key.
use quotaguard.Prelude.{Option, [], codes, none, some, ℕ, ◌∷◌}
use quotaguard.Models.{
  ApiKey, LimitField, Plan, burst_capacity, burst_refill_per_sec, fail_open, monthly_quota,
  sustained_limit, sustained_window_seconds,
}
use quotaguard.Database.{Database}
use quotaguard.Plans.{App}

abbrev pub free_limit : LimitField → ℕ
free_limit burst_capacity = 10
free_limit burst_refill_per_sec = 5
free_limit sustained_limit = 100
free_limit sustained_window_seconds = 60
free_limit monthly_quota = 1_000

abbrev pub free_plan : Plan
free_plan = record {
  id = 1;
  slug = codes "free";
  name = codes "Free";
  limit = free_limit;
  quota_soft_pct = 80;
  webhook_url = some (codes "https://example.com/hook");
  redis_down_policy = fail_open;
}

abbrev pub demo_override : LimitField → Option ℕ
demo_override burst_capacity = some 20
demo_override _ = none

abbrev pub demo_key : ApiKey
demo_key = record {
  id = 1;
  key_id = codes "key_1";
  key_hash = codes "hash_1";
  key_prefix = codes "qg_live_aaaa";
  name = codes "demo";
  plan_id = 1;
  override_of = demo_override;
  revoked_at = none;
  created_at = 1_753_000_000;
}

abbrev pub revoked_key : ApiKey
revoked_key = record demo_key {
  id = 2;
  key_id = codes "key_2";
  key_hash = codes "hash_2";
  revoked_at = some 1_753_000_100;
}

abbrev pub demo_db : Database
demo_db = record {
  plans = free_plan ∷ [];
  keys = demo_key ∷ revoked_key ∷ [];
  rollups = [];
  outbox = [];
}

abbrev pub demo_app : App
demo_app = record { db = demo_db; cache = record { entries = []; generation = 0 } }
