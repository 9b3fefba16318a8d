-- ===== src/KeyCache.antt =====
-- app/services/keycache.py: from the hash of a secret to the key, with a lifetime for each entry. A
-- lookup waits for the database between its two halves, so it is two functions, and other requests
-- and mutations run between them. The second half tests and then writes; a mutation in a thread of the
-- pool can also come between these two. Times are readings of the process's monotonic clock.
pub mod Freshness
pub mod Bounds
mod Tests
use quotaguard.Prelude.{
  Bool, List, Option, Text, [], false, if◌then◌else◌, insert, leb, length, lookup, ltb, none, some,
  true, ℕ, ◌&&◌, ◌+◌, ◌==◌,
}
use quotaguard.Models.{ApiKey, LimitField, Plan, RedisDownPolicy, effective_limits}
use quotaguard.Database.{Database, key_by_hash, plan_by_id}
use quotaguard.Errors.{Result, attribute_error, ok, raise}

abbrev pub max_cache_entries : ℕ
max_cache_entries = 10_000

pub record ResolvedKey : Type 0 where
  pub key_id : Text
  pub name : Text
  pub plan_slug : Text
  pub revoked : Bool
  pub limit : LimitField → ℕ
  pub quota_soft_pct : ℕ
  pub redis_down_policy : RedisDownPolicy

pub record Entry : Type 0 where
  pub expires_at : ℕ
  pub resolved : Option ResolvedKey

pub record Cache : Type 0 where
  pub entries : List (Text × Entry)
  pub generation : ℕ

unfoldable pub invalidate : Cache → Cache
invalidate c = record { entries = []; generation = c.generation + 1 }

unfoldable pub is_some {ℓ} : {A : Type ℓ} → Option A → Bool
is_some none = false
is_some (some a) = true

unfoldable pub resolved_key : ApiKey → Plan → ResolvedKey
resolved_key key plan = record {
  key_id = key.key_id;
  name = key.name;
  plan_slug = plan.slug;
  revoked = is_some key.revoked_at;
  limit = effective_limits key plan;
  quota_soft_pct = plan.quota_soft_pct;
  redis_down_policy = plan.redis_down_policy;
}

-- The row of a key names a plan by a foreign key; without the plan, `key.plan.slug` would raise.
unfoldable pub with_plan : ApiKey → Option Plan → Result (Option ResolvedKey)
with_plan key none = raise attribute_error
with_plan key (some plan) = ok (some (resolved_key key plan))

unfoldable pub load_row : Database → Option ApiKey → Result (Option ResolvedKey)
load_row db none = ok none
load_row db (some key) = with_plan key (plan_by_id key.plan_id db)

-- `_load`
unfoldable pub load : Text → Database → Result (Option ResolvedKey)
load digest db = load_row db (key_by_hash digest db)

-- A lookup that waits for the database.
pub record Pending : Type 0 where
  pub digest : Text
  pub now : ℕ
  pub generation : ℕ

pub data Begun : Type 0 where
  hit : Option ResolvedKey → Begun
  miss : Pending → Begun

unfoldable pub fresh_entry : ℕ → Option Entry → Option (Option ResolvedKey)
fresh_entry now none = none
fresh_entry now (some e) = if ltb now e.expires_at then some e.resolved else none

unfoldable pub begin_with : Pending → Option (Option ResolvedKey) → Begun
begin_with p none = miss p
begin_with p (some r) = hit r

-- `resolve` up to its `await`
unfoldable pub begin_resolve : Text → ℕ → Cache → Begun
begin_resolve digest now c =
    begin_with (record { digest = digest; now = now; generation = c.generation })
      (fresh_entry now (lookup digest c.entries))

-- `resolve` from its `await` on: first its test, and then its write, which asks for nothing any more.
unfoldable pub may_write : ℕ → Pending → Cache → Bool
may_write ttl p c = ltb 0 ttl && p.generation == c.generation

unfoldable pub write_entry : ℕ → Pending → Option ResolvedKey → Cache → Cache
write_entry ttl p resolved c = record c {
  entries =
      insert p.digest (record { expires_at = p.now + ttl; resolved = resolved })
        (if leb max_cache_entries (length c.entries) then [] else c.entries);
}

-- Both, where nothing comes between them, with what `_load` returned
unfoldable pub finish_resolve : ℕ → Pending → Option ResolvedKey → Cache → Cache
finish_resolve ttl p resolved c = if may_write ttl p c then write_entry ttl p resolved c else c
