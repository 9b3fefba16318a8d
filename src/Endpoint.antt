-- ===== src/Endpoint.antt =====
-- app/routers/check.py: the decision that one request gets, and the two tokens of app/deps.py.
pub mod Limits
mod Tests
use quotaguard.Prelude.{
  Bool, Option, Text, [], codes, false, if◌then◌else◌, ltb, none, some, text_eq, true, ℕ, ◌&&◌, ◌∷◌,
}
use quotaguard.Errors.{Result, app, ok, raise, type_error, unauthorized, ◌>>=◌}
use quotaguard.KeyCache.{ResolvedKey}
use quotaguard.Database.{Database}
use quotaguard.Redis.{Redis, Time}
use quotaguard.Admission.{Doubles}
use quotaguard.Checker.{CheckOut, Ratios, ScriptResult, run_check, to_out}
use quotaguard.Webhooks.{Payload, enqueue_soft_warning}

-- What the endpoint reads and writes beside the key's lookup.
pub record Stores : Type 0 where
  pub redis : Redis
  pub db : Database

-- What the request and its surroundings give: the id of the window's member, the server's time, the
-- process's clock, and whether SQLite refuses the outbox row.
pub record CheckRequest : Type 0 where
  pub resource : Text
  pub cost : ℕ
  pub request_id : Text
  pub time : Time
  pub now : ℕ
  pub broken : Bool

unfoldable pub refused : Text → CheckOut
refused reason = record {
  allowed = false;
  reason = some reason;
  degraded = false;
  shown = none;
  retry_after = none;
  headers = [];
  layers = none;
}

-- The outbox row of a crossing.
unfoldable pub warn_if_crossed :
    (Payload → Text) → ResolvedKey → CheckRequest → ScriptResult → Database → Database
warn_if_crossed to_json key q result db =
    if result.soft_crossed
    then (enqueue_soft_warning to_json q.broken key result.month result.quota_used q.now db).1
    else db

unfoldable pub answer :
    Doubles
    → (Payload → Text)
    → Ratios
    → ResolvedKey
    → CheckRequest
    → Database
    → Result ScriptResult × Redis
    → Result CheckOut × Stores
answer d to_json ratios key q db (raise e, r) = (raise e, record { redis = r; db = db })
answer d to_json ratios key q db (ok result, r) =
    (to_out ratios key result, record { redis = r; db = warn_if_crossed to_json key q result db })

unfoldable pub check_key :
    Doubles
    → (Payload → Text)
    → Ratios
    → ResolvedKey
    → CheckRequest
    → Stores
    → Bool
    → Result CheckOut × Stores
check_key d to_json ratios key q s true = (ok (refused (codes "revoked_key")), s)
check_key d to_json ratios key q s false =
    answer d to_json ratios key q s.db
      (run_check d key q.resource q.cost q.request_id q.time s.redis)

-- `check`, from the answer of `keycache.resolve` on
unfoldable pub check_request :
    Doubles
    → (Payload → Text)
    → Ratios
    → Option ResolvedKey
    → CheckRequest
    → Stores
    → Result CheckOut × Stores
check_request d to_json ratios none q s = (ok (refused (codes "unknown_key")), s)
check_request d to_json ratios (some key) q s = check_key d to_json ratios key q s key.revoked

-- `hmac.compare_digest` of two texts wants ASCII.
unfoldable pub is_ascii : Text → Bool
is_ascii [] = true
is_ascii (c ∷ s) = ltb c 128 && is_ascii s

unfoldable pub compare_digest : Text → Text → Result Bool
compare_digest a b = if is_ascii a && is_ascii b then ok (text_eq a b) else raise type_error

unfoldable pub if_same : Text → Bool → Result (Unit {0})
if_same message true = ok tt
if_same message false = raise (app (unauthorized message))

unfoldable pub require_admin : Text → Option Text → Result (Unit {0})
require_admin admin_token none =
    raise (app (unauthorized (codes "A valid X-Admin-Token header is required.")))
require_admin admin_token (some token) = do
  same ← compare_digest token admin_token
  if_same (codes "A valid X-Admin-Token header is required.") same

unfoldable pub require_token : Text → Option Text → Result (Unit {0})
require_token expected none =
    raise (app (unauthorized (codes "A valid X-Service-Token header is required.")))
require_token expected (some token) = do
  same ← compare_digest token expected
  if_same (codes "A valid X-Service-Token header is required.") same

unfoldable pub require_service_token : Option Text → Option Text → Result (Unit {0})
require_service_token none token = ok tt
require_service_token (some []) token = ok tt
require_service_token (some (c ∷ s)) token = require_token (c ∷ s) token
