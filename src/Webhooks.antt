-- ===== src/Webhooks.antt =====
-- app/services/webhooks.py: the outbox of soft threshold warnings. JSON, HMAC, HTTP, the clock and the
-- jitter are parameters.
pub mod Backoff
pub mod Once
pub mod Delivery
mod Tests
use quotaguard.Prelude.{
  Bool, List, Option, Text, [], codes, decimal, false, if◌then◌else◌, leb, ltb, min, none, not,
  select, some, take, true, ℕ, ℤ, ◌&&◌, ◌*◌, ◌++◌, ◌+◌, ◌-◌, ◌^◌, ◌∷◌,
}
use quotaguard.Models.{ApiKey, Plan, WebhookOutbox, monthly_quota}
use quotaguard.Database.{
  Database, key_by_id, key_by_key_id, next_id, outbox_for, plan_by_id, replace_outbox,
}
use quotaguard.KeyCache.{ResolvedKey, is_some}
use quotaguard.Plans.{has_url}

abbrev pub base_backoff_seconds : ℕ
base_backoff_seconds = 30

abbrev pub max_backoff_seconds : ℕ
max_backoff_seconds = 3_600

abbrev pub max_doublings : ℕ
max_doublings = 17

abbrev pub batch_size : ℕ
batch_size = 50

-- The fields of the body, beside the event's name.
pub record Payload : Type 0 where
  pub key_id : Text
  pub key_name : Text
  pub plan : Text
  pub month : Text
  pub used : ℤ
  pub quota : ℕ
  pub threshold_pct : ℕ
  pub sent_at : ℕ

unfoldable pub outbox_row : ℕ → ℕ → Text → Text → ℕ → WebhookOutbox
outbox_row id api_key_id month payload now = record {
  id = id;
  api_key_id = api_key_id;
  month = month;
  payload = payload;
  attempts = 0;
  next_attempt_at = now;
  delivered_at = none;
  last_error = none;
}

-- The unique constraint on the key and the month fails the commit of a second row.
unfoldable pub insert_outbox : WebhookOutbox → Database → Option WebhookOutbox → Bool × Database
insert_outbox row db (some old) = (false, db)
insert_outbox row db none = (true, record db { outbox = db.outbox ++ row ∷ [] })

unfoldable pub enqueue : ℕ → Text → Text → ℕ → Database → Bool × Database
enqueue api_key_id month payload now db =
    insert_outbox (outbox_row (next_id db.outbox) api_key_id month payload now) db
      (outbox_for api_key_id month db)

unfoldable pub enqueue_for :
    (Payload → Text) → ResolvedKey → Text → ℤ → ℕ → Database → Option ApiKey → Bool × Database
enqueue_for to_json key month used now db none = (false, db)
enqueue_for to_json key month used now db (some row) =
    let payload = to_json (record {
      key_id = key.key_id;
      key_name = key.name;
      plan = key.plan_slug;
      month = month;
      used = used;
      quota = key.limit monthly_quota;
      threshold_pct = key.quota_soft_pct;
      sent_at = now;
    }) in
    enqueue row.id month payload now db

-- `broken` says that SQLite refuses the session, which the function logs and swallows.
unfoldable pub enqueue_soft_warning :
    (Payload → Text) → Bool → ResolvedKey → Text → ℤ → ℕ → Database → Bool × Database
enqueue_soft_warning to_json broken key month used now db =
    if broken
    then (false, db)
    else enqueue_for to_json key month used now db (key_by_key_id key.key_id db)

unfoldable pub base_seconds : ℕ → ℕ
base_seconds attempt_num =
    min (base_backoff_seconds * 2 ^ min (attempt_num - 1) max_doublings) max_backoff_seconds

-- `jittered` multiplies by `random.uniform(0.8, 1.2)` and gives microseconds.
unfoldable pub compute_next_attempt : (ℕ → ℕ) → ℕ → ℕ → ℕ
compute_next_attempt jittered now attempt_num = now + jittered (base_seconds attempt_num)

-- No secret, or an empty one, gives no signature.
unfoldable pub sign_payload : (Text → Text → Text) → Option Text → Text → Text
sign_payload hmac_hex none payload = []
sign_payload hmac_hex (some []) payload = []
sign_payload hmac_hex (some (c ∷ s)) payload = codes "sha256=" ++ hmac_hex (c ∷ s) payload

-- What a POST comes to: a status, the class of a `RequestError`, or that of an exception which
-- `deliver_one` does not catch, such as `httpx.InvalidURL`.
pub data Answer : Type 0 where
  status : ℕ → Answer
  request_error : Text → Answer
  uncaught : Text → Answer

-- A POST as it is sent: the address, the body and the headers.
pub record Post : Type 0 where
  pub url : Option Text
  pub content : Text
  pub headers : List (Text × Text)

pub record Outside : Type 0 where
  pub hmac_hex : Text → Text → Text
  pub secret : Option Text
  pub post : Post → Answer
  pub now : ℕ
  pub jittered : ℕ → ℕ

unfoldable pub signature_header : Text → List (Text × Text)
signature_header [] = []
signature_header (c ∷ s) = (codes "X-QuotaGuard-Signature", c ∷ s) ∷ []

unfoldable pub post_of : Outside → WebhookOutbox → Plan → Post
post_of o row plan = record {
  url = plan.webhook_url;
  content = row.payload;
  headers =
      (codes "User-Agent", codes "quotaguard/1.0")
      ∷ (codes "X-QuotaGuard-Event", codes "quota.soft_threshold")
      ∷ signature_header (sign_payload o.hmac_hex o.secret row.payload);
}

unfoldable pub failed : Outside → WebhookOutbox → Text → WebhookOutbox
failed o row error = record row {
  attempts = row.attempts + 1;
  last_error = some error;
  next_attempt_at = compute_next_attempt o.jittered o.now (row.attempts + 1);
}

unfoldable pub delivered : Outside → WebhookOutbox → WebhookOutbox
delivered o row = record row { delivered_at = some o.now; last_error = none }

-- What is returned and the row as the commit writes it; none is the exception that is not caught.
unfoldable pub after_answer : Outside → WebhookOutbox → Answer → Option (Bool × WebhookOutbox)
after_answer o row (status code) =
    if leb 200 code && ltb code 300
    then some (true, delivered o row)
    else some (false, failed o row (codes "HTTP " ++ decimal code))
after_answer o row (request_error name) = some (false, failed o row name)
after_answer o row (uncaught name) = none

unfoldable pub deliver_one : Outside → WebhookOutbox → Plan → Option (Bool × WebhookOutbox)
deliver_one o row plan = after_answer o row (o.post (post_of o row plan))

unfoldable pub is_due : ℕ → ℕ → WebhookOutbox → Bool
is_due max_attempts now row =
    not (is_some row.delivered_at) && leb row.next_attempt_at now && ltb row.attempts max_attempts

-- The rows that were processed, the tables, and whether an exception has ended the loop.
abbrev pub Passed : Type 0
Passed = ℕ × Database × Bool

unfoldable pub write_answer : Database → Option (Bool × WebhookOutbox) → Passed
write_answer db none = (0, db, true)
write_answer db (some (sent, row)) = (1, record db { outbox = replace_outbox row db.outbox }, false)

unfoldable pub deliver_to : Outside → WebhookOutbox → Database → Option Plan → Passed
deliver_to o row db none = (0, db, false)
deliver_to o row db (some plan) =
    if has_url plan.webhook_url then write_answer db (deliver_one o row plan) else (0, db, false)

unfoldable pub deliver_for : Outside → WebhookOutbox → Database → Option ApiKey → Passed
deliver_for o row db none = (0, db, false)
deliver_for o row db (some key) = deliver_to o row db (plan_by_id key.plan_id db)

unfoldable pub deliver_rows : Outside → List WebhookOutbox → Database → Passed
deliver_rows o [] db = (0, db, false)
deliver_rows o (row ∷ rows) db =
    let (n, db1, raised) = deliver_for o row db (key_by_id row.api_key_id db) in
    let (m, db2, raised_later) = deliver_rows o rows db1 in
    if raised then (n, db1, true) else (n + m, db2, raised_later)

-- An exception of a POST that is not caught leaves the pass, with the rows before it committed.
unfoldable pub deliver_webhooks : Outside → ℕ → Database → Passed
deliver_webhooks o max_attempts db =
    deliver_rows o (take batch_size (select (is_due max_attempts o.now) db.outbox)) db
