-- ===== src/Endpoint/Limits.antt =====
-- The promises of the endpoint over a whole history of requests: it composes the cache's answer, the
-- script, and the outbox.
use quotaguard.Admission.Runs.{after, final}
use quotaguard.Webhooks.Once.{Warn, enqueue_soft_warning-once, warnings}
use quotaguard.Redis.{Redis, counter}
use quotaguard.Database.{Database}
use quotaguard.Prelude.{
  All, Bool, Bool-cases, List, Option, Text, [], ap, false, inl, inr, map, none, refl, some, sym,
  true, ℕ, ◌++◌, ◌∙◌, ◌∷◌, ◌≡◌, ◌≤◌,
}
use quotaguard.KeyCache.{ResolvedKey}
use quotaguard.Endpoint.{CheckRequest, Stores, answer, check_key, check_request, warn_if_crossed}
use quotaguard.Admission.{Doubles}
use quotaguard.Checker.{Ratios, ScriptResult, run_check}
use quotaguard.Checker.Service.{HasQuota, Request, call_of, month_counter, monthly_quota_holds}
use quotaguard.Webhooks.{Payload}
use quotaguard.Errors.{Result, ok, raise}

-- One request, with what the key's lookup answered.
pub record Visit : Type 0 where
  pub key : Option ResolvedKey
  pub request : CheckRequest

module _ (d : Doubles) (to_json : Payload → Text) (ratios : Ratios) where
  unfoldable pub visit_all : List Visit → Stores → Stores
  visit_all [] s = s
  visit_all (v ∷ vs) s = visit_all vs (check_request d to_json ratios v.key v.request s).1

-- What a request asks of the script: nothing for a key that is unknown or revoked.
abbrev pub asked_of : ResolvedKey → CheckRequest → Bool → List Request
asked_of key q true = []
asked_of key q false =
    record {
      key = key;
      resource = q.resource;
      cost = q.cost;
      request_id = q.request_id;
      time = q.time;
    }
    ∷ []

abbrev pub asked : Visit → List Request
asked v = elim v.key [ none ↦ [] | some key ↦ asked_of key v.request key.revoked ]

abbrev pub asked_all : List Visit → List Request
asked_all [] = []
asked_all (v ∷ vs) = asked v ++ asked_all vs

final-append :
    (d : Doubles) (xs ys : List Request) (r : Redis)
    → final d (map call_of (xs ++ ys)) r ≡ final d (map call_of ys) (final d (map call_of xs) r)
unfolding final
final-append d [] ys r = refl
final-append d (x ∷ xs) ys r = final-append d xs ys (after d (call_of x) r)

module _ (d : Doubles) (to_json : Payload → Text) (ratios : Ratios) where
  answer-redis :
      (key : ResolvedKey) (q : CheckRequest) (db : Database) (x : Result ScriptResult × Redis)
      → (answer d to_json ratios key q db x).1.redis ≡ x.1
  unfolding answer
  answer-redis key q db (raise e, r) = refl
  answer-redis key q db (ok result, r) = refl

  check_key-redis :
      (key : ResolvedKey) (q : CheckRequest) (s : Stores) (revoked : Bool)
      → (check_key d to_json ratios key q s revoked).1.redis
        ≡ final d (map call_of (asked_of key q revoked)) s.redis
  unfolding check_key final run_check
  check_key-redis key q s true = refl
  check_key-redis key q s false = answer-redis key q s.db _

  check_request-redis :
      (key : Option ResolvedKey) (q : CheckRequest) (s : Stores)
      → (check_request d to_json ratios key q s).1.redis
        ≡ final d (map call_of (asked (record { key = key; request = q }))) s.redis
  unfolding check_request final
  check_request-redis none q s = refl
  check_request-redis (some key) q s = check_key-redis key q s key.revoked

  visit_all-redis :
      (vs : List Visit) (s : Stores)
      → (visit_all d to_json ratios vs s).redis ≡ final d (map call_of (asked_all vs)) s.redis
  unfolding visit_all final
  visit_all-redis [] s = refl
  visit_all-redis (v ∷ vs) s =
      visit_all-redis vs (check_request d to_json ratios v.key v.request s).1
      ∙ ap (final d (map call_of (asked_all vs))) (check_request-redis v.key v.request s)
      ∙ sym (final-append d (asked v) (asked_all vs) s.redis)

  warn_if_crossed-once :
      (k : ResolvedKey) (q : CheckRequest) (result : ScriptResult) (db : Database)
      → (key : ℕ) (month : Text) → warnings key month db ≤ 1
      → warnings key month (warn_if_crossed to_json k q result db) ≤ 1
  unfolding warn_if_crossed
  warn_if_crossed-once k q result db key month h =
      let w : Warn = record {
        broken = q.broken;
        key = k;
        month = result.month;
        used = result.quota_used;
        now = q.now;
      } in
      elim (Bool-cases result.soft_crossed) [
        | inl c ↦ rw c (enqueue_soft_warning-once to_json w db key month h)
        | inr c ↦ rw c h
      ]

  answer-once :
      (k : ResolvedKey) (q : CheckRequest) (db : Database) (x : Result ScriptResult × Redis)
      → (key : ℕ) (month : Text) → warnings key month db ≤ 1
      → warnings key month (answer d to_json ratios k q db x).1.db ≤ 1
  unfolding answer
  answer-once k q db (raise e, r) key month h = h
  answer-once k q db (ok result, r) key month h = warn_if_crossed-once k q result db key month h

  check_key-once :
      (k : ResolvedKey) (q : CheckRequest) (s : Stores) (revoked : Bool) (key : ℕ) (month : Text)
      → warnings key month s.db ≤ 1
      → warnings key month (check_key d to_json ratios k q s revoked).1.db ≤ 1
  unfolding check_key
  check_key-once k q s true key month h = h
  check_key-once k q s false key month h = answer-once k q s.db _ key month h

  check_request-once :
      (k : Option ResolvedKey) (q : CheckRequest) (s : Stores) (key : ℕ) (month : Text)
      → warnings key month s.db ≤ 1
      → warnings key month (check_request d to_json ratios k q s).1.db ≤ 1
  unfolding check_request
  check_request-once none q s key month h = h
  check_request-once (some k) q s key month h = check_key-once k q s k.revoked key month h

  visit_all-once :
      (vs : List Visit) (s : Stores) (key : ℕ) (month : Text)
      → warnings key month s.db ≤ 1
      → warnings key month (visit_all d to_json ratios vs s).db ≤ 1
  unfolding visit_all
  visit_all-once [] s key month h = h
  visit_all-once (v ∷ vs) s key month h =
      visit_all-once vs _ key month (check_request-once v.key v.request s key month h)

-- Over any sequence of requests to the endpoint, for known, unknown and revoked keys, whichever
-- warnings SQLite refuses: the counter of a key's month ends within the monthly quota, if it starts
-- there and the requests that count on it carry that quota; and a row's key has at most one warning in
-- the outbox for a month, if it had at most one at the start.
pub endpoint_keeps_limits :
    (d : Doubles) (to_json : Payload → Text) (ratios : Ratios) (vs : List Visit) (s : Stores)
    → (key_id month : Text) (hard api_key_id : ℕ)
    → All (HasQuota (month_counter key_id month) hard) (asked_all vs)
    → counter (month_counter key_id month) s.redis ≤ hard
    → warnings api_key_id month s.db ≤ 1
    → let s' = visit_all d to_json ratios vs s in
      (counter (month_counter key_id month) s'.redis ≤ hard) × (warnings api_key_id month s'.db ≤ 1)
endpoint_keeps_limits d to_json ratios vs s key_id month hard api_key_id h low once =
    let (_, kept) = monthly_quota_holds d key_id month hard (asked_all vs) s.redis h low in
    (
      rw (visit_all-redis d to_json ratios vs s) kept,
      visit_all-once d to_json ratios vs s api_key_id month once,
    )
