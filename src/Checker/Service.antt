-- ===== src/Checker/Service.antt =====
-- The monthly quota of a key, as the service asks for it: whatever the resources and the callers are.
use quotaguard.Prelude.{
  All, List, Text, [], ap, arith, codes, false, map, refl, text_eq, true, ℕ, ◌++◌, ◌+◌, ◌∷◌, ◌≡◌,
  ◌≤◌,
}
use quotaguard.Models.{burst_capacity, monthly_quota, sustained_limit}
use quotaguard.Errors.{Result, ok}
use quotaguard.Redis.{Redis, Time, counter}
use quotaguard.KeyCache.{ResolvedKey}
use quotaguard.Admission.{Doubles, check, report}
use quotaguard.Admission.Quota.{
  Counts, call-counter-le, flag_key, no_over_admission, q_used-check, quota_charge, quota_key,
}
use quotaguard.Admission.Runs.{Call, after, decide, final, total}
use quotaguard.Checker.{ScriptResult, run_check, script_argv, script_keys}
use quotaguard.Checker.Marshal.{decode-reply, named}

-- One request of `run_check`, at the time at which Redis runs it.
pub record Request : Type 0 where
  pub key : ResolvedKey
  pub resource : Text
  pub cost : ℕ
  pub request_id : Text
  pub time : Time

abbrev pub call_of : Request → Call
call_of q = record {
  keys = script_keys q.key.key_id q.resource;
  argv = script_argv q.key q.cost q.request_id;
  time = q.time;
}

-- The counter of a key's month.
abbrev pub month_counter : Text → Text → Text
month_counter key_id month = codes "qg:q:" ++ key_id ++ codes ":" ++ month

-- The requests that count on the same counter carry the same monthly quota.
abbrev pub HasQuota : Text → ℕ → Request → Type 0
HasQuota counter_key hard q =
    text_eq (quota_key (script_keys q.key.key_id q.resource) q.time) counter_key ≡ true
    → q.key.limit monthly_quota ≡ hard

-- The names of flags and counters differ, whatever the keys and the months are.
pub flag_key-ne-month_counter :
    (key_id resource other month : Text) (t : Time)
    → text_eq (flag_key (script_keys key_id resource) t) (month_counter other month) ≡ false
unfolding script_keys text_eq
flag_key-ne-month_counter key_id resource other month t = refl

requests-Counts :
    (key_id month : Text) (hard : ℕ) (requests : List Request)
    → All (HasQuota (month_counter key_id month) hard) requests
    → All (Counts (month_counter key_id month) hard) (map call_of requests)
unfolding script_argv
requests-Counts key_id month hard [] h = tt
requests-Counts key_id month hard (q ∷ qs) h = (
  (flag_key-ne-month_counter q.key.key_id q.resource key_id month q.time, h.0),
  requests-Counts key_id month hard qs h.1,
)

-- For every key and month: over any sequence of checks, of this key and of others, on any resources,
-- the month's counter grows by exactly the admitted cost, and does not pass the monthly quota, if it
-- starts within it and the checks that count on it carry that quota.
pub monthly_quota_holds :
    (d : Doubles) (key_id month : Text) (hard : ℕ) (requests : List Request) (r : Redis)
    → All (HasQuota (month_counter key_id month) hard) requests
    → counter (month_counter key_id month) r ≤ hard
    → let j = month_counter key_id month in
      let after = final d (map call_of requests) r in
      (counter j after ≡ counter j r + total d (quota_charge j) (map call_of requests) r)
      × (counter j after ≤ hard)
monthly_quota_holds d key_id month hard requests r h low =
    no_over_admission d (month_counter key_id month) hard (map call_of requests) r
      (requests-Counts key_id month hard requests h) low

own_flag :
    (key_id resource : Text) (t : Time)
    → text_eq (flag_key (script_keys key_id resource) t) (quota_key (script_keys key_id resource) t)
      ≡ false
unfolding script_keys text_eq
own_flag key_id resource t = refl

-- A check never fails at the reading of the reply, and what it reports is what the script decided: the
-- limits of the key, and a rest of the quota that makes up the limit with what is used.
pub run_check_reports :
    (d : Doubles) (q : Request) (r : Redis)
    → counter (quota_key (script_keys q.key.key_id q.resource) q.time) r ≤ q.key.limit monthly_quota
    → let v = decide d (call_of q) r in
      (run_check d q.key q.resource q.cost q.request_id q.time r
        ≡ (ok (named v), after d (call_of q) r))
      × (v.b_limit ≡ q.key.limit burst_capacity)
      × (v.s_limit ≡ q.key.limit sustained_limit)
      × (v.q_limit ≡ q.key.limit monthly_quota)
      × (v.q_used + v.q_remaining ≡ v.q_limit)
      × (v.q_used
          ≡ counter
              (quota_key (script_keys q.key.key_id q.resource) q.time)
              (after d (call_of q) r))
unfolding run_check check report script_argv
run_check_reports d q r h =
    let k = script_keys q.key.key_id q.resource in
    let a = script_argv q.key q.cost q.request_id in
    let flag = own_flag q.key.key_id q.resource q.time in
    let used = q_used-check d k a q.time r flag in
    let low =
      call-counter-le d (quota_key k q.time) (q.key.limit monthly_quota) (call_of q) r
        (flag, λ _. refl) h in
    (
      ap (λ (v : Result ScriptResult). (v, (check d k a q.time r).1))
          (decode-reply (check d k a q.time r).0),
      omega arith,
      refl,
      refl,
      omega (arith, used, low),
      used,
    )
