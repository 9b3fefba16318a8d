-- ===== src/Checker/Tests.antt =====
-- Runs of the checker, and its theorems at concrete keys and replies.
use quotaguard.Admission.{Decision, Doubles, Layer, burst, quota, read, sustained, utok}
use quotaguard.Prelude.{
  All, Among, Bool, Option, String, Text, [], arith, ceil_div, codes, decimal, digits_from, false,
  is_digit, leb, ltb, ltb_asymmetric, ltb_cotransitive, map, none, parse_digits, pos, pos_part,
  refl, some, split, text_eq, true, ℕ, ◌*◌, ◌+◌, ◌/◌, ◌<◌, ◌^◌, ◌||◌, ◌∷◌, ◌≡◌, ◌≤◌,
}
use quotaguard.Models.{
  LimitField, burst_capacity, burst_refill_per_sec, fail_open, monthly_quota, sustained_limit,
  sustained_window_seconds,
}
use quotaguard.Errors.{handle, ok, raise, zero_division}
use quotaguard.Redis.{counter, empty, number_or_zero, put, set_string}
use quotaguard.KeyCache.{ResolvedKey}
use quotaguard.Admission.{Decision, Doubles, Layer, burst, quota, read, sustained, utok}
use quotaguard.Admission.Runs.{after, decide, final, total}
use quotaguard.Admission.Quota.{quota_charge, quota_key}
use quotaguard.Checker.{
  Candidate, Ratios, Shown, burst_shown, burst_window_seconds, days_in_month, decode, is_leap,
  is_zero, month_days, month_range, month_window_seconds, nil, policies, policy, quota_shown, reply,
  run_check, script_argv, script_keys, selected_layer, selected_policy, soft_threshold,
  sustained_shown, tighter, tightest, unreadable,
}
use quotaguard.Checker.Marshal.{InBounds, decode-length, decode-reply, named, script_argv_bounds}
use quotaguard.Checker.Selected.{IsOrder, layers_of, selected_policy_allowed}
use quotaguard.Checker.Service.{
  Request, call_of, month_counter, monthly_quota_holds, run_check_reports,
}

abbrev limits : LimitField → ℕ
limits burst_capacity = 5
limits burst_refill_per_sec = 2
limits sustained_limit = 30
limits sustained_window_seconds = 60
limits monthly_quota = 1001

abbrev key : ResolvedKey
key = record {
  key_id = codes "k_1";
  name = codes "acme";
  plan_slug = codes "pro";
  revoked = false;
  limit = limits;
  quota_soft_pct = 80;
  redis_down_policy = fail_open;
}

abbrev decision : Bool → Option Layer → Decision
decision allowed layer = record {
  allowed = allowed;
  deny_layer = layer;
  b_limit = 5;
  b_remaining = 4;
  b_reset = pos 1;
  s_limit = 30;
  s_remaining = 3;
  s_reset = 60;
  q_limit = 1001;
  q_used = 10;
  q_remaining = 991;
  q_reset = 345600;
  soft_crossed = false;
  month = codes "2024-02";
  retry_after = 7;
}

-- Quotients rounded to millionths.
abbrev millionths : Shown → ℕ
millionths s = pos_part s.remaining * 1_000_000 / pos_part s.limit

abbrev rounded : Ratios
rounded = record { less = λ a b. ltb (millionths a) (millionths b) }

rounded-IsOrder : IsOrder rounded
rounded-IsOrder = record {
  asymmetric = λ a b h. ltb_asymmetric (millionths a) (millionths b) h;
  cotransitive = λ a b c h. ltb_cotransitive (millionths a) (millionths b) (millionths c) h;
}

exactly : Doubles
exactly = record {
  is_refilled = λ elapsed cap rate. leb (cap * utok) (elapsed * rate);
  credit = λ elapsed rate. elapsed * rate / utok;
  spent = λ add rate. ceil_div (add * utok) rate;
}

leap_february : month_window_seconds (codes "2024-02") ≡ ok (29 * 86400)
unfolding month_window_seconds month_days month_range days_in_month is_leap split parse_digits
    digits_from is_digit
leap_february = refl

policies_text : policies key 2505600 ≡ codes "5;w=3, 30;w=60, 1001;w=2505600"
unfolding policies policy burst_window_seconds ceil_div decimal
policies_text = refl

threshold : soft_threshold key ≡ 800
unfolding soft_threshold
threshold = refl

tightest_shown :
    selected_policy rounded key (named (decision true none))
    ≡ ok (record { limit = pos 30; remaining = pos 3; reset = pos 60 })
unfolding selected_policy selected_layer month_window_seconds month_days month_range days_in_month
    is_leap split parse_digits digits_from is_digit tightest tighter is_zero burst_shown
    sustained_shown quota_shown burst_window_seconds ceil_div
tightest_shown = refl

decode-reply_example : decode (some (reply (decision true none))) ≡ ok (named (decision true none))
decode-reply_example = decode-reply (decision true none)

decode-length_example :
    (decode (some (nil ∷ [])) ≡ raise unreadable)
    × (decode none ≡ raise unreadable)
    × ((handle unreadable).status ≡ 500)
decode-length_example = decode-length (nil ∷ []) (omega arith)

key-InBounds : InBounds key
key-InBounds = omega arith

script_argv_bounds_example :
    let a = script_argv key 3 (codes "a") in
    (a.cap_utok ≡ key.limit burst_capacity * 1_000_000)
    × (a.cap_utok < 2 ^ 53)
    × (a.rate_utok ≡ key.limit burst_refill_per_sec * 1_000_000)
    × ((0 < a.rate_utok) × (a.rate_utok < 2 ^ 53))
    × ((0 < a.sustained_limit) × (a.sustained_limit < 2 ^ 53) × (a.window_us < 2 ^ 53))
    × ((0 < a.quota_hard) × (a.quota_hard < 2 ^ 53))
    × (a.cost * utok < 2 ^ 53)
    × (a.quota_soft ≤ a.quota_hard)
    × (a.quota_soft * 100 ≤ a.quota_hard * key.quota_soft_pct)
    × (a.quota_hard * key.quota_soft_pct < (a.quota_soft + 1) * 100)
script_argv_bounds_example = script_argv_bounds key 3 (codes "a") key-InBounds (omega arith)

selected_policy_allowed_example :
    let r = named (decision true none) in
    let zero_limit = is_zero r.burst_limit || is_zero r.sustained_limit || is_zero r.quota_limit in
    (zero_limit ≡ true → selected_policy rounded key r ≡ raise zero_division)
    × (zero_limit ≡ false
        → (c : Candidate) × Among c (layers_of key r 2505600)
          × (selected_policy rounded key r ≡ ok c.shown)
          × All (λ x. tighter rounded x c ≡ false) (layers_of key r 2505600))
selected_policy_allowed_example =
    selected_policy_allowed rounded key (named (decision true none)) 2505600 rounded-IsOrder refl
      leap_february

abbrev request : String → Request
request id = record {
  key = key;
  resource = codes "search";
  cost = 2;
  request_id = codes id;
  time = record { seconds = 1785196800; micros = 5 };
}

abbrev july : Text
july = month_counter (codes "k_1") (codes "2026-07")

monthly_quota_holds_example :
    let calls = map call_of (request "a" ∷ request "b" ∷ []) in
    let after = final exactly calls (set_string july 990 empty) in
    (counter july after
      ≡ counter july (set_string july 990 empty)
        + total exactly (quota_charge july) calls (set_string july 990 empty))
    × (counter july after ≤ 1001)
unfolding counter set_string put text_eq number_or_zero
monthly_quota_holds_example =
    monthly_quota_holds exactly (codes "k_1") (codes "2026-07") 1001
      (request "a" ∷ request "b" ∷ []) (set_string july 990 empty) ((λ _. refl), ((λ _. refl), tt))
      (omega arith)

run_check_reports_example :
    let v = decide exactly (call_of (request "a")) empty in
    let after_one = after exactly (call_of (request "a")) empty in
    (run_check exactly key (codes "search") 2 (codes "a") (request "a").time empty
      ≡ (ok (named v), after_one))
    × (v.b_limit ≡ 5)
    × (v.s_limit ≡ 30)
    × (v.q_limit ≡ 1001)
    × (v.q_used + v.q_remaining ≡ v.q_limit)
    × (v.q_used
        ≡ counter
            (quota_key (script_keys (codes "k_1") (codes "search")) (request "a").time)
            after_one)
unfolding counter number_or_zero
run_check_reports_example = run_check_reports exactly (request "a") empty (omega arith)
