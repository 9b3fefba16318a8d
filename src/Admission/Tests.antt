-- ===== src/Admission/Tests.antt =====
-- Runs of the script, and its theorems at concrete calls.
use quotaguard.Admission.Quota.{Counts, flag_key, no_over_admission, quota_charge, quota_key}
use quotaguard.Admission.Exact.{OneUnit, OnlyQuotaDenies, admits_exactly}
use quotaguard.Admission.Denial.{EveryLayerHas, allowed_iff, denied_writes_nothing, is_live}
use quotaguard.Admission.Warning.{crossing, flag_bit, soft_crossed_iff, warned_at_most_once}
use quotaguard.Admission.Burst.{burst_bounded, burst_charge}
use quotaguard.Admission.Window.{window_bounded, window_charge}
use quotaguard.Prelude.{
  All, List, String, Text, [], arith, ceil_div, ceil_div_sub, codes, le-ceil_div, leb, leb→le,
  length, min, neg, none, pad, pos, refl, select, some, text_eq, true, ℕ, ◌*◌, ◌+◌, ◌-◌, ◌/◌, ◌<◌,
  ◌↔◌, ◌∷◌, ◌≡◌, ◌≢◌, ◌≤◌,
}
use quotaguard.Redis.{
  Redis, Time, counter, empty, expireat, hset, incrby, insert_member, is_set, number_or_zero,
  pexpire, put, set_string, setnx, zadd, zcard, zremrangebyscore,
}
use quotaguard.Civil.{month_at}
use quotaguard.Admission.{
  Argv, Decision, Doubles, Keys, burst, burst_ok, burst_retry, check, consume, consume_bucket,
  consume_quota, consume_window, crosses, deny_layer_of, is_allowed, month_deadline, now_us_of,
  quota_ok, raise_flag, read, read_bucket, refill, report, retry_after_of, settle, sustained,
  sustained_ok, utok, window_reset,
}
use quotaguard.Admission.Runs.{Along, Call, admitted, final, last_time, total}
use quotaguard.Admission.Refill.{IsConservative}

-- Double arithmetic that never rounds.
abbrev exact : Doubles
exact = record {
  is_refilled = λ elapsed cap rate. leb (cap * utok) (elapsed * rate);
  credit = λ elapsed rate. elapsed * rate / utok;
  spent = λ add rate. ceil_div (add * utok) rate;
}

exact-IsConservative : (cap rate : ℕ) → 0 < rate → IsConservative exact cap rate
exact-IsConservative cap rate h = record {
  refilled-le = λ e h. leb→le (cap * utok) (e * rate) h;
  credit-le = λ e _. omega arith;
  spent-ge = λ e _. le-ceil_div (e * rate / utok * utok) rate h;
}

abbrev keys : Keys
keys = record {
  bucket = codes "qg:b:k_1:search";
  window = codes "qg:s:k_1:search";
  quota_prefix = codes "qg:q:k_1:";
  flag_prefix = codes "qg:f:k_1:";
}

-- A plan of 5 tokens, 1 per second, 3 calls in 10 seconds, 10 units a month with a warning at 8.
abbrev argv : String → ℕ → Argv
argv id cost = record {
  cap_utok = 5 * utok;
  rate_utok = 1 * utok;
  sustained_limit = 3;
  window_us = 10 * utok;
  quota_hard = 10;
  quota_soft = 8;
  cost = cost;
  request_id = codes id;
}

abbrev at : ℕ → Time
at micros = record { seconds = 1785196800; micros = micros }

abbrev call : String → ℕ → ℕ → Call
call id cost micros = record { keys = keys; argv = argv id cost; time = at micros }

abbrev july : Text
july = codes "qg:q:k_1:2026-07"

abbrev july_flag : Text
july_flag = codes "qg:f:k_1:2026-07"

-- 7 of the month's 10 units are used.
abbrev used_seven : Redis
used_seven = set_string july 7 empty

abbrev used_eight : Redis
used_eight = set_string july 8 empty

abbrev three_calls : List Call
three_calls = call "a" 1 0 ∷ call "b" 1 1 ∷ call "c" 1 2 ∷ []

month_name : (month_at 1785196800).text ≡ codes "2026-07"
unfolding month_at pad
month_name = refl

month_end : (month_at 1785196800).end_s ≡ 1785542400
unfolding month_at pad
month_end = refl

-- Opens the script and what it calls, for runs.
script : Doubles → Call → Redis → Decision × Redis
unfolding check read settle report consume consume_bucket consume_window consume_quota raise_flag
    month_deadline crosses retry_after_of burst_retry window_reset deny_layer_of is_allowed burst_ok
    sustained_ok quota_ok refill read_bucket now_us_of month_at pad text_eq put hset zadd
    insert_member zremrangebyscore zcard counter number_or_zero set_string incrby is_set setnx
    expireat pexpire ceil_div ceil_div_sub neg final total
script d c r = check d c.keys c.argv c.time r

first_call : (script exact (call "a" 2 0) used_seven).0 ≡ record {
  allowed = true;
  deny_layer = none;
  b_limit = 5;
  b_remaining = 3;
  b_reset = pos 2;
  s_limit = 3;
  s_remaining = 2;
  s_reset = 10;
  q_limit = 10;
  q_used = 9;
  q_remaining = 1;
  q_reset = 345600;
  soft_crossed = true;
  month = codes "2026-07";
  retry_after = 0;
}
unfolding script
first_call = refl

allowed_iff_example :
    let g = (read exact keys (argv "a" 2) (at 0) used_seven).0 in
    let v = (check exact keys (argv "a" 2) (at 0) used_seven).0 in
    ((v.allowed ≡ true) ↔ EveryLayerHas (argv "a" 2) g)
    × (v.deny_layer ≡ none ↔ EveryLayerHas (argv "a" 2) g)
    × (v.deny_layer ≡ some burst ↔ (g.bucket.tokens < 2 * utok))
    × (v.deny_layer ≡ some sustained ↔ ((2 * utok ≤ g.bucket.tokens) × (3 ≤ g.count)))
allowed_iff_example = allowed_iff exact keys (argv "a" 2) (at 0) used_seven

denied_writes_nothing_example :
    let r' = (check exact keys (argv "a" 4) (at 0) used_seven).1 in
    (r'.hashes ≡ used_seven.hashes)
    × (r'.strings ≡ used_seven.strings)
    × (r'.deadlines ≡ used_seven.deadlines)
    × ((j : Text) → keys.window ≢ j → r'.zsets j ≡ used_seven.zsets j)
    × (select (is_live (argv "a" 4) (at 0)) (r'.zsets keys.window)
        ≡ select (is_live (argv "a" 4) (at 0)) (used_seven.zsets keys.window))
unfolding script
denied_writes_nothing_example = denied_writes_nothing exact keys (argv "a" 4) (at 0) used_seven refl

three_count : All (Counts july 10) three_calls
unfolding script
three_count = ((refl, λ _. refl), ((refl, λ _. refl), ((refl, λ _. refl), tt)))

no_over_admission_example :
    (counter july (final exact three_calls used_seven)
      ≡ counter july used_seven + total exact (quota_charge july) three_calls used_seven)
    × (counter july (final exact three_calls used_seven) ≤ 10)
unfolding script
no_over_admission_example =
    no_over_admission exact july 10 three_calls used_seven three_count (omega arith)

three_ones : All (OneUnit july 10) three_calls
unfolding script
three_ones = ((refl, refl, refl, refl), ((refl, refl, refl, refl), ((refl, refl, refl, refl), tt)))

only_quota_denies : Along exact OnlyQuotaDenies three_calls used_eight
unfolding script
only_quota_denies = ((cc, cc), ((cc, cc), ((cc, cc), tt)))

admits_exactly_example :
    total exact admitted three_calls used_eight
    ≡ min (length three_calls) (10 - counter july used_eight)
admits_exactly_example =
    admits_exactly exact july 10 three_calls used_eight three_ones only_quota_denies

warned_at_most_once_example :
    total exact (crossing july_flag) three_calls used_seven + flag_bit july_flag used_seven ≤ 1
warned_at_most_once_example = warned_at_most_once exact july_flag three_calls used_seven

soft_crossed_iff_example :
    let v = (check exact keys (argv "a" 2) (at 0) used_seven).0 in
    let used = counter (quota_key keys (at 0)) used_seven in
    (v.soft_crossed ≡ true) ↔ (
      (v.allowed ≡ true)
      × (0 < 8)
      × (used < 8)
      × (8 ≤ used + 2)
      × (used_seven.strings (flag_key keys (at 0)) ≡ none))
unfolding script
soft_crossed_iff_example = soft_crossed_iff exact keys (argv "a" 2) (at 0) used_seven refl

burst_bounded_example :
    total exact (burst_charge keys.bucket) three_calls used_seven * utok
    ≤ 5 * utok + 1 * (last_time 1785196800000000 three_calls - 1785196800000000)
unfolding script
burst_bounded_example =
    burst_bounded exact keys.bucket 5 1 three_calls 1785196800000000 used_seven
      (exact-IsConservative (5 * utok) (1 * utok) (omega arith)) (omega arith)
      ((λ _. (refl, refl)), ((λ _. (refl, refl)), ((λ _. (refl, refl)), tt))) (omega arith) refl

window_bounded_example :
    (total exact (window_charge keys.window 1785196790000002) three_calls used_seven ≤ 3)
    × (length ((final exact three_calls used_seven).zsets keys.window) ≤ 3)
unfolding script
window_bounded_example =
    window_bounded exact keys.window 3 (10 * utok) three_calls 1785196800000000 1785196790000002
      used_seven ((λ _. (refl, refl)), ((λ _. (refl, refl)), ((λ _. (refl, refl)), tt)))
      (tt, ((refl, tt), ((refl, (refl, tt)), tt))) (omega arith) (omega arith) (omega arith)
