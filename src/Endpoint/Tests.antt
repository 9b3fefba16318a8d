-- ===== src/Endpoint/Tests.antt =====
-- Two requests of the demo key and one of an unknown key, close to the quota.
use quotaguard.Prelude.{
  List, Option, String, Text, [], arith, ceil_div, codes, false, leb, none, refl, some, text_eq,
  ◌*◌, ◌/◌, ◌∷◌, ◌≤◌,
}
use quotaguard.KeyCache.{ResolvedKey, is_some, resolved_key}
use quotaguard.Models.{effective_limits, or_plan}
use quotaguard.Admission.{Doubles, utok}
use quotaguard.Checker.{Ratios}
use quotaguard.Checker.Service.{month_counter}
use quotaguard.Endpoint.{Stores}
use quotaguard.Endpoint.Limits.{Visit, endpoint_keeps_limits, visit_all}
use quotaguard.Webhooks.Once.{warnings}
use quotaguard.Redis.{counter, empty, number_or_zero, put, set_string}
use quotaguard.Samples.{demo_db, demo_key, free_plan}

abbrev exact_doubles : Doubles
exact_doubles = record {
  is_refilled = λ elapsed cap rate. leb (cap * utok) (elapsed * rate);
  credit = λ elapsed rate. elapsed * rate / utok;
  spent = λ add rate. ceil_div (add * utok) rate;
}

abbrev never_less : Ratios
never_less = record { less = λ a b. false }

abbrev visit : Option ResolvedKey → String → Visit
visit key id = record {
  key = key;
  request = record {
    resource = codes "search";
    cost = 5;
    request_id = codes id;
    time = record { seconds = 1785196800; micros = 5 };
    now = 1_785_196_800_000_000;
    broken = false;
  };
}

abbrev three_visits : List Visit
three_visits =
    visit (some (resolved_key demo_key free_plan)) "a"
    ∷ visit none "b"
    ∷ visit (some (resolved_key demo_key free_plan)) "c"
    ∷ []

abbrev july : Text
july = month_counter (codes "key_1") (codes "2026-07")

abbrev near_quota : Stores
near_quota = record { redis = set_string july 796 empty; db = demo_db }

endpoint_keeps_limits_example :
    let s' = visit_all exact_doubles (λ p. p.key_id) never_less three_visits near_quota in
    (counter july s'.redis ≤ 1_000) × (warnings 1 (codes "2026-07") s'.db ≤ 1)
unfolding counter set_string put text_eq number_or_zero resolved_key is_some effective_limits
    or_plan
endpoint_keeps_limits_example =
    endpoint_keeps_limits exact_doubles (λ p. p.key_id) never_less three_visits near_quota
      (codes "key_1") (codes "2026-07") 1_000 1 ((λ _. refl), ((λ _. refl), tt)) (omega arith)
      (omega arith)
