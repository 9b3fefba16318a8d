-- ===== src/Webhooks/Tests.antt =====
-- The schedule of the third retry, and passes over a due row and a delivered one.
use quotaguard.Webhooks.Delivery.{IsCaught, Rowwise}
use quotaguard.Prelude.{
  All, List, [], arith, codes, decimal, none, refl, select, some, take, true, ◌*◌, ◌+◌, ◌↔◌, ◌∷◌,
  ◌≡◌, ◌≤◌,
}
use quotaguard.Webhooks.Delivery.Handled.{IsPassed, IsWaiting, delivers_due}
use quotaguard.Prelude.{
  All, List, [], arith, codes, decimal, none, refl, select, some, take, true, ◌*◌, ◌+◌, ◌↔◌, ◌∷◌,
  ◌≡◌, ◌≤◌,
}
use quotaguard.Webhooks.{
  Outside, after_answer, base_seconds, compute_next_attempt, deliver_for, deliver_one, deliver_rows,
  deliver_to, deliver_webhooks, failed, is_due, status, write_answer,
}
use quotaguard.Webhooks.{
  Outside, after_answer, base_seconds, compute_next_attempt, deliver_for, deliver_one, deliver_rows,
  deliver_to, deliver_webhooks, failed, is_due, status, write_answer,
}
use quotaguard.Webhooks.Backoff.{retry_bounds}
use quotaguard.Models.{WebhookOutbox}
use quotaguard.Database.{Database, key_by_id, plan_by_id, replace_outbox}
use quotaguard.Plans.{has_url}
use quotaguard.Webhooks.Delivery.{IsCaught, Rowwise}
use quotaguard.Webhooks.Delivery.Attempts.{IsSafe, attempts_bounded, passes}
use quotaguard.Webhooks.Delivery.Settled.{HasUrl, InTime, passes-Settle}
use quotaguard.Webhooks.Delivery.Work.{IsSettled}
use quotaguard.KeyCache.{is_some}
use quotaguard.Samples.{demo_db, demo_key, free_plan}

third_delay : base_seconds 3 ≡ 120
unfolding base_seconds
third_delay = refl

retry_bounds_example :
    let next = compute_next_attempt (λ s. 1_000_000 * s) 7 3 in
    (7 + 24_000_000 ≤ next) × (next ≤ 7 + 4_320_000_000)
retry_bounds_example = retry_bounds (λ s. 1_000_000 * s) 7 3 (λ base. (omega arith, omega arith))

abbrev due_row : WebhookOutbox
due_row = record {
  id = 1;
  api_key_id = 1;
  month = codes "2026-07";
  payload = codes "{}";
  attempts = 1;
  next_attempt_at = 5;
  delivered_at = none;
  last_error = none;
}

abbrev done_row : WebhookOutbox
done_row = record due_row { id = 2; month = codes "2026-06"; delivered_at = some 4 }

abbrev two_rows : Database
two_rows = record demo_db { outbox = due_row ∷ done_row ∷ [] }

abbrev refusing : Outside
refusing = record {
  hmac_hex = λ secret body. [];
  secret = none;
  post = λ p. status 503;
  now = 9;
  jittered = λ s. 1_000_000 * s;
}

refusing-IsCaught : IsCaught refusing
refusing-IsCaught p name e = cc

delivers_due_example :
    let db' = (deliver_webhooks refusing 5 two_rows).1 in
    ((deliver_webhooks refusing 5 two_rows).0 ≤ 50)
    × ((w : WebhookOutbox) → (is_due 5 9 w ≡ true) ↔ IsWaiting 5 9 w)
    × Rowwise
        (IsPassed refusing two_rows (take 50 (select (is_due 5 9) two_rows.outbox)))
        two_rows.outbox
        db'.outbox
delivers_due_example = delivers_due refusing 5 two_rows (refl, (refl, tt)) refusing-IsCaught

refused_once :
    (deliver_webhooks refusing 5 two_rows).1.outbox
    ≡ failed refusing due_row (codes "HTTP 503") ∷ done_row ∷ []
unfolding deliver_webhooks deliver_rows deliver_for deliver_to deliver_one write_answer after_answer
    is_due is_some has_url key_by_id plan_by_id replace_outbox decimal failed compute_next_attempt
    base_seconds
refused_once = refl

attempts_bounded_example :
    Rowwise (IsSafe 5) two_rows.outbox (passes 5 (refusing ∷ refusing ∷ []) two_rows).outbox
attempts_bounded_example = attempts_bounded 5 (refusing ∷ refusing ∷ []) two_rows (refl, (refl, tt))

abbrev four_passes : List Outside
four_passes = refusing ∷ refusing ∷ refusing ∷ refusing ∷ []

four_passes-InTime : InTime 2 four_passes two_rows
unfolding deliver_webhooks deliver_rows deliver_for deliver_to deliver_one write_answer after_answer
    is_due is_some has_url key_by_id plan_by_id replace_outbox decimal failed compute_next_attempt
    base_seconds
four_passes-InTime = (
  ((λ f l. omega arith), ((λ f l. omega arith), tt)),
  (
    ((λ f l. omega arith), ((λ f l. omega arith), tt)),
    (
      ((λ f l. omega arith), ((λ f l. omega arith), tt)),
      (((λ f l. omega arith), ((λ f l. omega arith), tt)), tt),
    ),
  ),
)

two_rows-HasUrl : All (HasUrl two_rows) two_rows.outbox
unfolding key_by_id plan_by_id has_url
two_rows-HasUrl =
    let url : HasUrl two_rows due_row = (demo_key, free_plan, refl, refl, refl) in (url, (url, tt))

four_passes-IsCaught : All IsCaught four_passes
four_passes-IsCaught =
    (refusing-IsCaught, (refusing-IsCaught, (refusing-IsCaught, (refusing-IsCaught, tt))))

passes-Settle_example : All (IsSettled 2) (passes 2 four_passes two_rows).outbox
passes-Settle_example =
    passes-Settle 2 four_passes two_rows (refl, (refl, tt)) two_rows-HasUrl four_passes-InTime
      four_passes-IsCaught (omega arith)
