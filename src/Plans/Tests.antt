-- ===== src/Plans/Tests.antt =====
-- A plan is created and its webhook URL cleared.
use quotaguard.Prelude.{All, [], codes, refl, some, ◌∷◌}
use quotaguard.Models.{fail_open}
use quotaguard.Plans.{PlanCreate, PlanUpdate, has_url, null, unset}
use quotaguard.Plans.Webhook.{CanWarn, create, perform_all, plans-CanWarn, update}
use quotaguard.Samples.{demo_app}

abbrev pro_plan : PlanCreate
pro_plan = record {
  slug = codes "pro";
  name = codes "Pro";
  limit = λ f. 50;
  quota_soft_pct = 90;
  webhook_url = some (codes "https://example.com/pro");
  redis_down_policy = fail_open;
}

abbrev clear_webhook : PlanUpdate
clear_webhook = record {
  name = unset;
  limit = λ f. unset;
  quota_soft_pct = unset;
  webhook_url = null;
  redis_down_policy = unset;
}

plans-CanWarn_example :
    All CanWarn
      (perform_all (create pro_plan ∷ update (codes "pro") clear_webhook ∷ []) demo_app).db.plans
unfolding has_url
plans-CanWarn_example =
    plans-CanWarn (create pro_plan ∷ update (codes "pro") clear_webhook ∷ []) demo_app
      ((λ on. refl), tt)
