-- ===== src/Plans/Webhook.antt =====
-- A plan that warns has somewhere to warn to, after any sequence of plan operations.
use quotaguard.Prelude.{All, List, Option, Text, [], arith, true, ℕ, ◌<◌, ◌∷◌, ◌≡◌}
use quotaguard.Models.{Plan}
use quotaguard.Errors.{Result, ok}
use quotaguard.Plans.Keeps.{create_plan-All, update_plan-All}
use quotaguard.Plans.{
  App, PlanCreate, PlanUpdate, create_plan, has_url, new_plan, require_webhook, update_plan,
}

abbrev pub CanWarn : Plan → Type 0
CanWarn p = 0 < p.quota_soft_pct → has_url p.webhook_url ≡ true

-- A mutation of the plans.
pub data Operation : Type 0 where
  create : PlanCreate → Operation
  update : Text → PlanUpdate → Operation

abbrev pub perform : Operation → App → Result Plan × App
perform (create data_in) a = create_plan data_in a
perform (update slug u) a = update_plan slug u a

unfoldable pub perform_all : List Operation → App → App
perform_all [] a = a
perform_all (o ∷ os) a = perform_all os (perform o a).1

require_webhook-CanWarn :
    (pct : ℕ) (url : Option Text)
    → {t : Unit {0}} → require_webhook pct url ≡ ok t
    → 0 < pct
    → has_url url ≡ true
unfolding require_webhook
require_webhook-CanWarn pct url h pos_pct = ground arith

perform-CanWarn :
    (o : Operation) (a : App) → All CanWarn a.db.plans → All CanWarn (perform o a).1.db.plans
unfolding new_plan
perform-CanWarn (create data_in) a h =
    create_plan-All CanWarn data_in a
      (λ id t q. require_webhook-CanWarn data_in.quota_soft_pct data_in.webhook_url q) h
perform-CanWarn (update slug u) a h =
    update_plan-All CanWarn slug u a (λ p t old q. require_webhook-CanWarn _ _ q) h

-- Over any sequence of plan creations and updates, failing or not, every plan whose soft threshold is on
-- has a webhook URL, if all had at the start.
pub plans-CanWarn :
    (operations : List Operation) (a : App)
    → All CanWarn a.db.plans
    → All CanWarn (perform_all operations a).db.plans
unfolding perform_all
plans-CanWarn [] a h = h
plans-CanWarn (o ∷ os) a h = plans-CanWarn os (perform o a).1 (perform-CanWarn o a h)
