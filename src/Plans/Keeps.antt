-- ===== src/Plans/Keeps.antt =====
-- What the plans' operations keep: a predicate that their checks give to the row they write.
use quotaguard.Prelude.{
  All, All-append, List, Option, Text, [], arith, first-All, none, refl, some, ℕ, ◌∷◌, ◌≡◌,
}
use quotaguard.Models.{Plan}
use quotaguard.Errors.{Result, ok, raise}
use quotaguard.Database.{plan_by_slug, replace_plan}
use quotaguard.Plans.{
  App, PlanCreate, PlanUpdate, apply_update, create_checked, create_plan, found_plan, get_plan,
  insert_plan, new_plan, null_field, require_webhook, save_plan, update_checked, update_found,
  update_plan, update_result,
}

module _ (P : Plan → Type 0) where
  replace_plan-All : (p : Plan) (ps : List Plan) → P p → All P ps → All P (replace_plan p ps)
  unfolding replace_plan
  replace_plan-All p [] hp h = tt
  replace_plan-All p (x ∷ xs) hp h = ground (arith, replace_plan-All p xs hp h.1)

  -- The row of a creation whose check on the webhook passed.
  abbrev pub Creates : PlanCreate → Type 0
  Creates data_in =
      (id : ℕ) (t : Unit {0})
      → require_webhook data_in.quota_soft_pct data_in.webhook_url ≡ ok t
      → P (new_plan id data_in)

  -- The row of an update whose check on the webhook passed.
  abbrev pub Updates : PlanUpdate → Type 0
  Updates u =
      (p : Plan) (t : Unit {0})
      → P p
      → (let p' = apply_update u p in require_webhook p'.quota_soft_pct p'.webhook_url ≡ ok t)
      → P (apply_update u p)

  insert_plan-All :
      (data_in : PlanCreate) (a : App) (taken : Option Plan)
      → ((id : ℕ) → P (new_plan id data_in))
      → All P a.db.plans
      → All P (insert_plan data_in a taken).1.db.plans
  unfolding insert_plan
  insert_plan-All data_in a none new h = All-append P a.db.plans _ h (new _, tt)
  insert_plan-All data_in a (some p) new h = h

  create_checked-All :
      (data_in : PlanCreate) (a : App) (r : Result (Unit {0}))
      → require_webhook data_in.quota_soft_pct data_in.webhook_url ≡ r
      → Creates data_in
      → All P a.db.plans
      → All P (create_checked data_in a r).1.db.plans
  unfolding create_checked
  create_checked-All data_in a (raise e) q new h = h
  create_checked-All data_in a (ok t) q new h =
      insert_plan-All data_in a (plan_by_slug data_in.slug a.db) (λ id. new id t q) h

  pub create_plan-All :
      (data_in : PlanCreate) (a : App)
      → Creates data_in
      → All P a.db.plans
      → All P (create_plan data_in a).1.db.plans
  unfolding create_plan
  create_plan-All data_in a new h = create_checked-All data_in a _ refl new h

  update_checked-All :
      (p : Plan) (a : App) (r : Result (Unit {0}))
      → ((t : Unit {0}) → r ≡ ok t → P p)
      → All P a.db.plans
      → All P (update_checked p a r).1.db.plans
  unfolding update_checked save_plan
  update_checked-All p a (raise e) new h = h
  update_checked-All p a (ok t) new h = replace_plan-All p a.db.plans (new t refl) h

  update_found-All :
      (u : PlanUpdate) (p : Plan) (a : App) (f : Option Text)
      → P p
      → Updates u
      → All P a.db.plans
      → All P (update_found u p a f).1.db.plans
  unfolding update_found
  update_found-All u p a (some f) old new h = h
  update_found-All u p a none old new h =
      update_checked-All (apply_update u p) a _ (λ t q. new p t old q) h

  update_result-All :
      (u : PlanUpdate) (slug : Text) (a : App) (found : Option Plan)
      → plan_by_slug slug a.db ≡ found
      → Updates u
      → All P a.db.plans
      → All P (update_result u a (found_plan slug found)).1.db.plans
  unfolding update_result found_plan plan_by_slug
  update_result-All u slug a none e new h = h
  update_result-All u slug a (some p) e new h =
      update_found-All u p a (null_field u) (first-All P _ a.db.plans p h e) new h

  pub update_plan-All :
      (slug : Text) (u : PlanUpdate) (a : App)
      → Updates u
      → All P a.db.plans
      → All P (update_plan slug u a).1.db.plans
  unfolding update_plan get_plan
  update_plan-All slug u a new h = update_result-All u slug a _ refl new h
