-- ===== src/Admin/Apart.antt =====
-- The tables and the answer of a route do not hang on the cache.
use quotaguard.Admin.{
  AdminRequest, Setting, after_checks, issued_of, key_detail_of, list_all_keys, list_all_plans,
  patch_key, patch_key_route, patch_plan, patch_plan_route, plan_out, plan_out_of, post_key,
  post_key_route, post_plan, post_plan_route, post_revoke, post_revoke_route, read_key, read_plan,
  revoked_of, route,
}
use quotaguard.Errors.{Result, ok, raise, ◌>>=◌}
use quotaguard.Database.{Database}
use quotaguard.Schemas.{read_key_issue, read_key_update, read_plan_create, read_plan_update}
use quotaguard.Prelude.{Text, arith, refl, ℕ, ◌≡◌}
use quotaguard.KeyCache.{Cache}
use quotaguard.Errors.{Result, ok, raise, ◌>>=◌}
use quotaguard.Plans.{
  App, PlanCreate, PlanUpdate, create_checked, create_plan, insert_plan, save_plan, update_checked,
  update_found, update_plan, update_result,
}
use quotaguard.Keys.{
  Draw, KeyUpdate, issue_key, issue_on, revoke_key, revoke_live, revoke_result, save_key,
  save_new_key, update_key, update_key_result, update_live,
}

-- The same outcome, and the same tables.
abbrev pub SameTables {ℓ} : {A : Type ℓ} → Result A × App → Result A × App → Type ℓ
SameTables x y = (x.0 ≡ y.0) × (x.1.db ≡ y.1.db)

module _ (c : Cache) where
  -- The same tables beside another cache.
  abbrev beside : App → App
  beside a = record a { cache = c }

  create_plan-SameTables :
      (d : PlanCreate) (a : App) → SameTables (create_plan d (beside a)) (create_plan d a)
  unfolding create_plan create_checked insert_plan
  create_plan-SameTables d a = (ground arith, ground arith)

  update_plan-SameTables :
      (slug : Text) (u : PlanUpdate) (a : App)
      → SameTables (update_plan slug u (beside a)) (update_plan slug u a)
  unfolding update_plan update_result update_found update_checked save_plan
  update_plan-SameTables slug u a = (ground arith, ground arith)

  issue_key-SameTables :
      (hash_secret : Text → Text) (draw : Draw) (plan name : Text) (a : App)
      → SameTables
          (issue_key hash_secret draw plan name (beside a))
          (issue_key hash_secret draw plan name a)
  unfolding issue_key issue_on save_new_key
  issue_key-SameTables hash_secret draw plan name a = (ground arith, ground arith)

  update_key-SameTables :
      (key_id : Text) (u : KeyUpdate) (a : App)
      → SameTables (update_key key_id u (beside a)) (update_key key_id u a)
  unfolding update_key update_key_result update_live save_key
  update_key-SameTables key_id u a = (ground arith, ground arith)

  revoke_key-SameTables :
      (key_id : Text) (now : ℕ) (a : App)
      → SameTables (revoke_key key_id now (beside a)) (revoke_key key_id now a)
  unfolding revoke_key revoke_result revoke_live save_key
  revoke_key-SameTables key_id now a = (ground arith, ground arith)

chain-SameTables :
    {A : Type 0} {B : Type 0} (x y : Result A × App) (f : Database → A → Result B)
    → SameTables x y
    → SameTables ((x.0 >>= f x.1.db), x.1) ((y.0 >>= f y.1.db), y.1)
chain-SameTables x y f (e, same) = (rw (e, same) refl, same)

checked-SameTables :
    {A : Type 0} {B : Type 0} {C : Type 0} (a b : App) (r : Result A)
    → (act : A → App → Result B × App) (f : Database → B → Result C) → b.db ≡ a.db
    → ((x : A) → SameTables (act x b) (act x a))
    → let x = after_checks b r (λ d. act d b) in
      let y = after_checks a r (λ d. act d a) in
      SameTables ((x.0 >>= f x.1.db), x.1) ((y.0 >>= f y.1.db), y.1)
unfolding after_checks
checked-SameTables a b (raise e) act f same h = (refl, same)
checked-SameTables a b (ok x) act f same h = chain-SameTables (act x b) (act x a) f (h x)

-- A route gives the same body and leaves the same tables beside any cache.
pub route-SameTables :
    (c : Cache) (s : Setting) (q : AdminRequest) (a : App)
    → SameTables (route s q (record a { cache = c })) (route s q a)
unfolding route post_plan_route patch_plan_route post_key_route patch_key_route post_revoke_route
route-SameTables c s (post_plan raw) a =
    checked-SameTables a (record a { cache = c }) (read_plan_create s.describe raw)
      (λ d b. create_plan d b) (λ db p. ok (plan_out (plan_out_of p))) refl
      (λ d. create_plan-SameTables c d a)
route-SameTables c s list_all_plans a = (refl, refl)
route-SameTables c s (read_plan slug) a = (refl, refl)
route-SameTables c s (patch_plan slug raw) a =
    checked-SameTables a (record a { cache = c }) (read_plan_update s.describe raw)
      (λ u b. update_plan slug u b) (λ db p. ok (plan_out (plan_out_of p))) refl
      (λ u. update_plan-SameTables c slug u a)
route-SameTables c s (post_key raw) a =
    checked-SameTables a (record a { cache = c }) (read_key_issue s.describe raw)
      (λ (plan, name) b. issue_key s.hash_secret s.draw plan name b) issued_of refl
      (λ (plan, name). issue_key-SameTables c s.hash_secret s.draw plan name a)
route-SameTables c s (list_all_keys slug) a = (refl, refl)
route-SameTables c s (read_key key_id) a = (refl, refl)
route-SameTables c s (patch_key key_id raw) a =
    checked-SameTables a (record a { cache = c }) (read_key_update s.describe raw)
      (λ u b. update_key key_id u b) key_detail_of refl (λ u. update_key-SameTables c key_id u a)
route-SameTables c s (post_revoke key_id) a =
    chain-SameTables (revoke_key key_id s.draw.now (record a { cache = c }))
      (revoke_key key_id s.draw.now a) (λ db. revoked_of)
      (revoke_key-SameTables c key_id s.draw.now a)
