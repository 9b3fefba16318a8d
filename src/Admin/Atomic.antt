-- ===== src/Admin/Atomic.antt =====
-- A request to the admin API that fails changes nothing.
use quotaguard.Prelude.{Option, Text, arith, inl, inr, refl, ℕ, ◌≡◌, ◌≢◌, ◌⊎◌}
use quotaguard.Models.{ApiKey}
use quotaguard.Database.{Database}
use quotaguard.Errors.{Exception, Result, ok, raise, ◌>>=◌}
use quotaguard.Errors.Laws.{bind-raise}
use quotaguard.Plans.{
  App, PlanCreate, PlanUpdate, create_checked, create_plan, insert_plan, save_plan, update_checked,
  update_found, update_plan, update_result,
}
use quotaguard.Keys.{
  Draw, KeyUpdate, issue_key, issue_on, revoke_key, revoke_live, revoke_result, save_key,
  save_new_key, update_key, update_key_result, update_live,
}
use quotaguard.Endpoint.{require_admin}
use quotaguard.Admin.{
  AdminRequest, Body, Response, Setting, after_checks, failure, guarded, handle_admin, issued_of,
  key_detail_of, key_out, list_all_keys, list_all_plans, patch_key, patch_key_route, patch_plan,
  patch_plan_route, plan_out, plan_out_of, post_key, post_key_route, post_plan, post_plan_route,
  post_revoke, post_revoke_route, read_key, read_plan, respond, revoked_of, route, status_of,
  success,
}
use quotaguard.Admin.Untouched.{issue_key-plans, update_key-plans}
use quotaguard.Admin.Guard.{Carries, require_admin-Carries}
use quotaguard.Admin.Keyed.{
  HasPlan, HasPlans, issue_key-HasPlan, plan_of_key-ok, route-HasPlans, update_key-HasPlan,
}

create_plan-raise :
    (d : PlanCreate) (a : App) (e : Exception)
    → (create_plan d a).0 ≡ raise e
    → (create_plan d a).1 ≡ a
unfolding create_plan create_checked insert_plan
create_plan-raise d a e h = ground arith

update_plan-raise :
    (slug : Text) (u : PlanUpdate) (a : App) (e : Exception)
    → (update_plan slug u a).0 ≡ raise e
    → (update_plan slug u a).1 ≡ a
unfolding update_plan update_result update_found update_checked save_plan
update_plan-raise slug u a e h = ground arith

issue_key-raise :
    (hash : Text → Text) (draw : Draw) (slug name : Text) (a : App) (e : Exception)
    → (issue_key hash draw slug name a).0 ≡ raise e
    → (issue_key hash draw slug name a).1 ≡ a
unfolding issue_key issue_on save_new_key
issue_key-raise hash draw slug name a e h = ground arith

update_key-raise :
    (key_id : Text) (u : KeyUpdate) (a : App) (e : Exception)
    → (update_key key_id u a).0 ≡ raise e
    → (update_key key_id u a).1 ≡ a
unfolding update_key update_key_result update_live save_key
update_key-raise key_id u a e h = ground arith

revoke_key-raise :
    (key_id : Text) (now : ℕ) (a : App) (e : Exception)
    → (revoke_key key_id now a).0 ≡ raise e
    → (revoke_key key_id now a).1 ≡ a
unfolding revoke_key revoke_result revoke_live save_key
revoke_key-raise key_id now a e h = ground arith

key_detail_of-ok :
    (db : Database) (k : ApiKey) (e : Exception) → HasPlan db.plans k → key_detail_of db k ≢ raise e
unfolding key_detail_of key_out
key_detail_of-ok db k e h = let (plan, found) = plan_of_key-ok db k h in rw found (λ q. cc)

issued_of-ok :
    (db : Database) (k : ApiKey) (secret : Text) (e : Exception)
    → HasPlan db.plans k
    → issued_of db (k, secret) ≢ raise e
unfolding issued_of
issued_of-ok db k secret e h = let (plan, found) = plan_of_key-ok db k h in rw found (λ q. cc)

revoke_key-revoked_of :
    (key_id : Text) (now : ℕ) (a : App) (k : ApiKey) (e : Exception)
    → (revoke_key key_id now a).0 ≡ ok k
    → revoked_of k ≢ raise e
unfolding revoke_key revoke_result revoke_live save_key revoked_of
revoke_key-revoked_of key_id now a k e h = ground arith

post_plan-raise :
    (a : App) (r : Result PlanCreate) (e : Exception)
    → let (plan, a') = after_checks a r (λ d. create_plan d a) in
      (plan >>= λ p. ok (plan_out (plan_out_of p))) ≡ raise e → a' ≡ a
unfolding after_checks
post_plan-raise a (raise e') e h = refl
post_plan-raise a (ok d) e h = create_plan-raise d a e (bind-raise _ _ e h (λ p q i. cc))

patch_plan-raise :
    (slug : Text) (a : App) (r : Result PlanUpdate) (e : Exception)
    → let (plan, a') = after_checks a r (λ u. update_plan slug u a) in
      (plan >>= λ p. ok (plan_out (plan_out_of p))) ≡ raise e → a' ≡ a
unfolding after_checks
patch_plan-raise slug a (raise e') e h = refl
patch_plan-raise slug a (ok u) e h = update_plan-raise slug u a e (bind-raise _ _ e h (λ p q i. cc))

post_key-raise :
    (hash : Text → Text) (draw : Draw) (a : App) (r : Result (Text × Text)) (e : Exception)
    → let (issued, a') = after_checks a r (λ (plan, name). issue_key hash draw plan name a) in
      (issued >>= issued_of a'.db) ≡ raise e → a' ≡ a
unfolding after_checks
post_key-raise hash draw a (raise e') e h = refl
post_key-raise hash draw a (ok (plan, name)) e h = issue_key-raise hash draw plan name a e (
    bind-raise _ _ e h (λ (k, secret) q. issued_of-ok _ k secret e (
      rw (issue_key-plans hash draw plan name a)
        (issue_key-HasPlan hash draw plan name a k secret q))))

patch_key-raise :
    (key_id : Text) (a : App) (r : Result KeyUpdate) (e : Exception)
    → HasPlans a.db
    → let (key, a') = after_checks a r (λ u. update_key key_id u a) in
      (key >>= key_detail_of a'.db) ≡ raise e → a' ≡ a
unfolding after_checks
patch_key-raise key_id a (raise e') e h q = refl
patch_key-raise key_id a (ok u) e h q = update_key-raise key_id u a e (
    bind-raise _ _ e q (λ k i.
      key_detail_of-ok _ k e
        (rw (update_key-plans key_id u a) (update_key-HasPlan key_id u a k i h))))

route-raise :
    (s : Setting) (q : AdminRequest) (a : App) (e : Exception)
    → HasPlans a.db
    → (route s q a).0 ≡ raise e
    → (route s q a).1 ≡ a
unfolding route post_plan_route patch_plan_route post_key_route patch_key_route post_revoke_route
route-raise s (post_plan raw) a e h q = post_plan-raise a _ e q
route-raise s list_all_plans a e h q = refl
route-raise s (read_plan slug) a e h q = refl
route-raise s (patch_plan slug raw) a e h q = patch_plan-raise slug a _ e q
route-raise s (post_key raw) a e h q = post_key-raise s.hash_secret s.draw a _ e q
route-raise s (list_all_keys slug) a e h q = refl
route-raise s (read_key key_id) a e h q = refl
route-raise s (patch_key key_id raw) a e h q = patch_key-raise key_id a _ e h q
route-raise s (post_revoke key_id) a e h q =
    revoke_key-raise key_id s.draw.now a e
      (bind-raise _ _ e q (λ k. revoke_key-revoked_of key_id s.draw.now a k e))

-- A response that is not an error.
abbrev pub Succeeds : Response → Type 0
Succeeds (success n body) = Unit
Succeeds (failure e) = ⊥

-- A request that carries the token and succeeds, or changes nothing.
abbrev pub AllOrNothing : Setting → Option Text → App → Response × App → Type 0
AllOrNothing s token a (r, a') = (Carries s.admin_token token × Succeeds r) ⊎ (a' ≡ a)

respond-AllOrNothing :
    (s : Setting) (token : Option Text) (status : ℕ) (r : Result Body) (a a' : App)
    → Carries s.admin_token token
    → ((e : Exception) → r ≡ raise e → a' ≡ a)
    → AllOrNothing s token a (respond status r, a')
unfolding respond
respond-AllOrNothing s token status (ok body) a a' h undone = inl (h, tt)
respond-AllOrNothing s token status (raise e) a a' h undone = inr (undone e refl)

guarded-AllOrNothing :
    (s : Setting) (token : Option Text) (q : AdminRequest) (a : App) (r : Result (Unit {0}))
    → require_admin s.admin_token token ≡ r
    → HasPlans a.db
    → HasPlans (guarded s q a r).1.db × AllOrNothing s token a (guarded s q a r)
unfolding guarded
guarded-AllOrNothing s token q a (raise e) i h = (h, inr refl)
guarded-AllOrNothing s token q a (ok t) i h = (
  route-HasPlans s q a h,
  respond-AllOrNothing s token (status_of q) (route s q a).0 a (route s q a).1
      (require_admin-Carries s.admin_token token i) (λ e failed. route-raise s q a e h failed),
)

-- On tables whose keys all name a plan that is there, whatever request comes with whatever token: either
-- it carries the admin token and is answered with a success, or the tables and the cache stay as they
-- are; and all keys still name a plan that is there.
pub handle_admin-AllOrNothing :
    (s : Setting) (token : Option Text) (q : AdminRequest) (a : App)
    → HasPlans a.db
    → HasPlans (handle_admin s token q a).1.db × AllOrNothing s token a (handle_admin s token q a)
unfolding handle_admin
handle_admin-AllOrNothing s token q a h =
    guarded-AllOrNothing s token q a (require_admin s.admin_token token) refl h
