-- ===== src/Admin/Keyed.antt =====
-- Every key names a plan that is there, whatever the admin API is sent.
use quotaguard.Prelude.{
  All, All-imp, Bool, Bool-cases, List, Text, [], any, arith, first, first-All, inl, inr, refl,
  some, text_eq, true, ℕ, ◌++◌, ◌==◌, ◌∷◌, ◌≡◌,
}
use quotaguard.Models.{ApiKey, Plan}
use quotaguard.Database.{Database, key_by_key_id, next_id, plan_by_id, plan_by_slug, replace_plan}
use quotaguard.Errors.{Result, ok, raise}
use quotaguard.Plans.{
  App, PlanCreate, PlanUpdate, apply_update, create_checked, create_plan, found_plan, get_plan,
  insert_plan, new_plan, save_plan, update_checked, update_found, update_plan, update_result,
}
use quotaguard.Keys.{
  Draw, KeyUpdate, apply_overrides, found_key, get_key, issue_key, issue_on, new_key, revoke_key,
  save_key, save_new_key, update_key, update_key_result, update_live,
}
use quotaguard.Keys.Keeps.{issue_key-All, revoke_key-All, update_key-All}
use quotaguard.Admin.{
  AdminRequest, Setting, after_checks, list_all_keys, list_all_plans, patch_key, patch_key_route,
  patch_plan, patch_plan_route, plan_of_key, post_key, post_key_route, post_plan, post_plan_route,
  post_revoke, post_revoke_route, read_key, read_plan, route,
}
use quotaguard.Admin.Untouched.{
  create_plan-keys, issue_key-plans, revoke_key-plans, update_key-plans, update_plan-keys,
}

-- The foreign key of a row, in the plans.
abbrev pub HasPlan : List Plan → ApiKey → Type 0
HasPlan plans k = any (λ (p : Plan). p.id == k.plan_id) plans ≡ true

abbrev pub HasPlans : Database → Type 0
HasPlans db = All (HasPlan db.plans) db.keys

any-append :
    (test : Plan → Bool) (ps qs : List Plan) → any test ps ≡ true → any test (ps ++ qs) ≡ true
any-append test [] qs h = cc
any-append test (p ∷ ps) qs h = ground (arith, any-append test ps qs)

any-replace_plan :
    (n : ℕ) (new : Plan) (ps : List Plan)
    → any (λ (p : Plan). p.id == n) ps ≡ true
    → any (λ (p : Plan). p.id == n) (replace_plan new ps) ≡ true
unfolding replace_plan
any-replace_plan n new [] h = h
any-replace_plan n new (p ∷ ps) h = ground (arith, any-replace_plan n new ps)

-- A plan that a query found has its id in the table.
first-any :
    (test : Plan → Bool) (ps : List Plan) (plan : Plan)
    → first test ps ≡ some plan
    → any (λ (p : Plan). p.id == plan.id) ps ≡ true
first-any test [] plan h = cc
first-any test (p ∷ ps) plan h = ground (arith, first-any test ps plan)

create_plan-any :
    (n : ℕ) (d : PlanCreate) (a : App)
    → any (λ (p : Plan). p.id == n) a.db.plans ≡ true
    → any (λ (p : Plan). p.id == n) (create_plan d a).1.db.plans ≡ true
unfolding create_plan create_checked insert_plan
create_plan-any n d a h =
    ground (arith, any-append (λ p. p.id == n) a.db.plans (new_plan (next_id a.db.plans) d ∷ []) h)

update_result-any :
    (n : ℕ) (u : PlanUpdate) (a : App) (found : Result Plan)
    → any (λ (p : Plan). p.id == n) a.db.plans ≡ true
    → any (λ (p : Plan). p.id == n) (update_result u a found).1.db.plans ≡ true
unfolding update_result update_found update_checked save_plan
update_result-any n u a (raise e) h = h
update_result-any n u a (ok p) h =
    ground (arith, any-replace_plan n (apply_update u p) a.db.plans h)

update_plan-any :
    (n : ℕ) (slug : Text) (u : PlanUpdate) (a : App)
    → any (λ (p : Plan). p.id == n) a.db.plans ≡ true
    → any (λ (p : Plan). p.id == n) (update_plan slug u a).1.db.plans ≡ true
unfolding update_plan
update_plan-any n slug u a h = update_result-any n u a (get_plan a.db slug) h

get_plan-any :
    (db : Database) (slug : Text) (plan : Plan)
    → get_plan db slug ≡ ok plan
    → any (λ (p : Plan). p.id == plan.id) db.plans ≡ true
unfolding get_plan found_plan plan_by_slug
get_plan-any db slug plan h =
    let found : plan_by_slug slug db ≡ some plan = ground arith in
    first-any (λ (p : Plan). text_eq p.slug slug) db.plans plan found

issue_on-HasPlan :
    (hash : Text → Text) (draw : Draw) (name : Text) (a : App) (found : Result Plan) (k : ApiKey)
    → (secret : Text) → (issue_on hash draw name a found).0 ≡ ok (k, secret)
    → ((plan : Plan) → found ≡ ok plan → any (λ (p : Plan). p.id == plan.id) a.db.plans ≡ true)
    → HasPlan a.db.plans k
unfolding issue_on save_new_key new_key
issue_on-HasPlan hash draw name a (raise e) k secret h known = cc
issue_on-HasPlan hash draw name a (ok plan) k secret h known = ground (arith, known plan refl)

pub issue_key-HasPlan :
    (hash : Text → Text) (draw : Draw) (slug name : Text) (a : App) (k : ApiKey) (secret : Text)
    → (issue_key hash draw slug name a).0 ≡ ok (k, secret)
    → HasPlan a.db.plans k
unfolding issue_key
issue_key-HasPlan hash draw slug name a k secret h =
    issue_on-HasPlan hash draw name a _ k secret h (get_plan-any a.db slug)

pub get_key-HasPlan :
    (db : Database) (key_id : Text) (k : ApiKey)
    → get_key db key_id ≡ ok k
    → HasPlans db
    → HasPlan db.plans k
unfolding get_key found_key key_by_key_id
get_key-HasPlan db key_id k e h =
    let found : key_by_key_id key_id db ≡ some k = ground arith in
    first-All (HasPlan db.plans) _ db.keys k h found

update_key_result-HasPlan :
    (key_id : Text) (u : KeyUpdate) (a : App) (found : Result ApiKey) (k : ApiKey)
    → (update_key_result key_id u a found).0 ≡ ok k
    → ((j : ApiKey) → found ≡ ok j → HasPlan a.db.plans j)
    → HasPlan a.db.plans k
unfolding update_key_result update_live save_key apply_overrides
update_key_result-HasPlan key_id u a (raise e) k h known = cc
update_key_result-HasPlan key_id u a (ok j) k h known = ground (arith, known j refl)

pub update_key-HasPlan :
    (key_id : Text) (u : KeyUpdate) (a : App) (k : ApiKey)
    → (update_key key_id u a).0 ≡ ok k
    → HasPlans a.db
    → HasPlan a.db.plans k
unfolding update_key
update_key-HasPlan key_id u a k e h =
    update_key_result-HasPlan key_id u a _ k e (λ j q. get_key-HasPlan a.db key_id j q h)

any-first :
    (test : Plan → Bool) (ps : List Plan)
    → any test ps ≡ true
    → (p : Plan) × (first test ps ≡ some p)
any-first test [] h = cc
any-first test (p ∷ ps) h = elim (Bool-cases (test p)) [
  | inl e ↦ (p, rw e refl)
  | inr e ↦
      let later : any test ps ≡ true = ground arith in
      let (q, found) = any-first test ps later in (q, rw e found)
]

pub plan_of_key-ok :
    (db : Database) (k : ApiKey) → HasPlan db.plans k → (plan : Plan) × (plan_of_key db k ≡ ok plan)
unfolding plan_of_key plan_by_id
plan_of_key-ok db k h =
    let (plan, found) = any-first (λ (p : Plan). p.id == k.plan_id) db.plans h in
    (plan, ground arith)

create-HasPlans :
    (a : App) (r : Result PlanCreate)
    → HasPlans a.db
    → HasPlans (after_checks a r (λ d. create_plan d a)).1.db
unfolding after_checks
create-HasPlans a (raise e) h = h
create-HasPlans a (ok d) h =
    rw (create_plan-keys d a) (All-imp a.db.keys (λ k. create_plan-any k.plan_id d a) h)

update-HasPlans :
    (slug : Text) (a : App) (r : Result PlanUpdate)
    → HasPlans a.db
    → HasPlans (after_checks a r (λ u. update_plan slug u a)).1.db
unfolding after_checks
update-HasPlans slug a (raise e) h = h
update-HasPlans slug a (ok u) h =
    rw (update_plan-keys slug u a) (All-imp a.db.keys (λ k. update_plan-any k.plan_id slug u a) h)

issue-HasPlans :
    (hash : Text → Text) (draw : Draw) (a : App) (r : Result (Text × Text))
    → HasPlans a.db
    → HasPlans (after_checks a r (λ (plan, name). issue_key hash draw plan name a)).1.db
unfolding after_checks new_key
issue-HasPlans hash draw a (raise e) h = h
issue-HasPlans hash draw a (ok (plan, name)) h = rw (issue_key-plans hash draw plan name a) (
    issue_key-All (HasPlan a.db.plans) hash draw plan name a
      (λ id p found. get_plan-any a.db plan p found) h)

override-HasPlans :
    (key_id : Text) (a : App) (r : Result KeyUpdate)
    → HasPlans a.db
    → HasPlans (after_checks a r (λ u. update_key key_id u a)).1.db
unfolding after_checks apply_overrides
override-HasPlans key_id a (raise e) h = h
override-HasPlans key_id a (ok u) h =
    rw (update_key-plans key_id u a) (update_key-All (HasPlan a.db.plans) key_id u a (λ k hk. hk) h)

revoke-HasPlans :
    (key_id : Text) (now : ℕ) (a : App) → HasPlans a.db → HasPlans (revoke_key key_id now a).1.db
revoke-HasPlans key_id now a h =
    rw (revoke_key-plans key_id now a)
      (revoke_key-All (HasPlan a.db.plans) key_id now a (λ k hk. hk) h)

pub route-HasPlans :
    (s : Setting) (q : AdminRequest) (a : App) → HasPlans a.db → HasPlans (route s q a).1.db
unfolding route post_plan_route patch_plan_route post_key_route patch_key_route post_revoke_route
route-HasPlans s (post_plan raw) a h = create-HasPlans a _ h
route-HasPlans s list_all_plans a h = h
route-HasPlans s (read_plan slug) a h = h
route-HasPlans s (patch_plan slug raw) a h = update-HasPlans slug a _ h
route-HasPlans s (post_key raw) a h = issue-HasPlans s.hash_secret s.draw a _ h
route-HasPlans s (list_all_keys slug) a h = h
route-HasPlans s (read_key key_id) a h = h
route-HasPlans s (patch_key key_id raw) a h = override-HasPlans key_id a _ h
route-HasPlans s (post_revoke key_id) a h = revoke-HasPlans key_id s.draw.now a h
