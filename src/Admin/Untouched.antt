-- ===== src/Admin/Untouched.antt =====
-- An operation on the plans leaves the keys as they are, and one on the keys the plans.
use quotaguard.Prelude.{Text, arith, ℕ, ◌≡◌}
use quotaguard.Plans.{
  App, PlanCreate, PlanUpdate, create_checked, create_plan, insert_plan, save_plan, update_checked,
  update_found, update_plan, update_result,
}
use quotaguard.Keys.{
  Draw, KeyUpdate, issue_key, issue_on, revoke_key, revoke_live, revoke_result, save_key,
  save_new_key, update_key, update_key_result, update_live,
}

pub create_plan-keys :
    (data_in : PlanCreate) (a : App) → (create_plan data_in a).1.db.keys ≡ a.db.keys
unfolding create_plan create_checked insert_plan
create_plan-keys data_in a = ground arith

pub update_plan-keys :
    (slug : Text) (u : PlanUpdate) (a : App) → (update_plan slug u a).1.db.keys ≡ a.db.keys
unfolding update_plan update_result update_found update_checked save_plan
update_plan-keys slug u a = ground arith

pub issue_key-plans :
    (hash : Text → Text) (draw : Draw) (slug name : Text) (a : App)
    → (issue_key hash draw slug name a).1.db.plans ≡ a.db.plans
unfolding issue_key issue_on save_new_key
issue_key-plans hash draw slug name a = ground arith

pub update_key-plans :
    (key_id : Text) (u : KeyUpdate) (a : App) → (update_key key_id u a).1.db.plans ≡ a.db.plans
unfolding update_key update_key_result update_live save_key
update_key-plans key_id u a = ground arith

pub revoke_key-plans :
    (key_id : Text) (now : ℕ) (a : App) → (revoke_key key_id now a).1.db.plans ≡ a.db.plans
unfolding revoke_key revoke_result revoke_live save_key
revoke_key-plans key_id now a = ground arith
