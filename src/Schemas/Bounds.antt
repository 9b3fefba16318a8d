-- ===== src/Schemas/Bounds.antt =====
-- What a request that passes its checks holds.
use quotaguard.Keys.{KeyUpdate}
use quotaguard.Prelude.{
  All, Bool, List, Option, Text, [], arith, negsuc, none, pos, pos_part, refl, some, true, ℕ, ℤ,
  ◌∷◌, ◌≡◌, ◌≤◌,
}
use quotaguard.Models.{
  LimitField, burst_capacity, burst_refill_per_sec, limit_fields, monthly_quota, sustained_limit,
  sustained_window_seconds,
}
use quotaguard.Errors.{Problem, ok}
use quotaguard.Plans.{Change, PlanCreate, PlanUpdate, null, unset, value}
use quotaguard.Schemas.{
  FieldCheck, RawKeyUpdate, RawPlanCreate, RawPlanUpdate, change_map, change_ok, highest, in_range,
  key_update_checks, key_update_of, limit_checks, limit_ok, option_ok, or_zero, override_checks,
  plan_create_checks, plan_create_of, plan_update_checks, plan_update_of, problems, read_key_update,
  read_plan_create, read_plan_update, soft_pct_ok, validated,
}

-- Within the bounds of a field.
abbrev pub IsWithin : LimitField → ℕ → Type 0
IsWithin f n = (1 ≤ n) × (n ≤ highest f)

abbrev pub ChangeHolds {ℓ} : {A : Type ℓ} → (A → Type 0) → Change A → Type 0
ChangeHolds P (value v) = P v
ChangeHolds P _ = Unit

validated-ok :
    {A : Type 0} (a b : A) (ps : List Problem) → validated a ps ≡ ok b → (ps ≡ []) × (a ≡ b)
unfolding validated
validated-ok a b [] h = (refl, cc)
validated-ok a b (p ∷ ps) h = cc

-- No problem, no check that failed.
problems-All :
    (describe : Text → Text) (checks : List FieldCheck) (unknown : List Text)
    → problems describe checks unknown ≡ []
    → All (λ (c : FieldCheck). c.1 ≡ true) checks
unfolding problems
problems-All describe [] unknown h = tt
problems-All describe ((field, passed) ∷ checks) unknown h =
    ground (arith, problems-All describe checks unknown)

limit_checks-All :
    (passed : LimitField → Bool) (rest : List FieldCheck)
    → All (λ (c : FieldCheck). c.1 ≡ true) (limit_checks passed limit_fields rest)
    → ((f : LimitField) → passed f ≡ true) × All (λ (c : FieldCheck). c.1 ≡ true) rest
unfolding limit_checks
limit_checks-All passed rest (a, (b, (c, (d, (e, h))))) = (
  λ f. elim f as (λ k. passed k ≡ true) [
    | burst_capacity ↦ a
    | burst_refill_per_sec ↦ b
    | sustained_limit ↦ c
    | sustained_window_seconds ↦ d
    | monthly_quota ↦ e
  ],
  h,
)

override_checks-All :
    (passed : LimitField → Bool)
    → All (λ (c : FieldCheck). c.1 ≡ true) (override_checks passed limit_fields)
    → (f : LimitField) → passed f ≡ true
unfolding override_checks
override_checks-All passed (a, (b, (c, (d, (e, _))))) burst_capacity = a
override_checks-All passed (a, (b, (c, (d, (e, _))))) burst_refill_per_sec = b
override_checks-All passed (a, (b, (c, (d, (e, _))))) sustained_limit = c
override_checks-All passed (a, (b, (c, (d, (e, _))))) sustained_window_seconds = d
override_checks-All passed (a, (b, (c, (d, (e, _))))) monthly_quota = e

in_range-le :
    (low high : ℕ) (z : ℤ) → in_range low high z ≡ true → (low ≤ pos_part z) × (pos_part z ≤ high)
unfolding in_range
in_range-le low high (pos n) h = ground arith
in_range-le low high (negsuc n) h = cc

change_ok-Holds :
    (low high : ℕ) (c : Change ℤ)
    → change_ok (in_range low high) c ≡ true
    → ChangeHolds (λ n. (low ≤ n) × (n ≤ high)) (change_map pos_part c)
unfolding change_ok
change_ok-Holds low high (value z) h = in_range-le low high z h
change_ok-Holds low high unset h = tt
change_ok-Holds low high null h = tt

option_ok-le : (high : ℕ) (o : Option ℤ) → option_ok (in_range 0 high) o ≡ true → or_zero o ≤ high
unfolding option_ok
option_ok-le high none h = omega arith
option_ok-le high (some z) h = (in_range-le 0 high z h).1

-- A creation that passes the checks is within the bounds.
pub read_plan_create-IsWithin :
    (describe : Text → Text) (r : RawPlanCreate) (p : PlanCreate)
    → read_plan_create describe r ≡ ok p
    → ((f : LimitField) → IsWithin f (p.limit f)) × (p.quota_soft_pct ≤ 100)
unfolding read_plan_create plan_create_checks plan_create_of limit_ok soft_pct_ok
read_plan_create-IsWithin describe r p h =
    let (clean, same) = validated-ok (plan_create_of r) p _ h in
    let (_, (_, checks)) = problems-All describe (plan_create_checks r) r.unknown clean in
    let (limits, (soft, _)) = limit_checks-All _ _ checks in
    rw (← same) (
      (λ f. in_range-le 1 (highest f) (r.limit f) (limits f)),
      option_ok-le 100 r.quota_soft_pct soft,
    )

-- An update that passes the checks sets numbers within the bounds.
pub read_plan_update-IsWithin :
    (describe : Text → Text) (r : RawPlanUpdate) (u : PlanUpdate)
    → read_plan_update describe r ≡ ok u
    → ((f : LimitField) → ChangeHolds (IsWithin f) (u.limit f))
      × ChangeHolds (λ n. (0 ≤ n) × (n ≤ 100)) u.quota_soft_pct
unfolding read_plan_update plan_update_checks plan_update_of limit_ok soft_pct_ok
read_plan_update-IsWithin describe r u h =
    let (clean, same) = validated-ok (plan_update_of r) u _ h in
    let (_, checks) = problems-All describe (plan_update_checks r) r.unknown clean in
    let (limits, (soft, _)) = limit_checks-All _ _ checks in
    rw (← same) (
      (λ f. change_ok-Holds 1 (highest f) (r.limit f) (limits f)),
      change_ok-Holds 0 100 r.quota_soft_pct soft,
    )

-- An override that passes the checks sets numbers within the bounds.
pub read_key_update-IsWithin :
    (describe : Text → Text) (r : RawKeyUpdate) (u : KeyUpdate)
    → read_key_update describe r ≡ ok u
    → (f : LimitField) → ChangeHolds (IsWithin f) (u.override_of f)
unfolding read_key_update key_update_checks key_update_of limit_ok
read_key_update-IsWithin describe r u h f =
    let (clean, same) = validated-ok (key_update_of r) u _ h in
    let (_, checks) = problems-All describe (key_update_checks r) r.unknown clean in
    let overrides_ok = override_checks-All _ checks f in
    rw (← same) (change_ok-Holds 1 (highest f) (r.override_of f) overrides_ok)
