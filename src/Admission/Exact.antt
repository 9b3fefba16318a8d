-- ===== src/Admission/Exact.antt =====
-- Exactness: against what is left of a monthly quota the script admits as many calls as fit.
use quotaguard.Prelude.{
  All, List, Text, [], ap, arith, false, length, ltb, min, some, text_eq, text_eq_complete, true, ℕ,
  ◌-◌, ◌∙◌, ◌∷◌, ◌≡◌, ◌≢◌,
}
use quotaguard.Redis.{Redis, counter, zremrangebyscore}
use quotaguard.Admission.{
  Argv, Decision, Doubles, Reading, burst, check, deny_layer_of, is_allowed, quota_ok, read, report,
  sustained,
}
use quotaguard.Admission.Runs.{Along, Call, admitted, after, decide, total}
use quotaguard.Admission.Quota.{counter-check, flag_key, quota_key}

-- A call of cost 1 on one counter, whose flag has another key.
abbrev pub OneUnit : Text → ℕ → Call → Type 0
OneUnit j hard c =
    (text_eq (flag_key c.keys c.time) j ≡ false)
    × (quota_key c.keys c.time ≡ j)
    × (c.argv.quota_hard ≡ hard)
    × (c.argv.cost ≡ 1)

-- No layer but the quota refuses the call.
abbrev pub OnlyQuotaDenies : Call → Decision → Type 0
OnlyQuotaDenies c v = v.deny_layer ≢ some burst × v.deny_layer ≢ some sustained

only_quota :
    (a : Argv) (g : Reading)
    → deny_layer_of a g ≢ some burst
    → deny_layer_of a g ≢ some sustained
    → is_allowed a g ≡ quota_ok a g
unfolding deny_layer_of is_allowed
only_quota a g nb ns = ground arith

module _ (d : Doubles) (j : Text) (hard : ℕ) where
  admitted_iff_left :
      (c : Call) (r : Redis)
      → OneUnit j hard c
      → OnlyQuotaDenies c (decide d c r)
      → (decide d c r).allowed ≡ ltb (counter j r) hard
  unfolding check report read quota_ok counter zremrangebyscore
  admitted_iff_left c r one only =
      let g = (read d c.keys c.argv c.time r).0 in
      let used : g.used ≡ counter j r = ap (λ (q : Text). counter q r) one.1 in
      only_quota c.argv g only.0 only.1 ∙ ground (arith, used)

  -- Calls of cost 1 that only the quota can refuse: of any number of them, in any order, exactly
  -- as many are admitted as the hard limit has left, or all of them if they are fewer.
  pub admits_exactly :
      (calls : List Call) (r : Redis)
      → All (OneUnit j hard) calls
      → Along d OnlyQuotaDenies calls r
      → total d admitted calls r ≡ min (length calls) (hard - counter j r)
  unfolding total
  admits_exactly [] r ones only = omega arith
  admits_exactly (c ∷ cs) r ones only =
      let key : text_eq (quota_key c.keys c.time) j ≡ true = text_eq_complete _ j ones.0.1 in
      ground (
        arith,
        admits_exactly cs (after d c r) ones.1 only.1,
        admitted_iff_left c r ones.0 only.0,
        counter-check d c.keys c.argv c.time r j ones.0.0,
        key,
      )
