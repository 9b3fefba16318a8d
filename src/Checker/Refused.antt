-- ===== src/Checker/Refused.antt =====
-- The answer to a check that the script refuses, from the store to the body and the headers.
use quotaguard.Prelude.{Among, Text, codes, false, pos, show_int, some, ℕ, ◌≡◌}
use quotaguard.Models.{burst_capacity, monthly_quota, sustained_limit}
use quotaguard.Errors.{Result, ok, raise, ◌>>=◌}
use quotaguard.Redis.{Redis}
use quotaguard.KeyCache.{ResolvedKey}
use quotaguard.Admission.{Doubles, Layer, Reading, burst, quota, read, sustained}
use quotaguard.Checker.{
  CheckOut, Ratios, ScriptResult, Shown, burst_shown, quota_shown, run_check, script_argv,
  script_keys, sustained_shown, to_out,
}
use quotaguard.Checker.Service.{Request}

-- The layer that a decision of the script names as the denier.
abbrev denier : Layer → ScriptResult → Shown
denier burst r = burst_shown r
denier sustained r = sustained_shown r
denier quota r = quota_shown r

abbrev name_of : Layer → Text
name_of burst = codes "burst"
name_of sustained = codes "sustained"
name_of quota = codes "quota"

-- The limit of the key that a layer holds it to.
abbrev limit_of : Layer → ResolvedKey → ℕ
limit_of burst key = key.limit burst_capacity
limit_of sustained key = key.limit sustained_limit
limit_of quota key = key.limit monthly_quota

-- An answer of status 200 that refuses for a layer: it names the layer, shows its limit, and says when to
-- come again.
abbrev pub RefusesFor : Layer → ResolvedKey → Result CheckOut → Type 0
RefusesFor layer key (raise e) = ⊥
RefusesFor layer key (ok out) =
    (out.allowed ≡ false)
    × (out.degraded ≡ false)
    × (out.reason ≡ some (name_of layer))
    × ((s : Shown) × (out.shown ≡ some s) × (s.limit ≡ pos (limit_of layer key)))
    × ((wait : ℕ) × (out.retry_after ≡ some (pos wait))
        × Among (codes "Retry-After", show_int (pos wait)) out.headers)

-- What the endpoint makes of a check: the checker's result, and the answer from it.
abbrev pub answer_of : Doubles → Ratios → Request → Redis → Result CheckOut
answer_of d q c r = (run_check d c.key c.resource c.cost c.request_id c.time r).0 >>= to_out q c.key

-- What the script of a check reads of the store.
abbrev pub reading_of : Doubles → Request → Redis → Reading
reading_of d c r =
    (read d (script_keys c.key.key_id c.resource) (script_argv c.key c.cost c.request_id) c.time
      r).0
