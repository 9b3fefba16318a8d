-- ===== src/Models/Limits.antt =====
-- The two ways in which the program resolves an override.
use quotaguard.Prelude.{arith, some, ◌≡◌, ◌≢◌}
use quotaguard.Models.{ApiKey, LimitField, Plan, effective_limits, not_none_or, or_plan}

-- The schemas' bounds: no override that is written is 0.
abbrev pub HasPositive : ApiKey → LimitField → Type 0
HasPositive key f = key.override_of f ≢ some 0

-- The check path's limit, by `or`, is the one that the rollup and the usage report find by
-- `is not None`, for every field whose override is not 0.
pub effective_limits-not_none_or :
    (key : ApiKey) (plan : Plan) (f : LimitField)
    → HasPositive key f
    → effective_limits key plan f ≡ not_none_or (key.override_of f) (plan.limit f)
unfolding effective_limits or_plan not_none_or
effective_limits-not_none_or key plan f h = ground arith
