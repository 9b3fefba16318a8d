-- ===== src/Models/Tests.antt =====
-- The limits of the demo key.
use quotaguard.Models.{burst_capacity, effective_limits, or_plan}
use quotaguard.Prelude.{refl, ◌≡◌}
use quotaguard.Samples.{demo_key, free_plan}

demo_capacity : effective_limits demo_key free_plan burst_capacity ≡ 20
unfolding effective_limits or_plan
demo_capacity = refl
