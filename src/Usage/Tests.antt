-- ===== src/Usage/Tests.antt =====
-- The history of the demo key.
use quotaguard.Prelude.{
  All, String, [], arith, codes, length, none, refl, text_leb, true, ℕ, ◌==◌, ◌∷◌, ◌≡◌, ◌≤◌,
}
use quotaguard.Models.{Rollup}
use quotaguard.Database.{Database}
use quotaguard.Samples.{demo_db}
use quotaguard.Usage.{get_rollup_history, history_rows, insert_desc, live_first, sort_desc}
use quotaguard.Usage.History.{Descends, history_rows_lem}

abbrev row : ℕ → ℕ → String → Rollup
row id key month = record {
  id = id;
  api_key_id = key;
  month = codes month;
  used = 4;
  quota_limit = 10;
}

abbrev some_rollups : Database
some_rollups = record demo_db {
  rollups = row 1 1 "2026-05" ∷ row 2 2 "2026-05" ∷ row 3 1 "2026-06" ∷ [];
}

later_first : history_rows some_rollups 1 3 ≡ row 3 1 "2026-06" ∷ row 1 1 "2026-05" ∷ []
unfolding history_rows sort_desc insert_desc text_leb
later_first = refl

history_rows_lem_example :
    (length (live_first none (get_rollup_history some_rollups 1 3)) ≤ 3)
    × All (λ (r : Rollup). (r.api_key_id == 1) ≡ true) (history_rows some_rollups 1 3)
    × Descends (history_rows some_rollups 1 3)
history_rows_lem_example = history_rows_lem some_rollups 1 3 none (omega arith)
