-- ===== src/Cli/Tests.antt =====
-- The command line on the demo rows.
use quotaguard.Prelude.{
  [], codes, decimal, digits_onto, false, refl, some, split, true, ◌++◌, ◌∷◌, ◌≡◌,
}
use quotaguard.Admin.{Setting}
use quotaguard.Cli.Print.{
  cells_of, commas, grouped, is_space, join_by, ljust, lstrip, rstrip, spaces, strip, table,
  table_line, widest, widths, window,
}
use quotaguard.Cli.Handlers.{Options}
use quotaguard.Cli.Override.{clear_names, stripped}

hours_test : window 7200 ≡ codes "2h"
unfolding window decimal digits_onto
hours_test = refl

minutes_test : window 90 ≡ codes "90s"
unfolding window decimal digits_onto
minutes_test = refl

grouped_test : grouped 1_234_567 ≡ codes "1,234,567"
unfolding grouped commas decimal digits_onto
grouped_test = refl

table_test :
    table (codes "a" ∷ codes "bc" ∷ []) ((codes "xyz" ∷ codes "d" ∷ []) ∷ [])
    ≡ codes "a    bc" ++ 10 ∷ codes "xyz  d"
unfolding table table_line widths widest cells_of ljust spaces join_by rstrip is_space
table_test = refl

clear_test :
    clear_names (some (codes " monthly_quota, ,burst_capacity"))
    ≡ codes "monthly_quota" ∷ codes "burst_capacity" ∷ []
unfolding clear_names stripped strip lstrip rstrip is_space split
clear_test = refl

abbrev console : Setting
console = record {
  admin_token = [];
  hash_secret = λ s. s;
  describe = λ field. codes "Value is not allowed";
  draw = record { secret = codes "qk_cccc"; key_id = codes "key_4"; now = 1_753_000_300 };
}

abbrev terse : Options
terse = record { as_json = false; quiet = true }
