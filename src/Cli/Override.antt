-- ===== src/Cli/Override.antt =====
-- The handler of app/cli.py for overrides: what is to be set and cleared, and what is said of it.
use quotaguard.Prelude.{
  Bool, List, Option, Text, [], codes, decimal, if◌then◌else◌, inl, inr, is_empty, map, none, some,
  split, text_eq, ℕ, ℤ, ◌++◌, ◌∷◌, ◌⊎◌,
}
use quotaguard.Models.{
  ApiKey, LimitField, burst_capacity, burst_refill_per_sec, effective_limits, monthly_quota,
  sustained_limit, sustained_window_seconds,
}
use quotaguard.Database.{Database}
use quotaguard.Errors.{Result, ok, raise, ◌>>=◌}
use quotaguard.Plans.{App, Change, field_name, null, unset, value}
use quotaguard.Keys.{get_key, update_key}
use quotaguard.Schemas.{RawKeyUpdate, read_key_update}
use quotaguard.Admin.{Setting, after_checks, key_detail_of, plan_of_key}
use quotaguard.Cli.Print.{join_by, strip}
use quotaguard.Cli.Handlers.{Handled, Options, Printed, dumped, fail, say}

-- `OVERRIDABLE`, in the order of the names
abbrev pub overridable : List LimitField
overridable =
    burst_capacity ∷ burst_refill_per_sec ∷ monthly_quota ∷ sustained_limit
    ∷ sustained_window_seconds ∷ []

unfoldable pub field_of : Text → List LimitField → Option LimitField
field_of name [] = none
field_of name (f ∷ fs) = if text_eq name (field_name f) then some f else field_of name fs

-- `[name.strip() for name in (clear or "").split(",") if name.strip()]`
unfoldable pub stripped : List Text → List Text
stripped [] = []
stripped (s ∷ ss) = let name = strip s in if is_empty name then stripped ss else name ∷ stripped ss

unfoldable pub clear_names : Option Text → List Text
clear_names none = []
clear_names (some text) = stripped (split b',' text)

-- `changes`, in the order of its entries; none clears the override.
abbrev pub Changes : Type 0
Changes = List (LimitField × Option ℤ)

unfoldable pub given_changes : (LimitField → Option ℤ) → List LimitField → Changes
given_changes given [] = []
given_changes given (f ∷ fs) = elim (given f) [
  | none ↦ given_changes given fs
  | some n ↦ (f, some n) ∷ given_changes given fs
]

unfoldable pub same_field : LimitField → LimitField → Bool
same_field f g = text_eq (field_name f) (field_name g)

unfoldable pub clear_field : LimitField → Changes → Changes
clear_field f [] = (f, none) ∷ []
clear_field f ((g, v) ∷ changes) =
    if same_field f g then (g, none) ∷ changes else (g, v) ∷ clear_field f changes

-- The name that is not a field, or the changes with the fields cleared.
unfoldable pub clear_all : List Text → Changes → Text ⊎ Changes
clear_all [] changes = inr changes
clear_all (name ∷ names) changes = elim (field_of name overridable) [
  | none ↦ inl name
  | some f ↦ clear_all names (clear_field f changes)
]

abbrev pub change_of : Option ℤ → Change ℤ
change_of none = null
change_of (some n) = value n

unfoldable pub change_at : LimitField → Changes → Change ℤ
change_at f [] = unset
change_at f ((g, v) ∷ changes) = if same_field f g then change_of v else change_at f changes

abbrev pub raw_changes : Changes → RawKeyUpdate
raw_changes changes = record { name = unset; override_of = λ f. change_at f changes; unknown = [] }

unfoldable pub not_overridable : Text → Text
not_overridable name =
    codes "'"
    ++ name
    ++ codes "' is not overridable. Choose from: "
    ++ join_by (codes ", ") (map field_name overridable)
    ++ codes "."

unfoldable pub change_line :
    Text → (LimitField → ℕ) → (LimitField → ℕ) → LimitField × Option ℤ → Text
change_line key_id before after (f, none) =
    codes "key "
    ++ key_id
    ++ codes ": "
    ++ field_name f
    ++ codes " override cleared (plan value "
    ++ decimal (after f)
    ++ codes ")"
change_line key_id before after (f, some n) =
    codes "key "
    ++ key_id
    ++ codes ": "
    ++ field_name f
    ++ codes " "
    ++ decimal (before f)
    ++ codes " -> "
    ++ decimal (after f)
    ++ codes " (override)"

unfoldable pub say_all : Options → List Text → List Printed
say_all o [] = []
say_all o (message ∷ messages) = say o message ++ say_all o messages

unfoldable pub limits_of : Database → ApiKey → Result (LimitField → ℕ)
limits_of db key = do plan ← plan_of_key db key; ok (effective_limits key plan)

unfoldable pub override_lines : Options → Changes → (LimitField → ℕ) → Database → ApiKey → Handled
override_lines o changes before db key = do
  after ← limits_of db key
  detail ← key_detail_of db key
  ok (
      if o.as_json
      then (0, dumped detail ∷ [])
      else (0, say_all o (map (change_line key.key_id before after) changes)))

unfoldable pub override_before :
    Setting → Options → Text → Changes → App → Result (LimitField → ℕ) → Handled × App
override_before s o key_id changes a (raise e) = (raise e, a)
override_before s o key_id changes a (ok before) =
    let (key, a') =
      after_checks a (read_key_update s.describe (raw_changes changes))
        (λ u. update_key key_id u a) in
    (key >>= override_lines o changes before a'.db, a')

unfoldable pub override_with : Setting → Options → Text → App → Text ⊎ Changes → Handled × App
override_with s o key_id a (inl name) = (ok (fail (not_overridable name) 1), a)
override_with s o key_id a (inr changes) =
    override_before s o key_id changes a (get_key a.db key_id >>= limits_of a.db)

-- `_key_override`
unfoldable pub key_override_command :
    Setting → Options → Text → (LimitField → Option ℤ) → Option Text → App → Handled × App
key_override_command s o key_id given clear a =
    override_with s o key_id a (clear_all (clear_names clear) (given_changes given overridable))
