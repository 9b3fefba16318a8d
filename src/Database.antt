-- ===== src/Database.antt =====
-- The SQLite tables as lists of rows in the order of their ids, and the queries on them. A commit is
-- one step: it checks the unique constraints, and a rollback leaves the tables as they were.
use quotaguard.Prelude.{
  List, Option, Text, [], first, if◌then◌else◌, length, text_eq, ℕ, ◌&&◌, ◌+◌, ◌==◌, ◌∷◌,
}
use quotaguard.Models.{ApiKey, Plan, Rollup, WebhookOutbox}

pub record Database : Type 0 where
  pub plans : List Plan
  pub keys : List ApiKey
  pub rollups : List Rollup
  pub outbox : List WebhookOutbox

-- The id that a table gives to its next row: the length plus 1, since no row is ever deleted.
abbrev pub next_id {ℓ} : {A : Type ℓ} → List A → ℕ
next_id rows = length rows + 1

-- `select(Plan).where(Plan.slug == slug)`
unfoldable pub plan_by_slug : Text → Database → Option Plan
plan_by_slug slug db = first (λ (p : Plan). text_eq p.slug slug) db.plans

unfoldable pub plan_by_id : ℕ → Database → Option Plan
plan_by_id id db = first (λ (p : Plan). p.id == id) db.plans

unfoldable pub key_by_id : ℕ → Database → Option ApiKey
key_by_id id db = first (λ (k : ApiKey). k.id == id) db.keys

unfoldable pub key_by_key_id : Text → Database → Option ApiKey
key_by_key_id key_id db = first (λ (k : ApiKey). text_eq k.key_id key_id) db.keys

unfoldable pub key_by_hash : Text → Database → Option ApiKey
key_by_hash digest db = first (λ (k : ApiKey). text_eq k.key_hash digest) db.keys

unfoldable pub rollup_for : ℕ → Text → Database → Option Rollup
rollup_for key month db =
    first (λ (r : Rollup). r.api_key_id == key && text_eq r.month month) db.rollups

unfoldable pub outbox_for : ℕ → Text → Database → Option WebhookOutbox
outbox_for key month db =
    first (λ (w : WebhookOutbox). w.api_key_id == key && text_eq w.month month) db.outbox

-- A write to the row with an id.
unfoldable pub replace_key : ApiKey → List ApiKey → List ApiKey
replace_key new [] = []
replace_key new (k ∷ ks) = if k.id == new.id then new ∷ ks else k ∷ replace_key new ks

unfoldable pub replace_plan : Plan → List Plan → List Plan
replace_plan new [] = []
replace_plan new (p ∷ ps) = if p.id == new.id then new ∷ ps else p ∷ replace_plan new ps

unfoldable pub replace_rollup : Rollup → List Rollup → List Rollup
replace_rollup new [] = []
replace_rollup new (r ∷ rs) = if r.id == new.id then new ∷ rs else r ∷ replace_rollup new rs

unfoldable pub replace_outbox : WebhookOutbox → List WebhookOutbox → List WebhookOutbox
replace_outbox new [] = []
replace_outbox new (w ∷ ws) = if w.id == new.id then new ∷ ws else w ∷ replace_outbox new ws
