-- ===== src/Rollup/Upsert.antt =====
-- The monthly rows over repeated runs of the rollup.
use quotaguard.Prelude.{
  Bool, Bool-cases, List, Option, Text, [], arith, false, first, inl, inr, length, ltb, max, none,
  refl, some, suc, text_eq, text_eq_self, true, ℕ, ◌&&◌, ◌++◌, ◌+◌, ◌==◌, ◌∷◌, ◌≡◌, ◌≤◌,
}
use quotaguard.Models.{Rollup}
use quotaguard.Database.{Database, next_id, replace_rollup, rollup_for}
use quotaguard.Rollup.{raise_rollup, upsert_found, upsert_rollup}

-- What a row holds; no row counts as 0.
abbrev pub used_of : Option Rollup → ℕ
used_of none = 0
used_of (some r) = r.used

-- The ids of the rows go up by 1 from `n` on.
abbrev pub RowsFrom : ℕ → List Rollup → Type 0
RowsFrom n [] = Unit
RowsFrom n (r ∷ rs) = (r.id ≡ n) × RowsFrom (suc n) rs

abbrev pub is_of : ℕ → Text → Rollup → Bool
is_of key month r = r.api_key_id == key && text_eq r.month month

first-append :
    (p : Rollup → Bool) (rs : List Rollup) (r : Rollup)
    → first p rs ≡ none
    → p r ≡ true
    → first p (rs ++ r ∷ []) ≡ some r
first-append p [] r e t = rw t refl
first-append p (x ∷ rs) r e t = ground (arith, first-append p rs r)

first-passes :
    (p : Rollup → Bool) (rs : List Rollup) (r : Rollup) → first p rs ≡ some r → p r ≡ true
first-passes p [] r e = cc
first-passes p (x ∷ rs) r e = ground (arith, first-passes p rs r)

pub first-id-le :
    (p : Rollup → Bool) (n : ℕ) (rs : List Rollup) (r : Rollup)
    → RowsFrom n rs
    → first p rs ≡ some r
    → n ≤ r.id
first-id-le p n [] r h e = cc
first-id-le p n (x ∷ rs) r h e = ground (arith, first-id-le p (suc n) rs r h.1)

-- A write to the row that a query found, and that still answers it, is what the query finds next.
first-replace_rollup :
    (p : Rollup → Bool) (n : ℕ) (rs : List Rollup) (old new : Rollup)
    → RowsFrom n rs
    → first p rs ≡ some old
    → new.id ≡ old.id
    → p new ≡ true
    → first p (replace_rollup new rs) ≡ some new
unfolding replace_rollup
first-replace_rollup p n [] old new h e i same = cc
first-replace_rollup p n (x ∷ rs) old new h e i same = elim (Bool-cases (p x)) [
  | inl found ↦ let hit : (x.id == new.id) ≡ true = ground arith in rw (hit, same) refl
  | inr passed ↦
      let later : first p rs ≡ some old = ground arith in
      let below : suc n ≤ old.id = first-id-le p (suc n) rs old h.1 later in
      let other : (x.id == new.id) ≡ false = ground arith in
      rw (other, passed) (first-replace_rollup p (suc n) rs old new h.1 later i same)
]

replace_rollup-RowsFrom :
    (n : ℕ) (rs : List Rollup) (new : Rollup) → RowsFrom n rs → RowsFrom n (replace_rollup new rs)
unfolding replace_rollup
replace_rollup-RowsFrom n [] new h = tt
replace_rollup-RowsFrom n (x ∷ rs) new h =
    ground (arith, replace_rollup-RowsFrom (suc n) rs new h.1)

append-RowsFrom :
    (n : ℕ) (rs : List Rollup) (new : Rollup)
    → RowsFrom n rs
    → new.id ≡ n + length rs
    → RowsFrom n (rs ++ new ∷ [])
append-RowsFrom n [] new h e = (omega arith, tt)
append-RowsFrom n (x ∷ rs) new h e = (h.0, append-RowsFrom (suc n) rs new h.1 (omega arith))

-- The ids are in order, and there is a row for the key and the month, with this use.
abbrev pub HasRow : ℕ → Text → ℕ → Database → Type 0
HasRow key month used db =
    RowsFrom 1 db.rollups × (r : Rollup) × (rollup_for key month db ≡ some r) × (r.used ≡ used)

raise_rollup-HasRow :
    (key : ℕ) (month : Text) (used quota_limit : ℕ) (db : Database) (old : Rollup)
    → RowsFrom 1 db.rollups
    → rollup_for key month db ≡ some old
    → HasRow key month (max old.used used) (raise_rollup used quota_limit old db)
unfolding raise_rollup rollup_for
raise_rollup-HasRow key month used quota_limit db old h e =
    let new = record old { used = used; quota_limit = quota_limit } in
    elim (Bool-cases (ltb old.used used)) [
      | inl more ↦
          let asks : is_of key month new ≡ true = first-passes (is_of key month) db.rollups old e in
          let found = first-replace_rollup (is_of key month) 1 db.rollups old new h e refl asks in
          rw more (replace_rollup-RowsFrom 1 db.rollups new h, new, found, ground arith)
      | inr no_more ↦ rw no_more (h, old, e, ground arith)
    ]

upsert_found-HasRow :
    (key : ℕ) (month : Text) (used quota_limit : ℕ) (db : Database) (old : Option Rollup)
    → RowsFrom 1 db.rollups
    → rollup_for key month db ≡ old
    → HasRow key month (max (used_of old) used) (upsert_found key month used quota_limit db old)
unfolding upsert_found rollup_for
upsert_found-HasRow key month used quota_limit db none h e =
    let new : Rollup = record {
      id = next_id db.rollups;
      api_key_id = key;
      month = month;
      used = used;
      quota_limit = quota_limit;
    } in
    let asks : is_of key month new ≡ true = ground (arith, text_eq_self month) in
    (
      append-RowsFrom 1 db.rollups new h (omega arith),
      new,
      first-append (is_of key month) db.rollups new e asks,
      omega arith,
    )
upsert_found-HasRow key month used quota_limit db (some old) h e =
    raise_rollup-HasRow key month used quota_limit db old h e

upsert_again :
    (key : ℕ) (month : Text) (used quota_limit : ℕ) (db : Database) (r : Rollup)
    → rollup_for key month db ≡ some r
    → used ≤ r.used
    → upsert_rollup key month used quota_limit db ≡ db
unfolding upsert_rollup upsert_found raise_rollup
upsert_again key month used quota_limit db r e low = rw e (ground arith)

upsert_rollup-HasRow :
    (key : ℕ) (month : Text) (used quota_limit : ℕ) (db : Database)
    → RowsFrom 1 db.rollups
    → HasRow key month
        (max (used_of (rollup_for key month db)) used)
        (upsert_rollup key month used quota_limit db)
unfolding upsert_rollup
upsert_rollup-HasRow key month used quota_limit db h =
    upsert_found-HasRow key month used quota_limit db _ h refl

-- An upsert on rows with the ids 1, 2, … keeps the ids in order, leaves its key and month with a row
-- whose use is the greater of the row's before, 0 without one, and the counter's; and the same upsert
-- once more changes nothing.
pub upsert_raises :
    (key : ℕ) (month : Text) (used quota_limit : ℕ) (db : Database)
    → RowsFrom 1 db.rollups
    → let db' = upsert_rollup key month used quota_limit db in
      HasRow key month (max (used_of (rollup_for key month db)) used) db'
      × (upsert_rollup key month used quota_limit db' ≡ db')
upsert_raises key month used quota_limit db h =
    let row = upsert_rollup-HasRow key month used quota_limit db h in
    let (_, r, there, value) = row in
    (row, upsert_again key month used quota_limit _ r there (omega arith))
