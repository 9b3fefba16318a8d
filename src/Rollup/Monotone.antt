-- ===== src/Rollup/Monotone.antt =====
-- The monthly rows over upserts: no row ever goes down.
use quotaguard.Prelude.{
  Bool, Bool-cases, List, Option, Text, [], arith, false, first, inl, inr, ltb, none, refl, some,
  suc, sym, true, ℕ, ◌++◌, ◌==◌, ◌∷◌, ◌≡◌, ◌≤◌,
}
use quotaguard.Models.{Rollup}
use quotaguard.Database.{Database, replace_rollup, rollup_for}
use quotaguard.Rollup.{raise_rollup, upsert_found, upsert_rollup}
use quotaguard.Rollup.Upsert.{RowsFrom, first-id-le, is_of, upsert_raises, used_of}

-- A write to the row that one query found, with a use that is not lower, seen by another query that the
-- write does not change.
first-replace-le :
    (p q : Rollup → Bool) (n : ℕ) (rs : List Rollup) (old new : Rollup)
    → RowsFrom n rs
    → first q rs ≡ some old
    → new.id ≡ old.id
    → p new ≡ p old
    → old.used ≤ new.used
    → used_of (first p rs) ≤ used_of (first p (replace_rollup new rs))
unfolding replace_rollup
first-replace-le p q n [] old new h e i same le = cc
first-replace-le p q n (x ∷ rs) old new h e i same le = elim (Bool-cases (q x)) [
  | inl found ↦
      let this : x ≡ old = ground arith in
      let hit : (x.id == new.id) ≡ true = ground arith in
      let asks : p x ≡ p new = rw this (sym same) in
      let low : x.used ≤ new.used = rw this le in rw hit (ground arith)
  | inr passed ↦
      let later : first q rs ≡ some old = ground arith in
      let below : suc n ≤ old.id = first-id-le q (suc n) rs old h.1 later in
      let other : (x.id == new.id) ≡ false = ground arith in
      let rest = first-replace-le p q (suc n) rs old new h.1 later i same le in
      rw other (ground arith)
]

first-append-le :
    (p : Rollup → Bool) (rs : List Rollup) (new : Rollup)
    → used_of (first p rs) ≤ used_of (first p (rs ++ new ∷ []))
first-append-le p [] new = omega arith
first-append-le p (x ∷ rs) new = ground (arith, first-append-le p rs new)

-- The ids stay in order, and no use of any key and month goes down.
abbrev pub Raises : Database → Database → Type 0
Raises db db' =
    RowsFrom 1 db'.rollups
    × ((key : ℕ) (month : Text)
        → used_of (rollup_for key month db) ≤ used_of (rollup_for key month db'))

pub Raises-refl : (db : Database) → RowsFrom 1 db.rollups → Raises db db
Raises-refl db h = (h, λ key month. omega arith)

pub Raises-trans : (a b c : Database) → Raises a b → Raises b c → Raises a c
Raises-trans a b c h k = (
  k.0,
  λ key month. let first_part = h.1 key month in let second_part = k.1 key month in omega arith,
)

raise_rollup-le :
    (key : ℕ) (month : Text) (used quota_limit : ℕ) (db : Database) (old : Rollup)
    → RowsFrom 1 db.rollups
    → rollup_for key month db ≡ some old
    → (other : ℕ) (m : Text)
    → used_of (rollup_for other m db)
      ≤ used_of (rollup_for other m (raise_rollup used quota_limit old db))
unfolding raise_rollup rollup_for
raise_rollup-le key month used quota_limit db old h e other m =
    elim (Bool-cases (ltb old.used used)) [
      | inl more ↦
          let low : old.used ≤ used = ground arith in
          rw more (
            first-replace-le (is_of other m) (is_of key month) 1 db.rollups old
              (record old { used = used; quota_limit = quota_limit }) h e refl refl low)
      | inr no_more ↦ rw no_more (omega arith)
    ]

upsert_found-le :
    (key : ℕ) (month : Text) (used quota_limit : ℕ) (db : Database) (old : Option Rollup)
    → RowsFrom 1 db.rollups
    → rollup_for key month db ≡ old
    → (other : ℕ) (m : Text)
    → used_of (rollup_for other m db)
      ≤ used_of (rollup_for other m (upsert_found key month used quota_limit db old))
unfolding upsert_found rollup_for
upsert_found-le key month used quota_limit db none h e other m =
    first-append-le (is_of other m) db.rollups _
upsert_found-le key month used quota_limit db (some old) h e other m =
    raise_rollup-le key month used quota_limit db old h e other m

pub upsert_rollup-Raises :
    (key : ℕ) (month : Text) (used quota_limit : ℕ) (db : Database)
    → RowsFrom 1 db.rollups
    → Raises db (upsert_rollup key month used quota_limit db)
      × (used ≤ used_of (rollup_for key month (upsert_rollup key month used quota_limit db)))
unfolding upsert_rollup
upsert_rollup-Raises key month used quota_limit db h =
    let ((ids, r, there, value), _) = upsert_raises key month used quota_limit db h in
    let low : used ≤ r.used = omega arith in
    ((ids, upsert_found-le key month used quota_limit db _ h refl), rw there low)
