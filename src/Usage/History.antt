-- ===== src/Usage/History.antt =====
-- The history of the usage report.
use quotaguard.Prelude.{
  All, All-imp, Bool-cases, List, Option, [], ap, arith, inl, inr, length, length-take-le, map,
  none, refl, select, select-passes, some, suc, take, take-All, text_leb, text_leb_total,
  text_leb_trans, true, zero, ℕ, ◌+◌, ◌-◌, ◌==◌, ◌∷◌, ◌≡◌, ◌≤◌,
}
use quotaguard.Models.{Rollup}
use quotaguard.Database.{Database}
use quotaguard.Usage.{
  UsageMonth, get_rollup_history, history_month, history_rows, insert_desc, live_first, sort_desc,
}

-- Later months come first.
abbrev pub Descends : List Rollup → Type 0
Descends [] = Unit
Descends (r ∷ rs) = All (λ (x : Rollup). text_leb x.month r.month ≡ true) rs × Descends rs

insert_desc-All :
    (P : Rollup → Type 0) (r : Rollup) (rs : List Rollup)
    → P r
    → All P rs
    → All P (insert_desc r rs)
unfolding insert_desc
insert_desc-All P r [] p h = (p, tt)
insert_desc-All P r (x ∷ xs) p h = elim (Bool-cases (text_leb x.month r.month)) [
  | inl le ↦ rw le (p, h)
  | inr gt ↦ rw gt (h.0, insert_desc-All P r xs p h.1)
]

sort_desc-All : (P : Rollup → Type 0) (rs : List Rollup) → All P rs → All P (sort_desc rs)
unfolding sort_desc
sort_desc-All P [] h = tt
sort_desc-All P (r ∷ rs) h = insert_desc-All P r (sort_desc rs) h.0 (sort_desc-All P rs h.1)

insert_desc-Descends : (r : Rollup) (rs : List Rollup) → Descends rs → Descends (insert_desc r rs)
unfolding insert_desc
insert_desc-Descends r [] h = (tt, tt)
insert_desc-Descends r (x ∷ xs) h = elim (Bool-cases (text_leb x.month r.month)) [
  | inl le ↦ rw le ((le, All-imp xs (λ y k. text_leb_trans y.month x.month r.month k le) h.0), h)
  | inr gt ↦ rw gt (
    insert_desc-All _ r xs (text_leb_total x.month r.month gt) h.0,
    insert_desc-Descends r xs h.1,
  )
]

sort_desc-Descends : (rs : List Rollup) → Descends (sort_desc rs)
unfolding sort_desc
sort_desc-Descends [] = tt
sort_desc-Descends (r ∷ rs) = insert_desc-Descends r (sort_desc rs) (sort_desc-Descends rs)

take-Descends : (n : ℕ) (rs : List Rollup) → Descends rs → Descends (take n rs)
take-Descends zero rs h = tt
take-Descends (suc n) [] h = tt
take-Descends (suc n) (r ∷ rs) h = (take-All _ n rs h.0, take-Descends n rs h.1)

length-map-history : (f : Rollup → UsageMonth) (rs : List Rollup) → length (map f rs) ≡ length rs
length-map-history f [] = refl
length-map-history f (r ∷ rs) = ap suc (length-map-history f rs)

live_first-le :
    (m : Option UsageMonth) (h : List UsageMonth) → length (live_first m h) ≤ length h + 1
live_first-le none h = omega arith
live_first-le (some m) h = omega arith

-- For at least one month asked for: the live month and the history together are at most so many; the
-- history's rows are the key's; and they go from later months to earlier ones.
pub history_rows_lem :
    (db : Database) (api_key_id months : ℕ) (live_one : Option UsageMonth)
    → 1 ≤ months
    → (length (live_first live_one (get_rollup_history db api_key_id months)) ≤ months)
      × All
          (λ (r : Rollup). (r.api_key_id == api_key_id) ≡ true)
          (history_rows db api_key_id months)
      × Descends (history_rows db api_key_id months)
unfolding history_rows get_rollup_history
history_rows_lem db id months live_one h =
    let p = λ (r : Rollup). r.api_key_id == id in
    let sorted = sort_desc (select p db.rollups) in
    let few = length-take-le (months - 1) sorted in
    let same = length-map-history history_month (take (months - 1) sorted) in
    (
      omega
          (arith, few, same, live_first-le live_one (map history_month (take (months - 1) sorted))),
      take-All _ (months - 1) sorted
          (sort_desc-All _ (select p db.rollups) (select-passes p db.rollups)),
      take-Descends (months - 1) sorted (sort_desc-Descends (select p db.rollups)),
    )
