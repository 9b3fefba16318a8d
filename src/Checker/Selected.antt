-- ===== src/Checker/Selected.antt =====
-- The layer that the RateLimit header speaks for.
use quotaguard.Models.{sustained_window_seconds}
use quotaguard.Errors.{ok, raise, zero_division}
use quotaguard.KeyCache.{ResolvedKey}
use quotaguard.Prelude.{
  All, Among, Bool, List, [], arith, false, if◌then◌else◌, inl, inr, refl, true, ℕ, ◌||◌, ◌∷◌, ◌≡◌,
  ◌⊎◌,
}
use quotaguard.Checker.{
  Candidate, Ratios, ScriptResult, Shown, burst_shown, burst_window_seconds, is_zero,
  month_window_seconds, quota_shown, selected_layer, selected_policy, sustained_shown, tighter,
  tightest,
}

-- What is relied on of the comparison of quotients: it is a strict weak order.
pub record IsOrder (q : Ratios) : Type 0 where
  pub asymmetric : (a b : Shown) → q.less a b ≡ true → q.less b a ≡ false
  pub cotransitive : (a b c : Shown) → q.less a c ≡ true → (q.less a b ≡ true) ⊎ (q.less b c ≡ true)

module _ (q : Ratios) (o : IsOrder q) where
  tighter_asymmetric : (a b : Candidate) → tighter q a b ≡ true → tighter q b a ≡ false
  unfolding tighter
  tighter_asymmetric a b h = ground (arith, o.asymmetric a.shown b.shown)

  tighter_irreflexive : (a : Candidate) → tighter q a a ≡ false
  unfolding tighter
  tighter_irreflexive a = ground (arith, o.asymmetric a.shown a.shown)

  not-tighter_trans :
      (a b c : Candidate) → tighter q a b ≡ false → tighter q b c ≡ false → tighter q a c ≡ false
  unfolding tighter
  not-tighter_trans a b c h k = ground (
    arith,
    o.cotransitive a.shown b.shown c.shown,
    o.cotransitive c.shown a.shown b.shown,
    o.cotransitive b.shown c.shown a.shown,
    o.asymmetric a.shown b.shown,
    o.asymmetric b.shown c.shown,
    o.asymmetric a.shown c.shown,
  )

  -- Nothing in the list is tighter than the candidate that is kept.
  abbrev NoneTighter : Candidate → List Candidate → Type 0
  NoneTighter c cs = All (λ x. tighter q x c ≡ false) cs

  tightest-step :
      (best c kept : Candidate) (cs : List Candidate)
      → tighter q best kept ≡ false
      → tighter q c kept ≡ false
      → NoneTighter (tightest q kept cs) (kept ∷ cs)
      → NoneTighter (tightest q kept cs) (best ∷ c ∷ cs)
  tightest-step best c kept cs h k ih =
      let t = tightest q kept cs in
      (not-tighter_trans best kept t h ih.0, (not-tighter_trans c kept t k ih.0, ih.1))

  tightest-NoneTighter :
      (best : Candidate) (cs : List Candidate) → NoneTighter (tightest q best cs) (best ∷ cs)
  unfolding tightest
  tightest-NoneTighter best [] = (tighter_irreflexive best, tt)
  tightest-NoneTighter best (c ∷ cs) =
      let kept = if tighter q c best then c else best in
      tightest-step best c kept cs
        (ground (arith, tighter_asymmetric c best, tighter_irreflexive best))
        (ground (arith, tighter_irreflexive c)) (tightest-NoneTighter kept cs)

  Among-either :
      (first_is : Bool) (x best c : Candidate) (cs : List Candidate)
      → Among x ((if first_is then c else best) ∷ cs)
      → Among x (best ∷ c ∷ cs)
  Among-either true x best c cs h = inr h
  Among-either false x best c cs (inl same) = inl same
  Among-either false x best c cs (inr later) = inr (inr later)

  tightest-Among : (best : Candidate) (cs : List Candidate) → Among (tightest q best cs) (best ∷ cs)
  unfolding tightest
  tightest-Among best [] = inl refl
  tightest-Among best (c ∷ cs) =
      Among-either (tighter q c best) _ best c cs
        (tightest-Among (if tighter q c best then c else best) cs)

-- The three layers of a result, with the windows that break a tie.
abbrev pub layers_of : ResolvedKey → ScriptResult → ℕ → List Candidate
layers_of key r month_seconds =
    record { shown = burst_shown r; window = burst_window_seconds key }
    ∷ record { shown = sustained_shown r; window = key.limit sustained_window_seconds }
    ∷ record { shown = quota_shown r; window = month_seconds }
    ∷ []

-- For an admitted check the header shows one of the three layers, and none of the three has a smaller
-- quotient of remaining and limit, nor an equal one and a shorter window; if a limit is 0 there is no
-- header but the division's exception.
pub selected_policy_allowed :
    (q : Ratios) (key : ResolvedKey) (r : ScriptResult) (month_seconds : ℕ)
    → IsOrder q
    → r.allowed ≡ true
    → month_window_seconds r.month ≡ ok month_seconds
    → let zero_limit =
        is_zero r.burst_limit || is_zero r.sustained_limit || is_zero r.quota_limit in
      (zero_limit ≡ true → selected_policy q key r ≡ raise zero_division)
      × (zero_limit ≡ false
          → (c : Candidate) × Among c (layers_of key r month_seconds)
            × (selected_policy q key r ≡ ok c.shown)
            × All (λ x. tighter q x c ≡ false) (layers_of key r month_seconds))
unfolding selected_policy selected_layer
selected_policy_allowed q key r month_seconds o h e =
    let b : Candidate = record { shown = burst_shown r; window = burst_window_seconds key } in
    let s : Candidate = record {
      shown = sustained_shown r;
      window = key.limit sustained_window_seconds;
    } in
    let m : Candidate = record { shown = quota_shown r; window = month_seconds } in
    (
      λ z. ground (arith, e, h, z),
      λ z. (
        tightest q b (s ∷ m ∷ []),
        tightest-Among q o b (s ∷ m ∷ []),
        ground (arith, e, h, z),
        tightest-NoneTighter q o b (s ∷ m ∷ []),
      ),
    )
