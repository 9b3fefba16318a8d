-- ===== src/Admission/Denial.antt =====
-- The decision of step 6, and what a refusal leaves in the store.
use quotaguard.Prelude.{
  Bool, Text, arith, false, ltb, none, not, refl, select, select_idem, some, text_eq_self,
  text_eq_sound, true, ◌*◌, ◌+◌, ◌-◌, ◌<◌, ◌↔◌, ◌≡◌, ◌≢◌, ◌≤◌,
}
use quotaguard.Redis.{Member, Redis, Time, put, zremrangebyscore}
use quotaguard.Admission.{
  Argv, Doubles, Keys, Reading, burst, burst_ok, check, deny_layer_of, is_allowed, now_us_of,
  quota_ok, read, report, settle, sustained, sustained_ok, utok,
}

-- The three layers agree with the reading.
abbrev pub EveryLayerHas : Argv → Reading → Type 0
EveryLayerHas a g =
    (a.cost * utok ≤ g.bucket.tokens)
    × (g.count < a.sustained_limit)
    × (g.used + a.cost ≤ a.quota_hard)

-- A member that the window of the call still holds.
abbrev pub is_live : Argv → Time → Member → Bool
is_live a time m = not (ltb m.score (now_us_of time - a.window_us))

module _ (d : Doubles) (k : Keys) (a : Argv) (time : Time) (r : Redis) where
  -- A call is admitted exactly when the bucket has the cost in tokens, the window has room for one
  -- more, and the month's counter has room for the cost; a call that is not admitted names a layer
  -- that has not, and the first such in the order burst, sustained, quota.
  pub allowed_iff :
      let g = (read d k a time r).0 in
      let v = (check d k a time r).0 in
      ((v.allowed ≡ true) ↔ EveryLayerHas a g)
      × (v.deny_layer ≡ none ↔ EveryLayerHas a g)
      × (v.deny_layer ≡ some burst ↔ (g.bucket.tokens < a.cost * utok))
      × (v.deny_layer ≡ some sustained
          ↔ ((a.cost * utok ≤ g.bucket.tokens) × (a.sustained_limit ≤ g.count)))
  unfolding check report deny_layer_of is_allowed burst_ok sustained_ok quota_ok
  allowed_iff = ground arith

  -- All or nothing: a refused call writes no bucket, no counter, no flag and no deadline, and takes
  -- from its own window alone, and from there only members that are older than the window.
  pub denied_writes_nothing :
      let r' = (check d k a time r).1 in
      (check d k a time r).0.allowed ≡ false
      → (r'.hashes ≡ r.hashes)
        × (r'.strings ≡ r.strings)
        × (r'.deadlines ≡ r.deadlines)
        × ((j : Text) → k.window ≢ j → r'.zsets j ≡ r.zsets j)
        × (select (is_live a time) (r'.zsets k.window) ≡ select (is_live a time) (r.zsets k.window))
  unfolding check report settle read zremrangebyscore put
  denied_writes_nothing h = rw h (
    refl,
    refl,
    refl,
    λ j ne. ground (arith, text_eq_sound k.window j),
    rw (text_eq_self k.window) (select_idem (is_live a time) (r.zsets k.window)),
  )
