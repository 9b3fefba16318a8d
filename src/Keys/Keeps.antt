-- ===== src/Keys/Keeps.antt =====
-- What the keys' operations keep: a predicate that holds of an issued row, and that an override and a
-- revocation keep.
use quotaguard.Prelude.{
  All, All-append, Bool, Bool-cases, List, Option, Text, [], arith, false, first-All, inl, inr,
  none, refl, some, true, ℕ, ◌∷◌, ◌≡◌,
}
use quotaguard.Plans.{App, get_plan, is_null}
use quotaguard.Models.{ApiKey, Plan, limit_fields}
use quotaguard.Database.{key_by_key_id, next_id, replace_key}
use quotaguard.Errors.{Result, ok, raise}
use quotaguard.Keys.{
  Draw, KeyUpdate, apply_overrides, found_key, get_key, issue_key, issue_on, new_key, no_changes,
  revoke_key, revoke_live, revoke_result, save_key, save_new_key, update_key, update_key_result,
  update_live,
}

module _ (P : ApiKey → Type 0) where
  replace_key-All : (k : ApiKey) (ks : List ApiKey) → P k → All P ks → All P (replace_key k ks)
  unfolding replace_key
  replace_key-All k [] hk h = tt
  replace_key-All k (x ∷ xs) hk h = ground (arith, replace_key-All k xs hk h.1)

  save_key-All : (k : ApiKey) (a : App) → P k → All P a.db.keys → All P (save_key k a).1.db.keys
  unfolding save_key
  save_key-All k a hk h = replace_key-All k a.db.keys hk h

  save_new_key-All :
      (k : ApiKey) (secret : Text) (a : App) (taken : Bool)
      → P k
      → All P a.db.keys
      → All P (save_new_key k secret a taken).1.db.keys
  unfolding save_new_key
  save_new_key-All k secret a true hk h = h
  save_new_key-All k secret a false hk h = All-append P a.db.keys _ h (hk, tt)

  -- An issued row, whatever its id, on the plan that was found.
  abbrev pub Issues : (Text → Text) → Draw → Text → Result Plan → Type 0
  Issues hash draw name found =
      (id : ℕ) (plan : Plan) → found ≡ ok plan → P (new_key hash id draw name plan)

  issue_on-All :
      (hash : Text → Text) (draw : Draw) (name : Text) (a : App) (plan : Result Plan)
      → Issues hash draw name plan
      → All P a.db.keys
      → All P (issue_on hash draw name a plan).1.db.keys
  unfolding issue_on
  issue_on-All hash draw name a (raise e) new h = h
  issue_on-All hash draw name a (ok plan) new h =
      save_new_key-All (new_key hash (next_id a.db.keys) draw name plan) draw.secret a _
        (new (next_id a.db.keys) plan refl) h

  pub issue_key-All :
      (hash : Text → Text) (draw : Draw) (slug name : Text) (a : App)
      → Issues hash draw name (get_plan a.db slug)
      → All P a.db.keys
      → All P (issue_key hash draw slug name a).1.db.keys
  unfolding issue_key
  issue_key-All hash draw slug name a new h = issue_on-All hash draw name a _ new h

  update_live-All :
      (key_id : Text) (u : KeyUpdate) (k : ApiKey) (a : App) (revoked : Option ℕ)
      → P (apply_overrides u k)
      → All P a.db.keys
      → All P (update_live key_id u k a revoked).1.db.keys
  unfolding update_live
  update_live-All key_id u k a (some t) hk h = h
  update_live-All key_id u k a none hk h =
      let saved = save_key-All (apply_overrides u k) a hk h in
      elim (Bool-cases (no_changes u limit_fields)) [
        | inl empty ↦ rw empty h
        | inr some_change ↦ elim (Bool-cases (is_null u.name)) [
          | inl nothing ↦ rw (some_change, nothing) h
          | inr named ↦ rw (some_change, named) saved
        ]
      ]

  update_key_result-All :
      (key_id : Text) (u : KeyUpdate) (a : App) (found : Option ApiKey)
      → key_by_key_id key_id a.db ≡ found
      → ((k : ApiKey) → P k → P (apply_overrides u k))
      → All P a.db.keys
      → All P (update_key_result key_id u a (found_key key_id found)).1.db.keys
  unfolding update_key_result found_key key_by_key_id
  update_key_result-All key_id u a none e step h = h
  update_key_result-All key_id u a (some k) e step h =
      update_live-All key_id u k a k.revoked_at (step k (first-All P _ a.db.keys k h e)) h

  pub update_key-All :
      (key_id : Text) (u : KeyUpdate) (a : App)
      → ((k : ApiKey) → P k → P (apply_overrides u k))
      → All P a.db.keys
      → All P (update_key key_id u a).1.db.keys
  unfolding update_key get_key
  update_key-All key_id u a step h = update_key_result-All key_id u a _ refl step h

  revoke_live-All :
      (key_id : Text) (now : ℕ) (k : ApiKey) (a : App) (revoked : Option ℕ)
      → P (record k { revoked_at = some now })
      → All P a.db.keys
      → All P (revoke_live key_id now k a revoked).1.db.keys
  unfolding revoke_live
  revoke_live-All key_id now k a (some t) hk h = h
  revoke_live-All key_id now k a none hk h =
      save_key-All (record k { revoked_at = some now }) a hk h

  revoke_result-All :
      (key_id : Text) (now : ℕ) (a : App) (found : Option ApiKey)
      → key_by_key_id key_id a.db ≡ found
      → ((k : ApiKey) → P k → P (record k { revoked_at = some now }))
      → All P a.db.keys
      → All P (revoke_result key_id now a (found_key key_id found)).1.db.keys
  unfolding revoke_result found_key key_by_key_id
  revoke_result-All key_id now a none e step h = h
  revoke_result-All key_id now a (some k) e step h =
      revoke_live-All key_id now k a k.revoked_at (step k (first-All P _ a.db.keys k h e)) h

  pub revoke_key-All :
      (key_id : Text) (now : ℕ) (a : App)
      → ((k : ApiKey) → P k → P (record k { revoked_at = some now }))
      → All P a.db.keys
      → All P (revoke_key key_id now a).1.db.keys
  unfolding revoke_key get_key
  revoke_key-All key_id now a step h = revoke_result-All key_id now a _ refl step h
