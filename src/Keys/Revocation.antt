-- ===== src/Keys/Revocation.antt =====
-- Revocation is permanent, over any sequence of the keys' operations.
use quotaguard.Prelude.{
  Bool, Bool-cases, List, Option, Text, [], arith, false, first, inl, inr, length, none, refl, some,
  suc, true, ℕ, ◌++◌, ◌+◌, ◌==◌, ◌∙◌, ◌∷◌, ◌≡◌, ◌≢◌, ◌≤◌, ◌⊎◌,
}
use quotaguard.Models.{ApiKey, Plan, limit_fields}
use quotaguard.Database.{key_by_key_id, next_id, replace_key}
use quotaguard.Errors.{Result, ok, raise}
use quotaguard.Plans.{App, get_plan, is_null}
use quotaguard.Keys.{
  Draw, KeyUpdate, apply_overrides, found_key, get_key, issue_key, issue_on, new_key, no_changes,
  revoke_key, revoke_live, revoke_result, save_key, save_new_key, update_key, update_key_result,
  update_live,
}

-- The ids of the rows go up by 1 from `n` on.
abbrev pub IdsFrom : ℕ → List ApiKey → Type 0
IdsFrom n [] = Unit
IdsFrom n (k ∷ ks) = (k.id ≡ n) × IdsFrom (suc n) ks

-- Every revoked row of the first list is in the second, at its place and unchanged.
abbrev pub RevokedKept : List ApiKey → List ApiKey → Type 0
RevokedKept [] new = Unit
RevokedKept (k ∷ ks) [] = ⊥
RevokedKept (k ∷ ks) (k' ∷ ks') = (k.revoked_at ≢ none → k' ≡ k) × RevokedKept ks ks'

RevokedKept-refl : (ks : List ApiKey) → RevokedKept ks ks
RevokedKept-refl [] = tt
RevokedKept-refl (k ∷ ks) = ((λ _. refl), RevokedKept-refl ks)

RevokedKept-trans :
    (xs ys zs : List ApiKey) → RevokedKept xs ys → RevokedKept ys zs → RevokedKept xs zs
RevokedKept-trans [] ys zs h k = tt
RevokedKept-trans (x ∷ xs) [] zs h k = absurd h
RevokedKept-trans (x ∷ xs) (y ∷ ys) [] h k = absurd k
RevokedKept-trans (x ∷ xs) (y ∷ ys) (z ∷ zs) h k =
    ((λ r. let e = h.0 r in k.0 (rw e r) ∙ e), RevokedKept-trans xs ys zs h.1 k.1)

RevokedKept-append : (ks : List ApiKey) (k : ApiKey) → RevokedKept ks (ks ++ k ∷ [])
RevokedKept-append [] k = tt
RevokedKept-append (x ∷ xs) k = ((λ _. refl), RevokedKept-append xs k)

IdsFrom-append :
    (n : ℕ) (ks : List ApiKey) (k : ApiKey)
    → IdsFrom n ks
    → k.id ≡ n + length ks
    → IdsFrom n (ks ++ k ∷ [])
IdsFrom-append n [] k h e = (omega arith, tt)
IdsFrom-append n (x ∷ xs) k h e = (h.0, IdsFrom-append (suc n) xs k h.1 (omega arith))

IdsFrom-replace_key :
    (n : ℕ) (ks : List ApiKey) (k : ApiKey) → IdsFrom n ks → IdsFrom n (replace_key k ks)
unfolding replace_key
IdsFrom-replace_key n [] k h = tt
IdsFrom-replace_key n (x ∷ xs) k h = ground (arith, IdsFrom-replace_key (suc n) xs k h.1)

first-id-le :
    (p : ApiKey → Bool) (n : ℕ) (ks : List ApiKey) (k : ApiKey)
    → IdsFrom n ks
    → first p ks ≡ some k
    → n ≤ k.id
first-id-le p n [] k h e = cc
first-id-le p n (x ∷ xs) k h e = ground (arith, first-id-le p (suc n) xs k h.1)

first-cases :
    (p : ApiKey → Bool) (x : ApiKey) (xs : List ApiKey) (k : ApiKey)
    → first p (x ∷ xs) ≡ some k
    → (x ≡ k) ⊎ (first p xs ≡ some k)
first-cases p x xs k e = ground arith

-- The row that a query found and that is not revoked is the one that its id writes to.
RevokedKept-replace_key :
    (p : ApiKey → Bool) (n : ℕ) (ks : List ApiKey) (k new : ApiKey)
    → IdsFrom n ks
    → first p ks ≡ some k
    → k.revoked_at ≡ none
    → new.id ≡ k.id
    → RevokedKept ks (replace_key new ks)
unfolding replace_key
RevokedKept-replace_key p n [] k new h e live i = tt
RevokedKept-replace_key p n (x ∷ xs) k new h e live i = elim (first-cases p x xs k e) [
  | inl here ↦
      let same : (x.id == new.id) ≡ true = ground arith in
      rw same ((λ r. absurd (r (rw here live))), RevokedKept-refl xs)
  | inr there ↦
      let below : suc n ≤ k.id = first-id-le p (suc n) xs k h.1 there in
      let other : (x.id == new.id) ≡ false = ground arith in
      rw other ((λ r. refl), RevokedKept-replace_key p (suc n) xs k new h.1 there live i)
]

-- What every operation on keys does to the table: the ids stay in order, the revoked rows stay.
abbrev pub Keeps : List ApiKey → List ApiKey → Type 0
Keeps old new = IdsFrom 1 new × RevokedKept old new

Keeps-refl : (ks : List ApiKey) → IdsFrom 1 ks → Keeps ks ks
Keeps-refl ks h = (h, RevokedKept-refl ks)

save_key-Keeps :
    (p : ApiKey → Bool) (k new : ApiKey) (a : App)
    → IdsFrom 1 a.db.keys
    → first p a.db.keys ≡ some k
    → k.revoked_at ≡ none
    → new.id ≡ k.id
    → Keeps a.db.keys (save_key new a).1.db.keys
unfolding save_key
save_key-Keeps p k new a h e live i =
    (IdsFrom-replace_key 1 a.db.keys new h, RevokedKept-replace_key p 1 a.db.keys k new h e live i)

save_new_key-Keeps :
    (hash : Text → Text) (draw : Draw) (name : Text) (plan : Plan) (a : App) (taken : Bool)
    → IdsFrom 1 a.db.keys
    → Keeps a.db.keys
        (save_new_key
          (new_key hash (next_id a.db.keys) draw name plan)
          draw.secret
          a
          taken).1.db.keys
unfolding save_new_key new_key
save_new_key-Keeps hash draw name plan a true h = Keeps-refl a.db.keys h
save_new_key-Keeps hash draw name plan a false h =
    (IdsFrom-append 1 a.db.keys _ h (omega arith), RevokedKept-append a.db.keys _)

issue_on-Keeps :
    (hash : Text → Text) (draw : Draw) (name : Text) (a : App) (plan : Result Plan)
    → IdsFrom 1 a.db.keys
    → Keeps a.db.keys (issue_on hash draw name a plan).1.db.keys
unfolding issue_on
issue_on-Keeps hash draw name a (raise e) h = Keeps-refl a.db.keys h
issue_on-Keeps hash draw name a (ok plan) h = save_new_key-Keeps hash draw name plan a _ h

update_live-Keeps :
    (p : ApiKey → Bool) (key_id : Text) (u : KeyUpdate) (k : ApiKey) (a : App) (revoked : Option ℕ)
    → IdsFrom 1 a.db.keys
    → first p a.db.keys ≡ some k
    → k.revoked_at ≡ revoked
    → Keeps a.db.keys (update_live key_id u k a revoked).1.db.keys
unfolding update_live apply_overrides
update_live-Keeps p key_id u k a (some t) h e r = Keeps-refl a.db.keys h
update_live-Keeps p key_id u k a none h e live =
    let kept = Keeps-refl a.db.keys h in
    let saved = save_key-Keeps p k (apply_overrides u k) a h e live refl in
    elim (Bool-cases (no_changes u limit_fields)) [
      | inl empty ↦ rw empty kept
      | inr some_change ↦ elim (Bool-cases (is_null u.name)) [
        | inl nothing ↦ rw (some_change, nothing) kept
        | inr named ↦ rw (some_change, named) saved
      ]
    ]

revoke_live-Keeps :
    (p : ApiKey → Bool) (key_id : Text) (now : ℕ) (k : ApiKey) (a : App) (revoked : Option ℕ)
    → IdsFrom 1 a.db.keys
    → first p a.db.keys ≡ some k
    → k.revoked_at ≡ revoked
    → Keeps a.db.keys (revoke_live key_id now k a revoked).1.db.keys
unfolding revoke_live
revoke_live-Keeps p key_id now k a (some t) h e r = Keeps-refl a.db.keys h
revoke_live-Keeps p key_id now k a none h e live = save_key-Keeps p k _ a h e live refl

update_key_result-Keeps :
    (p : ApiKey → Bool) (key_id : Text) (u : KeyUpdate) (a : App) (found : Option ApiKey)
    → IdsFrom 1 a.db.keys
    → first p a.db.keys ≡ found
    → Keeps a.db.keys (update_key_result key_id u a (found_key key_id found)).1.db.keys
unfolding update_key_result found_key
update_key_result-Keeps p key_id u a none h e = Keeps-refl a.db.keys h
update_key_result-Keeps p key_id u a (some k) h e = update_live-Keeps p key_id u k a _ h e refl

revoke_result-Keeps :
    (p : ApiKey → Bool) (key_id : Text) (now : ℕ) (a : App) (found : Option ApiKey)
    → IdsFrom 1 a.db.keys
    → first p a.db.keys ≡ found
    → Keeps a.db.keys (revoke_result key_id now a (found_key key_id found)).1.db.keys
unfolding revoke_result found_key
revoke_result-Keeps p key_id now a none h e = Keeps-refl a.db.keys h
revoke_result-Keeps p key_id now a (some k) h e = revoke_live-Keeps p key_id now k a _ h e refl

-- The operations on keys, with what the generators and the clock give.
pub data KeyOperation : Type 0 where
  issue : (Text → Text) → Draw → Text → Text → KeyOperation
  override : Text → KeyUpdate → KeyOperation
  revoke : Text → ℕ → KeyOperation

abbrev pub perform_key : KeyOperation → App → App
perform_key (issue hash draw slug name) a = (issue_key hash draw slug name a).1
perform_key (override key_id u) a = (update_key key_id u a).1
perform_key (revoke key_id now) a = (revoke_key key_id now a).1

unfoldable pub perform_keys : List KeyOperation → App → App
perform_keys [] a = a
perform_keys (o ∷ os) a = perform_keys os (perform_key o a)

perform_key-Keeps :
    (o : KeyOperation) (a : App) → IdsFrom 1 a.db.keys → Keeps a.db.keys (perform_key o a).db.keys
unfolding issue_key update_key revoke_key get_key key_by_key_id
perform_key-Keeps (issue hash draw slug name) a h =
    issue_on-Keeps hash draw name a (get_plan a.db slug) h
perform_key-Keeps (override key_id u) a h = update_key_result-Keeps _ key_id u a _ h refl
perform_key-Keeps (revoke key_id now) a h = revoke_result-Keeps _ key_id now a _ h refl

-- Over any sequence of issues, overrides and revocations, failing or not, on a table whose rows have the
-- ids 1, 2, …: the ids stay in order, and each row that was revoked at the start is there, unchanged, at
-- the end. A revoked key never comes back, and no later change touches it.
pub revoked_forever :
    (operations : List KeyOperation) (a : App)
    → IdsFrom 1 a.db.keys
    → IdsFrom 1 (perform_keys operations a).db.keys
      × RevokedKept a.db.keys (perform_keys operations a).db.keys
unfolding perform_keys
revoked_forever [] a h = Keeps-refl a.db.keys h
revoked_forever (o ∷ os) a h =
    let first_step = perform_key-Keeps o a h in
    let (ids, kept) = revoked_forever os (perform_key o a) first_step.0 in
    (ids, RevokedKept-trans a.db.keys (perform_key o a).db.keys _ first_step.1 kept)
