-- ===== src/Keys.antt =====
-- app/services/keys.py: issue, look up, override and revoke. The random secret and key id are inputs,
-- and so is the hash function.
pub mod Keeps
pub mod Revocation
mod Tests
use quotaguard.Prelude.{
  Bool, List, Option, Text, [], any, codes, false, if◌then◌else◌, leb, ltb, none, select, some,
  take, text_eq, true, ℕ, ◌&&◌, ◌++◌, ◌==◌, ◌||◌, ◌∷◌,
}
use quotaguard.Models.{ApiKey, LimitField, Plan, limit_fields}
use quotaguard.Errors.{Result, app, conflict, not_found, ok, raise, sqlalchemy_error, validation}
use quotaguard.Database.{Database, key_by_key_id, next_id, replace_key}
use quotaguard.KeyCache.{invalidate}
use quotaguard.Plans.{App, Change, changed, get_plan, is_null, null, unset, value}

abbrev pub display_prefix_length : ℕ
display_prefix_length = 12

-- `KeyUpdateRequest`, of app/schemas/keys.py, once it is validated
pub record KeyUpdate : Type 0 where
  pub name : Change Text
  pub override_of : LimitField → Change ℕ

unfoldable pub found_key : Text → Option ApiKey → Result ApiKey
found_key key_id none =
    raise (app (not_found (codes "No key with id '" ++ key_id ++ codes "' exists.")))
found_key key_id (some key) = ok key

unfoldable pub get_key : Database → Text → Result ApiKey
get_key db key_id = found_key key_id (key_by_key_id key_id db)

-- What the random generators and the clock give to an issue.
pub record Draw : Type 0 where
  pub secret : Text
  pub key_id : Text
  pub now : ℕ

unfoldable pub new_key : (Text → Text) → ℕ → Draw → Text → Plan → ApiKey
new_key hash_secret id draw name plan = record {
  id = id;
  key_id = draw.key_id;
  key_hash = hash_secret draw.secret;
  key_prefix = take display_prefix_length draw.secret;
  name = name;
  plan_id = plan.id;
  override_of = λ f. none;
  revoked_at = none;
  created_at = draw.now;
}

-- A key id or a hash that is there already fails the commit, which the service does not catch.
unfoldable pub save_new_key : ApiKey → Text → App → Bool → Result (ApiKey × Text) × App
save_new_key key secret a true = (raise sqlalchemy_error, a)
save_new_key key secret a false = (
  ok (key, secret),
  record { db = record a.db { keys = a.db.keys ++ key ∷ [] }; cache = invalidate a.cache },
)

unfoldable pub is_taken : ApiKey → Database → Bool
is_taken key db =
    any (λ (k : ApiKey). text_eq k.key_id key.key_id || text_eq k.key_hash key.key_hash) db.keys

unfoldable pub issue_on :
    (Text → Text) → Draw → Text → App → Result Plan → Result (ApiKey × Text) × App
issue_on hash_secret draw name a (raise e) = (raise e, a)
issue_on hash_secret draw name a (ok plan) =
    let key = new_key hash_secret (next_id a.db.keys) draw name plan in
    save_new_key key draw.secret a (is_taken key a.db)

unfoldable pub issue_key : (Text → Text) → Draw → Text → Text → App → Result (ApiKey × Text) × App
issue_key hash_secret draw plan_slug name a =
    issue_on hash_secret draw name a (get_plan a.db plan_slug)

-- `list_keys`, in the order of creation, and then of the ids
unfoldable pub created_before : ApiKey → ApiKey → Bool
created_before j k = ltb j.created_at k.created_at || j.created_at == k.created_at && leb j.id k.id

unfoldable pub insert_by_age : ApiKey → List ApiKey → List ApiKey
insert_by_age k [] = k ∷ []
insert_by_age k (j ∷ js) = if created_before k j then k ∷ j ∷ js else j ∷ insert_by_age k js

unfoldable pub sort_by_age : List ApiKey → List ApiKey
sort_by_age [] = []
sort_by_age (k ∷ ks) = insert_by_age k (sort_by_age ks)

unfoldable pub keys_of_plan : List ApiKey → Result Plan → Result (List ApiKey)
keys_of_plan keys (raise e) = raise e
keys_of_plan keys (ok plan) = ok (sort_by_age (select (λ (k : ApiKey). k.plan_id == plan.id) keys))

unfoldable pub list_keys : Database → Option Text → Result (List ApiKey)
list_keys db none = ok (sort_by_age db.keys)
list_keys db (some slug) = keys_of_plan db.keys (get_plan db slug)

-- `changes` is empty: no field is set.
unfoldable pub no_changes : KeyUpdate → List LimitField → Bool
no_changes u [] = elim u.name [ unset ↦ true | _ ↦ false ]
no_changes u (f ∷ fs) = elim (u.override_of f) [ unset ↦ no_changes u fs | _ ↦ false ]

abbrev pub changed_override : Change ℕ → Option ℕ → Option ℕ
changed_override unset old = old
changed_override null old = none
changed_override (value n) old = some n

unfoldable pub apply_overrides : KeyUpdate → ApiKey → ApiKey
apply_overrides u k = record k {
  name = changed u.name k.name;
  override_of = λ f. changed_override (u.override_of f) (k.override_of f);
}

unfoldable pub save_key : ApiKey → App → Result ApiKey × App
save_key k a = (
  ok k,
  record { db = record a.db { keys = replace_key k a.db.keys }; cache = invalidate a.cache },
)

unfoldable pub update_live : Text → KeyUpdate → ApiKey → App → Option ℕ → Result ApiKey × App
update_live key_id u k a (some t) = (
  raise (
      app
        (conflict (codes "Key '" ++ key_id ++ codes "' is revoked and can no longer be changed."))),
  a,
)
update_live key_id u k a none =
    if no_changes u limit_fields
    then (raise (app (validation (codes "Provide at least one field to set or clear."))), a)
    else if is_null u.name
    then (raise (app (validation (codes "name cannot be set to null."))), a)
    else save_key (apply_overrides u k) a

unfoldable pub update_key_result : Text → KeyUpdate → App → Result ApiKey → Result ApiKey × App
update_key_result key_id u a (raise e) = (raise e, a)
update_key_result key_id u a (ok k) = update_live key_id u k a k.revoked_at

unfoldable pub update_key : Text → KeyUpdate → App → Result ApiKey × App
update_key key_id u a = update_key_result key_id u a (get_key a.db key_id)

unfoldable pub revoke_live : Text → ℕ → ApiKey → App → Option ℕ → Result ApiKey × App
revoke_live key_id now k a (some t) =
    (raise (app (conflict (codes "Key '" ++ key_id ++ codes "' is already revoked."))), a)
revoke_live key_id now k a none = save_key (record k { revoked_at = some now }) a

unfoldable pub revoke_result : Text → ℕ → App → Result ApiKey → Result ApiKey × App
revoke_result key_id now a (raise e) = (raise e, a)
revoke_result key_id now a (ok k) = revoke_live key_id now k a k.revoked_at

unfoldable pub revoke_key : Text → ℕ → App → Result ApiKey × App
revoke_key key_id now a = revoke_result key_id now a (get_key a.db key_id)
