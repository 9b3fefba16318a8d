-- ===== src/Rollup/Stored.antt =====
-- What the loop over the scanned counters leaves: each counter of a known key in its row.
use quotaguard.Prelude.{
  All, All-imp, Bool, List, Option, Text, [], ap, arith, false, none, refl, some, sym, true, ℕ, ◌+◌,
  ◌∙◌, ◌∷◌, ◌≡◌, ◌≤◌,
}
use quotaguard.Models.{ApiKey}
use quotaguard.Database.{Database, key_by_key_id, rollup_for}
use quotaguard.Errors.{Result, ok, raise}
use quotaguard.Errors.Laws.{bind-ok}
use quotaguard.Pool.{Scanned}
use quotaguard.Rollup.{
  parse_quota_key, raise_rollup, upsert_found, upsert_key, upsert_parsed, upsert_rollup, upsert_row,
}
use quotaguard.Rollup.Job.{upsert_scanned, upsert_then}
use quotaguard.Rollup.Upsert.{RowsFrom, used_of}
use quotaguard.Rollup.Monotone.{Raises, Raises-refl, Raises-trans, upsert_rollup-Raises}

-- A scanned counter in the row of its key and month, for a key that is in the table.
abbrev pub KeptFor : Text → ℕ → Database → Option ApiKey → Type 0
KeptFor month used db' none = Unit
KeptFor month used db' (some key) = used ≤ used_of (rollup_for key.id month db')

abbrev pub Stored : ℕ → Database → Database → Option (Text × Text) → Type 0
Stored used db db' none = Unit
Stored used db db' (some (key_id, month)) = KeptFor month used db' (key_by_key_id key_id db)

KeptFor-Raises :
    (month : Text) (used : ℕ) (a b : Database) (key : Option ApiKey)
    → Raises a b
    → KeptFor month used a key
    → KeptFor month used b key
KeptFor-Raises month used a b none h k = tt
KeptFor-Raises month used a b (some key) h k = let more = h.1 key.id month in omega arith

Stored-Raises :
    (used : ℕ) (db a b : Database) (parsed : Option (Text × Text))
    → Raises a b
    → Stored used db a parsed
    → Stored used db b parsed
Stored-Raises used db a b none h k = tt
Stored-Raises used db a b (some (key_id, month)) h k =
    KeptFor-Raises month used a b (key_by_key_id key_id db) h k

Stored-keys :
    (used : ℕ) (db a b : Database) (parsed : Option (Text × Text))
    → db.keys ≡ a.keys
    → Stored used a b parsed
    → Stored used db b parsed
unfolding key_by_key_id
Stored-keys used db a b none e k = tt
Stored-keys used db a b (some (key_id, month)) e k = rw e k

-- One upsert that goes well.
abbrev pub Upserted : Database → Database → Type 0
Upserted db db' = Raises db db' × (db'.keys ≡ db.keys) × (db'.outbox ≡ db.outbox)

upsert_rollup-keys_outbox :
    (key : ℕ) (month : Text) (used quota_limit : ℕ) (db : Database)
    → let db' = upsert_rollup key month used quota_limit db in
      (db'.keys ≡ db.keys) × (db'.outbox ≡ db.outbox)
unfolding upsert_rollup upsert_found raise_rollup
upsert_rollup-keys_outbox key month used quota_limit db = (ground arith, ground arith)

upsert_rollup-Upserted :
    (key : ApiKey) (month : Text) (used quota_limit : ℕ) (db db' : Database)
    → RowsFrom 1 db.rollups
    → db' ≡ upsert_rollup key.id month used quota_limit db
    → Upserted db db' × (used ≤ used_of (rollup_for key.id month db'))
upsert_rollup-Upserted key month used quota_limit db db' h e =
    let (raised, there) = upsert_rollup-Raises key.id month used quota_limit db h in
    let (keys, outbox) = upsert_rollup-keys_outbox key.id month used quota_limit db in
    rw e ((raised, keys, outbox), there)

upsert_row-Upserted :
    (month : Text) (used n : ℕ) (db db' : Database) (key : Option ApiKey)
    → RowsFrom 1 db.rollups
    → upsert_row month used db key ≡ ok (n, db')
    → Upserted db db' × KeptFor month used db' key
unfolding upsert_row upsert_key
upsert_row-Upserted month used n db db' none h e =
    let same : db ≡ db' = cc in rw (← same) ((Raises-refl db h, refl, refl), tt)
upsert_row-Upserted month used n db db' (some key) h e =
    let (mid, chained, whole) = bind-ok _ (λ d. (1, d)) (n, db') e in
    let (quota_limit, limit, made) =
      bind-ok _ (λ q. upsert_rollup key.id month used q db) mid chained in
    let last : db' ≡ mid = ap (λ x. x.1) whole in
    upsert_rollup-Upserted key month used quota_limit db db' h (last ∙ made)

upsert_parsed-Upserted :
    (broken : Bool) (used n : ℕ) (db db' : Database) (parsed : Option (Text × Text))
    → RowsFrom 1 db.rollups
    → upsert_parsed broken used db parsed ≡ ok (n, db')
    → Upserted db db' × Stored used db db' parsed
unfolding upsert_parsed
upsert_parsed-Upserted broken used n db db' none h e =
    let same : db ≡ db' = cc in rw (← same) ((Raises-refl db h, refl, refl), tt)
upsert_parsed-Upserted true used n db db' (some (key_id, month)) h e = cc
upsert_parsed-Upserted false used n db db' (some (key_id, month)) h e =
    upsert_row-Upserted month used n db db' (key_by_key_id key_id db) h e

-- All the scanned counters, if the loop came to its end.
abbrev pub AllStored : Database → Database → List Scanned → Result (Unit {0}) → Type 0
AllStored db db' found (raise e) = Unit
AllStored db db' found (ok t) = All (λ (x : Scanned). Stored x.1 db db' (parse_quota_key x.0)) found

AllStored-cons :
    (key : Text) (used : ℕ) (db mid db' : Database) (rest : List Scanned) (r : Result (Unit {0}))
    → Upserted db mid
    → Raises mid db'
    → Stored used db mid (parse_quota_key key)
    → AllStored mid db' rest r
    → AllStored db db' ((key, used) ∷ rest) r
AllStored-cons key used db mid db' rest (raise e) up more here there = tt
AllStored-cons key used db mid db' rest (ok t) up more here there = (
  Stored-Raises used db mid db' (parse_quota_key key) more here,
  All-imp rest (λ x. Stored-keys x.1 db mid db' (parse_quota_key x.0) (sym up.1)) there,
)

upsert_then-AllStored :
    (broken_at : Text → Bool) (key : Text) (used : ℕ) (rest : List Scanned) (count : ℕ)
    → (db : Database) (r : Result (ℕ × Database)) → RowsFrom 1 db.rollups
    → upsert_parsed (broken_at key) used db (parse_quota_key key) ≡ r
    → ((n : ℕ) (mid : Database)
        → RowsFrom 1 mid.rollups
        → let (_, end, db') = upsert_scanned broken_at rest n mid in
          Upserted mid db' × AllStored mid db' rest end)
    → let (_, end, db') = upsert_then (upsert_scanned broken_at rest) count db r in
      Upserted db db' × AllStored db db' ((key, used) ∷ rest) end
unfolding upsert_then
upsert_then-AllStored broken_at key used rest count db (raise e) h q later =
    ((Raises-refl db h, refl, refl), tt)
upsert_then-AllStored broken_at key used rest count db (ok (n, mid)) h q later =
    let ((raised, same, still), here) =
      upsert_parsed-Upserted (broken_at key) used n db mid (parse_quota_key key) h q in
    let ((more, kept, left), there) = later (count + n) mid raised.0 in
    (
      (Raises-trans db mid _ raised more, kept ∙ same, left ∙ still),
      AllStored-cons key used db mid _ rest _ (raised, same, still) more here there,
    )

-- The loop over the scanned counters, whether it comes to its end or not.
pub upsert_scanned-AllStored :
    (broken_at : Text → Bool) (found : List Scanned) (count : ℕ) (db : Database)
    → RowsFrom 1 db.rollups
    → let (_, end, db') = upsert_scanned broken_at found count db in
      Upserted db db' × AllStored db db' found end
unfolding upsert_scanned
upsert_scanned-AllStored broken_at [] count db h = ((Raises-refl db h, refl, refl), tt)
upsert_scanned-AllStored broken_at ((key, used) ∷ rest) count db h =
    upsert_then-AllStored broken_at key used rest count db _ h refl
      (λ n mid. upsert_scanned-AllStored broken_at rest n mid)
