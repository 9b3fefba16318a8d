-- ===== src/Webhooks/Once.antt =====
-- An enqueue beside the rows that a key and a month have already.
use quotaguard.Prelude.{
  Bool, Bool-cases, List, Option, Text, [], arith, first, if◌then◌else◌, inl, inr, length, none,
  refl, select, some, text_eq, text_eq_self, text_eq_sound, true, ℕ, ℤ, ◌&&◌, ◌++◌, ◌+◌, ◌==◌, ◌∷◌,
  ◌≡◌, ◌≤◌,
}
use quotaguard.Models.{ApiKey, WebhookOutbox}
use quotaguard.Database.{Database, key_by_key_id, outbox_for}
use quotaguard.KeyCache.{ResolvedKey}
use quotaguard.Webhooks.{
  Payload, enqueue, enqueue_for, enqueue_soft_warning, insert_outbox, outbox_row,
}

abbrev pub is_for : ℕ → Text → WebhookOutbox → Bool
is_for key month w = w.api_key_id == key && text_eq w.month month

-- The rows of a key and a month
abbrev pub warnings : ℕ → Text → Database → ℕ
warnings key month db = length (select (is_for key month) db.outbox)

-- A call of `enqueue_soft_warning`, with what SQLite and the clock give.
pub record Warn : Type 0 where
  pub broken : Bool
  pub key : ResolvedKey
  pub month : Text
  pub used : ℤ
  pub now : ℕ

first-select :
    (p : WebhookOutbox → Bool) (ws : List WebhookOutbox)
    → first p ws ≡ none
    → length (select p ws) ≡ 0
first-select p [] h = refl
first-select p (w ∷ ws) h = ground (arith, first-select p ws)

select-append :
    (p : WebhookOutbox → Bool) (ws : List WebhookOutbox) (w : WebhookOutbox)
    → length (select p (ws ++ w ∷ [])) ≡ length (select p ws) + (if p w then 1 else 0)
select-append p [] w = ground arith
select-append p (x ∷ ws) w = ground (arith, select-append p ws w)

is_for_same :
    (key key' : ℕ) (month month' : Text) (w : WebhookOutbox)
    → is_for key month w ≡ true
    → is_for key' month' w ≡ true
    → (key ≡ key') × (month ≡ month')
is_for_same key key' month month' w h h' =
    ground (arith, text_eq_sound w.month month, text_eq_sound w.month month')

insert_outbox-once :
    (id key : ℕ) (month payload : Text) (now : ℕ) (db : Database) (old : Option WebhookOutbox)
    → outbox_for key month db ≡ old
    → (key' : ℕ) (month' : Text) → warnings key' month' db ≤ 1
    → warnings key' month' (insert_outbox (outbox_row id key month payload now) db old).1 ≤ 1
unfolding outbox_for insert_outbox outbox_row
insert_outbox-once id key month payload now db (some w) e key' month' h = h
insert_outbox-once id key month payload now db none e key' month' h =
    let row = outbox_row id key month payload now in
    let grown = select-append (is_for key' month') db.outbox row in
    elim (Bool-cases (is_for key' month' row)) [
      | inl same ↦
          let self : is_for key month row ≡ true = ground (arith, text_eq_self month) in
          let (k, m) = is_for_same key' key month' month row same self in
          let before = first-select (is_for key month) db.outbox e in
          let before' : length (select (is_for key' month') db.outbox) ≡ 0 = rw (k, m) before in
          ground arith
      | inr other ↦ ground arith
    ]

pub enqueue-once :
    (api_key_id : ℕ) (month payload : Text) (now : ℕ) (db : Database)
    → (key' : ℕ) (month' : Text) → warnings key' month' db ≤ 1
    → warnings key' month' (enqueue api_key_id month payload now db).1 ≤ 1
unfolding enqueue
enqueue-once id month payload now db key' month' h =
    insert_outbox-once _ id month payload now db _ refl key' month' h

enqueue_for-once :
    (to_json : Payload → Text) (w : Warn) (db : Database) (row : Option ApiKey)
    → (key : ℕ) (month : Text) → warnings key month db ≤ 1
    → warnings key month (enqueue_for to_json w.key w.month w.used w.now db row).1 ≤ 1
unfolding enqueue_for
enqueue_for-once to_json w db none key month h = h
enqueue_for-once to_json w db (some row) key month h =
    enqueue-once row.id w.month _ w.now db key month h

pub enqueue_soft_warning-once :
    (to_json : Payload → Text) (w : Warn) (db : Database) (key : ℕ) (month : Text)
    → warnings key month db ≤ 1
    → warnings key month (enqueue_soft_warning to_json w.broken w.key w.month w.used w.now db).1 ≤ 1
unfolding enqueue_soft_warning
enqueue_soft_warning-once to_json w db key month h = elim (Bool-cases w.broken) [
  | inl b ↦ rw b h
  | inr b ↦ rw b (enqueue_for-once to_json w db (key_by_key_id w.key.key_id db) key month h)
]
