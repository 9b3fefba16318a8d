-- ===== src/Webhooks/Delivery/Sent.antt =====
-- The row that a pass makes of a row that it handles, as a function.
use quotaguard.Prelude.{
  ==_iff, Bool, Bool-cases, List, Option, [], arith, false, if◌then◌else◌, inl, inr, map, none,
  refl, some, suc, sym, ℕ, ◌<◌, ◌==◌, ◌∷◌, ◌≡◌,
}
use quotaguard.Models.{ApiKey, Plan, WebhookOutbox}
use quotaguard.Database.{Database, key_by_id, plan_by_id, replace_outbox}
use quotaguard.Plans.{has_url}
use quotaguard.Webhooks.{
  Outside, after_answer, deliver_for, deliver_one, deliver_to, post_of, write_answer,
}
use quotaguard.Webhooks.Delivery.{IsOnly, IsSent-id, IsSentBy, OutboxFrom, after_answer-IsSentBy}

abbrev pub answered : WebhookOutbox → Option (Bool × WebhookOutbox) → WebhookOutbox
answered v none = v
answered v (some (sent, w)) = w

abbrev pub row_to : Outside → WebhookOutbox → Option Plan → WebhookOutbox
row_to o v none = v
row_to o v (some plan) = if has_url plan.webhook_url then answered v (deliver_one o v plan) else v

abbrev pub row_for : Outside → Database → WebhookOutbox → Option ApiKey → WebhookOutbox
row_for o db v none = v
row_for o db v (some key) = row_to o v (plan_by_id key.plan_id db)

-- What becomes of a row that is handled.
abbrev pub sent_row : Outside → Database → WebhookOutbox → WebhookOutbox
sent_row o db v = row_for o db v (key_by_id v.api_key_id db)

-- A row takes the place of the one with its id.
abbrev pub put_row : WebhookOutbox → WebhookOutbox → WebhookOutbox
put_row new v = if v.id == new.id then new else v

put_row-above :
    (new : WebhookOutbox) (n : ℕ) (ws : List WebhookOutbox)
    → new.id < n
    → OutboxFrom n ws
    → map (put_row new) ws ≡ ws
put_row-above new n [] h from = refl
put_row-above new n (w ∷ ws) h from =
    let other : (w.id == new.id) ≡ false = ground (arith, from.0) in
    rw (other, put_row-above new (suc n) ws (omega arith) from.1) refl

replace_outbox-put_row :
    (new : WebhookOutbox) (n : ℕ) (ws : List WebhookOutbox)
    → OutboxFrom n ws
    → replace_outbox new ws ≡ map (put_row new) ws
unfolding replace_outbox
replace_outbox-put_row new n [] from = refl
replace_outbox-put_row new n (w ∷ ws) from = elim (Bool-cases (w.id == new.id)) [
  | inl same ↦
      let i : w.id ≡ new.id = (==_iff w.id new.id).0 same in
      rw (same, put_row-above new (suc n) ws (omega (arith, i, from.0)) from.1) refl
  | inr other ↦ rw (other, replace_outbox-put_row new (suc n) ws from.1) refl
]

-- A row in its own place changes nothing.
put_row_self : (d : WebhookOutbox) (ws : List WebhookOutbox) → IsOnly ws d → map (put_row d) ws ≡ ws
put_row_self d [] only = refl
put_row_self d (w ∷ ws) only = elim (Bool-cases (w.id == d.id)) [
  | inl same ↦
      let e : w ≡ d = only.0 ((==_iff w.id d.id).0 same) in
      rw (same, put_row_self d ws only.1, e) refl
  | inr other ↦ rw (other, put_row_self d ws only.1) refl
]

write_answer-put_row :
    (d : WebhookOutbox) (db : Database) (a : Option (Bool × WebhookOutbox))
    → OutboxFrom 1 db.outbox
    → IsOnly db.outbox d
    → (write_answer db a).1.outbox ≡ map (put_row (answered d a)) db.outbox
unfolding write_answer
write_answer-put_row d db none from only = sym (put_row_self d db.outbox only)
write_answer-put_row d db (some (b, w)) from only = replace_outbox-put_row w 1 db.outbox from

deliver_to-put_row :
    (o : Outside) (d : WebhookOutbox) (db : Database) (plan : Option Plan)
    → OutboxFrom 1 db.outbox
    → IsOnly db.outbox d
    → (deliver_to o d db plan).1.outbox ≡ map (put_row (row_to o d plan)) db.outbox
unfolding deliver_to
deliver_to-put_row o d db none from only = sym (put_row_self d db.outbox only)
deliver_to-put_row o d db (some plan) from only = elim (Bool-cases (has_url plan.webhook_url)) [
  | inl url ↦ rw url (write_answer-put_row d db (deliver_one o d plan) from only)
  | inr no_url ↦ rw no_url (sym (put_row_self d db.outbox only))
]

pub deliver_for-put_row :
    (o : Outside) (d : WebhookOutbox) (db : Database) (key : Option ApiKey)
    → OutboxFrom 1 db.outbox
    → IsOnly db.outbox d
    → (deliver_for o d db key).1.outbox ≡ map (put_row (row_for o db d key)) db.outbox
unfolding deliver_for
deliver_for-put_row o d db none from only = sym (put_row_self d db.outbox only)
deliver_for-put_row o d db (some key) from only =
    deliver_to-put_row o d db (plan_by_id key.plan_id db) from only

answered-id :
    (o : Outside) (v : WebhookOutbox) (a : Option (Bool × WebhookOutbox))
    → IsSentBy o v a
    → (answered v a).id ≡ v.id
answered-id o v none sent = refl
answered-id o v (some (b, w)) sent = IsSent-id o v w sent

row_to-id : (o : Outside) (v : WebhookOutbox) (plan : Option Plan) → (row_to o v plan).id ≡ v.id
unfolding deliver_one
row_to-id o v none = refl
row_to-id o v (some plan) = elim (Bool-cases (has_url plan.webhook_url)) [
  | inl url ↦
      let a = o.post (post_of o v plan) in
      rw url (answered-id o v (after_answer o v a) (after_answer-IsSentBy o v a))
  | inr no_url ↦ rw no_url refl
]

row_for-id :
    (o : Outside) (db : Database) (v : WebhookOutbox) (key : Option ApiKey)
    → (row_for o db v key).id ≡ v.id
row_for-id o db v none = refl
row_for-id o db v (some key) = row_to-id o v (plan_by_id key.plan_id db)

pub sent_row-id : (o : Outside) (db : Database) (v : WebhookOutbox) → (sent_row o db v).id ≡ v.id
sent_row-id o db v = row_for-id o db v (key_by_id v.api_key_id db)

row_for-same :
    (o : Outside) (a b : Database) (v : WebhookOutbox) (key : Option ApiKey)
    → b.plans ≡ a.plans
    → row_for o b v key ≡ row_for o a v key
unfolding plan_by_id
row_for-same o a b v none p = refl
row_for-same o a b v (some key) p = rw p refl

-- It hangs on the keys and the plans alone.
pub sent_row-same :
    (o : Outside) (a b : Database) (v : WebhookOutbox)
    → b.keys ≡ a.keys
    → b.plans ≡ a.plans
    → sent_row o b v ≡ sent_row o a v
unfolding key_by_id plan_by_id
sent_row-same o a b v k p = rw k (row_for-same o a b v _ p)
