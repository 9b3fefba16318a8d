-- ===== src/Webhooks/Delivery/Exact.antt =====
-- Exactly what a pass makes of every row.
use quotaguard.Prelude.{
  ==_iff, All, All-Among, All-imp, Among, Bool-cases, List, Option, Text, [], ap, arith, false, inl,
  inr, map, none, refl, some, suc, sym, true, ℕ, ◌<◌, ◌==◌, ◌∙◌, ◌∷◌, ◌≡◌, ◌≢◌,
}
use quotaguard.Models.{ApiKey, Plan, WebhookOutbox}
use quotaguard.Database.{Database, key_by_id}
use quotaguard.Plans.{has_url}
use quotaguard.Webhooks.{
  Answer, Outside, after_answer, deliver_for, deliver_one, deliver_rows, deliver_to, post_of,
  request_error, status, uncaught, write_answer,
}
use quotaguard.Webhooks.Delivery.{Ascends, IsCaught, IsOnly, OutboxFrom, deliver_for-IsStep}
use quotaguard.Webhooks.Delivery.Pass.{IsOnly-step}
use quotaguard.Webhooks.Delivery.Settled.{deliver_for-keeps}
use quotaguard.Webhooks.Delivery.Sent.{
  deliver_for-put_row, put_row, sent_row, sent_row-id, sent_row-same,
}

write_answer-caught :
    (o : Outside) (d : WebhookOutbox) (db : Database) (a : Answer)
    → ((name : Text) → a ≢ uncaught name)
    → (write_answer db (after_answer o d a)).2 ≡ false
unfolding write_answer after_answer
write_answer-caught o d db (status code) h = ground arith
write_answer-caught o d db (request_error name) h = refl
write_answer-caught o d db (uncaught name) h = absurd (h name refl)

deliver_to-caught :
    (o : Outside) (d : WebhookOutbox) (db : Database) (plan : Option Plan)
    → IsCaught o
    → (deliver_to o d db plan).2 ≡ false
unfolding deliver_to deliver_one
deliver_to-caught o d db none caught = refl
deliver_to-caught o d db (some plan) caught = elim (Bool-cases (has_url plan.webhook_url)) [
  | inl url ↦
      rw url (write_answer-caught o d db (o.post (post_of o d plan)) (caught (post_of o d plan)))
  | inr no_url ↦ rw no_url refl
]

deliver_for-caught :
    (o : Outside) (d : WebhookOutbox) (db : Database) (key : Option ApiKey)
    → IsCaught o
    → (deliver_for o d db key).2 ≡ false
unfolding deliver_for deliver_to deliver_one
deliver_for-caught o d db none caught = refl
deliver_for-caught o d db (some key) caught = deliver_to-caught o d db _ caught

abbrev pub pass_row : Outside → Database → List WebhookOutbox → WebhookOutbox → WebhookOutbox
pass_row o db [] v = v
pass_row o db (d ∷ due) v = pass_row o db due (put_row (sent_row o db d) v)

pass_row-same :
    (o : Outside) (a b : Database) (due : List WebhookOutbox) (v : WebhookOutbox)
    → b.keys ≡ a.keys
    → b.plans ≡ a.plans
    → pass_row o b due v ≡ pass_row o a due v
pass_row-same o a b [] v k p = refl
pass_row-same o a b (d ∷ due) v k p = rw (sent_row-same o a b d k p) (pass_row-same o a b due _ k p)

map-pass_row :
    (o : Outside) (a b : Database) (due ws : List WebhookOutbox) (new : WebhookOutbox)
    → b.keys ≡ a.keys
    → b.plans ≡ a.plans
    → map (pass_row o b due) (map (put_row new) ws) ≡ map (λ v. pass_row o a due (put_row new v)) ws
map-pass_row o a b due [] new k p = refl
map-pass_row o a b due (w ∷ ws) new k p =
    rw (pass_row-same o a b due (put_row new w) k p, map-pass_row o a b due ws new k p) refl

map_same : (ws : List WebhookOutbox) → map (λ v. v) ws ≡ ws
map_same [] = refl
map_same (w ∷ ws) = rw (map_same ws) refl

apart-== : (a b : ℕ) → a ≢ b → (a == b) ≡ false
apart-== a b h = elim (Bool-cases (a == b)) [
  | inl same ↦ absurd (h ((==_iff a b).0 same))
  | inr other ↦ other
]

put_row-id : (new v : WebhookOutbox) → (put_row new v).id ≡ v.id
put_row-id new v = elim (Bool-cases (v.id == new.id)) [
  | inl same ↦ rw same (sym ((==_iff v.id new.id).0 same))
  | inr other ↦ rw other refl
]

OutboxFrom-put_row :
    (new : WebhookOutbox) (n : ℕ) (ws : List WebhookOutbox)
    → OutboxFrom n ws
    → OutboxFrom n (map (put_row new) ws)
OutboxFrom-put_row new n [] h = tt
OutboxFrom-put_row new n (w ∷ ws) h =
    (put_row-id new w ∙ h.0, OutboxFrom-put_row new (suc n) ws h.1)

pub deliver_rows-pass_row :
    (o : Outside) (due : List WebhookOutbox) (db : Database)
    → IsCaught o
    → OutboxFrom 1 db.outbox
    → Ascends due
    → All (IsOnly db.outbox) due
    → (deliver_rows o due db).1.outbox ≡ map (pass_row o db due) db.outbox
unfolding deliver_rows
deliver_rows-pass_row o [] db caught from up only = sym (map_same db.outbox)
deliver_rows-pass_row o (d ∷ due) db caught from up only =
    let key = key_by_id d.api_key_id db in
    let db1 = (deliver_for o d db key).1 in
    let e : db1.outbox ≡ map (put_row (sent_row o db d)) db.outbox =
      deliver_for-put_row o d db key from only.0 in
    let (k, p, u) = deliver_for-keeps o d db key in
    let step = (deliver_for-IsStep o d db key only.0).0 in
    let from1 : OutboxFrom 1 db1.outbox =
      rw e (OutboxFrom-put_row (sent_row o db d) 1 db.outbox from) in
    let rest =
      deliver_rows-pass_row o due db1 caught from1 up.1
        (IsOnly-step o d due _ _ up.0 step only.1) in
    rw (deliver_for-caught o d db key caught)
      (rest ∙ (rw e (map-pass_row o db db1 due db.outbox (sent_row o db d) k p)))

-- A row that is none of the due ones stays.
pub pass_row-other :
    (o : Outside) (db : Database) (due : List WebhookOutbox) (v : WebhookOutbox)
    → All (λ (d : WebhookOutbox). v.id ≢ d.id) due
    → pass_row o db due v ≡ v
pass_row-other o db [] v h = refl
pass_row-other o db (d ∷ due) v h =
    let other : (v.id == (sent_row o db d).id) ≡ false =
      apart-== v.id (sent_row o db d).id (λ i. h.0 (i ∙ sent_row-id o db d)) in
    rw other (pass_row-other o db due v h.1)

-- One that is due is sent, once.
pub pass_row-sent :
    (o : Outside) (db : Database) (due : List WebhookOutbox) (v : WebhookOutbox)
    → Ascends due
    → Among v due
    → pass_row o db due v ≡ sent_row o db v
pass_row-sent o db [] v up among = absurd among
pass_row-sent o db (d ∷ due) v up (inl here) =
    let i : v.id ≡ (sent_row o db d).id = ap (λ x. x.id) here ∙ sym (sent_row-id o db d) in
    let same : (v.id == (sent_row o db d).id) ≡ true = (==_iff v.id (sent_row o db d).id).1 i in
    let later = All-imp due (λ e lt j. let k = sent_row-id o db d in absurd (omega arith)) up.0 in
    rw same (pass_row-other o db due (sent_row o db d) later ∙ ap (sent_row o db) (sym here))
pass_row-sent o db (d ∷ due) v up (inr among) =
    let lt = All-Among (λ (e : WebhookOutbox). d.id < e.id) due v up.0 among in
    let other : (v.id == (sent_row o db d).id) ≡ false =
      apart-== v.id (sent_row o db d).id
        (λ i. let k = sent_row-id o db d in absurd (omega arith)) in
    rw other (pass_row-sent o db due v up.1 among)
