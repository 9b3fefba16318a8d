-- ===== src/Webhooks/Delivery/Settled.antt =====
-- Enough passes settle every row.
use quotaguard.Webhooks.Delivery.{
  Ascends, IsCaught, IsOnly, IsSentBy, OutboxFrom, Rowwise, after_answer-IsSentBy,
  deliver_for-IsStep,
}
use quotaguard.Webhooks.{
  Answer, Outside, after_answer, batch_size, deliver_for, deliver_one, deliver_rows, deliver_to,
  deliver_webhooks, delivered, failed, is_due, post_of, request_error, status, uncaught,
  write_answer,
}
use quotaguard.Prelude.{
  All, All-Among, All-select, Among, Bool, Bool-cases, List, Option, Option-cases, Text, [], arith,
  false, inl, inr, leb, length, ltb, none, refl, select, select-passes, some, suc, take, take-All,
  true, ℕ, ◌&&◌, ◌*◌, ◌<◌, ◌∙◌, ◌∷◌, ◌≡◌, ◌≢◌, ◌≤◌,
}
use quotaguard.Prelude.{
  All, All-Among, All-select, Among, Bool, Bool-cases, List, Option, Option-cases, Text, [], arith,
  false, inl, inr, leb, length, ltb, none, refl, select, select-passes, some, suc, take, take-All,
  true, ℕ, ◌&&◌, ◌*◌, ◌<◌, ◌∙◌, ◌∷◌, ◌≡◌, ◌≢◌, ◌≤◌,
}
use quotaguard.Models.{ApiKey, Plan, WebhookOutbox}
use quotaguard.Database.{Database, key_by_id, plan_by_id}
use quotaguard.Plans.{has_url}
use quotaguard.KeyCache.{is_some}
use quotaguard.Webhooks.{
  Answer, Outside, after_answer, batch_size, deliver_for, deliver_one, deliver_rows, deliver_to,
  deliver_webhooks, delivered, failed, is_due, post_of, request_error, status, uncaught,
  write_answer,
}
use quotaguard.Webhooks.Delivery.{
  Ascends, IsCaught, IsOnly, IsSentBy, OutboxFrom, Rowwise, after_answer-IsSentBy,
  deliver_for-IsStep,
}
use quotaguard.Webhooks.Delivery.Attempts.{
  IsHandled-IsSafe, Rowwise-OutboxFrom, Rowwise-imp, passes,
}
use quotaguard.Webhooks.Delivery.Pass.{
  IsHandled, IsOnly-step, OutboxFrom-Ascends, OutboxFrom-IsOnly, Rowwise-IsHandled,
  deliver_rows-IsAfter, delivery_handles_due, select-Ascends, take-Ascends,
}
use quotaguard.Webhooks.Delivery.Work.{
  IsSettled, Rowwise-work, replace_outbox-work, select_cases, work, work-IsSettled, work-length,
}

-- The key of a row is there, with a plan that has a URL.
abbrev pub HasUrl : Database → WebhookOutbox → Type 0
HasUrl db w =
    (key : ApiKey) × (plan : Plan) × (key_by_id w.api_key_id db ≡ some key)
    × (plan_by_id key.plan_id db ≡ some plan)
    × (has_url plan.webhook_url ≡ true)

-- The row has waited long enough, if it is neither delivered nor without attempts left.
abbrev pub IsInTime : Outside → ℕ → WebhookOutbox → Type 0
IsInTime o max_attempts w =
    w.delivered_at ≡ none → w.attempts < max_attempts → w.next_attempt_at ≤ o.now

-- Each pass comes when the rows with attempts left have waited long enough.
abbrev pub InTime : ℕ → List Outside → Database → Type 0
InTime max_attempts [] db = Unit
InTime max_attempts (o ∷ os) db =
    All (IsInTime o max_attempts) db.outbox
    × InTime max_attempts os (deliver_webhooks o max_attempts db).1

not_due-remaining :
    (o : Outside) (m : ℕ) (ws : List WebhookOutbox)
    → All (IsInTime o m) ws
    → All (λ (w : WebhookOutbox). is_due m o.now w ≡ false) ws
    → work m ws ≤ 0
unfolding is_due is_some
not_due-remaining o m [] time idle = omega arith
not_due-remaining o m (w ∷ ws) time idle =
    let rest = not_due-remaining o m ws time.1 idle.1 in
    elim (Option-cases w.delivered_at) [
      | inl fresh ↦
          let late = time.0 fresh in
          let k = rw fresh at idle.0 in rw fresh (ground (arith, rest, late, k))
      | inr (t, done) ↦ rw done (omega (arith, rest))
    ]

Handled-work :
    (o : Outside) (m : ℕ) (vs ws : List WebhookOutbox)
    → Rowwise (IsHandled o m) vs ws
    → work m ws ≤ work m vs
Handled-work o m vs ws h = Rowwise-work m vs ws (Rowwise-imp vs ws (IsHandled-IsSafe o m) h)

-- The first row of a pass uses up an attempt or is delivered.
write_answer-work :
    (o : Outside) (m : ℕ) (d : WebhookOutbox) (db : Database) (a : Option (Bool × WebhookOutbox))
    → a ≢ none
    → is_due m o.now d ≡ true
    → IsSentBy o d a
    → IsOnly db.outbox d
    → Among d db.outbox
    → work m (write_answer db a).1.outbox < work m db.outbox
unfolding write_answer
write_answer-work o m d db none some_answer due sent only among = absurd (some_answer refl)
write_answer-work o m d db (some (b, w)) some_answer due sent only among =
    replace_outbox-work o m d w db.outbox due sent only among

after_answer-caught :
    (o : Outside) (row : WebhookOutbox) (a : Answer)
    → ((name : Text) → a ≢ uncaught name)
    → after_answer o row a ≢ none
unfolding after_answer
after_answer-caught o row (status code) h e = elim (Bool-cases (leb 200 code && ltb code 300)) [
  | inl good ↦ let k = rw good at e in cc
  | inr bad ↦ let k = rw bad at e in cc
]
after_answer-caught o row (request_error name) h e = cc
after_answer-caught o row (uncaught name) h e = h name refl

first-work :
    (o : Outside) (m : ℕ) (d : WebhookOutbox) (db : Database)
    → IsCaught o
    → is_due m o.now d ≡ true
    → HasUrl db d
    → IsOnly db.outbox d
    → Among d db.outbox
    → work m (deliver_for o d db (key_by_id d.api_key_id db)).1.outbox < work m db.outbox
unfolding deliver_for deliver_to deliver_one
first-work o m d db caught due (key, plan, k, p, url) only among =
    let a = o.post (post_of o d plan) in
    rw (k, p, url)
      (write_answer-work o m d db (after_answer o d a)
        (after_answer-caught o d a (caught (post_of o d plan))) due (after_answer-IsSentBy o d a)
        only among)

deliver_rows-work :
    (o : Outside) (m : ℕ) (d : WebhookOutbox) (due : List WebhookOutbox) (db : Database)
    → IsCaught o
    → All (λ (e : WebhookOutbox). is_due m o.now e ≡ true) (d ∷ due)
    → Ascends (d ∷ due)
    → All (IsOnly db.outbox) (d ∷ due)
    → HasUrl db d
    → Among d db.outbox
    → work m (deliver_rows o (d ∷ due) db).1.outbox < work m db.outbox
unfolding deliver_rows
deliver_rows-work o m d due db caught fit up only url among =
    let (step, one) = deliver_for-IsStep o d db (key_by_id d.api_key_id db) only.0 in
    let db1 = (deliver_for o d db (key_by_id d.api_key_id db)).1 in
    let (rest, count) =
      deliver_rows-IsAfter o due db1 up.1 (IsOnly-step o d due _ _ up.0 step only.1) in
    let later = Handled-work o m _ _ (Rowwise-IsHandled o m due _ _ fit.1 rest) in
    let less = first-work o m d db caught fit.0 url only.0 among in
    elim (Bool-cases ((deliver_for o d db (key_by_id d.api_key_id db)).2)) [
      | inl raised ↦ rw raised less
      | inr on ↦ rw on (omega (arith, later, less))
    ]

-- A pass that comes in time takes at least one of the attempts that are left, if any is.
pass-work :
    (o : Outside) (m n : ℕ) (db : Database)
    → IsCaught o
    → OutboxFrom 1 db.outbox
    → All (HasUrl db) db.outbox
    → All (IsInTime o m) db.outbox
    → work m db.outbox ≤ suc n
    → work m (deliver_webhooks o m db).1.outbox ≤ n
unfolding deliver_webhooks
pass-work o m n db caught from urls time low =
    let p = is_due m o.now in
    elim (select_cases p db.outbox) [
      | inl idle ↦
          let same = Handled-work o m _ _ (delivery_handles_due o m db from).1 in
          omega (arith, same, not_due-remaining o m db.outbox time idle)
      | inr (d, rest, e, among) ↦
          let up =
            take-Ascends batch_size _ (select-Ascends p db.outbox (OutboxFrom-Ascends 1 _ from)) in
          let only : All (IsOnly db.outbox) (take batch_size (select p db.outbox)) =
            take-All (IsOnly db.outbox) batch_size _
              (All-select (IsOnly db.outbox) p db.outbox (OutboxFrom-IsOnly 1 _ from)) in
          let fit =
            take-All (λ (d : WebhookOutbox). p d ≡ true) batch_size _ (select-passes p db.outbox) in
          let less =
            deliver_rows-work o m d (take 49 rest) db caught (rw e at fit) (rw e at up)
              (rw e at only) (All-Among (HasUrl db) db.outbox d urls among) among in
          rw e (omega (arith, less, low))
    ]

write_answer-keeps :
    (db : Database) (a : Option (Bool × WebhookOutbox))
    → ((write_answer db a).1.keys ≡ db.keys)
      × ((write_answer db a).1.plans ≡ db.plans)
      × ((write_answer db a).1.rollups ≡ db.rollups)
unfolding write_answer
write_answer-keeps db none = (refl, refl, refl)
write_answer-keeps db (some (b, w)) = (refl, refl, refl)

deliver_to-keeps :
    (o : Outside) (d : WebhookOutbox) (db : Database) (plan : Option Plan)
    → ((deliver_to o d db plan).1.keys ≡ db.keys)
      × ((deliver_to o d db plan).1.plans ≡ db.plans)
      × ((deliver_to o d db plan).1.rollups ≡ db.rollups)
unfolding deliver_to
deliver_to-keeps o d db none = (refl, refl, refl)
deliver_to-keeps o d db (some plan) = elim (Bool-cases (has_url plan.webhook_url)) [
  | inl url ↦ rw url (write_answer-keeps db _)
  | inr no_url ↦ rw no_url (refl, refl, refl)
]

pub deliver_for-keeps :
    (o : Outside) (d : WebhookOutbox) (db : Database) (key : Option ApiKey)
    → ((deliver_for o d db key).1.keys ≡ db.keys)
      × ((deliver_for o d db key).1.plans ≡ db.plans)
      × ((deliver_for o d db key).1.rollups ≡ db.rollups)
unfolding deliver_for
deliver_for-keeps o d db none = (refl, refl, refl)
deliver_for-keeps o d db (some key) = deliver_to-keeps o d db (plan_by_id key.plan_id db)

deliver_rows-keeps :
    (o : Outside) (due : List WebhookOutbox) (db : Database)
    → ((deliver_rows o due db).1.keys ≡ db.keys)
      × ((deliver_rows o due db).1.plans ≡ db.plans)
      × ((deliver_rows o due db).1.rollups ≡ db.rollups)
unfolding deliver_rows
deliver_rows-keeps o [] db = (refl, refl, refl)
deliver_rows-keeps o (d ∷ due) db =
    let (k, p, u) = deliver_for-keeps o d db (key_by_id d.api_key_id db) in
    let (k', p', u') = deliver_rows-keeps o due _ in
    elim (Bool-cases ((deliver_for o d db (key_by_id d.api_key_id db)).2)) [
      | inl raised ↦ rw raised (k, p, u)
      | inr on ↦ rw on (k' ∙ k, p' ∙ p, u' ∙ u)
    ]

pub deliver_webhooks-keeps :
    (o : Outside) (m : ℕ) (db : Database)
    → ((deliver_webhooks o m db).1.keys ≡ db.keys)
      × ((deliver_webhooks o m db).1.plans ≡ db.plans)
      × ((deliver_webhooks o m db).1.rollups ≡ db.rollups)
unfolding deliver_webhooks
deliver_webhooks-keeps o m db = deliver_rows-keeps o _ db

HasUrl-same :
    (db db' : Database) (v w : WebhookOutbox)
    → db'.keys ≡ db.keys
    → db'.plans ≡ db.plans
    → w.api_key_id ≡ v.api_key_id
    → HasUrl db v
    → HasUrl db' w
unfolding key_by_id plan_by_id
HasUrl-same db db' v w k p i (key, plan, h, h', url) = (key, plan, rw (k, i) h, rw p h', url)

IsHandled-key :
    (o : Outside) (m : ℕ) (v w : WebhookOutbox) → IsHandled o m v w → w.api_key_id ≡ v.api_key_id
unfolding delivered failed
IsHandled-key o m v w (inl e) = rw e refl
IsHandled-key o m v w (inr (due, inl e)) = rw e refl
IsHandled-key o m v w (inr (due, inr (error, e))) = rw e refl

Rowwise-HasUrl :
    (o : Outside) (m : ℕ) (db db' : Database) (vs ws : List WebhookOutbox)
    → db'.keys ≡ db.keys
    → db'.plans ≡ db.plans
    → Rowwise (IsHandled o m) vs ws
    → All (HasUrl db) vs
    → All (HasUrl db') ws
Rowwise-HasUrl o m db db' [] [] k p h urls = tt
Rowwise-HasUrl o m db db' [] (w ∷ ws) k p h urls = absurd h
Rowwise-HasUrl o m db db' (v ∷ vs) [] k p h urls = absurd h
Rowwise-HasUrl o m db db' (v ∷ vs) (w ∷ ws) k p h urls = (
  HasUrl-same db db' v w k p (IsHandled-key o m v w h.0) urls.0,
  Rowwise-HasUrl o m db db' vs ws k p h.1 urls.1,
)

passes-work :
    (m : ℕ) (os : List Outside) (db : Database)
    → OutboxFrom 1 db.outbox
    → All (HasUrl db) db.outbox
    → InTime m os db
    → All IsCaught os
    → work m db.outbox ≤ length os
    → work m (passes m os db).outbox ≤ 0
unfolding passes
passes-work m [] db from urls time caught low = low
passes-work m (o ∷ os) db from urls time caught low =
    let handled = (delivery_handles_due o m db from).1 in
    let step = Rowwise-imp _ _ (IsHandled-IsSafe o m) handled in
    let db1 = (deliver_webhooks o m db).1 in
    let (k, p, u) = deliver_webhooks-keeps o m db in
    passes-work m os db1 (Rowwise-OutboxFrom m 1 _ _ step from)
      (Rowwise-HasUrl o m db db1 _ _ k p handled urls) time.1 caught.1
      (pass-work o m (length os) db caught.0 from urls time.0 low)

-- On an outbox whose rows have the ids 1, 2, … and a key whose plan has a URL, passes that come when the
-- undelivered rows with attempts left have waited long enough, and none of whose POSTs ends with an
-- exception other than a `RequestError`, settle every row, whatever the receivers answer, if there are at
-- least as many passes as there are rows times the limit on the attempts: at the end each row is delivered
-- or has used up its attempts.
pub passes-Settle :
    (max_attempts : ℕ) (os : List Outside) (db : Database)
    → OutboxFrom 1 db.outbox
    → All (HasUrl db) db.outbox
    → InTime max_attempts os db
    → All IsCaught os
    → length db.outbox * max_attempts ≤ length os
    → All (IsSettled max_attempts) (passes max_attempts os db).outbox
passes-Settle m os db from urls time caught enough =
    let low = work-length m db.outbox in
    work-IsSettled m _ (passes-work m os db from urls time caught (omega (arith, low, enough)))
