-- ===== src/Webhooks/Delivery/Handled.antt =====
-- The whole of a pass, row by row, beside an independent description.
use quotaguard.Prelude.{
  ==_iff, All, All-Among, All-imp, All-select, Among, Among-self, Bool-cases, List, Option,
  Option-cases, Text, [], arith, codes, decimal, inl, inr, leb, ltb, map, none, refl, select, some,
  take, take-All, true, ℕ, ◌&&◌, ◌++◌, ◌+◌, ◌<◌, ◌==◌, ◌↔◌, ◌∷◌, ◌≡◌, ◌≢◌, ◌≤◌, ◌⊎◌,
}
use quotaguard.Models.{ApiKey, Plan, WebhookOutbox}
use quotaguard.Database.{Database, key_by_id, plan_by_id}
use quotaguard.Plans.{has_url}
use quotaguard.KeyCache.{is_some}
use quotaguard.Webhooks.{
  Answer, Outside, after_answer, compute_next_attempt, deliver_one, deliver_webhooks, delivered,
  failed, is_due, post_of, request_error, status, uncaught,
}
use quotaguard.Webhooks.Delivery.{Ascends, IsCaught, IsOnly, OutboxFrom, Rowwise}
use quotaguard.Webhooks.Delivery.Pass.{
  OutboxFrom-Ascends, OutboxFrom-IsOnly, delivery_handles_due, select-Ascends, take-Ascends,
}
use quotaguard.Webhooks.Delivery.Settled.{HasUrl}
use quotaguard.Webhooks.Delivery.Sent.{answered, row_for, row_to, sent_row}
use quotaguard.Webhooks.Delivery.Exact.{
  deliver_rows-pass_row, pass_row, pass_row-other, pass_row-sent,
}

-- Not delivered, past its waiting time, and with an attempt left.
abbrev pub IsWaiting : ℕ → ℕ → WebhookOutbox → Type 0
IsWaiting max_attempts now w =
    (w.delivered_at ≡ none) × (w.next_attempt_at ≤ now) × (w.attempts < max_attempts)

is_due_iff :
    (max_attempts now : ℕ) (w : WebhookOutbox)
    → (is_due max_attempts now w ≡ true) ↔ IsWaiting max_attempts now w
unfolding is_due is_some
is_due_iff m now w = elim (Option-cases w.delivered_at) [
  | inl fresh ↦
      rw fresh ((λ h. (refl, ground arith, ground arith)), λ (e, late, left). ground arith)
  | inr (t, done) ↦ rw done ((λ h. cc), λ (e, late, left). cc)
]

-- The row after its POST: delivered on a status from 200 to 299, and on any other, or on a `RequestError`,
-- with one more attempt, the error, and the time of the next.
abbrev FailedAs : Outside → WebhookOutbox → Text → WebhookOutbox → Type 0
FailedAs o v error w = w ≡ record v {
  attempts = v.attempts + 1;
  last_error = some error;
  next_attempt_at = compute_next_attempt o.jittered o.now (v.attempts + 1);
}

abbrev pub IsAnswered : Outside → WebhookOutbox → Answer → WebhookOutbox → Type 0
IsAnswered o v (status code) w =
    (200 ≤ code → code ≤ 299 → w ≡ record v { delivered_at = some o.now; last_error = none })
    × ((code < 200) ⊎ (299 < code) → FailedAs o v (codes "HTTP " ++ decimal code) w)
IsAnswered o v (request_error name) w = FailedAs o v name w
IsAnswered o v (uncaught name) w = w ≡ v

-- A row among the due ones becomes what the answer to its POST makes of it, if its key has a plan with a
-- URL; every other row stays.
abbrev pub IsPassed :
    Outside → Database → List WebhookOutbox → WebhookOutbox → WebhookOutbox → Type 0
IsPassed o db due v w =
    ((key : ApiKey) (plan : Plan)
      → Among v due
      → key_by_id v.api_key_id db ≡ some key
      → plan_by_id key.plan_id db ≡ some plan
      → has_url plan.webhook_url ≡ true
      → IsAnswered o v (o.post (post_of o v plan)) w)
    × ((Among v due → ⊥) → w ≡ v)
    × ((HasUrl db v → ⊥) → w ≡ v)

after_answer-IsAnswered :
    (o : Outside) (v : WebhookOutbox) (a : Answer)
    → IsAnswered o v a (answered v (after_answer o v a))
unfolding after_answer delivered failed
after_answer-IsAnswered o v (uncaught name) = refl
after_answer-IsAnswered o v (request_error name) = refl
after_answer-IsAnswered o v (status code) = elim (Bool-cases (leb 200 code && ltb code 300)) [
  | inl good ↦ rw good ((λ low high. refl), λ out. absurd (ground arith))
  | inr bad ↦ rw bad ((λ low high. absurd (ground arith)), λ out. refl)
]

sent_row-IsAnswered :
    (o : Outside) (db : Database) (v : WebhookOutbox) (key : ApiKey) (plan : Plan)
    → key_by_id v.api_key_id db ≡ some key
    → plan_by_id key.plan_id db ≡ some plan
    → has_url plan.webhook_url ≡ true
    → IsAnswered o v (o.post (post_of o v plan)) (sent_row o db v)
unfolding deliver_one
sent_row-IsAnswered o db v key plan k p url =
    rw (k, p, url) (after_answer-IsAnswered o v (o.post (post_of o v plan)))

row_to-idle :
    (o : Outside) (v : WebhookOutbox) (plan : Option Plan)
    → ((p : Plan) → plan ≡ some p → has_url p.webhook_url ≡ true → ⊥)
    → row_to o v plan ≡ v
row_to-idle o v none h = refl
row_to-idle o v (some plan) h = elim (Bool-cases (has_url plan.webhook_url)) [
  | inl url ↦ absurd (h plan refl url)
  | inr no_url ↦ rw no_url refl
]

row_for-idle :
    (o : Outside) (db : Database) (v : WebhookOutbox) (key : Option ApiKey)
    → ((k : ApiKey) (p : Plan)
        → key ≡ some k
        → plan_by_id k.plan_id db ≡ some p
        → has_url p.webhook_url ≡ true
        → ⊥)
    → row_for o db v key ≡ v
row_for-idle o db v none h = refl
row_for-idle o db v (some key) h = row_to-idle o v _ (λ p. h key p refl)

sent_row-idle :
    (o : Outside) (db : Database) (v : WebhookOutbox) → (HasUrl db v → ⊥) → sent_row o db v ≡ v
sent_row-idle o db v h = row_for-idle o db v _ (λ k p ek ep url. h (k, p, ek, ep, url))

-- Whether a row is among the due ones, by what the pass makes of it.
pass_row-IsPassed :
    (o : Outside) (db : Database) (due : List WebhookOutbox) (v : WebhookOutbox)
    → Ascends due
    → (Among v due ⊎ All (λ (d : WebhookOutbox). v.id ≢ d.id) due)
    → IsPassed o db due v (pass_row o db due v)
pass_row-IsPassed o db due v up (inl among) = rw (pass_row-sent o db due v up among) (
  (λ key plan m. sent_row-IsAnswered o db v key plan),
  (λ h. absurd (h among)),
  sent_row-idle o db v,
)
pass_row-IsPassed o db due v up (inr apart) = rw (pass_row-other o db due v apart) (
  (λ key plan m. absurd (All-Among (λ (d : WebhookOutbox). v.id ≢ d.id) due v apart m refl)),
  (λ h. refl),
  λ h. refl,
)

-- A row of the table is among the due ones, or has another id than each.
Among-or-apart :
    (vs due : List WebhookOutbox) (v : WebhookOutbox)
    → Among v vs
    → All (IsOnly vs) due
    → Among v due ⊎ All (λ (d : WebhookOutbox). v.id ≢ d.id) due
Among-or-apart vs [] v there only = inr tt
Among-or-apart vs (d ∷ due) v there only = elim (Bool-cases (v.id == d.id)) [
  | inl same ↦ inl (
      inl (
        All-Among (λ (w : WebhookOutbox). w.id ≡ d.id → w ≡ d) vs v only.0 there
          ((==_iff v.id d.id).0 same)))
  | inr other ↦ elim (Among-or-apart vs due v there only.1) [
    | inl later ↦ inl (inr later)
    | inr apart ↦ inr ((λ i. let yes_same = (==_iff v.id d.id).1 i in cc), apart)
  ]
]

Rowwise-map :
    (R : WebhookOutbox → WebhookOutbox → Type 0) (f : WebhookOutbox → WebhookOutbox)
    → (vs : List WebhookOutbox) → All (λ (v : WebhookOutbox). R v (f v)) vs
    → Rowwise R vs (map f vs)
Rowwise-map R f [] h = tt
Rowwise-map R f (v ∷ vs) h = (h.0, Rowwise-map R f vs h.1)

deliver_webhooks-pass_row :
    (o : Outside) (m : ℕ) (db : Database)
    → OutboxFrom 1 db.outbox
    → IsCaught o
    → let due = take 50 (select (is_due m o.now) db.outbox) in
      Ascends due
      → All (IsOnly db.outbox) due
      → (deliver_webhooks o m db).1.outbox ≡ map (pass_row o db due) db.outbox
unfolding deliver_webhooks
deliver_webhooks-pass_row o m db from caught up only =
    deliver_rows-pass_row o _ db caught from up only

-- A pass on an outbox whose rows have the ids 1, 2, …, none of whose POSTs ends with an exception other
-- than a `RequestError`: it handles at most 50 rows; a row is due exactly if it is not delivered, its
-- waiting time is over and it has an attempt left; each of the first 50 due rows whose key has a plan with
-- a URL is then what the answer to its POST makes of it, delivered on a status from 200 to 299 and with
-- one more attempt, the error and the time of the next on any other answer; and every other row stays.
pub delivers_due :
    (o : Outside) (max_attempts : ℕ) (db : Database)
    → OutboxFrom 1 db.outbox
    → IsCaught o
    → ((deliver_webhooks o max_attempts db).0 ≤ 50)
      × ((w : WebhookOutbox)
          → (is_due max_attempts o.now w ≡ true) ↔ IsWaiting max_attempts o.now w)
      × Rowwise
          (IsPassed o db (take 50 (select (is_due max_attempts o.now) db.outbox)))
          db.outbox
          (deliver_webhooks o max_attempts db).1.outbox
delivers_due o m db from caught =
    let p = is_due m o.now in
    let due = take 50 (select p db.outbox) in
    let up = take-Ascends 50 _ (select-Ascends p db.outbox (OutboxFrom-Ascends 1 _ from)) in
    let only : All (IsOnly db.outbox) due =
      take-All (IsOnly db.outbox) 50 _
        (All-select (IsOnly db.outbox) p db.outbox (OutboxFrom-IsOnly 1 _ from)) in
    let rows =
      All-imp db.outbox
        (λ v there. pass_row-IsPassed o db due v up (Among-or-apart db.outbox due v there only))
        (Among-self db.outbox) in
    (
      (delivery_handles_due o m db from).0,
      is_due_iff m o.now,
      rw (deliver_webhooks-pass_row o m db from caught up only)
          (Rowwise-map (IsPassed o db due) (pass_row o db due) db.outbox rows),
    )
