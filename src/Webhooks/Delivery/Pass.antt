-- ===== src/Webhooks/Delivery/Pass.antt =====
-- A whole pass of the delivery: the due rows, each once.
use quotaguard.Prelude.{
  All, All-both, All-imp, All-select, Bool, Bool-cases, List, [], ap, arith, inl, inr, length,
  length-take-le, refl, select, select-passes, suc, take, take-All, true, zero, ℕ, ◌<◌, ◌∙◌, ◌∷◌,
  ◌≡◌, ◌≤◌, ◌⊎◌,
}
use quotaguard.Models.{WebhookOutbox}
use quotaguard.Database.{Database, key_by_id}
use quotaguard.Webhooks.{Outside, batch_size, deliver_for, deliver_rows, deliver_webhooks, is_due}
use quotaguard.Webhooks.Delivery.{
  Ascends, IsAfter, IsOnly, IsSent, IsStep, IsStep-IsAfter, IsStep-IsOnly, OutboxFrom, Rowwise,
  deliver_for-IsStep,
}

IsAfter-same : (o : Outside) (due : List WebhookOutbox) (v : WebhookOutbox) → IsAfter o due v v
IsAfter-same o [] v = refl
IsAfter-same o (d ∷ due) v = inr (IsAfter-same o due v)

Rowwise-same : (o : Outside) (due vs : List WebhookOutbox) → Rowwise (IsAfter o due) vs vs
Rowwise-same o due [] = tt
Rowwise-same o due (v ∷ vs) = (IsAfter-same o due v, Rowwise-same o due vs)

pub IsOnly-step :
    (o : Outside) (d : WebhookOutbox) (due vs ws : List WebhookOutbox)
    → All (λ (e : WebhookOutbox). d.id < e.id) due
    → Rowwise (IsStep o d) vs ws
    → All (IsOnly vs) due
    → All (IsOnly ws) due
IsOnly-step o d [] vs ws later steps only = tt
IsOnly-step o d (e ∷ due) vs ws later steps only =
    (IsStep-IsOnly o d e vs ws later.0 steps only.0, IsOnly-step o d due vs ws later.1 steps only.1)

pub deliver_rows-IsAfter :
    (o : Outside) (due : List WebhookOutbox) (db : Database)
    → Ascends due
    → All (IsOnly db.outbox) due
    → Rowwise (IsAfter o due) db.outbox (deliver_rows o due db).1.outbox
      × (deliver_rows o due db).0 ≤ length due
unfolding deliver_rows
deliver_rows-IsAfter o [] db up only = (Rowwise-same o [] db.outbox, omega arith)
deliver_rows-IsAfter o (d ∷ due) db up only =
    let (step, one) = deliver_for-IsStep o d db (key_by_id d.api_key_id db) only.0 in
    let db1 = (deliver_for o d db (key_by_id d.api_key_id db)).1 in
    let (rest, count) =
      deliver_rows-IsAfter o due db1 up.1 (IsOnly-step o d due _ _ up.0 step only.1) in
    elim (Bool-cases ((deliver_for o d db (key_by_id d.api_key_id db)).2)) [
      | inl raised ↦ rw raised (
        IsStep-IsAfter o d due db.outbox db1.outbox db1.outbox up.0 step
            (Rowwise-same o due db1.outbox),
        omega (arith, one),
      )
      | inr on ↦
          rw on (
            IsStep-IsAfter o d due db.outbox db1.outbox _ up.0 step rest,
            omega (arith, one, count),
          )
    ]

OutboxFrom-le :
    (n m : ℕ) (ws : List WebhookOutbox)
    → m ≤ n
    → OutboxFrom n ws
    → All (λ (w : WebhookOutbox). m ≤ w.id) ws
OutboxFrom-le n m [] low h = tt
OutboxFrom-le n m (w ∷ ws) low h = (omega arith, OutboxFrom-le (suc n) m ws (omega arith) h.1)

pub OutboxFrom-Ascends : (n : ℕ) (ws : List WebhookOutbox) → OutboxFrom n ws → Ascends ws
OutboxFrom-Ascends n [] h = tt
OutboxFrom-Ascends n (w ∷ ws) h = (
  All-imp ws (λ x le. omega arith) (OutboxFrom-le (suc n) (suc n) ws (omega arith) h.1),
  OutboxFrom-Ascends (suc n) ws h.1,
)

pub OutboxFrom-IsOnly : (n : ℕ) (ws : List WebhookOutbox) → OutboxFrom n ws → All (IsOnly ws) ws
OutboxFrom-IsOnly n [] h = tt
OutboxFrom-IsOnly n (w ∷ ws) h =
    let later = OutboxFrom-le (suc n) (suc n) ws (omega arith) h.1 in
    (
      ((λ i. refl), All-imp ws (λ x le i. absurd (omega arith)) later),
      All-imp ws (λ x (le, only). ((λ i. absurd (omega arith)), only))
          (All-both _ _ ws later (OutboxFrom-IsOnly (suc n) ws h.1)),
    )

pub select-Ascends :
    (p : WebhookOutbox → Bool) (ws : List WebhookOutbox) → Ascends ws → Ascends (select p ws)
select-Ascends p [] h = tt
select-Ascends p (w ∷ ws) h =
    ground
      (arith, select-Ascends p ws h.1, All-select (λ (x : WebhookOutbox). w.id < x.id) p ws h.0)

pub take-Ascends : (n : ℕ) (ws : List WebhookOutbox) → Ascends ws → Ascends (take n ws)
take-Ascends zero ws h = tt
take-Ascends (suc n) [] h = tt
take-Ascends (suc n) (w ∷ ws) h =
    (take-All (λ (x : WebhookOutbox). w.id < x.id) n ws h.0, take-Ascends n ws h.1)

-- Each row is as it was, or was due and is sent.
abbrev pub IsHandled : Outside → ℕ → WebhookOutbox → WebhookOutbox → Type 0
IsHandled o max_attempts v w = (w ≡ v) ⊎ ((is_due max_attempts o.now v ≡ true) × IsSent o v w)

IsAfter-IsHandled :
    (o : Outside) (max_attempts : ℕ) (due : List WebhookOutbox) (v w : WebhookOutbox)
    → All (λ (d : WebhookOutbox). is_due max_attempts o.now d ≡ true) due
    → IsAfter o due v w
    → IsHandled o max_attempts v w
IsAfter-IsHandled o m [] v w h after = inl after
IsAfter-IsHandled o m (d ∷ due) v w h (inl (is_d, sent)) =
    inr (ap (is_due m o.now) is_d ∙ h.0, sent)
IsAfter-IsHandled o m (d ∷ due) v w h (inr after) = IsAfter-IsHandled o m due v w h.1 after

pub Rowwise-IsHandled :
    (o : Outside) (max_attempts : ℕ) (due vs ws : List WebhookOutbox)
    → All (λ (d : WebhookOutbox). is_due max_attempts o.now d ≡ true) due
    → Rowwise (IsAfter o due) vs ws
    → Rowwise (IsHandled o max_attempts) vs ws
Rowwise-IsHandled o m due [] [] h k = tt
Rowwise-IsHandled o m due [] (w ∷ ws) h k = absurd k
Rowwise-IsHandled o m due (v ∷ vs) [] h k = absurd k
Rowwise-IsHandled o m due (v ∷ vs) (w ∷ ws) h k =
    (IsAfter-IsHandled o m due v w h k.0, Rowwise-IsHandled o m due vs ws h k.1)

-- A pass over an outbox whose rows have the ids 1, 2, … handles at most 50 rows, and each row stays at
-- its place, either as it was, or, if it was due, delivered, or with one more attempt.
pub delivery_handles_due :
    (o : Outside) (max_attempts : ℕ) (db : Database)
    → OutboxFrom 1 db.outbox
    → ((deliver_webhooks o max_attempts db).0 ≤ 50)
      × Rowwise (IsHandled o max_attempts) db.outbox (deliver_webhooks o max_attempts db).1.outbox
unfolding deliver_webhooks
delivery_handles_due o m db h =
    let p = is_due m o.now in
    let due = take batch_size (select p db.outbox) in
    let up = take-Ascends batch_size _ (select-Ascends p db.outbox (OutboxFrom-Ascends 1 _ h)) in
    let only : All (IsOnly db.outbox) due =
      take-All (IsOnly db.outbox) batch_size _
        (All-select (IsOnly db.outbox) p db.outbox (OutboxFrom-IsOnly 1 _ h)) in
    let passes =
      take-All (λ (d : WebhookOutbox). p d ≡ true) batch_size _ (select-passes p db.outbox) in
    let (rows, count) = deliver_rows-IsAfter o due db up only in
    (
      omega (arith, count, length-take-le batch_size (select p db.outbox)),
      Rowwise-IsHandled o m due db.outbox _ passes rows,
    )
