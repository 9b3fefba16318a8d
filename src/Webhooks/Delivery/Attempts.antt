-- ===== src/Webhooks/Delivery/Attempts.antt =====
-- Deliveries and attempts, over any number of passes.
use quotaguard.Prelude.{
  List, Option-cases, [], arith, inl, inr, none, refl, suc, true, ℕ, ◌<◌, ◌∙◌, ◌∷◌, ◌≡◌, ◌≢◌, ◌≤◌,
}
use quotaguard.Models.{WebhookOutbox}
use quotaguard.Database.{Database}
use quotaguard.KeyCache.{is_some}
use quotaguard.Webhooks.{Outside, deliver_webhooks, delivered, failed, is_due}
use quotaguard.Webhooks.Delivery.{IsSent, OutboxFrom, Rowwise}
use quotaguard.Webhooks.Delivery.Pass.{IsHandled, delivery_handles_due}

-- A delivered row stays as it is, and no row's attempts go down, or up past the limit.
abbrev pub IsSafe : ℕ → WebhookOutbox → WebhookOutbox → Type 0
IsSafe max_attempts v w =
    (w.id ≡ v.id)
    × (v.delivered_at ≢ none → w ≡ v)
    × (v.attempts ≤ w.attempts)
    × (v.attempts ≤ max_attempts → w.attempts ≤ max_attempts)

pub is_due-limits :
    (max_attempts now : ℕ) (v : WebhookOutbox)
    → is_due max_attempts now v ≡ true
    → (v.delivered_at ≡ none) × (v.attempts < max_attempts)
unfolding is_due is_some
is_due-limits m now v h = elim (Option-cases v.delivered_at) [
  | inl fresh ↦ (fresh, ground arith)
  | inr (t, done) ↦ ground arith
]

IsSent-IsSafe :
    (o : Outside) (m : ℕ) (v w : WebhookOutbox)
    → is_due m o.now v ≡ true
    → IsSent o v w
    → IsSafe m v w
unfolding delivered failed
IsSent-IsSafe o m v w due (inl e) =
    let (fresh, left) = is_due-limits m o.now v due in
    rw e (refl, (λ d. absurd (d fresh)), omega arith, λ k. k)
IsSent-IsSafe o m v w due (inr (error, e)) =
    let (fresh, left) = is_due-limits m o.now v due in
    rw e (refl, (λ d. absurd (d fresh)), omega arith, λ k. omega (arith, left))

pub IsHandled-IsSafe :
    (o : Outside) (m : ℕ) (v w : WebhookOutbox) → IsHandled o m v w → IsSafe m v w
IsHandled-IsSafe o m v w (inl e) = rw e (refl, (λ d. refl), omega arith, λ k. k)
IsHandled-IsSafe o m v w (inr (due, sent)) = IsSent-IsSafe o m v w due sent

pub Rowwise-imp :
    {R S : WebhookOutbox → WebhookOutbox → Type 0} (vs ws : List WebhookOutbox)
    → ((v w : WebhookOutbox) → R v w → S v w)
    → Rowwise R vs ws
    → Rowwise S vs ws
Rowwise-imp [] [] f h = tt
Rowwise-imp [] (w ∷ ws) f h = absurd h
Rowwise-imp (v ∷ vs) [] f h = absurd h
Rowwise-imp (v ∷ vs) (w ∷ ws) f h = (f v w h.0, Rowwise-imp vs ws f h.1)

pub Rowwise-OutboxFrom :
    (m n : ℕ) (vs ws : List WebhookOutbox)
    → Rowwise (IsSafe m) vs ws
    → OutboxFrom n vs
    → OutboxFrom n ws
Rowwise-OutboxFrom m n [] [] h from = tt
Rowwise-OutboxFrom m n [] (w ∷ ws) h from = absurd h
Rowwise-OutboxFrom m n (v ∷ vs) [] h from = absurd h
Rowwise-OutboxFrom m n (v ∷ vs) (w ∷ ws) h from =
    (h.0.0 ∙ from.0, Rowwise-OutboxFrom m (suc n) vs ws h.1 from.1)

pub IsSafe-trans : (m : ℕ) (u v w : WebhookOutbox) → IsSafe m u v → IsSafe m v w → IsSafe m u w
IsSafe-trans m u v w (i, keep, up, low) (i', keep', up', low') =
    (i' ∙ i, (λ d. let e = keep d in keep' (rw e d) ∙ e), omega arith, λ k. low' (low k))

Rowwise-trans :
    (m : ℕ) (us vs ws : List WebhookOutbox)
    → Rowwise (IsSafe m) us vs
    → Rowwise (IsSafe m) vs ws
    → Rowwise (IsSafe m) us ws
Rowwise-trans m [] [] [] h k = tt
Rowwise-trans m [] [] (w ∷ ws) h k = absurd k
Rowwise-trans m [] (v ∷ vs) ws h k = absurd h
Rowwise-trans m (u ∷ us) [] ws h k = absurd h
Rowwise-trans m (u ∷ us) (v ∷ vs) [] h k = absurd k
Rowwise-trans m (u ∷ us) (v ∷ vs) (w ∷ ws) h k =
    (IsSafe-trans m u v w h.0 k.0, Rowwise-trans m us vs ws h.1 k.1)

Rowwise-refl : (m : ℕ) (ws : List WebhookOutbox) → Rowwise (IsSafe m) ws ws
Rowwise-refl m [] = tt
Rowwise-refl m (w ∷ ws) = ((refl, (λ d. refl), omega arith, λ k. k), Rowwise-refl m ws)

-- Passes one after the other, each with its own clock and answers.
unfoldable pub passes : ℕ → List Outside → Database → Database
passes m [] db = db
passes m (o ∷ os) db = passes m os (deliver_webhooks o m db).1

-- Over any number of passes on an outbox whose rows have the ids 1, 2, …, whatever the receivers answer:
-- every row stays at its place; one that is delivered stays as it is; and no row's attempts go down, nor
-- past the limit if they were within it.
pub attempts_bounded :
    (max_attempts : ℕ) (os : List Outside) (db : Database)
    → OutboxFrom 1 db.outbox
    → Rowwise (IsSafe max_attempts) db.outbox (passes max_attempts os db).outbox
unfolding passes
attempts_bounded m [] db h = Rowwise-refl m db.outbox
attempts_bounded m (o ∷ os) db h =
    let step = Rowwise-imp _ _ (IsHandled-IsSafe o m) (delivery_handles_due o m db h).1 in
    let db1 = (deliver_webhooks o m db).1 in
    let rest = attempts_bounded m os db1 (Rowwise-OutboxFrom m 1 _ _ step h) in
    Rowwise-trans m db.outbox db1.outbox _ step rest
