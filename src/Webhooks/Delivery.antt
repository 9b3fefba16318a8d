-- ===== src/Webhooks/Delivery.antt =====
-- What the passes of the delivery do to each row.
pub mod Pass
pub mod Attempts
pub mod Work
pub mod Settled
pub mod Sent
pub mod Exact
pub mod Handled
use quotaguard.Prelude.{
  ==_iff, All, Bool, Bool-cases, List, Option, Text, [], ap, arith, codes, decimal, inl, inr, leb,
  ltb, none, refl, some, suc, sym, ℕ, ◌&&◌, ◌++◌, ◌<◌, ◌==◌, ◌∙◌, ◌∷◌, ◌≡◌, ◌≢◌, ◌≤◌, ◌⊎◌,
}
use quotaguard.Models.{ApiKey, Plan, WebhookOutbox}
use quotaguard.Database.{Database, replace_outbox}
use quotaguard.Plans.{has_url}
use quotaguard.Webhooks.{
  Answer, Outside, Post, after_answer, deliver_for, deliver_one, deliver_to, delivered, failed,
  post_of, request_error, status, uncaught, write_answer,
}

-- The ids of the rows go up by 1 from `n` on.
abbrev pub OutboxFrom : ℕ → List WebhookOutbox → Type 0
OutboxFrom n [] = Unit
OutboxFrom n (w ∷ ws) = (w.id ≡ n) × OutboxFrom (suc n) ws

-- A relation between the rows of two tables, place by place.
abbrev pub Rowwise :
    (WebhookOutbox → WebhookOutbox → Type 0) → List WebhookOutbox → List WebhookOutbox → Type 0
Rowwise R [] [] = Unit
Rowwise R [] (w ∷ ws) = ⊥
Rowwise R (v ∷ vs) [] = ⊥
Rowwise R (v ∷ vs) (w ∷ ws) = R v w × Rowwise R vs ws

-- A row after its POST: delivered, or failed with one more attempt and a later next one.
abbrev pub IsSent : Outside → WebhookOutbox → WebhookOutbox → Type 0
IsSent o v w = (w ≡ delivered o v) ⊎ ((error : Text) × (w ≡ failed o v error))

-- A row after a pass that handles the rows `due`.
abbrev pub IsAfter : Outside → List WebhookOutbox → WebhookOutbox → WebhookOutbox → Type 0
IsAfter o [] v w = w ≡ v
IsAfter o (d ∷ due) v w = ((v ≡ d) × IsSent o v w) ⊎ IsAfter o due v w

-- A row is its id's only one.
abbrev pub IsOnly : List WebhookOutbox → WebhookOutbox → Type 0
IsOnly ws d = All (λ (w : WebhookOutbox). w.id ≡ d.id → w ≡ d) ws

abbrev pub Ascends : List WebhookOutbox → Type 0
Ascends [] = Unit
Ascends (d ∷ due) = All (λ (w : WebhookOutbox). d.id < w.id) due × Ascends due

-- One step of the pass: the row `d`, if it is in the table, is sent or stays.
abbrev pub IsStep : Outside → WebhookOutbox → WebhookOutbox → WebhookOutbox → Type 0
IsStep o d v w = (w ≡ v) ⊎ ((v ≡ d) × IsSent o v w)

-- No POST ends with an exception that `deliver_one` does not catch.
abbrev pub IsCaught : Outside → Type 0
IsCaught o = (p : Post) (name : Text) → o.post p ≢ uncaught name

-- What an answer makes of a row, if it is written.
abbrev pub IsSentBy : Outside → WebhookOutbox → Option (Bool × WebhookOutbox) → Type 0
IsSentBy o v none = Unit
IsSentBy o v (some (sent, w)) = IsSent o v w

pub after_answer-IsSentBy :
    (o : Outside) (row : WebhookOutbox) (a : Answer) → IsSentBy o row (after_answer o row a)
unfolding after_answer
after_answer-IsSentBy o row (uncaught name) = tt
after_answer-IsSentBy o row (request_error name) = inr (name, refl)
after_answer-IsSentBy o row (status code) = elim (Bool-cases (leb 200 code && ltb code 300)) [
  | inl good ↦ rw good (inl refl)
  | inr bad ↦ rw bad (inr (codes "HTTP " ++ decimal code, refl))
]

Rowwise-refl :
    (o : Outside) (d : WebhookOutbox) (ws : List WebhookOutbox) → Rowwise (IsStep o d) ws ws
Rowwise-refl o d [] = tt
Rowwise-refl o d (w ∷ ws) = (inl refl, Rowwise-refl o d ws)

pub IsSent-id : (o : Outside) (v w : WebhookOutbox) → IsSent o v w → w.id ≡ v.id
unfolding delivered failed
IsSent-id o v w (inl e) = rw e refl
IsSent-id o v w (inr (error, e)) = rw e refl

replace_outbox-IsStep :
    (o : Outside) (d new : WebhookOutbox) (ws : List WebhookOutbox)
    → IsSent o d new
    → IsOnly ws d
    → Rowwise (IsStep o d) ws (replace_outbox new ws)
unfolding replace_outbox
replace_outbox-IsStep o d new [] sent only = tt
replace_outbox-IsStep o d new (w ∷ ws) sent only = elim (Bool-cases (w.id == new.id)) [
  | inl same ↦
      let e : w ≡ d = only.0 ((==_iff w.id new.id).0 same ∙ IsSent-id o d new sent) in
      rw same (inr (e, rw e sent), Rowwise-refl o d ws)
  | inr other ↦ rw other (inl refl, replace_outbox-IsStep o d new ws sent only.1)
]

write_answer-IsStep :
    (o : Outside) (d : WebhookOutbox) (db : Database) (a : Option (Bool × WebhookOutbox))
    → IsSentBy o d a
    → IsOnly db.outbox d
    → Rowwise (IsStep o d) db.outbox (write_answer db a).1.outbox × (write_answer db a).0 ≤ 1
unfolding write_answer
write_answer-IsStep o d db none sent only = (Rowwise-refl o d db.outbox, omega arith)
write_answer-IsStep o d db (some (b, w)) sent only =
    (replace_outbox-IsStep o d w db.outbox sent only, omega arith)

deliver_to-IsStep :
    (o : Outside) (d : WebhookOutbox) (db : Database) (plan : Option Plan)
    → IsOnly db.outbox d
    → Rowwise (IsStep o d) db.outbox (deliver_to o d db plan).1.outbox
      × (deliver_to o d db plan).0 ≤ 1
unfolding deliver_to deliver_one
deliver_to-IsStep o d db none only = (Rowwise-refl o d db.outbox, omega arith)
deliver_to-IsStep o d db (some plan) only = elim (Bool-cases (has_url plan.webhook_url)) [
  | inl url ↦
      rw url
        (write_answer-IsStep o d db _ (after_answer-IsSentBy o d (o.post (post_of o d plan))) only)
  | inr no_url ↦ rw no_url (Rowwise-refl o d db.outbox, omega arith)
]

pub deliver_for-IsStep :
    (o : Outside) (d : WebhookOutbox) (db : Database) (key : Option ApiKey)
    → IsOnly db.outbox d
    → Rowwise (IsStep o d) db.outbox (deliver_for o d db key).1.outbox
      × (deliver_for o d db key).0 ≤ 1
unfolding deliver_for
deliver_for-IsStep o d db none only = (Rowwise-refl o d db.outbox, omega arith)
deliver_for-IsStep o d db (some key) only = deliver_to-IsStep o d db _ only

-- A step on one row leaves the only row of another id.
pub IsStep-IsOnly :
    (o : Outside) (d e : WebhookOutbox) (vs ws : List WebhookOutbox)
    → d.id < e.id
    → Rowwise (IsStep o d) vs ws
    → IsOnly vs e
    → IsOnly ws e
IsStep-IsOnly o d e [] [] lt steps only = tt
IsStep-IsOnly o d e [] (w ∷ ws) lt steps only = absurd steps
IsStep-IsOnly o d e (v ∷ vs) [] lt steps only = absurd steps
IsStep-IsOnly o d e (v ∷ vs) (w ∷ ws) lt steps only = (
  elim steps.0 [
    | inl same ↦ (λ i. same ∙ only.0 (sym (ap (λ x. x.id) same) ∙ i))
    | inr (is_d, sent) ↦ (λ i.
        let a = IsSent-id o v w sent in
        let b : v.id ≡ d.id = ap (λ x. x.id) is_d in absurd (omega arith))
  ],
  IsStep-IsOnly o d e vs ws lt steps.1 only.1,
)

-- A row that has been handled is not one of the later ones.
IsAfter-done :
    (o : Outside) (due : List WebhookOutbox) (n : ℕ) (v w : WebhookOutbox)
    → All (λ (e : WebhookOutbox). n < e.id) due
    → v.id ≡ n
    → IsAfter o due v w
    → w ≡ v
IsAfter-done o [] n v w later i after = after
IsAfter-done o (e ∷ due) n v w later i (inl (is_e, sent)) =
    let b : v.id ≡ e.id = ap (λ x. x.id) is_e in absurd (omega (arith, later.0))
IsAfter-done o (e ∷ due) n v w later i (inr after) = IsAfter-done o due n v w later.1 i after

pub IsStep-IsAfter :
    (o : Outside) (d : WebhookOutbox) (due us vs ws : List WebhookOutbox)
    → All (λ (e : WebhookOutbox). d.id < e.id) due
    → Rowwise (IsStep o d) us vs
    → Rowwise (IsAfter o due) vs ws
    → Rowwise (IsAfter o (d ∷ due)) us ws
IsStep-IsAfter o d due [] [] [] later h k = tt
IsStep-IsAfter o d due [] [] (w ∷ ws) later h k = absurd k
IsStep-IsAfter o d due [] (v ∷ vs) ws later h k = absurd h
IsStep-IsAfter o d due (u ∷ us) [] ws later h k = absurd h
IsStep-IsAfter o d due (u ∷ us) (v ∷ vs) [] later h k = absurd k
IsStep-IsAfter o d due (u ∷ us) (v ∷ vs) (w ∷ ws) later h k = (
  elim h.0 [
    | inl same ↦ inr (rw same at k.0)
    | inr (is_d, sent) ↦
        let i : v.id ≡ d.id = IsSent-id o u v sent ∙ ap (λ x. x.id) is_d in
        let done : w ≡ v = IsAfter-done o due d.id v w later i k.0 in inl (is_d, rw done sent)
  ],
  IsStep-IsAfter o d due us vs ws later h.1 k.1,
)
