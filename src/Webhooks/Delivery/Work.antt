-- ===== src/Webhooks/Delivery/Work.antt =====
-- The attempts that are left, and what they go down by.
use quotaguard.Prelude.{
  ==_iff, All, Among, Bool, Bool-cases, List, Option-cases, [], ap, arith, false, if◌then◌else◌,
  inl, inr, length, none, refl, select, sym, true, ℕ, ◌*◌, ◌+◌, ◌-◌, ◌<◌, ◌==◌, ◌∙◌, ◌∷◌, ◌≡◌, ◌≢◌,
  ◌≤◌, ◌⊎◌,
}
use quotaguard.Models.{WebhookOutbox}
use quotaguard.Database.{replace_outbox}
use quotaguard.KeyCache.{is_some}
use quotaguard.Webhooks.{Outside, delivered, failed, is_due}
use quotaguard.Webhooks.Delivery.{IsOnly, IsSent, IsSent-id, Rowwise}
use quotaguard.Webhooks.Delivery.Attempts.{IsSafe, is_due-limits}

-- The attempts that a row has left.
abbrev pub remaining : ℕ → WebhookOutbox → ℕ
remaining max_attempts w = if is_some w.delivered_at then 0 else max_attempts - w.attempts

abbrev pub work : ℕ → List WebhookOutbox → ℕ
work max_attempts [] = 0
work max_attempts (w ∷ ws) = remaining max_attempts w + work max_attempts ws

-- A row that is delivered or has used up its attempts.
abbrev pub IsSettled : ℕ → WebhookOutbox → Type 0
IsSettled max_attempts w = (w.delivered_at ≢ none) ⊎ (max_attempts ≤ w.attempts)

IsSafe-remaining : (m : ℕ) (v w : WebhookOutbox) → IsSafe m v w → remaining m w ≤ remaining m v
unfolding is_some
IsSafe-remaining m v w (i, keep, up, low) = elim (Option-cases v.delivered_at) [
  | inl fresh ↦ rw fresh (ground arith)
  | inr (t, done) ↦ let e : w ≡ v = keep (λ n. absurd (cc (done, n))) in rw e (omega arith)
]

pub Rowwise-work :
    (m : ℕ) (vs ws : List WebhookOutbox) → Rowwise (IsSafe m) vs ws → work m ws ≤ work m vs
Rowwise-work m [] [] h = omega arith
Rowwise-work m [] (w ∷ ws) h = absurd h
Rowwise-work m (v ∷ vs) [] h = absurd h
Rowwise-work m (v ∷ vs) (w ∷ ws) h =
    omega (arith, IsSafe-remaining m v w h.0, Rowwise-work m vs ws h.1)

IsSent-remaining :
    (o : Outside) (m : ℕ) (v w : WebhookOutbox)
    → is_due m o.now v ≡ true
    → IsSent o v w
    → remaining m w < remaining m v
unfolding delivered failed is_some
IsSent-remaining o m v w due (inl e) =
    let (fresh, left) = is_due-limits m o.now v due in rw (e, fresh) (omega (arith, left))
IsSent-remaining o m v w due (inr (error, e)) =
    let (fresh, left) = is_due-limits m o.now v due in rw (e, fresh) (omega (arith, left))

pub replace_outbox-work :
    (o : Outside) (m : ℕ) (d new : WebhookOutbox) (ws : List WebhookOutbox)
    → is_due m o.now d ≡ true
    → IsSent o d new
    → IsOnly ws d
    → Among d ws
    → work m (replace_outbox new ws) < work m ws
unfolding replace_outbox
replace_outbox-work o m d new [] due sent only among = absurd among
replace_outbox-work o m d new (w ∷ ws) due sent only among = elim (Bool-cases (w.id == new.id)) [
  | inl same ↦
      let e : w ≡ d = only.0 ((==_iff w.id new.id).0 same ∙ IsSent-id o d new sent) in
      rw (same, e) (omega (arith, IsSent-remaining o m d new due sent))
  | inr other ↦ elim among [
    | inl here ↦
        let i : w.id ≡ new.id = ap (λ x. x.id) (sym here) ∙ sym (IsSent-id o d new sent) in
        let yes_same = (==_iff w.id new.id).1 i in absurd (cc (yes_same, other))
    | inr later ↦ rw other (omega (arith, replace_outbox-work o m d new ws due sent only.1 later))
  ]
]

pub select_cases :
    (p : WebhookOutbox → Bool) (ws : List WebhookOutbox)
    → All (λ (w : WebhookOutbox). p w ≡ false) ws
      ⊎ ((d : WebhookOutbox) × (rest : List WebhookOutbox) × (select p ws ≡ d ∷ rest) × Among d ws)
select_cases p [] = inl tt
select_cases p (w ∷ ws) = elim (Bool-cases (p w)) [
  | inl fits ↦ inr (w, select p ws, rw fits refl, inl refl)
  | inr unfit ↦ elim (select_cases p ws) [
    | inl none_due ↦ inl (unfit, none_due)
    | inr (d, rest, e, among) ↦ inr (d, rest, rw unfit e, inr among)
  ]
]

pub work-IsSettled : (m : ℕ) (ws : List WebhookOutbox) → work m ws ≤ 0 → All (IsSettled m) ws
unfolding is_some
work-IsSettled m [] h = tt
work-IsSettled m (w ∷ ws) h = (
  elim (Option-cases w.delivered_at) [
    | inl fresh ↦ let k = rw fresh at h in inr (omega (arith, k))
    | inr (t, done) ↦ inl (λ n. absurd (cc (done, n)))
  ],
  work-IsSettled m ws (omega (arith, h)),
)

pub work-length : (m : ℕ) (ws : List WebhookOutbox) → work m ws ≤ length ws * m
unfolding is_some
work-length m [] = omega arith
work-length m (w ∷ ws) = ground (arith, work-length m ws)
