-- ===== src/Errors/Laws.antt =====
-- What a chain of results ended with.
use quotaguard.Prelude.{refl, ◌≡◌, ◌≢◌}
use quotaguard.Errors.{Exception, Result, ok, raise, ◌>>=◌}

-- A chain that went well, whose last step cannot fail.
pub bind-ok {ℓ κ} :
    {A : Type ℓ} {B : Type κ} (r : Result A) (f : A → B) (b : B)
    → (r >>= λ x. ok (f x)) ≡ ok b
    → (x : A) × (r ≡ ok x) × (b ≡ f x)
bind-ok (raise e) f b h = cc
bind-ok (ok x) f b h = (x, refl, cc)

-- A chain that failed, where what goes on from a value does not.
pub bind-raise {ℓ κ} :
    {A : Type ℓ} {B : Type κ} (r : Result A) (f : A → Result B) (e : Exception)
    → (r >>= f) ≡ raise e
    → ((x : A) → r ≡ ok x → f x ≢ raise e)
    → r ≡ raise e
bind-raise (raise e') f e h total = cc
bind-raise (ok x) f e h total = absurd (total x refl h)
