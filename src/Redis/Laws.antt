-- ===== src/Redis/Laws.antt =====
-- What a write to a key does to the reads of every key.
use quotaguard.Prelude.{
  List, Text, [], arith, if◌then◌else◌, length, refl, some, text_eq, text_eq_self, ℕ, ◌+◌, ◌∷◌, ◌≡◌,
}
use quotaguard.Redis.{Member, Redis, counter, insert_member, number_or_zero, put, set_string}

module _ {ℓ} {V : Type ℓ} where
  pub put_self : (m : Text → V) (k : Text) (v : V) → put m k v k ≡ v
  unfolding put
  put_self m k v = rw (text_eq_self k)

pub length-insert_member :
    (m : Member) (xs : List Member) → length (insert_member m xs) ≡ length xs + 1
unfolding insert_member
length-insert_member m [] = refl
length-insert_member m (x ∷ xs) = ground (arith, length-insert_member m xs)

pub counter-set_string :
    (k j : Text) (n : ℕ) (r : Redis)
    → counter j (set_string k n r) ≡ (if text_eq k j then n else counter j r)
unfolding counter set_string put number_or_zero
counter-set_string k j n r = ground arith

pub set_string_self : (k : Text) (n : ℕ) (r : Redis) → (set_string k n r).strings k ≡ some n
unfolding set_string
set_string_self k n r = put_self r.strings k (some n)
