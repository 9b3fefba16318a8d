-- ===== src/Prelude/Splits.antt =====
-- `str.split`, `str.startswith` and the decimal numbers that the program reads back from text.
use quotaguard.Prelude.Tests.{Bool-cases, if◌then◌else◌, leb, ltb, ◌==◌}
use quotaguard.Prelude.Texts.{Text, decimal, digits_onto}
use Prim.Native.Nat.{ℕ, zero, suc, ◌+◌, ◌-◌, ◌*◌, ◌/◌, ◌%◌, ◌<◌}
use mathlib.Core.Path.{◌≡◌, refl, ap, ◌∙◌}
use mathlib.Core.Logic.{◌≢◌, inl, inr}
use mathlib.Core.Bool.{Bool, true, false, ◌&&◌}
use mathlib.Core.List.{List, [], ◌∷◌, ◌++◌}
use mathlib.Core.Option.{Option, none, some}
use native.Mathlib.Omega.{arith}

-- Puts a character in front of the first part.
abbrev pub onto_head : ℕ → List Text → List Text
onto_head c [] = (c ∷ []) ∷ []
onto_head c (p ∷ ps) = (c ∷ p) ∷ ps

-- `s.split(sep)` for a separator of one character: never an empty list.
unfoldable pub split : ℕ → Text → List Text
split sep [] = [] ∷ []
split sep (c ∷ s) = if c == sep then [] ∷ split sep s else onto_head c (split sep s)

-- `sep.join(parts)` for a separator of one character.
abbrev pub join : ℕ → List Text → Text
join sep [] = []
join sep (p ∷ []) = p
join sep (p ∷ q ∷ ps) = p ++ (sep ∷ join sep (q ∷ ps))

abbrev pub is_empty : Text → Bool
is_empty [] = true
is_empty (c ∷ s) = false

-- `s.startswith(prefix)`
unfoldable pub starts_with : Text → Text → Bool
starts_with [] s = true
starts_with (c ∷ p) [] = false
starts_with (c ∷ p) (d ∷ s) = if c == d then starts_with p s else false

unfoldable pub is_digit : ℕ → Bool
is_digit c = leb b'0' c && leb c b'9'

unfoldable pub digits_from : ℕ → Text → Option ℕ
digits_from n [] = some n
digits_from n (c ∷ s) = if is_digit c then digits_from (n * 10 + (c - b'0')) s else none

-- `int(s)` for a text of plain digits, which is all that the program's own texts hold there.
unfoldable pub parse_digits : Text → Option ℕ
parse_digits [] = none
parse_digits (c ∷ s) = digits_from 0 (c ∷ s)

-- A text without the separator.
abbrev pub Lacks : ℕ → Text → Type 0
Lacks sep [] = Unit
Lacks sep (c ∷ s) = (c ≢ sep) × Lacks sep s

pub split_last : (sep : ℕ) (s : Text) → Lacks sep s → split sep s ≡ s ∷ []
unfolding split
split_last sep [] h = refl
split_last sep (c ∷ s) h = ground (arith, split_last sep s h.1)

pub split-append :
    (sep : ℕ) (s t : Text) → Lacks sep s → split sep (s ++ (sep ∷ t)) ≡ s ∷ split sep t
unfolding split
split-append sep [] t h = ground arith
split-append sep (c ∷ s) t h = ground (arith, split-append sep s t h.1)

digits_from-digit :
    (m n : ℕ) (acc : Text)
    → digits_from m ((b'0' + n % 10) ∷ acc) ≡ digits_from (m * 10 + n % 10) acc
unfolding digits_from is_digit
digits_from-digit m n acc =
    let low : leb b'0' (b'0' + n % 10) ≡ true = ground arith in
    let high : leb (b'0' + n % 10) b'9' ≡ true = ground arith in
    let digit : b'0' + n % 10 - b'0' ≡ n % 10 = omega arith in rw (low, high, digit) refl

-- A fuel above the number is enough: what is read back is the number.
digits_from-digits_onto :
    (fuel n : ℕ) (acc : Text)
    → n < fuel
    → digits_from 0 (digits_onto fuel n acc) ≡ digits_from n acc
unfolding digits_onto
digits_from-digits_onto zero n acc h = absurd (omega arith)
digits_from-digits_onto (suc fuel) n acc h = elim (Bool-cases (ltb n 10)) [
  | inl last ↦
      let whole : 0 * 10 + n % 10 ≡ n = ground arith in
      rw last (digits_from-digit 0 n acc ∙ ap (λ m. digits_from m acc) whole)
  | inr more ↦
      let whole : n / 10 * 10 + n % 10 ≡ n = omega arith in
      rw more (
        digits_from-digits_onto fuel (n / 10) _ (ground arith)
        ∙ digits_from-digit (n / 10) n acc
        ∙ ap (λ m. digits_from m acc) whole)
]

digits_onto-cons : (fuel n c : ℕ) (acc : Text) → digits_onto fuel n (c ∷ acc) ≢ []
unfolding digits_onto
digits_onto-cons zero n c acc e = cc
digits_onto-cons (suc fuel) n c acc e = elim (Bool-cases (ltb n 10)) [
  | inl last ↦ ground arith
  | inr more ↦ digits_onto-cons fuel (n / 10) _ (c ∷ acc) (rw more at e)
]

decimal-cons : (n : ℕ) → decimal n ≢ []
unfolding decimal digits_onto
decimal-cons n e = elim (Bool-cases (ltb n 10)) [
  | inl last ↦ ground arith
  | inr more ↦ digits_onto-cons n (n / 10) _ [] (rw more at e)
]

parse_digits-digits_from : (s : Text) → s ≢ [] → parse_digits s ≡ digits_from 0 s
unfolding parse_digits
parse_digits-digits_from [] h = absurd (h refl)
parse_digits-digits_from (c ∷ s) h = refl

-- `int(str(n))` is `n`: the digits are enough for every number.
pub parse_digits-decimal : (n : ℕ) → parse_digits (decimal n) ≡ some n
unfolding decimal digits_from
parse_digits-decimal n =
    parse_digits-digits_from (digits_onto (suc n) n []) (decimal-cons n)
    ∙ digits_from-digits_onto (suc n) n [] (omega arith)
