-- ===== src/Prelude/Dicts.antt =====
-- A Python dict with text keys, as an association list in the order of insertion.
use Prim.Native.Nat.{◌+◌, ◌≤◌}
use mathlib.Core.Logic.{inl, inr}
use mathlib.Core.Path.{◌≡◌}
use mathlib.Core.List.{List, [], ◌∷◌}
use mathlib.Core.Option.{Option, none, some}
use native.Mathlib.Omega.{arith}
use quotaguard.Prelude.Tests.{Bool-cases, if◌then◌else◌}
use quotaguard.Prelude.Texts.{Text, text_eq, text_eq_self, text_eq_sound}
use quotaguard.Prelude.Lists.{All, length}

module _ {ℓ} {V : Type ℓ} where
  -- `d.get(k)`
  unfoldable pub lookup : Text → List (Text × V) → Option V
  lookup k [] = none
  lookup k ((j, v) ∷ d) = if text_eq j k then some v else lookup k d

  -- `d[k] = v`
  unfoldable pub insert : Text → V → List (Text × V) → List (Text × V)
  insert k v [] = (k, v) ∷ []
  insert k v ((j, w) ∷ d) = if text_eq j k then (k, v) ∷ d else (j, w) ∷ insert k v d

  pub length-insert-le :
      (k : Text) (v : V) (d : List (Text × V)) → length (insert k v d) ≤ length d + 1
  unfolding insert
  length-insert-le k v [] = omega arith
  length-insert-le k v ((j, w) ∷ d) = ground (arith, length-insert-le k v d)

  pub All-insert {κ} :
      (P : Text × V → Type κ) (k : Text) (v : V) (d : List (Text × V))
      → All P d
      → P (k, v)
      → All P (insert k v d)
  unfolding insert
  All-insert P k v [] h p = (p, tt)
  All-insert P k v ((j, w) ∷ d) h p = ground (arith, All-insert P k v d h.1 p)

  pub lookup-All {κ} :
      (P : Text × V → Type κ) (k : Text) (d : List (Text × V)) (v : V)
      → All P d
      → lookup k d ≡ some v
      → P (k, v)
  unfolding lookup
  lookup-All P k [] v h e = cc
  lookup-All P k ((j, w) ∷ d) v h e = elim (Bool-cases (text_eq j k)) [
    | inl same ↦
        let found : some w ≡ some v = rw same at e in
        let value : w ≡ v = cc in rw (← text_eq_sound j k same, ← value) h.0
    | inr other ↦ lookup-All P k d v h.1 (rw other at e)
  ]

  pub lookup-insert : (k : Text) (v : V) (d : List (Text × V)) → lookup k (insert k v d) ≡ some v
  unfolding lookup insert
  lookup-insert k v [] = ground (arith, text_eq_self k)
  lookup-insert k v ((j, w) ∷ d) = ground (arith, text_eq_self k, lookup-insert k v d)
