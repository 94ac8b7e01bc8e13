-- ===== src/Prelude/Maps.antt =====
-- JavaScript's Map with string keys, as an association list in the order of insertion.
use mathlib.Core.Path.{◌≡◌, refl, sym, ap, ◌∙◌}
use mathlib.Core.Logic.{inl, inr}
use mathlib.Core.Option.{Option, none, some}
use mathlib.Core.List.{List, [], ◌∷◌}
use native.Mathlib.Omega.{arith}
use collabhub.Prelude.Tests.{if◌then◌else◌, Bool-cases}
use collabhub.Prelude.Strings.{Text, ◌===◌, ===_iff}

abbrev pub Dictionary {ℓ} : Type ℓ → Type ℓ
Dictionary V = List (Text × V)

module _ {ℓ} {V : Type ℓ} where
  -- map.get(key)
  unfoldable pub lookup : Dictionary V → Text → Option V
  lookup [] k = none
  lookup ((j, v) ∷ m) k = if j === k then some v else lookup m k

  -- map.set(key, value)
  unfoldable pub insert : Dictionary V → Text → V → Dictionary V
  insert [] k v = (k, v) ∷ []
  insert ((j, w) ∷ m) k v = if j === k then (j, v) ∷ m else (j, w) ∷ insert m k v

  -- map.delete(key)
  unfoldable pub erase : Dictionary V → Text → Dictionary V
  erase [] k = []
  erase ((j, w) ∷ m) k = let rest = erase m k in if j === k then rest else (j, w) ∷ rest

  pub lookup-insert :
      (m : Dictionary V) (k j : Text) (v : V)
      → lookup (insert m k v) j ≡ (if k === j then some v else lookup m j)
  unfolding lookup insert
  lookup-insert [] k j v = refl
  lookup-insert ((i, w) ∷ m) k j v =
      ground (arith, ===_iff k j, ===_iff i k, ===_iff i j, lookup-insert m k j v)

  pub lookup-erase :
      (m : Dictionary V) (k j : Text)
      → lookup (erase m k) j ≡ (if k === j then none else lookup m j)
  unfolding lookup erase
  lookup-erase [] k j = ground arith
  lookup-erase ((i, w) ∷ m) k j =
      ground (arith, ===_iff k j, ===_iff i k, ===_iff i j, lookup-erase m k j)

  -- A new key leaves what is there.
  pub lookup-insert_new :
      (m : Dictionary V) (k j : Text) (v w : V)
      → lookup m k ≡ none
      → lookup m j ≡ some w
      → lookup (insert m k v) j ≡ some w
  lookup-insert_new m k j v w new h = elim (Bool-cases (k === j)) [
    | inl same ↦ absurd (none_is_some (sym new ∙ ap (lookup m) ((===_iff k j).0 same) ∙ h))
    | inr other ↦ rw (lookup-insert m k j v, other) h
  ]
    where
      none_is_some : none ≡ some w → ⊥
      none_is_some e = cc
