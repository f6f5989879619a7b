-- ===== src/Base/Maps.antt =====
-- Go maps keyed by strings, as association lists.
use mathlib.Core.Path.{◌≡◌, refl}
use mathlib.Core.List.{List, [], ◌∷◌}
use mathlib.Core.Option.{Option, none, some}
use native.Mathlib.Omega.{arith}
use samogon.Base.Tests.{if◌then◌else◌}
use samogon.Base.Texts.{Text, ◌==◌}

abbrev pub Map {ℓ} : Type ℓ → Type ℓ
Map V = List (Text × V)

module _ {ℓ} {V : Type ℓ} where
  unfoldable pub lookup : Text → Map V → Option V
  lookup k [] = none
  lookup k ((j, v) ∷ m) = if k == j then some v else lookup k m

  -- `delete(m, k)`. Every entry of the key goes; a real map has at most one.
  unfoldable pub erase : Text → Map V → Map V
  erase k [] = []
  erase k ((j, v) ∷ m) = let rest = erase k m in if k == j then rest else (j, v) ∷ rest

  -- `m[k] = v`
  unfoldable pub insert : Text → V → Map V → Map V
  insert k v m = (k, v) ∷ erase k m

  pub lookup-nil : (k : Text) → lookup k [] ≡ none
  unfolding lookup
  lookup-nil k = refl

  pub lookup-erase :
      (j k : Text) (m : Map V) → lookup j (erase k m) ≡ (if j == k then none else lookup j m)
  unfolding lookup erase
  lookup-erase j k [] = ground arith
  lookup-erase j k ((i, v) ∷ m) = ground (arith, lookup-erase j k m)

  pub lookup-insert :
      (j k : Text) (v : V) (m : Map V)
      → lookup j (insert k v m) ≡ (if j == k then some v else lookup j m)
  unfolding lookup insert
  lookup-insert j k v m = ground (arith, lookup-erase j k m)
