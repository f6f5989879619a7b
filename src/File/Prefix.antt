-- ===== src/File/Prefix.antt =====
-- Beginnings of byte sequences.
use mathlib.Core.Path.{ap₂}
use mathlib.Core.List.{tail-eq_of_cons-eq}
use samogon.Base.{
  ℕ, zero, suc, ◌≤◌, ◌≡◌, refl, sym, ap, ◌∙◌, List, [], ◌∷◌, ◌++◌, length, take, drop, arith,
  length-take, length-append, take-take, take-append-take,
}

module _ {ℓ} {A : Type ℓ} where
  -- `x` is the beginning of `y`.
  abbrev pub Begins : List A → List A → Type ℓ
  Begins x y = x ≡ take (length x) y

  pub take-Begins : (n : ℕ) (y : List A) → Begins (take n y) y
  take-Begins zero y = refl
  take-Begins (suc n) [] = refl
  take-Begins (suc n) (a ∷ y) = ap (◌∷◌ a) (take-Begins n y)

  pub Begins-trans : (x y z : List A) → Begins x y → Begins y z → length x ≤ length y → Begins x z
  Begins-trans x y z p q h = p ∙ (ap (take (length x)) q ∙ take-take (length x) (length y) z h)

  pub take-Begins_of : (n : ℕ) (x y : List A) → Begins x y → Begins (take n x) y
  take-Begins_of n x y p =
      Begins-trans (take n x) x y (take-Begins n x) p (omega (arith, length-take n x))

  pub drop-Begins : (n : ℕ) (x y : List A) → Begins x y → Begins (drop n x) (drop n y)
  drop-Begins zero x y p = p
  drop-Begins (suc n) [] y p = refl
  drop-Begins (suc n) (a ∷ x) [] p = absurd (omega (arith, ap length p))
  drop-Begins (suc n) (a ∷ x) (b ∷ y) p = drop-Begins n x y (tail-eq_of_cons-eq p)

  pub append-Begins :
      (x z y : List A) → Begins x y → Begins z (drop (length x) y) → Begins (x ++ z) y
  append-Begins x z y p q =
      ap₂ ◌++◌ p q ∙ take-append-take (length x) (length z) _ y (sym (length-append x z))
