-- ===== src/Base/Texts.antt =====
-- Go strings and byte slices as lists of bytes, with their decidable equality.
use Prim.Native.Char.{code}
use Prim.Native.String.{String}
use Prim.Native.Nat.{ℕ}
use mathlib.Core.Path.{◌≡◌}
use mathlib.Core.Logic.{ite, ◌≢◌}
use mathlib.Core.Bool.{Bool, true, false}
use mathlib.Core.List.{List, [], ◌∷◌}
use native.Mathlib.Decide.{ℕ_discrete}
use native.Mathlib.Omega.{arith}

abbrev pub Bytes : Type 0
Bytes = List ℕ

abbrev pub Text : Type 0
Text = List ℕ

-- The bytes of an ASCII literal.
abbrev pub bytes : String → Text
bytes String.[] = []
bytes (String.◌∷◌ c s) = code c ∷ bytes s

-- Shut in proofs, where a split on `s == t` gives the equation or its negation.
unfoldable pub text_dec : Discrete Text
unfolding ℕ_discrete
text_dec = hlevel ℕ_discrete

infix 50 ◌==◌
abbrev pub ◌==◌ : Text → Text → Bool
s == t = ite (text_dec s t) true false

pub eq_refl : (s : Text) → (s == s) ≡ true
eq_refl s = ground arith

pub eq_true : (s t : Text) → (s == t) ≡ true → s ≡ t
eq_true s t e = ground arith

pub eq_ne : (s t : Text) → s ≢ t → (s == t) ≡ false
eq_ne s t n = ground arith
