-- ===== src/Base/Lists.antt =====
-- Lists measured and indexed by native numbers, under the library's names.
use Prim.Native.Nat.{ℕ, zero, suc, ◌+◌, ◌-◌, ◌<◌, ◌≤◌, min}
use mathlib.Core.Path.{◌≡◌, refl, sym, ap, subst, ◌∙◌}
use mathlib.Core.Logic.{◌⊎◌, inl, inr}
use mathlib.Core.List.{List, [], ◌∷◌, ◌++◌}
use mathlib.Core.Option.{Option, none, some, some-injective}
use native.Mathlib.Decide.{dec_le}
use native.Mathlib.Omega.{arith}

-- `x` is one of the list's elements.
abbrev pub In : {A : Type 0} → A → List A → Type 0
In x [] = ⊥
In x (y ∷ ys) = (x ≡ y) ⊎ In x ys

module _ {ℓ} {A : Type ℓ} where
  abbrev pub length : List A → ℕ
  length [] = 0
  length (x ∷ xs) = suc (length xs)

  abbrev pub get_elem? : List A → ℕ → Option A
  get_elem? [] i = none
  get_elem? (x ∷ xs) zero = some x
  get_elem? (x ∷ xs) (suc i) = get_elem? xs i

  abbrev pub take : ℕ → List A → List A
  take zero xs = []
  take (suc n) [] = []
  take (suc n) (x ∷ xs) = x ∷ take n xs

  abbrev pub drop : ℕ → List A → List A
  drop zero xs = xs
  drop (suc n) [] = []
  drop (suc n) (x ∷ xs) = drop n xs

  -- The list without the element at `i`; the whole list if `i` is out of range.
  abbrev pub drop_at : ℕ → List A → List A
  drop_at i [] = []
  drop_at zero (x ∷ xs) = xs
  drop_at (suc i) (x ∷ xs) = x ∷ drop_at i xs

  abbrev pub replicate : ℕ → A → List A
  replicate zero a = []
  replicate (suc n) a = a ∷ replicate n a

  abbrev pub All {κ} : (A → Type κ) → List A → Type κ
  All P [] = Unit
  All P (x ∷ xs) = P x × All P xs

  pub length-append : (xs ys : List A) → length (xs ++ ys) ≡ length xs + length ys
  length-append [] ys = omega arith
  length-append (x ∷ xs) ys = omega (arith, length-append xs ys)

  pub take-append-drop : (n : ℕ) (xs : List A) → take n xs ++ drop n xs ≡ xs
  take-append-drop zero xs = refl
  take-append-drop (suc n) [] = refl
  take-append-drop (suc n) (x ∷ xs) = ap (◌∷◌ x) (take-append-drop n xs)

  pub length-take : (n : ℕ) (xs : List A) → length (take n xs) ≡ min n (length xs)
  length-take zero xs = omega arith
  length-take (suc n) [] = omega arith
  length-take (suc n) (x ∷ xs) = omega (arith, length-take n xs)

  pub length-drop : (n : ℕ) (xs : List A) → length (drop n xs) ≡ length xs - n
  length-drop zero xs = omega arith
  length-drop (suc n) [] = omega arith
  length-drop (suc n) (x ∷ xs) = omega (arith, length-drop n xs)

  pub length-drop_at :
      (i : ℕ) (xs : List A) (a : A)
      → get_elem? xs i ≡ some a
      → length xs ≡ suc (length (drop_at i xs))
  length-drop_at i [] a e = absurd (ground arith)
  length-drop_at zero (x ∷ xs) a e = refl
  length-drop_at (suc i) (x ∷ xs) a e = ap suc (length-drop_at i xs a e)

  take-nil : (n : ℕ) → take n [] ≡ []
  take-nil zero = refl
  take-nil (suc n) = refl

  -- Taking as many as there are, or more, takes all.
  pub take_of_length-le : (k : ℕ) (l : List A) → length l ≤ k → take k l ≡ l
  take_of_length-le k [] _ = take-nil k
  take_of_length-le (suc k) (a ∷ l) le = rw (take_of_length-le k l (omega arith))
  take_of_length-le zero (a ∷ l) le = absurd (omega arith)

  pub drop-nil_of_length-le : (n : ℕ) (xs : List A) → length xs ≤ n → drop n xs ≡ []
  drop-nil_of_length-le zero [] h = refl
  drop-nil_of_length-le zero (x ∷ xs) h = absurd (omega arith)
  drop-nil_of_length-le (suc n) [] h = refl
  drop-nil_of_length-le (suc n) (x ∷ xs) h = drop-nil_of_length-le n xs (omega arith)

  -- Two reads in a row are one read.
  pub take-append-take :
      (m n k : ℕ) (xs : List A) → m + n ≡ k → take m xs ++ take n (drop m xs) ≡ take k xs
  take-append-take zero n k xs e = let e' : n ≡ k = omega arith in rw e'
  take-append-take (suc m) n zero xs e = absurd (omega arith)
  take-append-take (suc m) n (suc k) [] e = take-nil n
  take-append-take (suc m) n (suc k) (x ∷ xs) e =
      ap (◌∷◌ x) (take-append-take m n k xs (omega arith))

  pub drop-drop : (m n k : ℕ) (xs : List A) → m + n ≡ k → drop n (drop m xs) ≡ drop k xs
  drop-drop zero n k xs e = let e' : n ≡ k = omega arith in rw e'
  drop-drop (suc m) n zero xs e = absurd (omega arith)
  drop-drop (suc m) zero (suc k) [] e = refl
  drop-drop (suc m) (suc n) (suc k) [] e = refl
  drop-drop (suc m) n (suc k) (x ∷ xs) e = drop-drop m n k xs (omega arith)

  pub take-take : (m n : ℕ) (xs : List A) → m ≤ n → take m (take n xs) ≡ take m xs
  take-take zero n xs h = refl
  take-take (suc m) zero xs h = absurd (omega arith)
  take-take (suc m) (suc n) [] h = refl
  take-take (suc m) (suc n) (x ∷ xs) h = ap (◌∷◌ x) (take-take m n xs (omega arith))

  pub take-take-min : (m n : ℕ) (xs : List A) → take m (take n xs) ≡ take (min m n) xs
  take-take-min m n xs = elim (dec_le m n) [
    | yes h ↦ take-take m n xs h ∙ ap (λ (k : ℕ). take k xs) (omega arith)
    | no h ↦
        take_of_length-le m (take n xs) (omega (arith, length-take n xs))
        ∙ ap (λ (k : ℕ). take k xs) (omega arith)
  ]

  pub drop-take : (m n k : ℕ) (xs : List A) → m + k ≡ n → drop m (take n xs) ≡ take k (drop m xs)
  drop-take zero n k xs e = let e' : k ≡ n = omega arith in rw e'
  drop-take (suc m) zero k xs e = absurd (omega arith)
  drop-take (suc m) (suc n) zero [] e = refl
  drop-take (suc m) (suc n) (suc k) [] e = refl
  drop-take (suc m) (suc n) k (x ∷ xs) e = drop-take m n k xs (omega arith)

  pub get_elem?_of_lt : (xs : List A) (i : ℕ) → i < length xs → (a : A) × (get_elem? xs i ≡ some a)
  get_elem?_of_lt [] i h = absurd (omega arith)
  get_elem?_of_lt (x ∷ xs) zero h = (x, refl)
  get_elem?_of_lt (x ∷ xs) (suc i) h = get_elem?_of_lt xs i (omega arith)

  pub All_get_elem? {κ} :
      (P : A → Type κ) (xs : List A) (i : ℕ) (a : A) → All P xs → get_elem? xs i ≡ some a → P a
  All_get_elem? P [] i a h e = absurd (ground arith)
  All_get_elem? P (x ∷ xs) zero a h e = subst P (some-injective x a e) h.0
  All_get_elem? P (x ∷ xs) (suc i) a h e = All_get_elem? P xs i a h.1 e

pub In_get_elem? : {A : Type 0} (xs : List A) (i : ℕ) (a : A) → get_elem? xs i ≡ some a → In a xs
In_get_elem? [] i a e = absurd (ground arith)
In_get_elem? (x ∷ xs) zero a e = inl (sym (some-injective x a e))
In_get_elem? (x ∷ xs) (suc i) a e = inr (In_get_elem? xs i a e)

-- Of the elements, only the one taken out may be missing.
pub In_drop_at :
    {A : Type 0} (xs : List A) (i : ℕ) (a x : A)
    → get_elem? xs i ≡ some a
    → In x xs
    → (x ≡ a) ⊎ In x (drop_at i xs)
In_drop_at [] i a x e h = absurd h
In_drop_at (y ∷ ys) zero a x e (inl p) = inl (p ∙ some-injective y a e)
In_drop_at (y ∷ ys) zero a x e (inr h) = inr h
In_drop_at (y ∷ ys) (suc i) a x e (inl p) = inr (inl p)
In_drop_at (y ∷ ys) (suc i) a x e (inr h) = elim (In_drop_at ys i a x e h) [
  | inl p ↦ inl p
  | inr r ↦ inr (inr r)
]

pub In_of_In_drop_at : {A : Type 0} (xs : List A) (i : ℕ) (x : A) → In x (drop_at i xs) → In x xs
In_of_In_drop_at [] i x h = h
In_of_In_drop_at (y ∷ ys) zero x h = inr h
In_of_In_drop_at (y ∷ ys) (suc i) x (inl p) = inl p
In_of_In_drop_at (y ∷ ys) (suc i) x (inr h) = inr (In_of_In_drop_at ys i x h)

pub All-drop_at {κ} :
    {A : Type 0} (P : A → Type κ) (i : ℕ) (xs : List A) → All P xs → All P (drop_at i xs)
All-drop_at P i [] p = tt
All-drop_at P zero (x ∷ xs) p = p.1
All-drop_at P (suc i) (x ∷ xs) p = (p.0, All-drop_at P i xs p.1)

pub All_of_In {κ} :
    {A : Type 0} {P : A → Type κ} (xs : List A) → ((x : A) → In x xs → P x) → All P xs
All_of_In [] f = tt
All_of_In (x ∷ xs) f = (f x (inl refl), All_of_In xs (λ y i. f y (inr i)))

pub All_map {κ} :
    {A : Type 0} {P Q : A → Type κ} (xs : List A) → ((x : A) → P x → Q x) → All P xs → All Q xs
All_map [] f a = tt
All_map (x ∷ xs) f (p, a) = (f x p, All_map xs f a)
