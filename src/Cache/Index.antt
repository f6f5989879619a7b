-- ===== src/Cache/Index.antt =====
-- The list and the map of cache.go agree: the invariant, and what it gives for one key.
use samogon.Base.{
  Text, ◌==◌, Map, lookup, erase, ℕ, suc, zero, ◌+◌, ◌-◌, ◌≤◌, ◌<◌, ◌≡◌, refl, ap, ◌≢◌, false, List,
  [], ◌∷◌, length, take, All, if◌then◌else◌, Option, none, some, eqb, arith, sym, Bool-cases, inl,
  inr,
}
use mathlib.Core.Path.{subst}
use mathlib.Core.Option.{some-injective}
use samogon.Cache.{Element, Lru, find_at, remove_at, back}

module _ {ℓ} {V : Type ℓ} where
  -- The abstract contents, most recent first.
  abbrev pub entries : List (Element V) → Map V
  entries [] = []
  entries (e ∷ l) = (e.key, e.val) ∷ entries l

  -- The address of a key's first element.
  unfoldable pub addr_of : Text → List (Element V) → Option ℕ
  addr_of k [] = none
  addr_of k (e ∷ l) = if k == e.key then some e.at else addr_of k l

  abbrev pub Apart : Element V → Element V → Type 0
  Apart e x = (x.at ≢ e.at) × (x.key ≢ e.key)

  abbrev pub IsDistinct : List (Element V) → Type 0
  IsDistinct [] = Unit
  IsDistinct (e ∷ l) = All (Apart e) l × IsDistinct l

  -- `m` finds each key of the list and nothing else; no key and no address stands twice.
  pub record IsValid (c : Lru V) : Type ℓ where
    pub indexed : (k : Text) → lookup k c.m ≡ addr_of k c.ll
    pub distinct : IsDistinct c.ll
    pub below : All (λ e. e.at < c.next) c.ll
    pub bounded : length c.ll ≤ c.cap

  pub addr_of-none :
      (k : Text) (l : List (Element V))
      → addr_of k l ≡ none
      → (lookup k (entries l) ≡ none) × (erase k (entries l) ≡ entries l) × All (λ x. x.key ≢ k) l
  unfolding addr_of lookup erase
  addr_of-none k [] h = (refl, refl, tt)
  addr_of-none k (e ∷ l) h = ground (arith, addr_of-none k l)

  pub find-All {κ} :
      (P : Element V → Type κ) (a : ℕ) (l : List (Element V)) (e : Element V)
      → find_at a l ≡ some e
      → All P l
      → P e × (e.at ≡ a)
  unfolding find_at
  find-All P a [] e h p = absurd (ground arith)
  find-All P a (x ∷ l) e h p = elim (Bool-cases (eqb x.at a)) [
    | inl here ↦
        let same : x ≡ e = some-injective x e (rw here at h) in
        (subst P same p.0, rw (← same) (ground arith))
    | inr there ↦ find-All P a l e (rw there at h) p.1
  ]

  pub All-remove_at {κ} :
      (P : Element V → Type κ) (a : ℕ) (l : List (Element V)) → All P l → All P (remove_at a l)
  unfolding remove_at
  All-remove_at P a [] p = tt
  All-remove_at P a (x ∷ l) p = elim (Bool-cases (eqb x.at a)) [
    | inl here ↦ rw here (All-remove_at P a l p.1)
    | inr there ↦ rw there (p.0, All-remove_at P a l p.1)
  ]

  remove_at_fresh :
      (e : Element V) (l : List (Element V))
      → All (Apart e) l
      → (remove_at e.at l ≡ l) × (erase e.key (entries l) ≡ entries l)
  unfolding remove_at erase
  remove_at_fresh e [] p = (refl, refl)
  remove_at_fresh e (x ∷ l) p = ground (arith, remove_at_fresh e l p.1)

  addr_of_fresh : (e : Element V) (l : List (Element V)) → All (Apart e) l → addr_of e.key l ≡ none
  unfolding addr_of
  addr_of_fresh e [] p = refl
  addr_of_fresh e (x ∷ l) p = ground (arith, addr_of_fresh e l p.1)

  pub IsDistinct-remove_at :
      (a : ℕ) (l : List (Element V)) → IsDistinct l → IsDistinct (remove_at a l)
  unfolding remove_at
  IsDistinct-remove_at a [] d = tt
  IsDistinct-remove_at a (x ∷ l) d = elim (Bool-cases (eqb x.at a)) [
    | inl here ↦ rw here (IsDistinct-remove_at a l d.1)
    | inr there ↦ rw there (All-remove_at (Apart x) a l d.0, IsDistinct-remove_at a l d.1)
  ]

  -- A key that the list has: its element, and the list without it.
  pub found :
      (k : Text) (a : ℕ) (l : List (Element V))
      → IsDistinct l
      → addr_of k l ≡ some a
      → (e : Element V) × (find_at a l ≡ some e)
        × (e.key ≡ k)
        × (e.at ≡ a)
        × (lookup k (entries l) ≡ some e.val)
        × (entries (remove_at a l) ≡ erase k (entries l))
        × (length (remove_at a l) + 1 ≡ length l)
  unfolding addr_of find_at remove_at lookup erase
  found k a [] d h = absurd (ground arith)
  found k a (x ∷ l) d h = elim (Bool-cases (k == x.key)) [
    | inl here ↦ (
      x,
      ground arith,
      ground arith,
      ground arith,
      ground arith,
      ground (arith, remove_at_fresh x l d.0),
      ground (arith, remove_at_fresh x l d.0),
    )
    | inr there ↦
        let (e, at_a, key, at, val, rest, len) = found k a l d.1 (rw there at h) in
        let apart : Apart x e = (find-All (Apart x) a l e at_a d.0).0 in
        (e, ground arith, key, at, ground arith, ground arith, ground arith)
  ]

  pub addr_of-remove_at :
      (j : Text) (a : ℕ) (l : List (Element V)) (e : Element V)
      → IsDistinct l
      → find_at a l ≡ some e
      → addr_of j (remove_at a l) ≡ (if j == e.key then none else addr_of j l)
  unfolding addr_of find_at remove_at
  addr_of-remove_at j a [] e d h = absurd (ground arith)
  addr_of-remove_at j a (x ∷ l) e d h = elim (Bool-cases (eqb x.at a)) [
    | inl here ↦
        let same : x ≡ e = some-injective x e (rw here at h) in
        let at_a : x.at ≡ a = ground arith in
        ground (
          arith,
          remove_at_fresh x l d.0,
          addr_of_fresh x l d.0,
          ap (λ (y : Element V). y.key) same,
        )
    | inr there ↦
        let apart : Apart x e = (find-All (Apart x) a l e (rw there at h) d.0).0 in
        ground (arith, addr_of-remove_at j a l e d.1 (rw there at h))
  ]

  pub Apart-remove_at :
      (a : ℕ) (l : List (Element V)) (e : Element V)
      → IsDistinct l
      → find_at a l ≡ some e
      → All (Apart e) (remove_at a l)
  unfolding find_at remove_at
  Apart-remove_at a [] e d h = tt
  Apart-remove_at a (x ∷ l) e d h = elim (Bool-cases (eqb x.at a)) [
    | inl here ↦
        let same : x ≡ e = some-injective x e (rw here at h) in
        let at_a : x.at ≡ a = ground arith in
        let rest : remove_at a l ≡ l = ground (arith, remove_at_fresh x l d.0) in
        rw here
          (subst (λ y. All (Apart y) (remove_at a l)) same (subst (All (Apart x)) (sym rest) d.0))
    | inr there ↦
        let apart : Apart x e = (find-All (Apart x) a l e (rw there at h) d.0).0 in
        rw there
          ((λ p. apart.0 (sym p), λ p. apart.1 (sym p)), Apart-remove_at a l e d.1 (rw there at h))
  ]

  back-All {κ} :
      (P : Element V → Type κ) (l : List (Element V)) (e : Element V)
      → back l ≡ some e
      → All P l
      → P e
  unfolding back
  back-All P [] e h p = absurd (ground arith)
  back-All P (x ∷ []) e h p = subst P (some-injective x e h) p.0
  back-All P (x ∷ y ∷ l) e h p = back-All P (y ∷ l) e h p.1

  pub back-take :
      (l : List (Element V)) (e : Element V)
      → IsDistinct l
      → back l ≡ some e
      → (find_at e.at l ≡ some e) × (remove_at e.at l ≡ take (length l - 1) l)
  unfolding back find_at remove_at
  back-take [] e d h = absurd (ground arith)
  back-take (x ∷ []) e d h = ground arith
  back-take (x ∷ y ∷ l) e d h =
      let (at_e, rest) = back-take (y ∷ l) e d.1 h in
      let apart : Apart x e = back-All (Apart x) (y ∷ l) e h d.0 in
      let differ : eqb x.at e.at ≡ false = ground arith in
      (rw differ at_e, rw (differ, rest) (ground arith))

  back-some : (x : Element V) (l : List (Element V)) → (e : Element V) × (back (x ∷ l) ≡ some e)
  unfolding back
  back-some x [] = (x, refl)
  back-some x (y ∷ l) = back-some y l

  pub back-some_of_pos : (l : List (Element V)) → 0 < length l → (e : Element V) × (back l ≡ some e)
  back-some_of_pos [] h = absurd (omega arith)
  back-some_of_pos (x ∷ l) h = back-some x l

  pub entries-take : (n : ℕ) (l : List (Element V)) → entries (take n l) ≡ take n (entries l)
  entries-take zero l = refl
  entries-take (suc n) [] = refl
  entries-take (suc n) (x ∷ l) = ap (◌∷◌ (x.key, x.val)) (entries-take n l)

  pub length-entries : (l : List (Element V)) → length (entries l) ≡ length l
  length-entries [] = refl
  length-entries (x ∷ l) = ap suc (length-entries l)
