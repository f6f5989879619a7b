-- ===== src/Cache.antt =====
-- cache.go: the LRU of pieces, a linked list with a map into it.
pub mod Index
pub mod Refine
pub mod Runs
use mathlib.Core.Option
use samogon.Base.{
  Text, ◌==◌, Map, lookup, insert, erase, ℕ, suc, Bool, true, false, List, [], ◌∷◌, length, map,
  if◌then◌else◌, Option, none, some, eqb, ltb,
}

-- A `*list.Element` that holds a `*lruEntry`. `at` is its address.
pub record Element {ℓ} (V : Type ℓ) : Type ℓ where
  pub at : ℕ
  pub key : Text
  pub val : V

-- `ll` is the list from front to back, `m` the map from keys to addresses, and `next` the first
-- address that no element has had. A capacity below zero acts as zero does.
pub record Lru {ℓ} (V : Type ℓ) : Type ℓ where
  pub cap : ℕ
  pub ll : List (Element V)
  pub m : Map ℕ
  pub next : ℕ

module _ {ℓ} {V : Type ℓ} where
  unfoldable pub find_at : ℕ → List (Element V) → Option (Element V)
  find_at a [] = none
  find_at a (e ∷ l) = if eqb e.at a then some e else find_at a l

  -- `list.Remove`
  unfoldable pub remove_at : ℕ → List (Element V) → List (Element V)
  remove_at a [] = []
  remove_at a (e ∷ l) = let rest = remove_at a l in if eqb e.at a then rest else e ∷ rest

  -- `list.MoveToFront`
  unfoldable pub move_to_front : ℕ → List (Element V) → List (Element V)
  unfolding find_at remove_at
  move_to_front a l = elim (find_at a l) [ none ↦ l | some e ↦ e ∷ remove_at a l ]

  -- `e.Value.(*lruEntry).val = val`
  unfoldable pub set_val : ℕ → V → List (Element V) → List (Element V)
  set_val a v [] = []
  set_val a v (e ∷ l) = if eqb e.at a then record e { val = v } ∷ l else e ∷ set_val a v l

  -- `list.Back`
  unfoldable pub back : List (Element V) → Option (Element V)
  back [] = none
  back (e ∷ []) = some e
  back (e ∷ f ∷ l) = back (f ∷ l)

  unfoldable pub new_lru : ℕ → Lru V
  new_lru cap = record { cap = cap; ll = []; m = []; next = 0 }

  unfoldable pub get : Lru V → Text → Lru V × Option V
  unfolding find_at move_to_front
  get c key = elim (lookup key c.m) [
    | none ↦ (c, none)
    | some a ↦ (
      record c { ll = move_to_front a c.ll },
      Option.map (λ (e : Element V). e.val) (find_at a c.ll),
    )
  ]

  -- The end of `Put`: the last element goes if there are more than `cap`.
  unfoldable pub evict : Lru V → Lru V
  unfolding back remove_at
  evict c =
      if ltb c.cap (length c.ll)
      then elim (back c.ll) [
        | none ↦ c
        | some e ↦ record c { ll = remove_at e.at c.ll; m = erase e.key c.m }
      ]
      else c

  unfoldable pub put : Lru V → Text → V → Lru V
  unfolding move_to_front set_val evict
  put c key val = elim (lookup key c.m) [
    | some a ↦ record c { ll = set_val a val (move_to_front a c.ll) }
    | none ↦ evict (record c {
      ll = record { at = c.next; key = key; val = val } ∷ c.ll;
      m = insert key c.next c.m;
      next = suc c.next;
    })
  ]
