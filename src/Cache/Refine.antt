-- ===== src/Cache/Refine.antt =====
-- cache.go against a plain association list: `Get` and `Put` move a key to the front, and `Put`
-- keeps the first `cap` entries.
use samogon.Base.{
  Text, Map, lookup, insert, lookup-insert, lookup-erase, ℕ, suc, ◌+◌, ◌-◌, ◌≤◌, ◌<◌, ◌≡◌, refl, ap,
  ◌≢◌, List, [], ◌∷◌, length, take, take_of_length-le, length-take, All, none, some, ltb, arith,
  sym, ◌∙◌, Bool-cases, Option-cases, inl, inr,
}
use samogon.Cache.{
  Element, Lru, find_at, remove_at, move_to_front, set_val, new_lru, get, evict, put,
}
use samogon.Cache.Index.{
  entries, addr_of, addr_of-none, Apart, IsDistinct, IsValid, found, find-All, All-remove_at,
  IsDistinct-remove_at, addr_of-remove_at, Apart-remove_at, back-take, back-some_of_pos,
  entries-take, length-entries,
}

module _ {ℓ} {V : Type ℓ} where
  -- A hit becomes the first entry.
  abbrev pub touch : Text → Map V → Map V
  touch k l = elim (lookup k l) [ none ↦ l | some v ↦ insert k v l ]

  pub new_lru-IsValid : (cap : ℕ) → IsValid (new_lru {V = V} cap)
  unfolding new_lru addr_of lookup
  new_lru-IsValid cap = record {
    indexed = λ k. refl;
    distinct = tt;
    below = tt;
    bounded = omega arith;
  }

  -- The element of a hit, in front of the others and with any value, keeps the invariant.
  module _ (c : Lru V) (k : Text) (a : ℕ) (e : Element V) (h : IsValid c) where
    moved-IsValid :
        (v : V)
        → find_at a c.ll ≡ some e
        → addr_of k c.ll ≡ some a
        → e.key ≡ k
        → e.at ≡ a
        → length (remove_at a c.ll) + 1 ≡ length c.ll
        → IsValid (record c { ll = record e { val = v } ∷ remove_at a c.ll })
    unfolding addr_of
    moved-IsValid v f i key at len = record {
      indexed = λ j. ground (arith, h.indexed j, addr_of-remove_at j a c.ll e h.distinct f);
      distinct = (Apart-remove_at a c.ll e h.distinct f, IsDistinct-remove_at a c.ll h.distinct);
      below =
          ((find-All (λ x. x.at < c.next) a c.ll e f h.below).0, All-remove_at _ a c.ll h.below);
      bounded = omega arith;
    }

  moved_to_front :
      (a : ℕ) (l : List (Element V)) (e : Element V)
      → find_at a l ≡ some e
      → move_to_front a l ≡ e ∷ remove_at a l
  unfolding move_to_front
  moved_to_front a l e h = rw (h, move_to_front)

  set_val_head :
      (a : ℕ) (v : V) (e : Element V) (l : List (Element V))
      → e.at ≡ a
      → set_val a v (e ∷ l) ≡ record e { val = v } ∷ l
  unfolding set_val
  set_val_head a v e l h = ground arith

  pub get_lem :
      (c : Lru V) (k : Text)
      → IsValid c
      → IsValid (get c k).0
        × ((get c k).1 ≡ lookup k (entries c.ll))
        × (entries (get c k).0.ll ≡ touch k (entries c.ll))
        × ((get c k).0.cap ≡ c.cap)
  unfolding get insert
  get_lem c k h = elim (Option-cases (lookup k c.m)) [
    | inl miss ↦
        let absent = addr_of-none k c.ll (sym (h.indexed k) ∙ miss) in
        rw (miss, get) (h, ground arith, ground arith, refl)
    | inr (a, hit) ↦
        let i = sym (h.indexed k) ∙ hit in
        let (e, at_a, key, at, val, rest, len) = found k a c.ll h.distinct i in
        rw (hit, get, moved_to_front a c.ll e at_a, at_a, val)
          (moved-IsValid c k a e h e.val at_a i key at len, refl, ground arith, refl)
  ]

  evict_lem :
      (c : Lru V)
      → ((k : Text) → lookup k c.m ≡ addr_of k c.ll)
      → IsDistinct c.ll
      → All (λ e. e.at < c.next) c.ll
      → length c.ll ≤ suc c.cap
      → IsValid (evict c)
        × (entries (evict c).ll ≡ take c.cap (entries c.ll))
        × ((evict c).cap ≡ c.cap)
  unfolding evict
  evict_lem c indexed distinct below len = elim (Bool-cases (ltb c.cap (length c.ll))) [
    | inl over ↦
        let (b, last) = back-some_of_pos c.ll (ground arith) in
        let (at_b, rest) = back-take c.ll b distinct last in
        let n : length c.ll - 1 ≡ c.cap = ground arith in
        rw (over, last)
          (
            record {
              indexed = λ j. ground (
                arith,
                indexed j,
                lookup-erase j b.key c.m,
                addr_of-remove_at j b.at c.ll b distinct at_b,
              );
              distinct = IsDistinct-remove_at b.at c.ll distinct;
              below = All-remove_at _ b.at c.ll below;
              bounded = rw (rest, n) (omega (arith, length-take {ℓ} c.cap c.ll));
            },
            rw (rest, n) (entries-take c.cap c.ll),
            refl,
          )
    | inr fits ↦ rw fits (
      record { indexed = indexed; distinct = distinct; below = below; bounded = ground arith },
      sym (take_of_length-le c.cap (entries c.ll) (ground (arith, length-entries c.ll))),
      refl,
    )
  ]

  abbrev pushed : Lru V → Text → V → Lru V
  pushed c k v = record c {
    ll = record { at = c.next; key = k; val = v } ∷ c.ll;
    m = insert k c.next c.m;
    next = suc c.next;
  }

  Apart-new :
      (n : ℕ) (k : Text) (v : V) (l : List (Element V))
      → All (λ e. e.at < n) l
      → All (λ e. e.key ≢ k) l
      → All (Apart (record { at = n; key = k; val = v })) l
  Apart-new n k v [] b d = tt
  Apart-new n k v (x ∷ l) b d = ((omega arith, d.0), Apart-new n k v l b.1 d.1)

  All-below-suc : (n : ℕ) (l : List (Element V)) → All (λ e. e.at < n) l → All (λ e. e.at < suc n) l
  All-below-suc n [] b = tt
  All-below-suc n (x ∷ l) b = (omega arith, All-below-suc n l b.1)

  pub put_lem :
      (c : Lru V) (k : Text) (v : V)
      → IsValid c
      → IsValid (put c k v)
        × (entries (put c k v).ll ≡ take c.cap (insert k v (entries c.ll)))
        × ((put c k v).cap ≡ c.cap)
  unfolding put insert addr_of
  put_lem c k v h = elim (Option-cases (lookup k c.m)) [
    | inl miss ↦
        let i = sym (h.indexed k) ∙ miss in
        let absent = addr_of-none k c.ll i in
        (rw (miss, put)
          (let (ok, same, cap) =
              evict_lem (pushed c k v)
                (λ j. ground (arith, h.indexed j, lookup-insert j k c.next c.m))
                (Apart-new c.next k v c.ll h.below absent.2, h.distinct)
                (omega arith, All-below-suc c.next c.ll h.below) (omega (arith, h.bounded)) in
            (ok, rw (absent.1) same, cap)))
    | inr (a, hit) ↦
        let i = sym (h.indexed k) ∙ hit in
        let (e, at_a, key, at, val, rest, len) = found k a c.ll h.distinct i in
        rw (hit, put, moved_to_front a c.ll e at_a, set_val_head a v e (remove_at a c.ll) at)
          (
            moved-IsValid c k a e h v at_a i key at len,
            rw (rest, key)
                (sym (
                  take_of_length-le c.cap _
                    (ground (arith, length-entries (remove_at a c.ll), ap length rest)))),
            refl,
          )
  ]
