-- ===== src/Cache/Runs.antt =====
-- Whole histories of the cache, and what holds of every entry.
use samogon.Base.{
  Text, ◌==◌, Map, lookup, insert, erase, ℕ, suc, zero, ◌<◌, ◌≡◌, refl, List, [], ◌∷◌, take, All,
  Option, none, some, arith, sym, ◌∙◌, ap, Bool-cases, Option-cases, inl, inr,
}
use mathlib.Core.Path.{ap₂, subst}
use samogon.Cache.{Lru, new_lru, get, put}
use samogon.Cache.Index.{entries, IsValid, found}
use samogon.Cache.Refine.{touch, new_lru-IsValid, get_lem, put_lem}

pub data Call {ℓ} (V : Type ℓ) : Type ℓ where
  get_call : Text → Call V
  put_call : Text → V → Call V

module _ {ℓ} {V : Type ℓ} where
  -- The calls in order, with what each `Get` returned.
  unfoldable pub run : List (Call V) → Lru V → Lru V × List (Option V)
  run [] c = (c, [])
  run (get_call k ∷ calls) c =
      let (c', v) = get c k in let (c'', vs) = run calls c' in (c'', v ∷ vs)
  run (put_call k v ∷ calls) c = run calls (put c k v)

  -- The same calls on an association list, the most recent key first.
  unfoldable pub spec_run : ℕ → List (Call V) → Map V → Map V × List (Option V)
  spec_run cap [] l = (l, [])
  spec_run cap (get_call k ∷ calls) l =
      let (l', vs) = spec_run cap calls (touch k l) in (l', lookup k l ∷ vs)
  spec_run cap (put_call k v ∷ calls) l = spec_run cap calls (take cap (insert k v l))

  run_from :
      (cap : ℕ) (calls : List (Call V)) (c : Lru V) (l : Map V)
      → IsValid c
      → entries c.ll ≡ l
      → c.cap ≡ cap
      → IsValid (run calls c).0
        × (entries (run calls c).0.ll ≡ (spec_run cap calls l).0)
        × ((run calls c).1 ≡ (spec_run cap calls l).1)
  unfolding run spec_run
  run_from cap [] c l h e n = (h, e, refl)
  run_from cap (get_call k ∷ calls) c l h e n =
      let (ok, answer, moved, kept) = get_lem c k h in
      let (valid, same, answers) =
        run_from cap calls (get c k).0 (touch k l) ok (moved ∙ ap (touch k) e) (kept ∙ n) in
      (valid, same, ap₂ ◌∷◌ (answer ∙ ap (lookup k) e) answers)
  run_from cap (put_call k v ∷ calls) c l h e n =
      let (ok, moved, kept) = put_lem c k v h in
      run_from cap calls (put c k v) (take cap (insert k v l)) ok
        (moved ∙ ap₂ (λ (m : ℕ) (l' : Map V). take m (insert k v l')) n e) (kept ∙ n)

  -- From an empty cache, any calls give the answers and leave the contents of the association list,
  -- and the invariant holds at the end, so that there are never more than `cap` entries.
  pub run-spec_run :
      (cap : ℕ) (calls : List (Call V))
      → IsValid (run calls (new_lru cap)).0
        × (entries (run calls (new_lru cap)).0.ll ≡ (spec_run cap calls []).0)
        × ((run calls (new_lru cap)).1 ≡ (spec_run cap calls []).1)
  unfolding new_lru
  run-spec_run cap calls = run_from cap calls (new_lru cap) [] (new_lru-IsValid cap) refl refl

  lookup-take_head :
      (n : ℕ) (k : Text) (v : V) (l : Map V) → 0 < n → lookup k (take n ((k, v) ∷ l)) ≡ some v
  unfolding lookup
  lookup-take_head zero k v l h = absurd (omega arith)
  lookup-take_head (suc n) k v l h = ground arith

  -- In a valid cache with room for an entry, what was put last is found.
  pub get-put :
      (c : Lru V) (k : Text) (v : V) → IsValid c → 0 < c.cap → (get (put c k v) k).1 ≡ some v
  unfolding insert
  get-put c k v h pos =
      let (ok, same, cap) = put_lem c k v h in
      let (_, answer, _, _) = get_lem (put c k v) k ok in
      answer ∙ (ap (lookup k) same ∙ lookup-take_head c.cap k v (erase k (entries c.ll)) pos)

  module _ {κ} (P : Text × V → Type κ) where
    pub All-erase : (k : Text) (l : Map V) → All P l → All P (erase k l)
    unfolding erase
    All-erase k [] p = tt
    All-erase k ((j, v) ∷ l) p = elim (Bool-cases (k == j)) [
      | inl here ↦ rw here (All-erase k l p.1)
      | inr there ↦ rw there (p.0, All-erase k l p.1)
    ]

    pub All-take : (n : ℕ) (l : Map V) → All P l → All P (take n l)
    All-take zero l p = tt
    All-take (suc n) [] p = tt
    All-take (suc n) (x ∷ l) p = (p.0, All-take n l p.1)

    pub All-lookup : (k : Text) (l : Map V) (v : V) → lookup k l ≡ some v → All P l → P (k, v)
    unfolding lookup
    All-lookup k [] v h p = absurd (ground arith)
    All-lookup k ((j, w) ∷ l) v h p = elim (Bool-cases (k == j)) [
      | inl here ↦
          let e : j ≡ k = ground arith in
          let e' : w ≡ v = ground arith in
          subst (λ (i : Text). P (i, v)) e (subst (λ (u : V). P (j, u)) e' p.0)
      | inr there ↦ All-lookup k l v (rw there at h) p.1
    ]

    All-touch : (k : Text) (l : Map V) → All P l → All P (touch k l)
    unfolding insert
    All-touch k l p = elim (Option-cases (lookup k l)) [
      | inl miss ↦ rw (miss, touch) p
      | inr (v, hit) ↦ rw (hit, touch) (All-lookup k l v hit p, All-erase k l p)
    ]

    -- What holds of every entry holds after `Get`, and of the value that it returns.
    pub All-get :
        (c : Lru V) (k : Text) → IsValid c → All P (entries c.ll) → All P (entries (get c k).0.ll)
    All-get c k h p =
        let (_, _, moved, _) = get_lem c k h in rw moved (All-touch k (entries c.ll) p)

    pub All-put :
        (c : Lru V) (k : Text) (v : V)
        → IsValid c
        → All P (entries c.ll)
        → P (k, v)
        → All P (entries (put c k v).ll)
    unfolding insert
    All-put c k v h p q =
        rw ((put_lem c k v h).1) (All-take c.cap _ (q, All-erase k (entries c.ll) p))

-- A miss changes nothing.
pub get_miss {ℓ} :
    {V : Type ℓ} (c : Lru V) (k : Text) → IsValid c → (get c k).1 ≡ none → (get c k).0 ≡ c
unfolding get
get_miss c k h miss = elim (Option-cases (lookup k c.m)) [
  | inl e ↦ rw (e, get)
  | inr (a, e) ↦
      let (x, at_a, _, _, _, _, _) = found k a c.ll h.distinct (sym (h.indexed k) ∙ e) in
      absurd (ground arith)
]
