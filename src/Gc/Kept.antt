-- ===== src/Gc/Kept.antt =====
-- The first pass of gc.go as a whole: what its hashes keep of the set, it keeps.
use samogon.Base.{
  All, All_get_elem?, All-drop_at, Text, Bytes, Map, ℕ, zero, suc, refl, sym, inl, inr, Bool, List,
  [], ◌∷◌, length, In, get_elem?, drop_at, Option, none, some, Option-cases,
}
use mathlib.Core.Path.{subst}
use samogon.Gc.{
  Gc, Marker, reading, storing, mark_at, run_marks, finish_stores, finish_marker, finish_markers,
  mark,
}
use samogon.Meta.Parsed.{Info}
use samogon.Storage.Client.{S3, IsLawful}
use samogon.Throw.{ok, Ensures, Ensures-bind}
use samogon.Gc.Mark.{Kept, Fine, FineNext, Stepped, mark_step-Kept}

module _ {S : S3} (L : IsLawful S) (load : Bytes → Option Info) (bucket : Text → Option Bytes)
    (C : Map Bool → Type 0) where
  abbrev Keeps : Gc S → Type 0
  Keeps = Kept L load bucket C

  abbrev Fit : Marker → Type 0
  Fit = Fine L load bucket C

  abbrev FitNext : Option Marker → Type 0
  FitNext = FineNext L load bucket C

  abbrev Moved : Gc S → Option Marker → Gc S → Type 0
  Moved = Stepped L load bucket C

  -- All workers are as `Fit` asks.
  abbrev pub AllFine : Gc S → Type 0
  AllFine w = All Fit w.marking

  mark_at-Kept :
      (i : ℕ) (w : Gc S)
      → AllFine w
      → Keeps w
      → Ensures Keeps (λ _ w'. AllFine w') (mark_at load i w)
  unfolding mark_at
  mark_at-Kept i w fine kept = elim (Option-cases (get_elem? w.marking i)) [
    | inl out ↦ rw (out, mark_at) (kept, fine)
    | inr (m, e) ↦
        let rest = All-drop_at Fit i w.marking fine in
        rw (e, mark_at)
          (Ensures-bind Keeps (Moved (record w { marking = drop_at i w.marking }))
            (λ _ w'. AllFine w') _ _
            (mark_step-Kept L load bucket C m (record w { marking = drop_at i w.marking })
              (All_get_elem? Fit w.marking i m fine e) kept)
            (λ next w' kept' (f, same). back next w' kept' f (subst (All Fit) (sym same) rest)))
  ]
    where
      back :
          (next : Option Marker) (w' : Gc S)
          → Keeps w'
          → FitNext next
          → AllFine w'
          → Keeps (elim next [ none ↦ w' | some m' ↦ record w' { marking = m' ∷ w'.marking } ])
            × AllFine (elim next [ none ↦ w' | some m' ↦ record w' { marking = m' ∷ w'.marking } ])
      back none w' k f a = (k, a)
      back (some m) w' k f a = (k, (f, a))

  pub run_marks-Kept :
      (is : List ℕ) (w : Gc S)
      → AllFine w
      → Keeps w
      → Ensures Keeps (λ _ w'. AllFine w') (run_marks load is w)
  unfolding run_marks
  run_marks-Kept [] w fine kept = (kept, fine)
  run_marks-Kept (i ∷ is) w fine kept =
      Ensures-bind Keeps (λ _ w'. AllFine w') (λ _ w'. AllFine w') _ _ (mark_at-Kept i w fine kept)
        (λ _ w' kept' fine'. run_marks-Kept is w' fine' kept')

  pub finish_stores-Kept :
      (rounds : ℕ) (m : Marker) (w : Gc S)
      → Fit m
      → Keeps w
      → Ensures Keeps (λ _ _. Unit {0}) (finish_stores load rounds m w)
  unfolding finish_stores
  finish_stores-Kept zero m w fine kept = (kept, tt)
  finish_stores-Kept (suc rounds) m w fine kept =
      Ensures-bind Keeps (Moved w) (λ _ _. Unit {0}) _ _
        (mark_step-Kept L load bucket C m w fine kept)
        (λ next w' kept' (f, _).
          elim next
              as (λ n.
                FitNext n
                → Ensures {0, 0, 0} Keeps (λ _ _. Unit {0})
                    (elim n [ none ↦ ok tt w' | some m' ↦ finish_stores load rounds m' w' ])) [
                      | none ↦ λ _. (kept', tt)
                      | some m' ↦ λ f'. finish_stores-Kept rounds m' w' f' kept'
                    ]
            f)

  pub finish_marker-Kept :
      (m : Marker) (w : Gc S)
      → Fit m
      → Keeps w
      → Ensures Keeps (λ _ _. Unit {0}) (finish_marker load m w)
  unfolding finish_marker
  finish_marker-Kept (storing hs) w fine kept =
      finish_stores-Kept (suc (length hs)) (storing hs) w fine kept
  finish_marker-Kept (reading key) w fine kept =
      Ensures-bind Keeps (Moved w) (λ _ _. Unit {0}) _ _
        (mark_step-Kept L load bucket C (reading key) w fine kept)
        (λ next w' kept' (f, _). after next w' kept' f)
    where
      after :
          (next : Option Marker) (w' : Gc S)
          → Keeps w'
          → FitNext next
          → Ensures {0, 0, 0} Keeps
              (λ _ _. Unit {0})
              (elim next [
                | none ↦ ok tt w'
                | some (reading _) ↦ ok tt w'
                | some (storing hs) ↦ finish_stores load (suc (length hs)) (storing hs) w'
              ])
      after none w' k f = (k, tt)
      after (some (reading _)) w' k f = (k, tt)
      after (some (storing hs)) w' k f = finish_stores-Kept (suc (length hs)) (storing hs) w' f k

  pub finish_markers-Kept :
      (ms : List Marker) (w : Gc S)
      → All Fit ms
      → Keeps w
      → Ensures Keeps (λ _ _. Unit {0}) (finish_markers load ms w)
  unfolding finish_markers
  finish_markers-Kept [] w fine kept = (kept, tt)
  finish_markers-Kept (m ∷ ms) w fine kept =
      Ensures-bind Keeps (λ _ _. Unit {0}) (λ _ _. Unit {0}) _ _
        (finish_marker-Kept m w fine.0 kept)
        (λ _ w' kept' _. finish_markers-Kept ms w' fine.1 kept')

  pub mark-Kept :
      (orders : ℕ → List ℕ) (keys : List Text) (w : Gc S)
      → ((key : Text) → In key keys → Fit (reading key))
      → AllFine w
      → Keeps w
      → Ensures Keeps (λ _ _. Unit {0}) (mark load orders keys w)
  unfolding mark
  mark-Kept orders [] w keeps fine kept =
      Ensures-bind Keeps (λ _ w'. AllFine w') (λ _ _. Unit {0}) _ _
        (run_marks-Kept (orders 0) w fine kept)
        (λ _ w' kept' fine'.
          finish_markers-Kept w'.marking (record w' { marking = [] }) fine' kept')
  mark-Kept orders (k ∷ ks) w keeps fine kept =
      Ensures-bind Keeps (λ _ w'. AllFine w') (λ _ _. Unit {0}) _ _
        (run_marks-Kept (orders (suc (length ks))) w fine kept)
        (λ _ w' kept' fine'.
          mark-Kept orders ks (record w' { marking = reading k ∷ w'.marking })
            (λ key i. keeps key (inr i)) (keeps k (inl refl), fine') kept')
