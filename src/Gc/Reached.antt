-- ===== src/Gc/Reached.antt =====
-- The first pass of gc.go: a piece of a stored torrent is in the set when the pass ends, whatever the
-- order of the workers' steps.
use samogon.Base.{
  In, Text, Bytes, insert, lookup-insert, ℕ, zero, suc, ◌<◌, ◌≡◌, refl, sym, ◌⊎◌, inl, inr, true,
  List, [], ◌∷◌, length, Option, none, some, arith,
}
use mathlib.Core.Path.{subst}
use samogon.Gc.{
  Gc, Marker, reading, storing, mark_step, finish_stores, finish_marker, finish_markers, mark,
}
use samogon.Gc.Kept.{finish_stores-Kept, finish_markers-Kept}
use samogon.Gc.Mark.{Has, Same}
use samogon.Meta.Parsed.{Info}
use samogon.Storage.Client.{S3, IsLawful, IsReliable}
use samogon.Throw.{ok, Ensures, Ensures-bind, Ensures-map}
use mathlib.Core.Option.{some-injective}
use samogon.Gc.Owed.{
  Owes, Coming, OwesNext, Owed, all-Fine, All-Fine, StepOwed, mark_step-Owes, stays,
  unchanged_marks, run_marks-Coming, unchanged,
}

-- No read fails, and the torrent of `t` is stored, loads and names the piece `h`.
module _ {S : S3} (L : IsLawful S) (load : Bytes → Option Info) (bucket : Text → Option Bytes)
    (reliable : IsReliable S L) (t : Text) (raw : Bytes) (info : Info) (h : Text)
    (is : bucket t ≡ some raw) (good : load raw ≡ some info) (piece : In (some h) info.pieces) where
  abbrev SameAll : Gc S → Type 0
  SameAll = Same L load bucket

  abbrev Owing : Marker → Type 0
  Owing = Owes L load bucket reliable t raw info h is good piece

  abbrev Soon : Gc S → Type 0
  Soon = Coming L load bucket reliable t raw info h is good piece

  finish_stores-Has :
      (rounds : ℕ) (hs : List (Option Text)) (w : Gc S)
      → SameAll w
      → In (some h) hs
      → length hs < rounds
      → Ensures SameAll (λ _ w'. Has h w'.alive) (finish_stores load rounds (storing hs) w)
  unfolding finish_stores mark_step
  finish_stores-Has zero hs w same i fuel = absurd (omega arith)
  finish_stores-Has (suc rounds) [] w same i fuel = absurd i
  finish_stores-Has (suc rounds) (none ∷ hs) w same i fuel = same
  finish_stores-Has (suc rounds) (some g ∷ hs) w same (inl e) fuel =
      let has : Has h (insert g true w.alive) =
        ground (arith, lookup-insert h g true w.alive, some-injective h g e) in
      stays L load bucket reliable t raw info h is good piece (λ _ _. Unit {0}) _
        (finish_stores-Kept L load bucket (Has h) rounds (storing hs)
          (record w { alive = insert g true w.alive })
          (all-Fine L load bucket reliable t raw info h is good piece (storing hs)) (same, has))
  finish_stores-Has (suc rounds) (some g ∷ hs) w same (inr i) fuel =
      finish_stores-Has rounds hs (record w { alive = insert g true w.alive }) same i (omega arith)

  finish_marker-Has :
      (m : Marker) (w : Gc S)
      → SameAll w
      → Owing m
      → Ensures SameAll (λ _ w'. Has h w'.alive) (finish_marker load m w)
  unfolding finish_marker
  finish_marker-Has (storing hs) w same i =
      finish_stores-Has (suc (length hs)) hs w same i (omega arith)
  finish_marker-Has (reading key) w same e =
      Ensures-bind SameAll
        (λ next w'.
          Has h w'.alive ⊎ OwesNext L load bucket reliable t raw info h is good piece next)
        (λ _ w'. Has h w'.alive) _ _
        (Ensures-map SameAll SameAll (StepOwed L load bucket reliable t raw info h is good piece w)
          (λ next w'.
            Has h w'.alive ⊎ OwesNext L load bucket reliable t raw info h is good piece next)
          _ (λ _ s. s) (λ _ _ _ p. p.0)
          (mark_step-Owes L load bucket reliable t raw info h is good piece (reading key) w same e))
        (λ next w' same' how. after next w' same' how)
    where
      after :
          (next : Option Marker) (w' : Gc S)
          → SameAll w'
          → Has h w'.alive ⊎ OwesNext L load bucket reliable t raw info h is good piece next
          → Ensures {0, 0, 0} SameAll
              (λ _ w''. Has h w''.alive)
              (elim next [
                | none ↦ ok tt w'
                | some (reading _) ↦ ok tt w'
                | some (storing hs) ↦ finish_stores load (suc (length hs)) (storing hs) w'
              ])
      after none w' same' (inl has) = (same', has)
      after none w' same' (inr o) = absurd o
      after (some (reading k)) w' same' (inl has) = (same', has)
      after (some (reading k)) w' same' (inr o) = absurd o
      after (some (storing hs)) w' same' (inl has) =
          stays L load bucket reliable t raw info h is good piece (λ _ _. Unit {0}) _
            (finish_stores-Kept L load bucket (Has h) (suc (length hs)) (storing hs) w'
              (all-Fine L load bucket reliable t raw info h is good piece (storing hs))
              (same', has))
      after (some (storing hs)) w' same' (inr i) =
          finish_stores-Has (suc (length hs)) hs w' same' i (omega arith)

  finish_markers-Has :
      (ms : List Marker) (w : Gc S)
      → SameAll w
      → Has h w.alive ⊎ Owed L load bucket reliable t raw info h is good piece ms
      → Ensures SameAll (λ _ w'. Has h w'.alive) (finish_markers load ms w)
  unfolding finish_markers
  finish_markers-Has ms w same (inl has) =
      stays L load bucket reliable t raw info h is good piece (λ _ _. Unit {0})
        (finish_markers load ms w)
        (finish_markers-Kept L load bucket (Has h) ms w
          (All-Fine L load bucket reliable t raw info h is good piece ms) (same, has))
  finish_markers-Has [] w same (inr (m, i, o)) = absurd i
  finish_markers-Has (m ∷ ms) w same (inr (m', inl e, o)) =
      Ensures-bind SameAll (λ _ w'. Has h w'.alive) (λ _ w'. Has h w'.alive) _ _
        (finish_marker-Has m w same (subst Owing e o))
        (λ _ w' same' has. finish_markers-Has ms w' same' (inl has))
  finish_markers-Has (m ∷ ms) w same (inr (m', inr i, o)) =
      Ensures-bind SameAll (λ _ _. Unit {0}) (λ _ w'. Has h w'.alive) _ _
        (unchanged L load bucket reliable t raw info h is good piece m w same)
        (λ _ w' same' _. finish_markers-Has ms w' same' (inr (m', i, o)))

  -- When the pass ends, the hash is in the set.
  pub mark-Has :
      (orders : ℕ → List ℕ) (keys : List Text) (w : Gc S)
      → SameAll w
      → Soon w ⊎ In t keys
      → Ensures SameAll (λ _ w'. Has h w'.alive) (mark load orders keys w)
  unfolding mark
  mark-Has orders [] w same (inr i) = absurd i
  mark-Has orders [] w same (inl coming) =
      Ensures-bind SameAll (λ _ w'. Soon w') (λ _ w'. Has h w'.alive) _ _
        (run_marks-Coming L load bucket reliable t raw info h is good piece (orders 0) w same
          coming)
        (λ _ w' same' coming'.
          finish_markers-Has w'.marking (record w' { marking = [] }) same' coming')
  mark-Has orders (k ∷ ks) w same (inl coming) =
      Ensures-bind SameAll (λ _ w'. Soon w') (λ _ w'. Has h w'.alive) _ _
        (run_marks-Coming L load bucket reliable t raw info h is good piece
          (orders (suc (length ks))) w same coming)
        (λ _ w' same' coming'.
          mark-Has orders ks (record w' { marking = reading k ∷ w'.marking }) same'
            (inl (more k w' coming')))
    where
      more :
          (k : Text) (w' : Gc S) → Soon w' → Soon (record w' { marking = reading k ∷ w'.marking })
      more k w' (inl has) = inl has
      more k w' (inr (m, i, o)) = inr (m, inr i, o)
  mark-Has orders (k ∷ ks) w same (inr i) =
      Ensures-bind SameAll (λ _ _. Unit {0}) (λ _ w'. Has h w'.alive) _ _
        (unchanged_marks L load bucket reliable t raw info h is good piece
          (orders (suc (length ks))) w same)
        (λ _ w' same' _.
          mark-Has orders ks (record w' { marking = reading k ∷ w'.marking }) same' (next w' i))
    where
      next :
          (w' : Gc S)
          → In t (k ∷ ks)
          → Soon (record w' { marking = reading k ∷ w'.marking }) ⊎ In t ks
      next w' (inl e) = inl (inr (reading k, inl refl, sym e))
      next w' (inr rest) = inr rest
