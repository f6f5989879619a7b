-- ===== src/Gc/Owed.antt =====
-- The first pass of gc.go: a piece of a stored torrent is in the set, or a worker is going to store it.
use samogon.Base.{
  All, In, In_drop_at, Text, Bytes, lookup-insert, ℕ, ◌≡◌, refl, sym, ap, ◌∙◌, ◌⊎◌, inl, inr, true,
  List, [], ◌∷◌, get_elem?, drop_at, Option, none, some, arith, Option-cases,
}
use mathlib.Core.Path.{subst}
use samogon.Gc.{Gc, Marker, reading, storing, mark_step, mark_at, run_marks, finish_marker}
use samogon.Gc.Kept.{AllFine, run_marks-Kept, finish_marker-Kept}
use samogon.Gc.Mark.{
  Has, insert-Has, Same, Next, Kept, Fine, Stepped, mark_step-Next, mark_step-Kept,
}
use samogon.Meta.Parsed.{Info}
use samogon.Storage.Client.{S3, IsLawful, IsReliable}
use samogon.Throw.{Run, ok, thrown, crashed, Ensures, Ensures-bind, Ensures-map}
use mathlib.Core.Option.{some-injective}

-- No read fails, and the torrent of `t` is stored, loads and names the piece `h`.
module _ {S : S3} (L : IsLawful S) (load : Bytes → Option Info) (bucket : Text → Option Bytes)
    (reliable : IsReliable S L) (t : Text) (raw : Bytes) (info : Info) (h : Text)
    (is : bucket t ≡ some raw) (good : load raw ≡ some info) (piece : In (some h) info.pieces) where
  abbrev pub SameAll : Gc S → Type 0
  SameAll = Same L load bucket

  -- A worker that is going to store the hash.
  abbrev pub Owes : Marker → Type 0
  Owes (reading key) = key ≡ t
  Owes (storing hs) = In (some h) hs

  abbrev pub OwesNext : Option Marker → Type 0
  OwesNext none = ⊥
  OwesNext (some (reading key)) = ⊥
  OwesNext (some (storing hs)) = In (some h) hs

  abbrev pub Owed : List Marker → Type 0
  Owed ms = (m : Marker) × In m ms × Owes m

  -- The hash is in the set, or a worker is going to store it.
  abbrev pub Coming : Gc S → Type 0
  Coming w = Has h w.alive ⊎ Owed w.marking

  pub all-Fine : (m : Marker) → Fine L load bucket (Has h) m
  all-Fine (reading key) = λ info' read g i alive. insert-Has h g alive
  all-Fine (storing hs) = λ g i alive. insert-Has h g alive

  pub All-Fine : (ms : List Marker) → All (Fine L load bucket (Has h)) ms
  All-Fine [] = tt
  All-Fine (m ∷ ms) = (all-Fine m, All-Fine ms)

  -- What a step of a worker that owes the hash leaves.
  abbrev pub StepOwed : Gc S → Option Marker → Gc S → Type 0
  StepOwed w next w' = (Has h w'.alive ⊎ OwesNext next) × (w'.marking ≡ w.marking)

  Next-Owes : (next : Option Marker) → Next L load bucket t next → OwesNext next
  Next-Owes none (s, same, no_) = no_ raw info (reliable.answers t s raw (same t ∙ is)) good
  Next-Owes (some (reading k)) n = absurd n
  Next-Owes (some (storing hs)) (info', (s, same, raw', e, l), eq) =
      let answered = reliable.answers t s raw (same t ∙ is) in
      let one : ◌≡◌ {A = Option Info} (some info) (some info') = cc in
      subst (In (some h)) (ap (λ (i : Info). i.pieces) (some-injective info info' one) ∙ sym eq)
        piece

  pub mark_step-Owes :
      (m : Marker) (w : Gc S)
      → Same L load bucket w
      → Owes m
      → Ensures SameAll (StepOwed w) (mark_step load m w)
  unfolding mark_step
  mark_step-Owes (reading key) w same owes = go _ (mark_step-Next L load bucket key w same)
    where
      go :
          (r : Run (Gc S) (Option Marker))
          → Ensures
              (λ w'. Same L load bucket w' × ((w'.alive ≡ w.alive) × (w'.marking ≡ w.marking)))
              (λ next _. Next L load bucket key next)
              r
          → Ensures SameAll (StepOwed w) r
      go (ok next w') ((same', (a, m)), n) = (
        same',
        (inr (Next-Owes next (subst (λ (k : Text). Next L load bucket k next) owes n)), m),
      )
      go (thrown e w') (same', _) = same'
      go (crashed w') (same', _) = same'
  mark_step-Owes (storing []) w same owes = absurd owes
  mark_step-Owes (storing (none ∷ hs)) w same owes = same
  mark_step-Owes (storing (some g ∷ hs)) w same (inl e) =
      (same, (inl (ground (arith, lookup-insert h g true w.alive, some-injective h g e)), refl))
  mark_step-Owes (storing (some g ∷ hs)) w same (inr i) = (same, (inr i, refl))

  -- The worker is put back among the others.
  abbrev put_back : Option Marker → Gc S → Gc S
  put_back next w' = elim next [ none ↦ w' | some m' ↦ record w' { marking = m' ∷ w'.marking } ]

  put_back-Has :
      (next : Option Marker) (w' : Gc S)
      → SameAll w'
      → Has h w'.alive
      → SameAll (put_back next w') × Coming (put_back next w')
  put_back-Has none w' same has = (same, inl has)
  put_back-Has (some m) w' same has = (same, inl has)

  put_back-Owed :
      (next : Option Marker) (w' : Gc S)
      → SameAll w'
      → Owed w'.marking
      → SameAll (put_back next w') × Coming (put_back next w')
  put_back-Owed none w' same owed = (same, inr owed)
  put_back-Owed (some m) w' same (m', i, o) = (same, inr (m', inr i, o))

  put_back-Owes :
      (next : Option Marker) (w' : Gc S)
      → SameAll w'
      → OwesNext next
      → SameAll (put_back next w') × Coming (put_back next w')
  put_back-Owes none w' same o = absurd o
  put_back-Owes (some (reading key)) w' same o = absurd o
  put_back-Owes (some (storing hs)) w' same o = (same, inr (storing hs, inl refl, o))

  -- A run of workers takes no hash out of the set.
  pub stays :
      {A : Type 0} (Q : A → Gc S → Type 0) (r : Run (Gc S) A)
      → Ensures (Kept L load bucket (Has h)) Q r
      → Ensures SameAll (λ _ w'. Has h w'.alive) r
  stays Q r held =
      Ensures-map (Kept L load bucket (Has h)) SameAll Q (λ _ w'. Has h w'.alive) r (λ _ k. k.0)
        (λ _ _ k _. k.1) held

  kept_step :
      (m : Marker) (w : Gc S)
      → SameAll w
      → Has h w.alive
      → Ensures SameAll (λ _ w'. Has h w'.alive) (mark_step load m w)
  kept_step m w same has =
      stays (Stepped L load bucket (Has h) w) (mark_step load m w)
        (mark_step-Kept L load bucket (Has h) m w (all-Fine m) (same, has))

  anything : (m : Marker) → Fine L load bucket (λ _. Unit {0}) m
  anything (reading key) = λ _ _ _ _ _ _. tt
  anything (storing hs) = λ _ _ _ _. tt

  All_anything : (ms : List Marker) → All (Fine L load bucket (λ _. Unit {0})) ms
  All_anything [] = tt
  All_anything (m ∷ ms) = (anything m, All_anything ms)

  -- The pass changes no object.
  pub unchanged :
      (m : Marker) (w : Gc S)
      → SameAll w
      → Ensures SameAll (λ _ _. Unit {0}) (finish_marker load m w)
  unchanged m w same =
      Ensures-map (Kept L load bucket (λ _. Unit {0})) SameAll (λ _ _. Unit {0}) (λ _ _. Unit {0})
        (finish_marker load m w) (λ _ k. k.0) (λ _ _ _ _. tt)
        (finish_marker-Kept L load bucket (λ _. Unit {0}) m w (anything m) (same, tt))

  pub unchanged_marks :
      (is : List ℕ) (w : Gc S) → SameAll w → Ensures SameAll (λ _ _. Unit {0}) (run_marks load is w)
  unchanged_marks is w same =
      Ensures-map (Kept L load bucket (λ _. Unit {0})) SameAll
        (λ _ w'. AllFine L load bucket (λ _. Unit {0}) w') (λ _ _. Unit {0}) (run_marks load is w)
        (λ _ k. k.0) (λ _ _ _ _. tt)
        (run_marks-Kept L load bucket (λ _. Unit {0}) is w (All_anything w.marking) (same, tt))

  -- No step changes what the other workers have to do.
  other_step :
      (m : Marker) (w : Gc S)
      → SameAll w
      → Owed w.marking
      → Ensures SameAll (λ _ w'. Owed w'.marking) (mark_step load m w)
  other_step m w same owed =
      Ensures-map (Kept L load bucket (λ _. Unit {0})) SameAll
        (Stepped L load bucket (λ _. Unit {0}) w) (λ _ w'. Owed w'.marking) (mark_step load m w)
        (λ _ k. k.0) (λ _ w' _ (_, eq). subst Owed (sym eq) owed)
        (mark_step-Kept L load bucket (λ _. Unit {0}) m w (anything m) (same, tt))

  -- What a worker's step leaves of a hash that is coming.
  mark_at-Coming :
      (i : ℕ) (w : Gc S)
      → SameAll w
      → Coming w
      → Ensures SameAll (λ _ w'. Coming w') (mark_at load i w)
  unfolding mark_at
  mark_at-Coming i w same coming = elim (Option-cases (get_elem? w.marking i)) [
    | inl out ↦ rw (out, mark_at) (same, coming)
    | inr (m, e) ↦
        rw (e, mark_at)
          (elim (split m e coming) [
            | inl (inl has) ↦
                Ensures-bind SameAll (λ _ w'. Has h w'.alive) (λ _ w'. Coming w') _ _
                  (kept_step m (taken m) same has)
                  (λ next w' same' has'. put_back-Has next w' same' has')
            | inl (inr owed) ↦
                Ensures-bind SameAll (λ _ w'. Owed w'.marking) (λ _ w'. Coming w') _ _
                  (other_step m (taken m) same owed)
                  (λ next w' same' owed'. put_back-Owed next w' same' owed')
            | inr owes ↦
                Ensures-bind SameAll (StepOwed (taken m)) (λ _ w'. Coming w') _ _
                  (mark_step-Owes m (taken m) same owes)
                  (λ next w' same' (how, _). elim how [
                    | inl has ↦ put_back-Has next w' same' has
                    | inr o ↦ put_back-Owes next w' same' o
                  ])
          ])
  ]
    where
      taken : Marker → Gc S
      taken m = record w { marking = drop_at i w.marking }

      split :
          (m : Marker)
          → get_elem? w.marking i ≡ some m
          → Coming w
          → (Has h w.alive ⊎ Owed (drop_at i w.marking)) ⊎ Owes m
      split m e (inl has) = inl (inl has)
      split m e (inr (m', there, o)) = elim (In_drop_at w.marking i m m' e there) [
        | inl eq ↦ inr (subst Owes eq o)
        | inr rest ↦ inl (inr (m', rest, o))
      ]

  pub run_marks-Coming :
      (is : List ℕ) (w : Gc S)
      → SameAll w
      → Coming w
      → Ensures SameAll (λ _ w'. Coming w') (run_marks load is w)
  unfolding run_marks
  run_marks-Coming [] w same coming = (same, coming)
  run_marks-Coming (i ∷ is) w same coming =
      Ensures-bind SameAll (λ _ w'. Coming w') (λ _ w'. Coming w') _ _
        (mark_at-Coming i w same coming)
        (λ _ w' same' coming'. run_marks-Coming is w' same' coming')
