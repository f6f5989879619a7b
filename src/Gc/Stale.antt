-- ===== src/Gc/Stale.antt =====
-- The second pass of gc.go: a streamed object whose hash is not in the set is gone when it ends.
use samogon.Base.{
  In, In_drop_at, Text, text_dec, lookup, ℕ, ◌≡◌, ◌≢◌, refl, sym, ap, ◌∙◌, ◌⊎◌, inl, inr, Bool,
  false, List, [], ◌∷◌, length, get_elem?, drop_at, none, some, Option-cases,
}
use mathlib.Core.Option.{some-ne-none}
use mathlib.Core.Path.{subst}
use samogon.Gc.{Gc, remove_piece, delete_at, run_deletes, scan, finish_deletes, sweep}
use samogon.Gc.Sweep.{Frame, remove_piece_lem}
use samogon.Storage.Client.{S3, IsLawful}
use samogon.Storage.Laws.{at}
use samogon.Strings.{base}
use samogon.Throw.{Ensures, Ensures-bind, Ensures-map}

module _ {S : S3} (L : IsLawful S) (j : Text) where
  -- The hash is not in the set. The key is still to come, or the workers have it, or the object is gone.
  abbrev Doomed : List Text → Gc S → Type 0
  Doomed todo w =
      (lookup (base j) w.alive ≡ none) × (In j todo ⊎ (In j w.stale ⊎ (at L w.store j ≡ none)))

  abbrev Any : Gc S → Type 0
  Any w = Unit {0}

  remove_dooms :
      (k : Text) (todo : List Text) (w : Gc S)
      → lookup (base j) w.alive ≡ none
      → (j ≡ k) ⊎ (In j todo ⊎ (In j w.stale ⊎ (at L w.store j ≡ none)))
      → Ensures Any (λ _ w'. Doomed todo w' × (w'.stale ≡ w.stale)) (remove_piece k w)
  remove_dooms k todo w dead how =
      Ensures-map (Frame L k w) Any (λ _ w'. at L w'.store k ≡ none)
        (λ _ w'. Doomed todo w' × (w'.stale ≡ w.stale)) (remove_piece k w) (λ _ _. tt)
        (λ _ w' (keep, (alive, stale)) gone.
          ((ap (lookup (base j)) alive ∙ dead, after w' keep stale gone how), stale))
        (remove_piece_lem L k w)
    where
      after :
          (w' : Gc S)
          → ((i : Text) → i ≢ k → at L w'.store i ≡ at L w.store i)
          → w'.stale ≡ w.stale
          → at L w'.store k ≡ none
          → (j ≡ k) ⊎ (In j todo ⊎ (In j w.stale ⊎ (at L w.store j ≡ none)))
          → In j todo ⊎ (In j w'.stale ⊎ (at L w'.store j ≡ none))
      after w' keep stale gone (inl e) = inr (inr (ap (at L w'.store) e ∙ gone))
      after w' keep stale gone (inr (inl there)) = inl there
      after w' keep stale gone (inr (inr (inl there))) = inr (inl (subst (In j) (sym stale) there))
      after w' keep stale gone (inr (inr (inr e))) = elim (text_dec j k) [
        | yes p ↦ inr (inr (ap (at L w'.store) p ∙ gone))
        | no n ↦ inr (inr (keep j n ∙ e))
      ]

  delete_at_dooms :
      (i : ℕ) (todo : List Text) (w : Gc S)
      → Doomed todo w
      → Ensures Any (λ _ w'. Doomed todo w') (delete_at i w)
  unfolding delete_at
  delete_at_dooms i todo w (dead, how) = elim (Option-cases (get_elem? w.stale i)) [
    | inl out ↦ rw (out, delete_at) (tt, (dead, how))
    | inr (k, e) ↦
        rw (e, delete_at)
          (Ensures-map Any Any (λ _ w'. Doomed todo w' × (w'.stale ≡ drop_at i w.stale))
            (λ _ w'. Doomed todo w') _ (λ _ a. a) (λ _ _ _ d. d.0)
            (remove_dooms k todo (record w { stale = drop_at i w.stale }) dead (taken k e how)))
  ]
    where
      taken :
          (k : Text)
          → get_elem? w.stale i ≡ some k
          → In j todo ⊎ (In j w.stale ⊎ (at L w.store j ≡ none))
          → (j ≡ k) ⊎ (In j todo ⊎ (In j (drop_at i w.stale) ⊎ (at L w.store j ≡ none)))
      taken k e (inl there) = inr (inl there)
      taken k e (inr (inr gone)) = inr (inr (inr gone))
      taken k e (inr (inl there)) = elim (In_drop_at w.stale i k j e there) [
        | inl same ↦ inl same
        | inr rest ↦ inr (inr (inl rest))
      ]

  run_deletes_dooms :
      (is : List ℕ) (todo : List Text) (w : Gc S)
      → Doomed todo w
      → Ensures Any (λ _ w'. Doomed todo w') (run_deletes is w)
  unfolding run_deletes
  run_deletes_dooms [] todo w doomed = (tt, doomed)
  run_deletes_dooms (i ∷ is) todo w doomed =
      Ensures-bind Any (λ _ w'. Doomed todo w') (λ _ w'. Doomed todo w') _ _
        (delete_at_dooms i todo w doomed) (λ _ w' _ doomed'. run_deletes_dooms is todo w' doomed')

  scan_dooms :
      (orders : ℕ → List ℕ) (ks : List Text) (w : Gc S)
      → Doomed ks w
      → Ensures Any (λ _ w'. Doomed [] w') (scan orders ks w)
  unfolding scan
  scan_dooms orders [] w doomed = (tt, doomed)
  scan_dooms orders (k ∷ ks) w doomed =
      Ensures-bind Any (λ _ w'. Doomed (k ∷ ks) w') (λ _ w'. Doomed [] w') _ _
        (run_deletes_dooms (orders (length ks)) (k ∷ ks) w doomed)
        (λ _ w1 _ (dead, how). elim (Option-cases (lookup (base k) w1.alive)) [
          | inr (v, e) ↦
              rw e (scan_dooms orders ks _ (dead, passed w1 (λ eq. other w1 v e eq dead) how))
          | inl e ↦ rw e (scan_dooms orders ks _ (dead, given w1 how))
        ])
    where
      other :
          (w1 : Gc S) (v : Bool)
          → lookup (base k) w1.alive ≡ some v
          → j ≡ k
          → lookup (base j) w1.alive ≡ none
          → ⊥
      other w1 v e eq dead =
          some-ne-none v (sym e ∙ (ap (λ (x : Text). lookup (base x) w1.alive) (sym eq) ∙ dead))

      passed :
          (w1 : Gc S)
          → j ≢ k
          → In j (k ∷ ks) ⊎ (In j w1.stale ⊎ (at L w1.store j ≡ none))
          → In j ks ⊎ (In j w1.stale ⊎ (at L w1.store j ≡ none))
      passed w1 ne (inl (inl e)) = absurd (ne e)
      passed w1 ne (inl (inr there)) = inl there
      passed w1 ne (inr rest) = inr rest

      given :
          (w1 : Gc S)
          → In j (k ∷ ks) ⊎ (In j w1.stale ⊎ (at L w1.store j ≡ none))
          → In j ks ⊎ (In j (k ∷ w1.stale) ⊎ (at L w1.store j ≡ none))
      given w1 (inl (inl e)) = inr (inl (inl e))
      given w1 (inl (inr there)) = inl there
      given w1 (inr (inl there)) = inr (inl (inr there))
      given w1 (inr (inr gone)) = inr (inr gone)

  -- Nothing waits after the wait.
  finish_deletes_dooms :
      (ks : List Text) (w : Gc S)
      → w.stale ≡ []
      → Doomed ks w
      → Ensures Any (λ _ w'. at L w'.store j ≡ none) (finish_deletes ks w)
  unfolding finish_deletes
  finish_deletes_dooms [] w none_left (dead, inl there) = absurd there
  finish_deletes_dooms [] w none_left (dead, inr (inl there)) =
      absurd (subst (In j) none_left there)
  finish_deletes_dooms [] w none_left (dead, inr (inr gone)) = (tt, gone)
  finish_deletes_dooms (k ∷ ks) w none_left (dead, how) =
      Ensures-bind Any (λ _ w'. Doomed ks w' × (w'.stale ≡ w.stale))
        (λ _ w'. at L w'.store j ≡ none) _ _ (remove_dooms k ks w dead (first how))
        (λ _ w' _ (doomed, stale). finish_deletes_dooms ks w' (stale ∙ none_left) doomed)
    where
      first :
          In j (k ∷ ks) ⊎ (In j w.stale ⊎ (at L w.store j ≡ none))
          → (j ≡ k) ⊎ (In j ks ⊎ (In j w.stale ⊎ (at L w.store j ≡ none)))
      first (inl (inl e)) = inl e
      first (inl (inr there)) = inr (inl there)
      first (inr rest) = inr (inr rest)

  pub sweep_dooms :
      (orders : ℕ → List ℕ) (last : List ℕ) (dies : ℕ) (ks : List Text) (w : Gc S)
      → Doomed ks w
      → Ensures Any (λ _ w'. at L w'.store j ≡ none) (sweep orders last dies ks false w)
  unfolding sweep
  sweep_dooms orders last dies ks w doomed =
      Ensures-bind Any (λ _ w'. Doomed [] w') (λ _ w'. at L w'.store j ≡ none) _ _
        (scan_dooms orders ks w doomed)
        (λ _ w1 _ doomed1.
          Ensures-bind Any (λ _ w'. Doomed [] w') (λ _ w'. at L w'.store j ≡ none) _ _
            (run_deletes_dooms last [] w1 doomed1)
            (λ _ w2 _ (dead, how).
              finish_deletes_dooms w2.stale (record w2 { stale = [] }) refl (dead, handed w2 how)))
    where
      handed :
          (w2 : Gc S)
          → In j [] ⊎ (In j w2.stale ⊎ (at L w2.store j ≡ none))
          → In j w2.stale ⊎ (In j [] ⊎ (at L w2.store j ≡ none))
      handed w2 (inl there) = absurd there
      handed w2 (inr (inl there)) = inl there
      handed w2 (inr (inr gone)) = inr (inr gone)
