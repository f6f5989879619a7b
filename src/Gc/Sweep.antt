-- ===== src/Gc/Sweep.antt =====
-- The second pass of gc.go: which objects it deletes, whatever the order of the workers' steps.
use samogon.Base.{
  In, In_get_elem?, In_of_In_drop_at, Text, Bytes, lookup, ℕ, ◌≡◌, ◌≢◌, refl, sym, ap, ◌∙◌, inl,
  inr, Bool, true, false, List, [], ◌∷◌, length, take, get_elem?, drop_at, Option, none,
  Option-cases,
}
use mathlib.Core.Option.{some-ne-none}
use mathlib.Core.Path.{subst}
use samogon.Gc.{Gc, remove_piece, delete_at, run_deletes, scan, finish_deletes, sweep}
use samogon.Gc.Mark.{Has}
use samogon.Storage.{Storage, delete}
use samogon.Storage.Client.{S3, IsLawful}
use samogon.Storage.Laws.{at, delete_lem}
use samogon.Strings.{base}
use samogon.Throw.{Run, ok, thrown, crashed, on_state, uncaught, Ensures, Ensures-bind, Ensures-map}

module _ {S : S3} (L : IsLawful S) where
  -- A deletion leaves the set, the keys that wait and all other objects alone.
  abbrev pub Frame : Text → Gc S → Gc S → Type 0
  Frame k w w' =
      ((i : Text) → i ≢ k → at L w'.store i ≡ at L w.store i)
      × ((w'.alive ≡ w.alive) × (w'.stale ≡ w.stale))

  pub remove_piece_lem :
      (k : Text) (w : Gc S)
      → Ensures (Frame k w) (λ _ w'. at L w'.store k ≡ none) (remove_piece k w)
  unfolding remove_piece
  remove_piece_lem k w =
      Ensures-bind (Frame k w) (λ _ w'. at L w'.store k ≡ none) (λ _ w'. at L w'.store k ≡ none) _ _
        (go (delete k w.store) (delete_lem L k w.store)) (λ _ w' f gone. (f, gone))
    where
      go :
          (r : Run (Storage S) (Unit {0}))
          → Ensures
              (λ st'. (i : Text) → i ≢ k → at L st' i ≡ at L w.store i)
              (λ _ st'. at L st' k ≡ none)
              r
          → Ensures
              (Frame k w)
              (λ _ w'. at L w'.store k ≡ none)
              (on_state (λ st. record w { store = st }) (uncaught r))
      go (ok _ st) (keep, gone) = ((keep, (refl, refl)), gone)
      go (thrown e st) keep = (keep, (refl, refl))
      go (crashed st) keep = (keep, (refl, refl))

  -- An object whose hash is in the set: it is kept, and its key is not given to the workers.
  module _ (j : Text) (b : Option Bytes) where
    abbrev Here : Gc S → Type 0
    Here w = at L w.store j ≡ b

    abbrev pub Safe : Gc S → Type 0
    Safe w = Has (base j) w.alive × (¬ In j w.stale)

    remove_keeps :
        (k : Text) (w : Gc S)
        → j ≢ k
        → Here w
        → Safe w
        → Ensures Here (λ _ w'. Safe w') (remove_piece k w)
    remove_keeps k w ne is (has, out) =
        Ensures-map (Frame k w) Here (λ _ w'. at L w'.store k ≡ none) (λ _ w'. Safe w')
          (remove_piece k w) (λ _ f. f.0 j ne ∙ is)
          (λ _ w' (_, (alive, stale)) _. (
            subst (Has (base j)) (sym alive) has,
            subst (λ (l : List Text). ¬ In j l) (sym stale) out,
          ))
          (remove_piece_lem k w)

    delete_at_keeps :
        (i : ℕ) (w : Gc S) → Here w → Safe w → Ensures Here (λ _ w'. Safe w') (delete_at i w)
    unfolding delete_at
    delete_at_keeps i w is safe = elim (Option-cases (get_elem? w.stale i)) [
      | inl out ↦ rw (out, delete_at) (is, safe)
      | inr (k, e) ↦
          rw (e, delete_at)
            (remove_keeps k (record w { stale = drop_at i w.stale })
              (λ eq.
                safe.1 (subst (λ (x : Text). In x w.stale) (sym eq) (In_get_elem? w.stale i k e)))
              is (safe.0, λ there. safe.1 (In_of_In_drop_at w.stale i j there)))
    ]

    run_deletes_keeps :
        (is : List ℕ) (w : Gc S)
        → Here w
        → Safe w
        → Ensures Here (λ _ w'. Safe w') (run_deletes is w)
    unfolding run_deletes
    run_deletes_keeps [] w here safe = (here, safe)
    run_deletes_keeps (i ∷ is) w here safe =
        Ensures-bind Here (λ _ w'. Safe w') (λ _ w'. Safe w') _ _ (delete_at_keeps i w here safe)
          (λ _ w' here' safe'. run_deletes_keeps is w' here' safe')

    scan_keeps :
        (orders : ℕ → List ℕ) (ks : List Text) (w : Gc S)
        → Here w
        → Safe w
        → Ensures Here (λ _ w'. Safe w') (scan orders ks w)
    unfolding scan
    scan_keeps orders [] w here safe = (here, safe)
    scan_keeps orders (k ∷ ks) w here safe =
        Ensures-bind Here (λ _ w'. Safe w') (λ _ w'. Safe w') _ _
          (run_deletes_keeps (orders (length ks)) w here safe)
          (λ _ w1 here1 (has, out). elim (Option-cases (lookup (base k) w1.alive)) [
            | inr (v, e) ↦ rw e (scan_keeps orders ks _ here1 (has, out))
            | inl e ↦ rw e (
                scan_keeps orders ks _ here1 (
                  has,
                  λ there. elim there [
                    | inl eq ↦
                        some-ne-none true
                          (sym has ∙ (ap (λ (x : Text). lookup (base x) w1.alive) eq ∙ e))
                    | inr rest ↦ out rest
                  ],
                ))
          ])

    finish_deletes_keeps :
        (ks : List Text) (w : Gc S)
        → Here w
        → Safe w
        → ¬ In j ks
        → Ensures Here (λ _ _. Unit {0}) (finish_deletes ks w)
    unfolding finish_deletes
    finish_deletes_keeps [] w here safe out = (here, tt)
    finish_deletes_keeps (k ∷ ks) w here safe out =
        Ensures-bind Here (λ _ w'. Safe w') (λ _ _. Unit {0}) _ _
          (remove_keeps k w (λ eq. out (inl eq)) here safe)
          (λ _ w' here' safe'. finish_deletes_keeps ks w' here' safe' (λ i. out (inr i)))

    pub sweep_keeps :
        (orders : ℕ → List ℕ) (last : List ℕ) (dies : ℕ) (ks : List Text) (panics : Bool) (w : Gc S)
        → Here w
        → Safe w
        → Ensures Here (λ _ _. Unit {0}) (sweep orders last dies ks panics w)
    unfolding sweep
    sweep_keeps orders last dies ks true w here safe =
        Ensures-bind Here (λ _ w'. Safe w') (λ _ _. Unit {0}) _ _
          (scan_keeps orders (take dies ks) w here safe)
          (λ _ w1 here1 safe1.
            Ensures-bind Here (λ _ w'. Safe w') (λ _ _. Unit {0}) _ _
              (run_deletes_keeps last w1 here1 safe1) (λ _ w2 here2 _. here2))
    sweep_keeps orders last dies ks false w here safe =
        Ensures-bind Here (λ _ w'. Safe w') (λ _ _. Unit {0}) _ _ (scan_keeps orders ks w here safe)
          (λ _ w1 here1 safe1.
            Ensures-bind Here (λ _ w'. Safe w') (λ _ _. Unit {0}) _ _
              (run_deletes_keeps last w1 here1 safe1)
              (λ _ w2 here2 safe2.
                finish_deletes_keeps w2.stale (record w2 { stale = [] }) here2 (safe2.0, λ i. i)
                  safe2.1))
