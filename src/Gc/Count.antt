-- ===== src/Gc/Count.antt =====
-- The counters of the first pass of gc.go: every torrent that is listed is worked on once.
use samogon.Base.{
  Text, Bytes, ℕ, zero, suc, ◌+◌, ◌<◌, ◌≡◌, refl, ap, ◌∙◌, inl, inr, List, [], ◌∷◌, length,
  get_elem?, drop_at, length-drop_at, Option, none, some, arith, Option-cases,
}
use samogon.Gc.{
  Gc, Marker, reading, storing, mark_load, mark_step, mark_at, run_marks, finish_stores,
  finish_marker, finish_markers, mark,
}
use samogon.Meta.Parsed.{Info}
use samogon.Storage.{cat}
use samogon.Storage.Client.{S3}
use samogon.Storage.Laws.{Reply-cases}
use samogon.Throw.{Ensures, Ensures-bind}

abbrev one_if : Option Marker → ℕ
one_if none = 0
one_if (some m) = 1

module _ {S : S3} where
  abbrev pub Any : Gc S → Type 0
  Any w = Unit {0}

  -- The counters of the sweep are as they were.
  abbrev Unswept : Gc S → Gc S → Type 0
  Unswept w w' = (w'.scanned ≡ w.scanned) × ((w'.kept ≡ w.kept) × (w'.deleted ≡ w.deleted))

  module _ (load : Bytes → Option Info) where
    -- A worker that ends its torrent counts it.
    abbrev Counted : Gc S → Option Marker → Gc S → Type 0
    Counted w next w' =
        (w'.loaded + w'.skipped + one_if next ≡ suc (w.loaded + w.skipped))
        × ((w'.marking ≡ w.marking) × Unswept w w')

    mark_step-Counted :
        (m : Marker) (w : Gc S) → Ensures Any (λ next w'. Counted w next w') (mark_step load m w)
    unfolding mark_step mark_load cat
    mark_step-Counted (storing []) w = (tt, (omega arith, (refl, (refl, (refl, refl)))))
    mark_step-Counted (storing (none ∷ hs)) w = tt
    mark_step-Counted (storing (some h ∷ hs)) w = (tt, (omega arith, (refl, (refl, (refl, refl)))))
    mark_step-Counted (reading key) w = elim (Reply-cases ((S.get_object key w.store.s3).0)) [
      | inr (err, e) ↦ rw (e, mark_load, mark_step) (tt, (skip, (refl, (refl, (refl, refl)))))
      | inl (raw, e) ↦ elim (Option-cases (load raw)) [
        | inl bad ↦ rw (e, bad, mark_load, mark_step) (tt, (skip, (refl, (refl, (refl, refl)))))
        | inr (info, good) ↦
            rw (e, good, mark_load, mark_step) (tt, (more, (refl, (refl, (refl, refl)))))
      ]
    ]
      where
        skip : w.loaded + suc w.skipped + 0 ≡ suc (w.loaded + w.skipped)
        skip = omega arith

        more : w.loaded + w.skipped + 1 ≡ suc (w.loaded + w.skipped)
        more = omega arith

    -- Of `n` torrents all but `rest` are counted; nothing is swept yet.
    abbrev pub Counts : ℕ → ℕ → Gc S → Type 0
    Counts rest n w =
        (w.loaded + w.skipped + rest ≡ n) × ((w.scanned ≡ 0) × ((w.kept ≡ 0) × (w.deleted ≡ 0)))

    -- The torrents that are not counted are with the workers.
    abbrev Shared : ℕ → Gc S → Type 0
    Shared n w = Counts (length w.marking) n w

    mark_at-Shared :
        (i n : ℕ) (w : Gc S) → Shared n w → Ensures Any (λ _ w'. Shared n w') (mark_at load i w)
    unfolding mark_at
    mark_at-Shared i n w (all, (a0, (b0, d0))) = elim (Option-cases (get_elem? w.marking i)) [
      | inl out ↦ rw (out, mark_at) (tt, (all, (a0, (b0, d0))))
      | inr (m, e) ↦
          rw (e, mark_at)
            (Ensures-bind Any (Counted (record w { marking = drop_at i w.marking }))
              (λ _ w'. Shared n w') _ _
              (mark_step-Counted m (record w { marking = drop_at i w.marking }))
              (λ next w' _ counted. (tt, back next w' (length-drop_at i w.marking m e) counted)))
    ]
      where
        back :
            (next : Option Marker) (w' : Gc S)
            → length w.marking ≡ suc (length (drop_at i w.marking))
            → Counted (record w { marking = drop_at i w.marking }) next w'
            → Shared n (elim next [ none ↦ w' | some m' ↦ record w' { marking = m' ∷ w'.marking } ])
        back none w' e (c, (same, (a, (b, d)))) =
            (omega (arith, all, c, e, ap length same), (a ∙ a0, (b ∙ b0, d ∙ d0)))
        back (some m') w' e (c, (same, (a, (b, d)))) =
            (omega (arith, all, c, e, ap length same), (a ∙ a0, (b ∙ b0, d ∙ d0)))

    run_marks-Shared :
        (is : List ℕ) (n : ℕ) (w : Gc S)
        → Shared n w
        → Ensures Any (λ _ w'. Shared n w') (run_marks load is w)
    unfolding run_marks
    run_marks-Shared [] n w shared = (tt, shared)
    run_marks-Shared (i ∷ is) n w shared =
        Ensures-bind Any (λ _ w'. Shared n w') (λ _ w'. Shared n w') _ _
          (mark_at-Shared i n w shared) (λ _ w' _ shared'. run_marks-Shared is n w' shared')

    finish_stores-Counts :
        (rounds : ℕ) (hs : List (Option Text)) (rest n : ℕ) (w : Gc S)
        → length hs < rounds
        → Counts (suc rest) n w
        → Ensures Any (λ _ w'. Counts rest n w') (finish_stores load rounds (storing hs) w)
    unfolding finish_stores mark_step
    finish_stores-Counts zero hs rest n w fuel counts = absurd (omega arith)
    finish_stores-Counts (suc rounds) [] rest n w fuel (all, swept) =
        (tt, (omega (arith, all), swept))
    finish_stores-Counts (suc rounds) (none ∷ hs) rest n w fuel counts = tt
    finish_stores-Counts (suc rounds) (some h ∷ hs) rest n w fuel counts =
        finish_stores-Counts rounds hs rest n _ (omega arith) counts

    finish_marker-Counts :
        (m : Marker) (rest n : ℕ) (w : Gc S)
        → Counts (suc rest) n w
        → Ensures Any (λ _ w'. Counts rest n w') (finish_marker load m w)
    unfolding finish_marker mark_step mark_load cat
    finish_marker-Counts (storing hs) rest n w counts =
        finish_stores-Counts (suc (length hs)) hs rest n w (omega arith) counts
    finish_marker-Counts (reading key) rest n w (all, swept) =
        let skip : w.loaded + suc w.skipped + rest ≡ n = omega (arith, all) in
        elim (Reply-cases ((S.get_object key w.store.s3).0)) [
          | inr (err, e) ↦ rw (e, mark_load, mark_step, finish_marker) (tt, (skip, swept))
          | inl (raw, e) ↦ elim (Option-cases (load raw)) [
            | inl bad ↦ rw (e, bad, mark_load, mark_step, finish_marker) (tt, (skip, swept))
            | inr (info, good) ↦
                rw (e, good, mark_load, mark_step, finish_marker)
                  (finish_stores-Counts (suc (length info.pieces)) info.pieces rest n _
                    (omega arith) (all, swept))
          ]
        ]

    finish_markers-Counts :
        (ms : List Marker) (n : ℕ) (w : Gc S)
        → Counts (length ms) n w
        → Ensures Any (λ _ w'. Counts 0 n w') (finish_markers load ms w)
    unfolding finish_markers
    finish_markers-Counts [] n w counts = (tt, counts)
    finish_markers-Counts (m ∷ ms) n w counts =
        Ensures-bind Any (λ _ w'. Counts (length ms) n w') (λ _ w'. Counts 0 n w') _ _
          (finish_marker-Counts m (length ms) n w counts)
          (λ _ w' _ counts'. finish_markers-Counts ms n w' counts')

    pub mark-Counts :
        (orders : ℕ → List ℕ) (keys : List Text) (n m : ℕ) (w : Gc S)
        → Shared n w
        → n + length keys ≡ m
        → Ensures Any (λ _ w'. Counts 0 m w') (mark load orders keys w)
    unfolding mark
    mark-Counts orders [] n m w shared e =
        Ensures-bind Any (λ _ w'. Shared n w') (λ _ w'. Counts 0 m w') _ _
          (run_marks-Shared (orders 0) n w shared)
          (λ _ w' _ (all, swept).
            finish_markers-Counts w'.marking m (record w' { marking = [] })
              (omega (arith, all, e), swept))
    mark-Counts orders (k ∷ ks) n m w shared e =
        Ensures-bind Any (λ _ w'. Shared n w') (λ _ w'. Counts 0 m w') _ _
          (run_marks-Shared (orders (suc (length ks))) n w shared)
          (λ _ w' _ (all, swept).
            mark-Counts orders ks (suc n) m (record w' { marking = reading k ∷ w'.marking })
              (omega (arith, all), swept) (omega (arith, e)))
