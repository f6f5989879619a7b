-- ===== src/File/Good.antt =====
-- The state that reads share: the cache holds only what the bucket holds.
use samogon.Base.{
  Text, Bytes, ℕ, ◌≡◌, refl, sym, ◌∙◌, ◌⊎◌, inl, inr, Bool, true, false, Option-cases, List, [],
  ◌∷◌, All, Option, none, some, if◌then◌else◌,
}
use samogon.Cache.Index.{entries, IsValid}
use samogon.Cache.Refine.{get_lem, put_lem}
use samogon.Cache.Runs.{All-get, All-put, All-lookup}
use samogon.Config.{Config, key_piece}
use samogon.File.{
  Reader, Other, look, warm, Turn, cache_get, cat_put, fill, state_of, prefetch, others, get_piece,
}
use samogon.Storage.{Storage}
use samogon.Storage.Client.{S3, IsLawful}
use samogon.Storage.Laws.{at, cat_lem}
use samogon.Throw.{
  Run, ok, thrown, crashed, on_state, uncaught, Ensures, Ensures-bind, Ensures-uncaught,
}

module _ {S : S3} (L : IsLawful S) (cfg : Config) (bucket : Text → Option Bytes) (cap : ℕ) where
  abbrev pub Stored : Text × Bytes → Type 0
  Stored (h, b) = bucket (key_piece cfg h) ≡ some b

  pub record Good (w : Reader S) : Type 0 where
    pub valid : IsValid w.cache
    pub coherent : All Stored (entries w.cache.ll)
    pub room : w.cache.cap ≡ cap
    pub same : (k : Text) → at L w.store k ≡ bucket k

  pub cache_get_lem :
      (h : Text) (w : Reader S)
      → Good w
      → Good (cache_get h w).1
        × ((b : Bytes) → (cache_get h w).0 ≡ some b → bucket (key_piece cfg h) ≡ some b)
  unfolding cache_get
  cache_get_lem h w g =
      let (valid, answer, _, kept) = get_lem w.cache h g.valid in
      (
        record {
          valid = valid;
          coherent = All-get Stored w.cache h g.valid g.coherent;
          room = kept ∙ g.room;
          same = g.same;
        },
        λ b found. All-lookup Stored h (entries w.cache.ll) b (sym answer ∙ found) g.coherent,
      )

  moved_store :
      (w : Reader S) (st : Storage S)
      → Good w
      → ((j : Text) → at L st j ≡ at L w.store j)
      → Good (record w { store = st })
  moved_store w st g keep = record {
    valid = g.valid;
    coherent = g.coherent;
    room = g.room;
    same = λ j. keep j ∙ g.same j;
  }

  cat_on_lem :
      (k : Text) (w : Reader S) (r : Run (Storage S) Bytes)
      → Good w
      → Ensures (λ st'. (j : Text) → at L st' j ≡ at L w.store j) (λ b _. at L w.store k ≡ some b) r
      → Ensures Good (λ b _. bucket k ≡ some b) (on_state (λ st. record w { store = st }) r)
  cat_on_lem k w (ok b st) g (keep, is) = (moved_store w st g keep, sym (g.same k) ∙ is)
  cat_on_lem k w (thrown e st) g keep = moved_store w st g keep
  cat_on_lem k w (crashed st) g keep = moved_store w st g keep

  cat_put_lem :
      (h : Text) (w : Reader S) → Good w → Ensures Good (λ _ _. Unit {0}) (cat_put cfg h w)
  unfolding cat_put
  cat_put_lem h w g =
      Ensures-bind Good (λ b _. bucket (key_piece cfg h) ≡ some b) _ _ _
        (cat_on_lem (key_piece cfg h) w _ g (cat_lem L (key_piece cfg h) w.store))
        (λ b w' g' is.
          let (valid, _, kept) = put_lem w'.cache h b g'.valid in
          (
            record {
              valid = valid;
              coherent = All-put Stored w'.cache h b g'.valid g'.coherent is;
              room = kept ∙ g'.room;
              same = g'.same;
            },
            tt,
          ))

  fill_lem : (h : Text) (w : Reader S) → Good w → Ensures Good (λ _ _. Unit {0}) (fill cfg h w)
  unfolding fill
  fill_lem h w g = elim (Option-cases ((cache_get h w).0)) [
    | inl miss ↦ rw (miss, fill) (cat_put_lem h (cache_get h w).1 (cache_get_lem h w g).0)
    | inr (b, hit) ↦ rw (hit, fill) ((cache_get_lem h w g).0, tt)
  ]

  Ensures-state_of :
      {A : Type 0} (Q : A → Reader S → Type 0) (r : Run (Reader S) A)
      → Ensures Good Q r
      → Good (state_of cfg r)
  Ensures-state_of Q (ok a w) h = h.0
  Ensures-state_of Q (thrown e w) h = h
  Ensures-state_of Q (crashed w) h = h

  prefetch-Good : (h : Text) (w : Reader S) → Good w → Good (prefetch cfg h w)
  unfolding prefetch
  prefetch-Good h w g = Ensures-state_of _ (fill cfg h w) (fill_lem h w g)

  -- No step of another goroutine spoils the cache.
  pub others-Good : (os : List Other) (w : Reader S) → Good w → Good (others cfg os w)
  unfolding others
  others-Good [] w g = g
  others-Good (look h ∷ os) w g = others-Good os _ (cache_get_lem h w g).0
  others-Good (warm h ∷ os) w g = others-Good os _ (prefetch-Good h w g)

  -- The call of `Do`, whoever runs the callback.
  pub led_lem :
      (h : Text) (b : Bool) (w2 : Reader S)
      → Good w2
      → Ensures Good
          (λ _ _. Unit {0})
          (if b then uncaught (fill cfg h w2) else ok tt (prefetch cfg h w2))
  led_lem h true w2 g2 = Ensures-uncaught Good (λ _ _. Unit {0}) (fill cfg h w2) (fill_lem h w2 g2)
  led_lem h false w2 g2 = (prefetch-Good h w2 g2, tt)

  -- Whatever the others do, a piece that `getPiece` returns is the stored one or nil.
  pub get_piece_lem :
      (turn : Turn) (h : Text) (w : Reader S)
      → Good w
      → Ensures Good
          (λ b _. (b ≡ []) ⊎ (bucket (key_piece cfg h) ≡ some b))
          (get_piece cfg turn h w)
  unfolding get_piece
  get_piece_lem turn h w g =
      let (g1, hit_is) = cache_get_lem h w g in
      elim (Option-cases ((cache_get h w).0)) [
        | inr (b, hit) ↦ rw (hit, get_piece) (g1, inr (hit_is b hit))
        | inl miss ↦
            rw (miss, get_piece)
              (Ensures-bind Good (λ _ _. Unit {0}) _ _ _
                (led_lem h turn.leads (others cfg turn.before (cache_get h w).1)
                  (others-Good turn.before _ g1))
                (λ _ w3 g3 _. last (others cfg turn.after w3) (others-Good turn.after w3 g3)))
      ]
    where
      last :
          (w4 : Reader S)
          → Good w4
          → Ensures Good
              (λ b _. (b ≡ []) ⊎ (bucket (key_piece cfg h) ≡ some b))
              (ok (elim ((cache_get h w4).0) [ some body ↦ body | none ↦ [] ]) (cache_get h w4).1)
      last w4 g4 =
          let (g5, is) = cache_get_lem h w4 g4 in
          elim (Option-cases ((cache_get h w4).0)) [
            | inl miss ↦ rw miss (g5, inl refl)
            | inr (b, hit) ↦ rw hit (g5, inr (is b hit))
          ]
