-- ===== src/File/Alone.antt =====
-- `getPiece` of sftp.go where no other goroutine interferes and the service answers.
use mathlib.Core.Option.{some-injective}
use samogon.Base.{
  Text, Bytes, ℕ, ◌<◌, ◌≡◌, sym, ap, ◌∙◌, inl, inr, true, Option-cases, [], Option, none, some,
  arith,
}
use samogon.Cache
use samogon.Cache.{Lru}
use samogon.Cache.Runs.{get-put, get_miss}
use samogon.Config.{Config, key_piece}
use samogon.File.{Reader, Turn, cache_get, cat_put, fill, others, get_piece}
use samogon.File.Good.{Good, cache_get_lem, get_piece_lem}
use samogon.Storage.{Storage, cat}
use samogon.Storage.Laws.{at}
use samogon.Storage.Client.{S3, success, IsLawful}
use samogon.Throw.{ok}

-- A call of `getPiece` in which no other goroutine takes a step.
abbrev pub alone : Turn
alone = record { before = []; leads = true; after = [] }

-- The service answers every `GetObject` of an object that it keeps.
abbrev pub Answers : {S : S3} → IsLawful S → Type 0
Answers {S} L =
    (k : Text) (s : S.State) (b : Bytes)
    → L.contents s k ≡ some b
    → (S.get_object k s).0 ≡ success b

module _ {S : S3} (L : IsLawful S) (answers : Answers L) (cfg : Config)
    (bucket : Text → Option Bytes) (cap : ℕ) (cap_pos : 0 < cap) where
  abbrev after_get : Text → Storage S → Storage S
  after_get k st = record st { s3 = (S.get_object k st.s3).1 }

  cat_alone :
      (k : Text) (b : Bytes) (st : Storage S)
      → at L st k ≡ some b
      → cat k st ≡ ok b (after_get k st)
  unfolding cat
  cat_alone k b st is = rw (answers k st.s3 b is, cat)

  -- The state after a miss: the piece is in the cache.
  abbrev loaded : Text → Bytes → Reader S → Reader S
  loaded h b w = record {
    store = after_get (key_piece cfg h) w.store;
    cache = Cache.put w.cache h b;
  }

  cache_get_miss :
      (h : Text) (w : Reader S)
      → Good L cfg bucket cap w
      → (cache_get h w).0 ≡ none
      → (cache_get h w).1 ≡ w
  unfolding cache_get
  cache_get_miss h w g miss =
      ap (λ (c : Lru Bytes). record w { cache = c }) (get_miss w.cache h g.valid miss)

  cat_put_alone :
      (h : Text) (b : Bytes) (w : Reader S)
      → Good L cfg bucket cap w
      → bucket (key_piece cfg h) ≡ some b
      → cat_put cfg h w ≡ ok tt (loaded h b w)
  unfolding cat_put
  cat_put_alone h b w g is =
      rw (cat_alone (key_piece cfg h) b w.store (g.same (key_piece cfg h) ∙ is))

  cache_get_loaded :
      (h : Text) (b : Bytes) (w : Reader S)
      → Good L cfg bucket cap w
      → (cache_get h (loaded h b w)).0 ≡ some b
  unfolding cache_get
  cache_get_loaded h b w g = get-put w.cache h b g.valid (omega (arith, g.room))

  fill_alone :
      (h : Text) (b : Bytes) (w : Reader S)
      → Good L cfg bucket cap w
      → bucket (key_piece cfg h) ≡ some b
      → (cache_get h w).0 ≡ none
      → fill cfg h w ≡ ok tt (loaded h b w)
  unfolding fill
  fill_alone h b w g is miss = rw (miss, fill, cache_get_miss h w g miss) (cat_put_alone h b w g is)

  get_piece_eq :
      (h : Text) (b : Bytes) (w : Reader S)
      → Good L cfg bucket cap w
      → bucket (key_piece cfg h) ≡ some b
      → (w' : Reader S) × (get_piece cfg alone h w ≡ ok b w')
  unfolding get_piece others
  get_piece_eq h b w g is = elim (Option-cases ((cache_get h w).0)) [
    | inr (v, hit) ↦
        let same : b ≡ v =
          some-injective b v (sym is ∙ (cache_get_lem L cfg bucket cap h w g).1 v hit) in
        ((cache_get h w).1, rw (hit, get_piece, same))
    | inl miss ↦ (
      (cache_get h (loaded h b w)).1,
      rw (
        miss,
        get_piece,
        cache_get_miss h w g miss,
        fill_alone h b w g is miss,
        cache_get_loaded h b w g,
      ),
    )
  ]

  -- `getPiece` alone returns the stored piece, and leaves a good state.
  pub get_piece-alone :
      (h : Text) (b : Bytes) (w : Reader S)
      → Good L cfg bucket cap w
      → bucket (key_piece cfg h) ≡ some b
      → (w' : Reader S) × (get_piece cfg alone h w ≡ ok b w') × Good L cfg bucket cap w'
  get_piece-alone h b w g is =
      let (w', e) = get_piece_eq h b w g is in
      (w', e, (rw e at (get_piece_lem L cfg bucket cap alone h w g)).0)
