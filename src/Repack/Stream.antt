-- ===== src/Repack/Stream.antt =====
-- What the source stream of repack.go has still to read, and the pieces that it fetches.
use mathlib.Core.Option.{some-injective, none-ne-some}
use samogon.Base.{
  Text, Bytes, ℕ, zero, suc, ◌<◌, ◌≡◌, refl, sym, ap, ◌∙◌, ◌⊎◌, inl, inr, Option-cases, List, [],
  ◌∷◌, ◌++◌, length, get_elem?, drop, if◌then◌else◌, Option, none, some, arith, ltb,
}
use samogon.Config.{Config, key_piece}
use samogon.File.{Reader, Turn, cache_get, others, ReadError, nil, eof}
use samogon.File.Good.{Good, cache_get_lem, led_lem, others-Good}
use samogon.Repack.{PieceStream, fetch}
use samogon.Storage.Client.{S3, IsLawful}
use samogon.Throw.{
  Run, ok, thrown, crashed, ◌>>=◌, on_state, Ensures, Ensures-bind, Ensures-map, Ensures-on_state,
}

-- The pieces' contents, one after the other.
abbrev pub joined : List Bytes → Bytes
joined [] = []
joined (b ∷ bs) = b ++ joined bs

-- The bucket holds a piece for each hash, with these contents.
abbrev pub Bodies : Config → (Text → Option Bytes) → List Text → List Bytes → Type 0
Bodies cfg bucket [] [] = Unit
Bodies cfg bucket [] (b ∷ bs) = ⊥
Bodies cfg bucket (h ∷ hs) [] = ⊥
Bodies cfg bucket (h ∷ hs) (b ∷ bs) = (bucket (key_piece cfg h) ≡ some b) × Bodies cfg bucket hs bs

-- What a stream has still to read.
abbrev pub ahead : {S : S3} → List Bytes → PieceStream S → Bytes
ahead bs s = elim s.buf [
  | none ↦ joined (drop s.cur bs)
  | some b ↦ drop s.pos b ++ joined (drop (suc s.cur) bs)
]

-- What a `Read` of `want` bytes leaves, where `before` was ahead of it: its bytes and those that are
-- ahead of it now are `before`. It fills the request, or it is at the end of the stream, and then
-- says `EOF` exactly if it has no byte.
abbrev pub IsNext : {S : S3} → List Bytes → ℕ → Bytes → PieceStream S → Bytes × ReadError → Type 0
IsNext bs want before s' (got, err) =
    (got ++ ahead bs s' ≡ before)
    × (((length got ≡ want) × (err ≡ nil))
        ⊎ ((ahead bs s' ≡ [])
            × (length got < want)
            × (err ≡ (if ltb 0 (length got) then nil else eof))))

module _ {S : S3} (L : IsLawful S) (cfg : Config) (bucket : Text → Option Bytes) (cap : ℕ) where
  -- The buffer of a stream is the piece that it is at.
  pub record OnPiece (bs : List Bytes) (s : PieceStream S) : Type 0 where
    pub good : Good L cfg bucket cap s.reader
    pub buffered : (b : Bytes) → s.buf ≡ some b → drop s.cur bs ≡ b ∷ drop (suc s.cur) bs

  pub at_hash :
      (hs : List Text) (bs : List Bytes) (i : ℕ) (h : Text)
      → Bodies cfg bucket hs bs
      → get_elem? hs i ≡ some h
      → (b : Bytes) × (drop i bs ≡ b ∷ drop (suc i) bs)
        × (bucket (key_piece cfg h) ≡ some b)
        × (i < length hs)
  at_hash [] bs i h all e = absurd (none-ne-some h e)
  at_hash (g ∷ hs) [] i h all e = absurd all
  at_hash (g ∷ hs) (b ∷ bs) zero h all e = (
    b,
    refl,
    ap (λ (k : Text). bucket (key_piece cfg k)) (sym (some-injective g h e)) ∙ all.0,
    omega arith,
  )
  at_hash (g ∷ hs) (b ∷ bs) (suc i) h all e =
      let (c, is, held, le) = at_hash hs bs i h all.1 e in (c, is, held, omega arith)

  pub past_hashes :
      (hs : List Text) (bs : List Bytes) (i : ℕ)
      → Bodies cfg bucket hs bs
      → get_elem? hs i ≡ none
      → drop i bs ≡ []
  past_hashes [] [] zero all e = refl
  past_hashes [] [] (suc i) all e = refl
  past_hashes [] (b ∷ bs) i all e = absurd all
  past_hashes (h ∷ hs) [] i all e = absurd all
  past_hashes (h ∷ hs) (b ∷ bs) zero all e = cc
  past_hashes (h ∷ hs) (b ∷ bs) (suc i) all e = past_hashes hs bs i all.1 e

  -- Whatever the others do, a piece that `fetch` returns is the stored one.
  pub fetch_lem :
      (turn : Turn) (h : Text) (w : Reader S)
      → Good L cfg bucket cap w
      → Ensures
          (Good L cfg bucket cap)
          (λ b _. bucket (key_piece cfg h) ≡ some b)
          (fetch cfg turn h w)
  unfolding fetch
  fetch_lem turn h w g =
      let (g1, hit_is) = cache_get_lem L cfg bucket cap h w g in
      elim (Option-cases ((cache_get h w).0)) [
        | inr (b, hit) ↦ rw (hit, fetch) (g1, hit_is b hit)
        | inl miss ↦
            rw (miss, fetch)
              (Ensures-bind (Good L cfg bucket cap) (λ _ _. Unit {0})
                (λ b _. bucket (key_piece cfg h) ≡ some b) _ _
                (led_lem L cfg bucket cap h turn.leads (others cfg turn.before (cache_get h w).1)
                  (others-Good L cfg bucket cap turn.before _ g1))
                (λ _ w3 g3 _.
                  last (others cfg turn.after w3) (others-Good L cfg bucket cap turn.after w3 g3)))
      ]
    where
      last :
          (w4 : Reader S)
          → Good L cfg bucket cap w4
          → Ensures
              (Good L cfg bucket cap)
              (λ b _. bucket (key_piece cfg h) ≡ some b)
              (elim ((cache_get h w4).0) [
                | some body ↦ ok body (cache_get h w4).1
                | none ↦ thrown (samogon.Throw.piece_missing h) (cache_get h w4).1
              ])
      last w4 g4 =
          let (g5, is) = cache_get_lem L cfg bucket cap h w4 g4 in
          elim (Option-cases ((cache_get h w4).0)) [
            | inl miss ↦ rw miss g5
            | inr (b, hit) ↦ rw hit (g5, is b hit)
          ]
