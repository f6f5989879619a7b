-- ===== src/Repack/Steps.antt =====
-- The two steps of a goroutine of `runRepack` that stores a new piece: each keeps what the loop relies on.
use mathlib.Core.Path.{subst}
use samogon.Base.{
  In, In_get_elem?, In_drop_at, In_of_In_drop_at, Text, Bytes, text_dec, ℕ, suc, ◌+◌, ◌<◌, ◌≡◌, ◌≢◌,
  sym, ap, ◌∙◌, ◌⊎◌, inl, inr, Bool-cases, List, ◌∷◌, length, get_elem?, drop_at, length-drop_at,
  Option, some, arith,
}
use samogon.Config.{Config, key_piece, key_torrent}
use samogon.Config.Keys.{key_torrent-ne-key_piece}
use samogon.Repack.Pack.{view, Markers, Packed, Packed-moved, Waiting}
use samogon.Repack.Upload.{hex, Pack, key_of, with_store, steps_left, upload_check, upload_store}
use samogon.Storage.{Storage, stat, put_bytes}
use samogon.Storage.Client.{S3, IsLawful}
use samogon.Storage.Laws.{at, stat_lem, put_bytes_lem}
use samogon.Throw.{Run, ok, thrown, crashed, ◌>>=◌, on_state, uncaught, Ensures}

module _ {S : S3} (L : IsLawful S) (sha1 : Bytes → Bytes) (cfg : Config) (cap : ℕ) (hs : List Text)
    (bs : List Bytes) (content : Text → Bytes) (start : Text → Option Bytes) (chunks : List Bytes)
    (got : Bytes) where
  abbrev Between : Pack S → Type 0
  Between = Packed L sha1 cfg cap hs bs content start chunks got

  abbrev Kept : Pack S → Type 0
  Kept = Markers L sha1 cfg cap hs bs content start

  abbrev seen : Pack S → Text → Option Bytes
  seen = view L sha1 cfg cap hs bs content start

  -- After a step of a goroutine: nothing is lost, and there are less steps to make.
  abbrev pub Stepped : Pack S → Pack S → Type 0
  Stepped p p' = Between p' × (steps_left p' < steps_left p)

  taken_pending :
      (i : ℕ) (chunk : Bytes) (p : Pack S) (c : Bytes)
      → get_elem? p.pending i ≡ some chunk
      → In c p.pending ⊎ In c p.missing
      → (c ≡ chunk) ⊎ (In c (drop_at i p.pending) ⊎ In c p.missing)
  taken_pending i chunk p c e (inr there) = inr (inr there)
  taken_pending i chunk p c e (inl there) = elim (In_drop_at p.pending i chunk c e there) [
    | inl same ↦ inl same
    | inr rest ↦ inr (inl rest)
  ]

  taken_missing :
      (i : ℕ) (chunk : Bytes) (p : Pack S) (c : Bytes)
      → get_elem? p.missing i ≡ some chunk
      → In c p.pending ⊎ In c p.missing
      → (c ≡ chunk) ⊎ (In c p.pending ⊎ In c (drop_at i p.missing))
  taken_missing i chunk p c e (inl there) = inr (inl there)
  taken_missing i chunk p c e (inr there) = elim (In_drop_at p.missing i chunk c e there) [
    | inl same ↦ inl same
    | inr rest ↦ inr (inr rest)
  ]

  -- The piece of the goroutine that took a step is stored, and the others' wait as they did.
  one_stored :
      (chunk : Bytes) (st : Storage S) (W : Bytes → Type 0) (c : Bytes)
      → at L st (key_of sha1 cfg chunk) ≡ some chunk
      → (c ≡ chunk) ⊎ W c
      → (at L st (key_of sha1 cfg c) ≡ some c) ⊎ W c
  one_stored chunk st W c here (inr w) = inr w
  one_stored chunk st W c here (inl e) = inl (
      ap (λ (x : Bytes). at L st (key_of sha1 cfg x)) e
      ∙ (here ∙ ap (λ (x : Bytes). some x) (sym e)))

  pub upload_check_lem :
      (i : ℕ) (chunk : Bytes) (p : Pack S)
      → get_elem? p.pending i ≡ some chunk
      → Between p
      → Stepped p (upload_check sha1 cfg chunk (record p { pending = drop_at i p.pending }))
  unfolding upload_check steps_left key_of key_piece
  upload_check_lem i chunk p e k =
      let (same, there) = stat_lem L (key_of sha1 cfg chunk) p.src.reader.store in
      let st = (stat (key_of sha1 cfg chunk) p.src.reader.store).1 in
      let stands = k.waiting chunk (inl (In_get_elem? p.pending i chunk e)) in
      let fewer = length-drop_at i p.pending chunk e in
      let back : (c : Bytes) → In c (drop_at i p.pending) → In c p.pending =
        In_of_In_drop_at p.pending i in
      elim (Bool-cases ((stat (key_of sha1 cfg chunk) p.src.reader.store).0)) [
        | inl found ↦
            let (b, is) = there found in
            let here : at L st (key_of sha1 cfg chunk) ≡ some chunk =
              same (key_of sha1 cfg chunk)
              ∙ (is ∙ ap (λ (x : Bytes). some x) (sym (k.held (hex (sha1 chunk)) b is) ∙ stands)) in
            let less : length (drop_at i p.pending)
                  + length (drop_at i p.pending)
                  + length p.missing
                < length p.pending + length p.pending + length p.missing =
              omega (arith, fewer) in
            rw (found, upload_check)
              (
                Packed-moved L sha1 cfg cap hs bs content start chunks got chunk p st
                    (drop_at i p.pending) p.missing p.new_puts (suc p.skip_puts) k stands
                    (λ j. inl (same j))
                    (λ c waits.
                      one_stored chunk st (λ c. In c (drop_at i p.pending) ⊎ In c p.missing) c here
                        (taken_pending i chunk p c e waits))
                    (λ c waits. elim waits [ inl w ↦ inl (back c w) | inr w ↦ inr w ])
                    (omega (arith, fewer)),
                less,
              )
        | inr missing ↦
            let less : length (drop_at i p.pending)
                  + length (drop_at i p.pending)
                  + suc (length p.missing)
                < length p.pending + length p.pending + length p.missing =
              omega (arith, fewer) in
            rw (missing, upload_check)
              (
                Packed-moved L sha1 cfg cap hs bs content start chunks got chunk p st
                    (drop_at i p.pending) (chunk ∷ p.missing) p.new_puts p.skip_puts k stands
                    (λ j. inl (same j))
                    (λ c waits. found_missing c (taken_pending i chunk p c e waits))
                    (λ c waits. still c waits) (omega (arith, fewer)),
                less,
              )
      ]
    where
      found_missing :
          (c : Bytes)
          → (c ≡ chunk) ⊎ (In c (drop_at i p.pending) ⊎ In c p.missing)
          → (at L (stat (key_of sha1 cfg chunk) p.src.reader.store).1 (key_of sha1 cfg c) ≡ some c)
            ⊎ (In c (drop_at i p.pending) ⊎ In c (chunk ∷ p.missing))
      found_missing c (inl same) = inr (inr (inl same))
      found_missing c (inr (inl w)) = inr (inl w)
      found_missing c (inr (inr w)) = inr (inr (inr w))

      still :
          (c : Bytes)
          → In c (drop_at i p.pending) ⊎ In c (chunk ∷ p.missing)
          → Waiting L sha1 cfg cap hs bs content start p c
      still c (inl w) = inl (In_of_In_drop_at p.pending i c w)
      still c (inr (inl same)) =
          inl (subst (λ (x : Bytes). In x p.pending) (sym same) (In_get_elem? p.pending i chunk e))
      still c (inr (inr w)) = inr w

  -- What `put_bytes_lem` says of the put of a piece.
  abbrev IsPut : Bytes → Pack S → Run (Storage S) (Unit {0}) → Type 0
  IsPut chunk p =
      Ensures (λ st'. (j : Text) → j ≢ key_of sha1 cfg chunk → at L st' j ≡ seen p j)
        (λ _ st'.
          (at L st' (key_of sha1 cfg chunk) ≡ some chunk)
          × (st'.puts ≡ p.src.reader.store.puts + 1))

  -- The put as the last step of a goroutine.
  abbrev counted : Pack S → Run (Storage S) (Unit {0}) → Run (Pack S) (Unit {0})
  counted p r =
      on_state (with_store p) (uncaught r)
      >>= (λ (_, p'). ok tt (record p' { new_puts = suc p'.new_puts }))

  pub upload_store_lem :
      (i : ℕ) (chunk : Bytes) (p : Pack S)
      → get_elem? p.missing i ≡ some chunk
      → Between p
      → Ensures Kept
          (λ _ p'. Stepped p p')
          (upload_store sha1 cfg chunk (record p { missing = drop_at i p.missing }))
  unfolding upload_store steps_left key_of key_piece
  upload_store_lem i chunk p e k =
      go (put_bytes key chunk p.src.reader.store) (put_bytes_lem L key chunk p.src.reader.store)
    where
      key : Text
      key = key_of sha1 cfg chunk

      stands : content (hex (sha1 chunk)) ≡ chunk
      stands = k.waiting chunk (inr (In_get_elem? p.missing i chunk e))

      kept_one :
          (st : Storage S) → ((j : Text) → j ≢ key → at L st j ≡ seen p j) → Kept (with_store p st)
      kept_one st others t =
          others (key_torrent cfg t) (key_torrent-ne-key_piece cfg t (hex (sha1 chunk)))
          ∙ k.markers t

      stays :
          (st : Storage S)
          → ((j : Text) → j ≢ key → at L st j ≡ seen p j)
          → at L st key ≡ some chunk
          → (j : Text) → (at L st j ≡ seen p j) ⊎ ((j ≡ key) × (at L st j ≡ some chunk))
      stays st others here j = elim (text_dec j key) [
        | yes same ↦ inr (same, ap (at L st) same ∙ here)
        | no ne ↦ inl (others j ne)
      ]

      back :
          (c : Bytes)
          → In c p.pending ⊎ In c (drop_at i p.missing)
          → In c p.pending ⊎ In c p.missing
      back c (inl w) = inl w
      back c (inr w) = inr (In_of_In_drop_at p.missing i c w)

      fewer : length p.missing ≡ suc (length (drop_at i p.missing))
      fewer = length-drop_at i p.missing chunk e

      less :
          length p.pending + length p.pending + length (drop_at i p.missing)
          < length p.pending + length p.pending + length p.missing
      less = omega (arith, fewer)

      -- The put, and the counter after it.
      go :
          (r : Run (Storage S) (Unit {0}))
          → IsPut chunk p r
          → Ensures Kept
              (λ _ p'. Stepped p p')
              (counted (record p { missing = drop_at i p.missing }) r)
      go (ok _ st) (others, (here, _)) = (
        kept_one st others,
        (
          Packed-moved L sha1 cfg cap hs bs content start chunks got chunk p st p.pending
              (drop_at i p.missing) (suc p.new_puts) p.skip_puts k stands (stays st others here)
              (λ c waits.
                one_stored chunk st (λ c. In c p.pending ⊎ In c (drop_at i p.missing)) c here
                  (taken_missing i chunk p c e waits))
              back (omega (arith, fewer)),
          less,
        ),
      )
      go (thrown _ st) others = kept_one st others
      go (crashed st) others = kept_one st others
