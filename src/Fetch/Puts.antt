-- ===== src/Fetch/Puts.antt =====
-- What a put and a read of a piece by the storage of fetch.go do to the pieces in the bucket.
use samogon.Base.{
  leb, Text, Bytes, ℕ, ◌+◌, ◌≡◌, ◌≢◌, refl, sym, ◌∙◌, inl, inr, Bool-cases, Option-cases, Option,
  some, text_dec, length,
}
use mathlib.Core.Path.{subst}
use samogon.Config.{Config, key_piece}
use samogon.Config.Keys.{key_piece_injective}
use samogon.Fetch.{PieceState, upload, read_piece}
use samogon.Fetch.Calls.{Overwrites, Present}
use samogon.Storage.{Storage, put_bytes}
use samogon.Storage.Client.{S3, IsLawful}
use samogon.Storage.Laws.{at, cat_lem, put_bytes_lem, Reply-cases}
use samogon.Throw.{Exception, ok, thrown, Ensures, Ensures-bind}

module _ {S : S3} (L : IsLawful S) (cfg : Config) (content : Text → Bytes)
    (overwrites : Overwrites L) where
  abbrev Here : Storage S → Text → Type 0
  Here = Present L cfg content

  -- A put of a piece's bytes, whether it fails or not, takes no piece away.
  put_present :
      (h g : Text) (st : Storage S)
      → Here st g
      → Ensures (λ st'. Here st' g) (λ _ _. Unit {0}) (put_bytes (key_piece cfg h) (content h) st)
  unfolding put_bytes
  put_present h g st is =
      let here : Here (record st { s3 = (S.put_object (key_piece cfg h) (content h) st.s3).1 }) g =
        elim (text_dec (key_piece cfg g) (key_piece cfg h)) [
          | yes same ↦
              let e : g ≡ h = key_piece_injective cfg g h same in
              subst
                (λ (x : Text).
                  L.contents (S.put_object (key_piece cfg h) (content h) st.s3).1 (key_piece cfg x)
                  ≡ some (content x))
                (sym e)
                (elim (overwrites (key_piece cfg h) (content h) (content h) st.s3
                  (subst (Here st) e is)) [ inl old ↦ old | inr new ↦ new ])
          | no n ↦ L.put-contents_ne (key_piece cfg h) (content h) st.s3 (key_piece cfg g) n ∙ is
        ] in
      elim (Reply-cases ((S.put_object (key_piece cfg h) (content h) st.s3).0)) [
        | inl (_, e) ↦ rw (e, put_bytes) (here, tt)
        | inr (err, e) ↦ rw (e, put_bytes) here
      ]

  pub uploaded :
      (h : Text) (body : Option Bytes) (st st' : Storage S)
      → body ≡ some (content h)
      → upload cfg h body st ≡ ok tt st'
      → ((g : Text) → Here st g → Here st' g) × Here st' h
  unfolding upload
  uploaded h body st st' same e =
      let run : put_bytes (key_piece cfg h) (content h) st ≡ ok tt st' = rw same at e in
      (
        λ g here.
            (subst (Ensures (λ st'. Here st' g) (λ _ _. Unit {0})) run (put_present h g st here)).0,
        (subst
            (Ensures (λ st'. (j : Text) → j ≢ key_piece cfg h → at L st' j ≡ at L st j)
              (λ _ st'. (at L st' (key_piece cfg h) ≡ some (content h)) × (st'.puts ≡ st.puts + 1)))
            run (put_bytes_lem L (key_piece cfg h) (content h) st)).1.0,
      )

  pub upload_failed :
      (h : Text) (body : Option Bytes) (st st' : Storage S) (x : Exception)
      → body ≡ some (content h)
      → upload cfg h body st ≡ thrown x st'
      → (g : Text) → Here st g
      → Here st' g
  unfolding upload
  upload_failed h body st st' x same e g here =
      let run : put_bytes (key_piece cfg h) (content h) st ≡ thrown x st' = rw same at e in
      subst (Ensures (λ st'. Here st' g) (λ _ _. Unit {0})) run (put_present h g st here)

  -- A read of a piece leaves the bucket as it was.
  pub read_same :
      (want off : ℕ) (ps : PieceState) (st : Storage S)
      → Ensures
          (λ st'. (j : Text) → at L st' j ≡ at L st j)
          (λ _ _. Unit {0})
          (read_piece cfg want off ps st)
  unfolding read_piece
  read_same want off ps st = elim (Option-cases ps.buf) [
    | inr (buf, e) ↦ elim (Bool-cases (leb (length buf) off)) [
      | inl out ↦ rw (e, out, read_piece) ((λ j. refl), tt)
      | inr inside ↦ rw (e, inside, read_piece) ((λ j. refl), tt)
    ]
    | inl e ↦ elim (Bool-cases ps.complete) [
      | inr open_ ↦ rw (e, open_, read_piece) ((λ j. refl), tt)
      | inl done ↦
          rw (e, done, read_piece)
            (Ensures-bind (λ st'. (j : Text) → at L st' j ≡ at L st j)
              (λ b _. at L st (key_piece cfg ps.hash) ≡ some b) (λ _ _. Unit {0}) _ _
              (cat_lem L (key_piece cfg ps.hash) st)
              (λ body st' same _. elim (Bool-cases (leb (length body) off)) [
                | inl out ↦ rw out (same, tt)
                | inr inside ↦ rw inside (same, tt)
              ]))
    ]
  ]
