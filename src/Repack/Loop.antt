-- ===== src/Repack/Loop.antt =====
-- The rounds of the loop of `runRepack`.
use mathlib.Core.List.{append-nil}
use samogon.Base.{
  All, Text, Bytes, ℕ, zero, suc, ◌+◌, ◌<◌, ◌≡◌, ◌≢◌, refl, sym, ap, ◌∙◌, ◌⊎◌, inl, inr, List, [],
  ◌∷◌, ◌++◌, length, length-append, Option, arith,
}
use samogon.Config.{Config, key_torrent}
use samogon.File.{Turn}
use samogon.File.Good.{Good}
use samogon.Repack.{PieceStream}
use samogon.Repack.Full.{IsFull, read_full_lem}
use samogon.Repack.Job.{
  FullError, full, end_of_file, unexpected_eof, full_error, read_full, emit, pack_loop,
}
use samogon.Repack.Pack.{one_piece, joined-append, All-append, view, Markers, Packed, Packed-read}
use samogon.Repack.Drain.{run_uploads_lem}
use samogon.Repack.Upload.{hex, Pack, Pick, run_uploads}
use samogon.Repack.Stream.{joined, OnPiece, ahead}
use samogon.Storage.Client.{S3, IsLawful}
use samogon.Throw.{Run, ok, on_state, Ensures, Ensures-bind, Ensures-map, Ensures-on_state}
use samogon.Repack.Emit.{joined-one_piece, emit_lem}

-- The new pieces of a stream: all of the piece size but a shorter last one, which is not empty.
pub record IsCut (size : ℕ) (stream : Bytes) (chunks : List Bytes) : Type 0 where
  pub wholes : List Bytes
  pub last : Bytes
  pub parts : chunks ≡ wholes ++ one_piece last
  pub sizes : All (λ c. length c ≡ size) wholes
  pub shorter : length last < size
  pub covers : joined chunks ≡ stream

module _ {S : S3} (L : IsLawful S) (sha1 : Bytes → Bytes) (cfg : Config) (cap : ℕ) (hs : List Text)
    (bs : List Bytes) (content : Text → Bytes) (start : Text → Option Bytes)
    (stands : (a c z : Bytes) → a ++ (c ++ z) ≡ joined bs → content (hex (sha1 c)) ≡ c) where
  abbrev Between : List Bytes → Bytes → Pack S → Type 0
  Between = Packed L sha1 cfg cap hs bs content start

  abbrev Kept : Pack S → Type 0
  Kept = Markers L sha1 cfg cap hs bs content start

  -- All pieces are read, and stored or held by a goroutine.
  pub record Done (size : ℕ) (p : Pack S) : Type 0 where
    pub chunks : List Bytes
    pub cut : IsCut size (joined bs) chunks
    pub kept : Between chunks [] p

  all_read :
      (chunks : List Bytes) (got : Bytes) (s : PieceStream S)
      → joined chunks ++ (got ++ ahead bs s) ≡ joined bs
      → ahead bs s ≡ []
      → joined (chunks ++ one_piece got) ≡ joined bs
  all_read chunks got s whole over =
      joined-append chunks (one_piece got)
      ∙ (ap (◌++◌ (joined chunks))
            (joined-one_piece got ∙ (sym (append-nil got) ∙ ap (◌++◌ got) (sym over)))
          ∙ whole)

  short_error : (size got : ℕ) → got < size → full_error size got ≢ full
  unfolding full_error
  short_error size got less e = ground arith

  one_size : (size : ℕ) (c : Bytes) → length c ≡ size → All (λ c. length c ≡ size) (one_piece c)
  one_size size [] e = tt
  one_size size (b ∷ c) e = (e, tt)

  finished :
      (size : ℕ) (chunks : List Bytes) (got : Bytes) (p1 p2 : Pack S)
      → Between chunks got p1
      → All (λ c. length c ≡ size) chunks
      → ahead bs p1.src ≡ []
      → length got < size
      → Between (chunks ++ one_piece got) [] p2
      → Done size p2
  finished size chunks got p1 p2 k1 sizes over less k2 = record {
    chunks = chunks ++ one_piece got;
    cut = record {
      wholes = chunks;
      last = got;
      parts = refl;
      sizes = sizes;
      shorter = less;
      covers = all_read chunks got p1.src k1.whole over;
    };
    kept = k2;
  }

  -- What the loop does after the upload: another round, or the end.
  after_full :
      (size : ℕ) (chunks : List Bytes) (got : Bytes) (err : FullError) (p1 p2 : Pack S)
      → Between chunks got p1
      → All (λ c. length c ≡ size) chunks
      → ((length got ≡ size) × (err ≡ full))
        ⊎ ((ahead bs p1.src ≡ []) × (length got < size) × (err ≡ full_error size (length got)))
      → Between (chunks ++ one_piece got) [] p2
      → (next : Run (Pack S) (Unit {0}))
      → (length got ≡ size → Ensures Kept (λ _ p'. Done size p') next)
      → Ensures Kept
          (λ _ p'. Done size p')
          (elim err [ full ↦ next | end_of_file ↦ ok tt p2 | unexpected_eof ↦ ok tt p2 ])
  after_full size chunks got full p1 p2 k1 sizes (inl (e, _)) k2 next k = k e
  after_full size chunks got full p1 p2 k1 sizes (inr (over, less, e)) k2 next k =
      absurd (short_error size (length got) less (sym e))
  after_full size chunks got end_of_file p1 p2 k1 sizes (inl (_, e)) k2 next k = cc
  after_full size chunks got end_of_file p1 p2 k1 sizes (inr (over, less, e)) k2 next k =
      (k2.markers, finished size chunks got p1 p2 k1 sizes over less k2)
  after_full size chunks got unexpected_eof p1 p2 k1 sizes (inl (_, e)) k2 next k = cc
  after_full size chunks got unexpected_eof p1 p2 k1 sizes (inr (over, less, e)) k2 next k =
      (k2.markers, finished size chunks got p1 p2 k1 sizes over less k2)

  -- What a `ReadFull` leaves.
  abbrev Filled : ℕ → List Bytes → Bytes × FullError → Pack S → Type 0
  Filled size chunks (got, err) p =
      Between chunks got p
      × (((length got ≡ size) × (err ≡ full))
          ⊎ ((ahead bs p.src ≡ []) × (length got < size) × (err ≡ full_error size (length got))))

  filled :
      (turns : ℕ → ℕ → Turn) (size : ℕ) (chunks : List Bytes) (p : Pack S)
      → Between chunks [] p
      → Ensures Kept
          (Filled size chunks)
          (on_state (λ s. record p { src = s }) (read_full sha1 cfg 2 turns hs size [] p.src))
  filled turns size chunks p k =
      Ensures-on_state Kept (Filled size chunks) (λ s. record p { src = s })
        (read_full sha1 cfg 2 turns hs size [] p.src)
        (Ensures-map
          (λ (s' : PieceStream S).
            Good L cfg (view L sha1 cfg cap hs bs content start p) cap s'.reader)
          (λ (s' : PieceStream S). Kept (record p { src = s' }))
          (λ r s'.
            OnPiece L cfg (view L sha1 cfg cap hs bs content start p) cap bs s'
            × IsFull bs size (ahead bs p.src) s' r)
          _ _ (λ s' g t. g.same (key_torrent cfg t) ∙ k.markers t)
          (λ (got, err) s' g (on, (same, how)).
            (Packed-read L sha1 cfg cap hs bs content start chunks got p s' k on same, how))
          (read_full_lem L sha1 cfg (view L sha1 cfg cap hs bs content start p) cap hs bs k.sources
            2 turns size [] p.src k.on (omega arith) (inr (inr (omega arith)))))

  -- More bytes are read after a full chunk.
  fewer_left :
      (rounds size : ℕ) (chunks : List Bytes) (got : Bytes)
      → length (joined bs) < suc rounds + length (joined chunks)
      → 0 < size
      → length got ≡ size
      → length (joined bs) < rounds + length (joined (chunks ++ one_piece got))
  fewer_left rounds size chunks got fuel pos e = omega (
    arith,
    fuel,
    pos,
    e,
    ap length (joined-append chunks (one_piece got)),
    length-append (joined chunks) (joined (one_piece got)),
    ap length (joined-one_piece got),
  )

  pub pack_loop_lem :
      (rounds : ℕ) (uploads : ℕ → List Pick) (turns : ℕ → ℕ → ℕ → Turn) (size : ℕ)
      (chunks : List Bytes) (p : Pack S)
      → Between chunks [] p
      → All (λ c. length c ≡ size) chunks
      → 0 < size
      → length (joined bs) < rounds + length (joined chunks)
      → Ensures Kept (λ _ p'. Done size p') (pack_loop sha1 cfg rounds uploads turns hs size p)
  unfolding pack_loop
  pack_loop_lem zero uploads turns size chunks p k sizes pos fuel =
      absurd (omega (arith, ap length k.whole, length-append (joined chunks) (ahead bs p.src)))
  pack_loop_lem (suc rounds) uploads turns size chunks p k sizes pos fuel =
      Ensures-bind Kept (λ _ p1. Between chunks [] p1) (λ _ p'. Done size p')
        (run_uploads sha1 cfg (uploads rounds) p) _
        (run_uploads_lem L sha1 cfg cap hs bs content start chunks [] (uploads rounds) p k)
        (λ _ p1 i1 k1.
          Ensures-bind Kept (Filled size chunks) (λ _ p'. Done size p') _ _
            (filled (turns rounds) size chunks p1 k1)
            (λ (got, err) p2 i (k2, how).
              let k3 = emit_lem L sha1 cfg cap hs bs content start stands chunks got p2 k2 in
              after_full size chunks got err p2 (emit sha1 cfg got p2) k2 sizes how k3
                (pack_loop sha1 cfg rounds uploads turns hs size (emit sha1 cfg got p2))
                (λ e.
                  pack_loop_lem rounds uploads turns size (chunks ++ one_piece got)
                    (emit sha1 cfg got p2) k3
                    (All-append (λ c. length c ≡ size) chunks (one_piece got) sizes
                      (one_size size got e))
                    pos (fewer_left rounds size chunks got fuel pos e))))
