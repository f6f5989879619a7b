-- ===== src/File/Safe.antt =====
-- `ReadAt` among any other goroutines: what it returns is the beginning of the range asked for.
use mathlib.Core.Option.{some-injective}
use mathlib.Core.Path.{subst}
use native.Mathlib.Decide.{dec_le}
use samogon.Base.{
  Text, Bytes, ℕ, zero, suc, ◌+◌, ◌-◌, ◌*◌, ◌/◌, ◌%◌, ◌≤◌, ◌<◌, ◌≡◌, refl, sym, ◌∙◌, ◌⊎◌, inl, inr,
  ◌&&◌, Bool-cases, Option-cases, [], ◌++◌, length, take, drop, get_elem?, Option, some, arith,
  if◌then◌else◌, ltb, leb, eqb, length-take, length-append, drop-drop,
}
use samogon.Base.Int.{pos}
use samogon.Config.{Config, key_piece}
use samogon.File.{Reader, Turn, ReadError, nil, eof, get_piece, read_loop, read_at}
use samogon.File.Good.{Good, get_piece_lem}
use samogon.File.Prefix.{Begins, take-Begins, take-Begins_of, drop-Begins, append-Begins}
use samogon.Meta.{FileEntry, TorrentMeta}
use samogon.Storage.Client.{S3, IsLawful}
use samogon.Throw.{Ensures, Ensures-bind}

-- The bucket holds every piece of the torrent, and the pieces in their order are `stream`.
abbrev pub IsStored : Config → (Text → Option Bytes) → TorrentMeta → Bytes → Type 0
IsStored cfg bucket tm stream =
    (i : ℕ) (h : Text)
    → get_elem? tm.piece_hashes i ≡ some h
    → bucket (key_piece cfg h) ≡ some (take tm.piece_len (drop (i * tm.piece_len) stream))

-- The clip of the request, and the last tests of `ReadAt`, on the numbers alone.
clipped :
    (got want remaining : ℕ)
    → got ≤ (if ltb remaining want then remaining else want)
    → (got ≤ want) × (got ≤ remaining)
clipped got want remaining le = ground arith

full_or_eof :
    (got want size off : ℕ)
    → got ≤ (if ltb (size - off) want then size - off else want)
    → (got ≡ want)
      ⊎ ((if ltb got (size - off) && ltb got (if ltb (size - off) want then size - off else want)
            then eof
            else if leb size (off + got)
            then eof
            else nil)
          ≡ eof)
full_or_eof got want size off le = elim (dec_le want got) [
  | yes full ↦ inl (ground arith)
  | no less ↦ inr (ground arith)
]

-- What `ReadAt` may answer to a request for `want` bytes from `off`.
abbrev pub IsRead : Bytes → FileEntry → ℕ → ℕ → Bytes × ReadError → Type 0
IsRead stream file want off (got, err) =
    (length got ≤ want)
    × (length got ≤ file.size - off)
    × (got ≡ take (length got) (drop (file.offset + off) stream))
    × ((length got ≡ want) ⊎ (err ≡ eof))

module _ {S : S3} (L : IsLawful S) (cfg : Config) (bucket : Text → Option Bytes) (cap : ℕ)
    (tm : TorrentMeta) (stream : Bytes) (stored : IsStored cfg bucket tm stream) where
  -- A piece that `getPiece` returned, from the offset of the read on.
  copied-Begins :
      (off m : ℕ) (h : Text) (piece : Bytes)
      → get_elem? tm.piece_hashes (off / tm.piece_len) ≡ some h
      → 0 < tm.piece_len
      → (piece ≡ []) ⊎ (bucket (key_piece cfg h) ≡ some piece)
      → Begins (take m (drop (off % tm.piece_len) piece)) (drop off stream)
  copied-Begins off m h piece at pos_len is =
      let l = tm.piece_len in
      let i = off / l in
      let from : Begins piece (drop (i * l) stream) = begins is in
      let e : i * l + off % l ≡ off = omega arith in
      take-Begins_of m _ _ (
        subst (Begins (drop (off % l) piece)) (drop-drop (i * l) (off % l) off stream e)
          (drop-Begins (off % l) piece _ from))
    where
      begins :
          (piece ≡ []) ⊎ (bucket (key_piece cfg h) ≡ some piece)
          → Begins piece (drop (off / tm.piece_len * tm.piece_len) stream)
      begins (inl e) = rw e
      begins (inr e) =
          let whole = some-injective _ _ (sym e ∙ stored (off / tm.piece_len) h at) in
          rw whole (take-Begins tm.piece_len _)

  abbrev Right : ℕ → ℕ → Bytes → Type 0
  Right start n got = (length got ≤ n) × Begins got (drop start stream)

  copied-Right :
      (n start off : ℕ) (h : Text) (piece got : Bytes)
      → get_elem? tm.piece_hashes (off / tm.piece_len) ≡ some h
      → 0 < tm.piece_len
      → off ≡ start + length got
      → Right start n got
      → (piece ≡ []) ⊎ (bucket (key_piece cfg h) ≡ some piece)
      → Right start n (got ++ take (n - length got) (drop (off % tm.piece_len) piece))
  copied-Right n start off h piece got found l at (le, begins) is =
      let copied = take (n - length got) (drop (off % tm.piece_len) piece) in
      (
        omega (
          arith,
          length-append got copied,
          length-take (n - length got) (drop (off % tm.piece_len) piece),
        ),
        append-Begins got copied _ begins (
            subst (Begins copied) (sym (drop-drop start (length got) off stream (sym at)))
              (copied-Begins off (n - length got) h piece found l is)),
      )

  read_loop-Right :
      (rounds : ℕ) (turns : ℕ → Turn) (n start off : ℕ) (got : Bytes) (w : Reader S)
      → Good L cfg bucket cap w
      → off ≡ start + length got
      → Right start n got
      → Ensures
          (Good L cfg bucket cap)
          (λ got' _. Right start n got')
          (read_loop cfg rounds turns tm n off got w)
  unfolding read_loop
  read_loop-Right zero turns n start off got w g at r = (g, r)
  read_loop-Right (suc rounds) turns n start off got w g at r =
      elim (Bool-cases (ltb (length got) n)) [
        | inr stop ↦ rw (stop, read_loop) (g, r)
        | inl more ↦ elim (Bool-cases (eqb tm.piece_len 0)) [
          | inl bad ↦ rw (more, bad, read_loop) g
          | inr good ↦ elim (Option-cases (get_elem? tm.piece_hashes (off / tm.piece_len))) [
            | inl out ↦ rw (more, good, out, read_loop) (g, r)
            | inr (h, found) ↦
                rw (more, good, found, read_loop)
                  (Ensures-bind (Good L cfg bucket cap)
                    (λ b _. (b ≡ []) ⊎ (bucket (key_piece cfg h) ≡ some b))
                    (λ got' _. Right start n got') (get_piece cfg (turns rounds) h w) _
                    (get_piece_lem L cfg bucket cap (turns rounds) h w g)
                    (λ piece w' g' is.
                      let copied = take (n - length got) (drop (off % tm.piece_len) piece) in
                      let more' =
                        copied-Right n start off h piece got found (ground arith) at r is in
                      elim (Bool-cases (leb (length piece) (off % tm.piece_len))) [
                        | inl past ↦ rw past (g', r)
                        | inr inside ↦ elim (Bool-cases (eqb (length copied) 0)) [
                          | inl empty ↦ rw (inside, empty) (g', r)
                          | inr some_bytes ↦
                              rw (inside, some_bytes)
                                (read_loop-Right rounds turns n start (off + length copied)
                                  (got ++ copied) w' g' (omega (arith, length-append got copied))
                                  more')
                        ]
                      ]))
          ]
        ]
      ]

  -- The bucket holds the torrent's pieces, and the cache only what the bucket holds. Whatever other
  -- goroutines do between the steps of a read at an offset from 0 on, and however the service fails, a
  -- `ReadAt` that returns gives the bytes that the file holds from the offset, never more than asked
  -- for and never past the file's end, and fewer only with `EOF`. The bucket is not changed, and the
  -- cache still holds only what the bucket holds.
  pub read_at-IsRead :
      (turns : ℕ → Turn) (file : FileEntry) (want off : ℕ) (w : Reader S)
      → Good L cfg bucket cap w
      → Ensures
          (Good L cfg bucket cap)
          (λ r _. IsRead stream file want off r)
          (read_at cfg turns tm file want (pos off) w)
  unfolding read_at
  read_at-IsRead turns file want off w g = elim (Bool-cases (leb file.size off)) [
    | inl past ↦ rw (past, read_at) (g, (omega arith, omega arith, refl, inr refl))
    | inr inside ↦
        rw (inside, read_at)
          (Ensures-bind (Good L cfg bucket cap) (λ got _. Right (file.offset + off) n got) _
            (read_loop cfg n turns tm n (file.offset + off) [] w) _
            (read_loop-Right n turns n (file.offset + off) (file.offset + off) [] w g (omega arith)
              (omega arith, refl))
            (λ got w' g' (le, begins).
              let (le1, le2) = clipped (length got) want (file.size - off) le in
              (g', (le1, le2, begins, full_or_eof (length got) want file.size off le))))
  ]
    where
      n : ℕ
      n = if ltb (file.size - off) want then file.size - off else want
