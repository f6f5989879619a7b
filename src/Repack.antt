-- ===== src/Repack.antt =====
-- repack.go: the infohash in the argument, and the stream over the pieces of the source torrent.
pub mod Target
pub mod Stream
pub mod Reads
pub mod Upload
pub mod Job
pub mod Full
pub mod Pack
pub mod Steps
pub mod Drain
pub mod Emit
pub mod Loop
pub mod Wait
pub mod Cut
pub mod Commit
pub mod Collected
use samogon.Base.{
  Text, Bytes, ℕ, zero, suc, ◌+◌, ◌-◌, Bool, true, false, ◌||◌, ◌&&◌, not, List, [], ◌∷◌, ◌++◌,
  length, get_elem?, take, drop, if◌then◌else◌, Option, none, some, ltb, leb, eqb, ◌⊎◌, inl, inr,
}
use samogon.Config.{Config}
use samogon.File.{Reader, Turn, cache_get, fill, prefetch, others, nil, eof, ReadError}
use samogon.Storage.Client.{S3}
use samogon.Strings.{base, trim_right}
use samogon.Throw.{
  Exception, bad_infohash, Run, ok, thrown, ◌>>=◌, on_state, uncaught, piece_missing,
}

-- A digit that `hex.DecodeString` takes.
unfoldable pub is_hex : ℕ → Bool
is_hex c = (leb b'0' c && leb c b'9') || ((leb b'a' c && leb c b'f') || (leb b'A' c && leb c b'F'))

-- `hex.DecodeString` without an error, for a text of even length.
unfoldable pub all_hex : Text → Bool
all_hex [] = true
all_hex (c ∷ s) = is_hex c && all_hex s

unfoldable pub extract_infohash : Text → Exception ⊎ Text
extract_infohash p =
    let leaf = base (trim_right p) in
    if not (eqb (length leaf) 40)
    then inl (bad_infohash leaf)
    else if all_hex leaf
    then inr leaf
    else inl (bad_infohash leaf)

-- `pieceStream`, with the store and the cache that it shares.
pub record PieceStream (S : S3) : Type 0 where
  pub reader : Reader S
  pub cur : ℕ
  pub pos : ℕ
  pub buf : Option Bytes

module _ {S : S3} (cfg : Config) where
  -- `fetch` behind the start of the prefetch. A lookup that misses at the end throws.
  unfoldable pub fetch : Turn → Text → Reader S → Run (Reader S) Bytes
  fetch turn hash w =
      let (hit, w1) = cache_get hash w in
      elim hit [
        | some body ↦ ok body w1
        | none ↦ do
          let w2 = others cfg turn.before w1
          (_, w3) ←
              (if turn.leads then uncaught (fill cfg hash w2) else ok tt (prefetch cfg hash w2))
          let (again, w4) = cache_get hash (others cfg turn.after w3)
          elim again [ some body ↦ ok body w4 | none ↦ thrown (piece_missing hash) w4 ]
      ]

  -- `s.buf`, fetched if it is nil.
  unfoldable pub current : Turn → Text → PieceStream S → Run (PieceStream S) Bytes
  current turn hash s = elim s.buf [
    | some body ↦ ok body s
    | none ↦ do
      (body, s') ← on_state (λ w. record s { reader = w }) (fetch turn hash s.reader)
      ok body (record s' { pos = 0; buf = some body })
  ]

  -- The end of a round: the position moves on, and at the end of the piece to the next piece.
  unfoldable pub advance : Bytes → ℕ → PieceStream S → PieceStream S
  advance body copied s =
      let pos = s.pos + copied in
      if leb (length body) pos
      then record s { pos = pos; cur = suc s.cur; buf = none }
      else record s { pos = pos; buf = some body }

  -- The loop of `Read`. A round copies a byte or ends a piece.
  unfoldable pub stream_loop :
      ℕ
      → (ℕ → Turn)
      → List Text
      → ℕ
      → Bytes
      → PieceStream S
      → Run (PieceStream S) (Bytes × ReadError)
  stream_loop zero turns hashes want got s = ok (got, nil) s
  stream_loop (suc rounds) turns hashes want got s =
      let rest = stream_loop rounds turns hashes want in
      if ltb (length got) want
      then elim (get_elem? hashes s.cur) [
        | none ↦ ok (got, if ltb 0 (length got) then nil else eof) s
        | some hash ↦ do
          (body, s1) ← current (turns rounds) hash s
          let copied = take (want - length got) (drop s1.pos body)
          rest (got ++ copied) (advance body (length copied) s1)
      ]
      else ok (got, nil) s

  -- `Read(p)` with `want = len(p)`.
  unfoldable pub stream_read :
      (ℕ → Turn) → List Text → ℕ → PieceStream S → Run (PieceStream S) (Bytes × ReadError)
  stream_read turns hashes want s = stream_loop (want + length hashes) turns hashes want [] s
