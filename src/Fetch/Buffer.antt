-- ===== src/Fetch/Buffer.antt =====
-- The buffer of a piece in fetch.go: what `WriteAt` copies is what `ReadAt` finds, and what the upload
-- stores.
use samogon.Base.{
  Bytes, ℕ, zero, suc, ◌+◌, ◌-◌, ◌≤◌, ◌<◌, ◌≡◌, refl, sym, ap, ◌∙◌, false, List, [], ◌∷◌, ◌++◌, ◌⊎◌,
  inl, inr, length, take, drop, some, arith, if◌then◌else◌, ltb, leb, length-append, length-take,
  length-drop, drop-take, take-take, drop-drop, take_of_length-le,
}
use samogon.Config.{Config}
use samogon.Fetch.{PieceState, splice, write_copy, read_piece, PieceError, nil, eof}
use samogon.Storage.{Storage}
use samogon.Storage.Client.{S3}
use samogon.Throw.{ok}

module _ {A : Type 0} where
  take-append_le : (n : ℕ) (xs ys : List A) → n ≤ length xs → take n (xs ++ ys) ≡ take n xs
  take-append_le zero xs ys h = refl
  take-append_le (suc n) [] ys h = absurd (omega arith)
  take-append_le (suc n) (x ∷ xs) ys h = ap (◌∷◌ x) (take-append_le n xs ys (omega arith))

  drop-append_le : (n : ℕ) (xs ys : List A) → n ≤ length xs → drop n (xs ++ ys) ≡ drop n xs ++ ys
  drop-append_le zero xs ys h = refl
  drop-append_le (suc n) [] ys h = absurd (omega arith)
  drop-append_le (suc n) (x ∷ xs) ys h = drop-append_le n xs ys (omega arith)

  drop-append_ge : (n k : ℕ) (xs ys : List A) → length xs + k ≡ n → drop n (xs ++ ys) ≡ drop k ys
  drop-append_ge n k [] ys h = ap (λ (i : ℕ). drop i ys) (omega arith)
  drop-append_ge zero k (x ∷ xs) ys h = absurd (omega arith)
  drop-append_ge (suc n) k (x ∷ xs) ys h = drop-append_ge n k xs ys (omega arith)

length-splice :
    (buf b : Bytes) (off : ℕ) → off + length b ≤ length buf → length (splice buf off b) ≡ length buf
unfolding splice
length-splice buf b off h = omega (
  arith,
  length-append (take off buf) (b ++ drop (off + length b) buf),
  length-append b (drop (off + length b) buf),
  length-take off buf,
  length-drop (off + length b) buf,
)

splice-same :
    (buf b : Bytes) (off : ℕ)
    → off + length b ≤ length buf
    → take (length b) (drop off (splice buf off b)) ≡ b
unfolding splice
splice-same buf b off h =
    ap (take (length b))
      (drop-append_ge off 0 (take off buf) _ (omega (arith, length-take off buf)))
    ∙ (take-append_le (length b) b _ (omega arith) ∙ take_of_length-le (length b) b (omega arith))

splice-before :
    (buf b : Bytes) (off o want : ℕ)
    → off + length b ≤ length buf
    → o + want ≤ off
    → take want (drop o (splice buf off b)) ≡ take want (drop o buf)
unfolding splice
splice-before buf b off o want h before =
    ap (take want) (drop-append_le o (take off buf) _ (omega (arith, length-take off buf)))
    ∙ (take-append_le want (drop o (take off buf)) _
          (omega (arith, length-take off buf, length-drop o (take off buf)))
        ∙ (ap (take want) (drop-take o off (off - o) buf (omega arith))
            ∙ take-take want (off - o) (drop o buf) (omega arith)))

splice-after :
    (buf b : Bytes) (off o : ℕ)
    → off + length b ≤ length buf
    → off + length b ≤ o
    → drop o (splice buf off b) ≡ drop o buf
unfolding splice
splice-after buf b off o h after =
    drop-append_ge o (o - off) (take off buf) _ (omega (arith, length-take off buf))
    ∙ (drop-append_ge (o - off) (o - (off + length b)) b _ (omega arith)
        ∙ drop-drop (off + length b) (o - (off + length b)) o buf (omega arith))

read_piece_buf :
    {S : S3} (cfg : Config) (want o : ℕ) (ps : PieceState) (buf : Bytes) (st : Storage S)
    → ps.buf ≡ some buf
    → read_piece cfg want o ps st
      ≡ (if leb (length buf) o then ok ([], eof) st else ok (take want (drop o buf), nil) st)
unfolding read_piece
read_piece_buf cfg want o ps buf st e = rw (e, read_piece)

write_copy_fits :
    (ps : PieceState) (buf b : Bytes) (off : ℕ)
    → ps.buf ≡ some buf
    → off + length b ≤ length buf
    → write_copy b off ps ≡ (record ps { buf = some (splice buf off b) }, (length b, nil))
unfolding write_copy
write_copy_fits ps buf b off e fits =
    let same : ltb (length buf) (off + length b) ≡ false = ground arith in rw (e, same, write_copy)

splice-elsewhere :
    (buf b : Bytes) (off o want : ℕ)
    → off + length b ≤ length buf
    → (o + want ≤ off) ⊎ (off + length b ≤ o)
    → take want (drop o (splice buf off b)) ≡ take want (drop o buf)
splice-elsewhere buf b off o want fits (inl before) = splice-before buf b off o want fits before
splice-elsewhere buf b off o want fits (inr after) =
    ap (take want) (splice-after buf b off o fits after)

-- A write of at least one byte that fits into the buffer is taken whole. Until the next write, `ReadAt` at its place
-- returns its bytes, and a `ReadAt` of a range that it does not touch, `want` bytes from `o`, returns
-- what it returned before.
pub write_copy-read_piece :
    {S : S3} (cfg : Config) (ps : PieceState) (buf b : Bytes) (off want o : ℕ) (st : Storage S)
    → ps.buf ≡ some buf
    → off + length b ≤ length buf
    → 0 < length b
    → (o + want ≤ off) ⊎ (off + length b ≤ o)
    → ((write_copy b off ps).1 ≡ (length b, nil))
      × (read_piece cfg (length b) off (write_copy b off ps).0 st ≡ ok (b, nil) st)
      × (read_piece cfg want o (write_copy b off ps).0 st ≡ read_piece cfg want o ps st)
write_copy-read_piece cfg ps buf b off want o st e fits some_bytes apart =
    let wrote = write_copy_fits ps buf b off e fits in
    let new : PieceState = record ps { buf = some (splice buf off b) } in
    let inside : leb (length buf) off ≡ false = ground arith in
    (
      ap (λ ((_, n) : PieceState × (ℕ × PieceError)). n) wrote,
      ap (λ ((qs, _) : PieceState × (ℕ × PieceError)). read_piece cfg (length b) off qs st) wrote
          ∙ (read_piece_buf cfg (length b) off new (splice buf off b) st refl
              ∙ rw (length-splice buf b off fits, inside, splice-same buf b off fits)),
      ap (λ ((qs, _) : PieceState × (ℕ × PieceError)). read_piece cfg want o qs st) wrote
          ∙ (read_piece_buf cfg want o new (splice buf off b) st refl
              ∙ rw (length-splice buf b off fits, splice-elsewhere buf b off o want fits apart)
                  (sym (read_piece_buf cfg want o ps buf st e))),
    )
