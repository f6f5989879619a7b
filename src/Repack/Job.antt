-- ===== src/Repack/Job.antt =====
-- `runRepack`: the source stream is cut anew, the new pieces are uploaded by goroutines, and the .torrent
-- that names them is stored last. `uploads` and `picks` are the order of the goroutines' steps in the
-- loop and after it; `sha1` is the hash of crypto/sha1, and `load` and `rebuild` are the torrent
-- library's. Of the goroutines that still run when the loop panics, no step is taken.
use samogon.Base.{
  Text, Bytes, ◌==◌, ℕ, zero, suc, ◌+◌, ◌-◌, List, [], ◌∷◌, ◌++◌, length, if◌then◌else◌, Option,
  none, some, ltb, leb, eqb, inl, inr,
}
use samogon.Cache.{new_lru}
use samogon.Config.{Config, key_torrent}
use samogon.File.{Turn, nil, eof, negative_offset}
use samogon.Meta.{build_meta}
use samogon.Meta.Parsed.{Info}
use samogon.Repack.{PieceStream, stream_read, extract_infohash}
use samogon.Repack.Upload.{Pack, Pick, run_uploads, steps_left, wait_uploads}
use samogon.Storage.{Storage, put_bytes, cat}
use samogon.Storage.Client.{S3}
use samogon.Throw.{
  bad_metainfo, infohash_mismatch, short_stream, Run, ok, thrown, crashed, ◌>>=◌, on_state,
}

-- What `io.ReadFull` returns beside the bytes.
pub data FullError : Type 0 where
  full end_of_file unexpected_eof : FullError

-- The end of `io.ReadFull` that stopped short of the request or filled it.
unfoldable pub full_error : ℕ → ℕ → FullError
full_error want got =
    if leb want got then full else if ltb 0 got then unexpected_eof else end_of_file

module _ {S : S3} (sha1 : Bytes → Bytes) (cfg : Config) where
  -- The loop of `io.ReadFull`. A `Read` fills the request or leaves nothing for the next, so that two
  -- rounds are enough.
  unfoldable pub read_full :
      ℕ
      → (ℕ → ℕ → Turn)
      → List Text
      → ℕ
      → Bytes
      → PieceStream S
      → Run (PieceStream S) (Bytes × FullError)
  read_full zero turns hashes want got s = ok (got, full_error want (length got)) s
  read_full (suc rounds) turns hashes want got s =
      let rest = read_full rounds turns hashes want in
      if ltb (length got) want
      then (do
        ((more, err), s') ← stream_read cfg (turns rounds) hashes (want - length got) s
        elim err [
          | nil ↦ rest (got ++ more) s'
          | eof ↦ ok (got ++ more, full_error want (length (got ++ more))) s'
          | negative_offset ↦ ok (got ++ more, full_error want (length (got ++ more))) s'
        ])
      else ok (got, full) s

  -- What is done with the bytes of a `ReadFull`: a goroutine is started that stores them.
  unfoldable pub emit : Bytes → Pack S → Pack S
  emit chunk p =
      if ltb 0 (length chunk)
      then record p {
        pending = chunk ∷ p.pending;
        new_pieces = p.new_pieces ++ sha1 chunk;
        piece_count = suc p.piece_count;
        bytes_read = p.bytes_read + length chunk;
      }
      else p

  -- The loop of `runRepack`, a round for each `ReadFull`. Before a round the goroutines make some steps.
  unfoldable pub pack_loop :
      ℕ → (ℕ → List Pick) → (ℕ → ℕ → ℕ → Turn) → List Text → ℕ → Pack S → Run (Pack S) (Unit {0})
  pack_loop zero uploads turns hashes size p = ok tt p
  pack_loop (suc rounds) uploads turns hashes size p = do
    (_, p1) ← run_uploads sha1 cfg (uploads rounds) p
    ((chunk, err), p2) ←
        on_state (λ s. record p1 { src = s }) (read_full 2 (turns rounds) hashes size [] p1.src)
    let p3 = emit chunk p2
    let rest = pack_loop rounds uploads turns hashes size p3
    elim err [ full ↦ rest | end_of_file ↦ ok tt p3 | unexpected_eof ↦ ok tt p3 ]

  -- The loop, and the wait for the goroutines after it.
  unfoldable pub pack_all :
      ℕ
      → (ℕ → List Pick)
      → (ℕ → Pick)
      → (ℕ → ℕ → ℕ → Turn)
      → List Text
      → ℕ
      → Pack S
      → Run (Pack S) (Unit {0})
  pack_all rounds uploads picks turns hashes size p = do
    (_, p') ← pack_loop rounds uploads turns hashes size p
    wait_uploads sha1 cfg (steps_left p') picks p'

  -- The variables before the loop.
  abbrev pub packing : Storage S → Pack S
  packing st = record {
    src = record {
      reader = record { store = st; cache = new_lru cfg.lru_size };
      cur = 0;
      pos = 0;
      buf = none;
    };
    new_pieces = [];
    piece_count = 0;
    bytes_read = 0;
    new_puts = 0;
    skip_puts = 0;
    pending = [];
    missing = [];
  }

  abbrev pub store_of : Pack S → Storage S
  store_of p = p.src.reader.store

  module _ (load : Bytes → Option (Info × Text))
      (rebuild : Bytes → ℕ → Bytes → Option (Bytes × Text)) where
    -- The end of `runRepack`: the new .torrent, unless it is the old one.
    unfoldable pub publish : ℕ → Text → Bytes → ℕ → Pack S → Run (Storage S) (Unit {0})
    publish size infohash raw total p =
        let st = p.src.reader.store in
        if eqb p.bytes_read total
        then elim (rebuild raw size p.new_pieces) [
          | none ↦ thrown (bad_metainfo infohash) st
          | some (raw_new, new_infohash) ↦
              if new_infohash == infohash
              then ok tt st
              else put_bytes (key_torrent cfg new_infohash) raw_new st
        ]
        else thrown (short_stream p.bytes_read total) st

    -- `runRepack`, for the piece size `size` above zero.
    unfoldable pub run_repack :
        ℕ
        → (ℕ → List Pick)
        → (ℕ → Pick)
        → (ℕ → ℕ → ℕ → Turn)
        → ℕ
        → Text
        → Storage S
        → Run (Storage S) (Unit {0})
    run_repack rounds uploads picks turns size target st = elim (extract_infohash target) [
      | inl e ↦ thrown e st
      | inr infohash ↦ do
        (raw, st1) ← cat (key_torrent cfg infohash) st
        elim (load raw) [
          | none ↦ thrown (bad_metainfo infohash) st1
          | some (info, loaded) ↦
              if loaded == infohash
              then elim (build_meta info infohash) [
                | none ↦ crashed st1
                | some tm ↦
                    elim (pack_all rounds uploads picks turns tm.piece_hashes size (packing st1)) [
                      | ok _ p ↦ publish size infohash raw info.total_length p
                      | thrown e p ↦ thrown e (store_of p)
                      | crashed p ↦ crashed (store_of p)
                    ]
              ]
              else thrown (infohash_mismatch loaded) st1
        ]
    ]
