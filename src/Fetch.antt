-- ===== src/Fetch.antt =====
-- fetch.go: the storage behind the torrent client, one buffer for each piece in flight, and the
-- command round it. An operation that waits in the middle is several functions, one for each part
-- that runs under the piece's lock.
pub mod Slots
pub mod Buffer
pub mod Commit
pub mod Calls
pub mod Puts
pub mod Stored
pub mod Whole
use samogon.Base.{
  Text, bytes, Bytes, ◌==◌, Map, lookup, ℕ, suc, ◌+◌, ◌-◌, Bool, true, false, List, [], ◌∷◌, ◌++◌,
  length, take, drop, replicate, if◌then◌else◌, Option, none, some, ltb, leb, eqb, min,
}
use samogon.Config.{Config, key_piece, key_torrent}
use samogon.Meta.Parsed.{Info}
use samogon.Storage.{Storage, cat, put_bytes, stat, list_pieces}
use samogon.Storage.Client.{S3}
use samogon.Throw.{
  Run, ok, thrown, crashed, ◌>>=◌, Exception, empty_stdin, bad_metainfo, not_waited, pure_v2, try,
  on_state,
}

pub record PieceState : Type 0 where
  pub hash : Text
  pub len : ℕ
  pub buf : Option Bytes
  pub complete : Bool

-- `states` by piece index, and `slots` the number of tokens in `bufSem`.
pub record Fetch (S : S3) : Type 0 where
  pub store : Storage S
  pub known : Map Bool
  pub states : List (ℕ × PieceState)
  pub slots : ℕ

-- What the operations return beside their numbers.
pub data PieceError : Type 0 where
  nil eof short_write : PieceError

unfoldable pub find_state : ℕ → List (ℕ × PieceState) → Option PieceState
find_state i [] = none
find_state i ((j, ps) ∷ l) = if eqb i j then some ps else find_state i l

-- Writes through the pointer to the state of piece `i`.
unfoldable pub set_state : ℕ → PieceState → List (ℕ × PieceState) → List (ℕ × PieceState)
set_state i new [] = []
set_state i new ((j, ps) ∷ l) = if eqb i j then (j, new) ∷ l else (j, ps) ∷ set_state i new l

-- `stateFor`
unfoldable pub state_for : ℕ → Text → ℕ → List (ℕ × PieceState) → List (ℕ × PieceState)
state_for i hash len states = elim (find_state i states) [
  | some _ ↦ states
  | none ↦ (i, record { hash = hash; len = len; buf = none; complete = false }) ∷ states
]

-- `PieceWithHash`, for a piece hash that the library may lack.
unfoldable pub piece_with_hash :
    ℕ → Option Text → ℕ → List (ℕ × PieceState) → Run (List (ℕ × PieceState)) (Unit {0})
piece_with_hash i none len states = thrown pure_v2 states
piece_with_hash i (some hash) len states = ok tt (state_for i hash len states)

-- `copy(buf[off:], b)` for a `b` that fits.
unfoldable pub splice : Bytes → ℕ → Bytes → Bytes
splice buf off b = take off buf ++ (b ++ drop (off + length b) buf)

-- The end of `WriteAt`, under the lock: the bounds check and the copy.
unfoldable pub write_copy : Bytes → ℕ → PieceState → PieceState × (ℕ × PieceError)
write_copy b off ps = elim ps.buf [
  | none ↦ (ps, (0, if ltb 0 (off + length b) then short_write else nil))
  | some buf ↦
      if ltb (length buf) (off + length b)
      then (ps, (0, short_write))
      else (record ps { buf = some (splice buf off b) }, (length b, nil))
]

-- The middle of `WriteAt`: the lock is taken again with a slot in hand. A buffer is allocated, or the
-- spare slot is given back.
unfoldable pub write_resume : PieceState → ℕ → PieceState × ℕ
write_resume ps slots = elim ps.buf [
  | none ↦ (record ps { buf = some (replicate ps.len 0) }, slots)
  | some _ ↦ (ps, slots - 1)
]

-- The last lock of `MarkComplete`, and that of `MarkNotComplete`: the buffer is dropped. The answer is
-- `freed`: whether a slot is to be given back once the lock is released.
unfoldable pub release : Bool → PieceState → PieceState × Bool
release complete ps = elim ps.buf [
  | none ↦ (record ps { complete = complete }, false)
  | some _ ↦ (record ps { buf = none; complete = complete }, true)
]

-- The receive from `bufSem` behind the lock.
unfoldable pub give_back : ℕ → ℕ
give_back slots = slots - 1

-- `Completion`: the answer, and the state with what it remembers.
unfoldable pub completion : Map Bool → PieceState → PieceState × Bool
completion known ps = if ps.complete then (ps, true) else elim (lookup ps.hash known) [
  | some _ ↦ (record ps { complete = true }, true)
  | none ↦ (ps, false)
]

module _ {S : S3} (cfg : Config) where
  -- `MarkComplete` behind its first lock, which read `data` from the buffer: the upload. A nil slice
  -- is uploaded as no bytes.
  unfoldable pub upload : Text → Option Bytes → Storage S → Run (Storage S) (Unit {0})
  upload hash body st = put_bytes (key_piece cfg hash) (elim body [ none ↦ [] | some b ↦ b ]) st

  -- `ReadAt(b, off)` with `want = len(b)`: from the buffer, or from the bucket once complete.
  unfoldable pub read_piece : ℕ → ℕ → PieceState → Storage S → Run (Storage S) (Bytes × PieceError)
  read_piece want off ps st = elim ps.buf [
    | some buf ↦
        if leb (length buf) off then ok ([], eof) st else ok (take want (drop off buf), nil) st
    | none ↦
        if ps.complete
        then (cat (key_piece cfg ps.hash) st >>= λ (body, st').
            if leb (length body) off
            then ok ([], eof) st'
            else ok (take want (drop off body), nil) st')
        else ok ([], eof) st
  ]

-- The pieces in the bucket, or none where the listing throws.
unfoldable pub known_pieces : {S : S3} → Config → Storage S → Run (Storage S) (Map Bool)
known_pieces cfg st = elim (list_pieces cfg st) [
  | ok known st' ↦ ok known st'
  | thrown e st' ↦ ok [] st'
  | crashed st' ↦ crashed st'
]

-- `runFetch`. `load` is the library's parse with the infohash; `client` is the torrent client at work
-- on the storage until `WaitAll` returns, with what that returned.
module _ {S : S3} (load : Bytes → Option (Info × Text))
    (client : Info → Fetch S → Run (Fetch S) Bool) (cfg : Config) where
  unfoldable pub download : Info → Text → Bytes → Storage S → Run (Storage S) (Unit {0})
  download info infohash raw st = do
    (known, st1) ← known_pieces cfg st
    (waited, st2) ←
        on_state (λ (f : Fetch S). f.store)
          (client info (record { store = st1; known = known; states = []; slots = 0 }))
    (if waited then put_bytes (key_torrent cfg infohash) raw st2 else thrown not_waited st2)

  unfoldable pub run_fetch : Bytes → Storage S → Run (Storage S) (Unit {0})
  run_fetch raw st = if leb (length raw) 0 then thrown empty_stdin st else elim (load raw) [
    | none ↦ thrown (bad_metainfo []) st
    | some (info, infohash) ↦
        let (done, st1) = stat (key_torrent cfg infohash) st in
        if done then ok tt st1 else download info infohash raw st1
  ]
