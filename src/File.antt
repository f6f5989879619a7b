-- ===== src/File.antt =====
-- sftp.go, `virtualFile`: reads of a file's bytes from the pieces, through the cache.
pub mod Prefix
pub mod Good
pub mod Safe
pub mod Alone
pub mod Exact
use mathlib.Core.Logic.{ite}
use samogon.Base.{
  Text, Bytes, ℕ, zero, suc, ◌+◌, ◌-◌, ◌/◌, ◌%◌, Bool, true, false, ◌&&◌, List, [], ◌∷◌, ◌++◌,
  length, get_elem?, take, drop, if◌then◌else◌, Option, none, some, ltb, leb, eqb, min,
}
use samogon.Base.Int.{ℤ, pos, negsuc}
use samogon.Cache
use samogon.Cache.{Lru}
use samogon.Config.{Config, key_piece}
use samogon.Meta.{FileEntry, TorrentMeta}
use samogon.Storage.{Storage, cat}
use samogon.Storage.Client.{S3}
use samogon.Throw.{Run, ok, thrown, crashed, ◌>>=◌, try, on_state, uncaught}

-- What the reads of all open files share.
pub record Reader (S : S3) : Type 0 where
  pub store : Storage S
  pub cache : Lru Bytes

-- What another goroutine does between two steps of a read: it looks a piece up, or it fetches one
-- and swallows the error, as the prefetch does.
pub data Other : Type 0 where
  look : Text → Other
  warm : Text → Other

-- One call of `getPiece` among other goroutines. `leads` says whether its call of `Do` runs the
-- callback, or waits for one that another read runs, which ends alike for both: singleflight panics again,
-- with an error of its own that `Try` does not recover, in each caller of a callback that panicked. If not,
-- it waits for the callback of a prefetch; `before` and `after` are the steps of others between the
-- cache miss and `Do`, and between `Do` and the second lookup.
pub record Turn : Type 0 where
  pub before : List Other
  pub leads : Bool
  pub after : List Other

-- What `ReadAt` returns beside the bytes.
pub data ReadError : Type 0 where
  nil eof negative_offset : ReadError

-- The piece that `getPiece` starts to prefetch, if any.
unfoldable pub prefetch_target : Config → TorrentMeta → ℕ → Option Text
prefetch_target cfg tm idx =
    let d = cfg.prefetch_distance in
    if ltb 0 d && ltb (idx + d) (length tm.piece_hashes)
    then get_elem? tm.piece_hashes (idx + d)
    else none

module _ {S : S3} where
  unfoldable pub cache_get : Text → Reader S → Option Bytes × Reader S
  cache_get hash w = let (c, v) = Cache.get w.cache hash in (v, record w { cache = c })

  module _ (cfg : Config) where
    -- `v.cache.Put(hash, v.store.Cat(v.cfg.KeyPiece(hash)))`
    unfoldable pub cat_put : Text → Reader S → Run (Reader S) (Unit {0})
    cat_put hash w = do
      (body, w') ← on_state (λ st. record w { store = st }) (cat (key_piece cfg hash) w.store)
      ok tt (record w' { cache = Cache.put w'.cache hash body })

    -- The callback of the foreground's `Do`.
    unfoldable pub fill : Text → Reader S → Run (Reader S) (Unit {0})
    fill hash w =
        let (found, w') = cache_get hash w in
        elim found [ some _ ↦ ok tt w' | none ↦ cat_put hash w' ]

    abbrev state_of {ℓ} : {A : Type ℓ} → Run (Reader S) A → Reader S
    state_of (ok a w) = w
    state_of (thrown e w) = w
    state_of (crashed w) = w

    -- The prefetch's callback: the same under `Try`, the error dropped.
    unfoldable pub prefetch : Text → Reader S → Reader S
    prefetch hash w = state_of (fill hash w)

    unfoldable pub others : List Other → Reader S → Reader S
    others [] w = w
    others (look h ∷ os) w = others os ((cache_get h w).1)
    others (warm h ∷ os) w = others os (prefetch h w)

    -- `getPiece` behind the start of the prefetch. A lookup that misses at the end gives nil.
    unfoldable pub get_piece : Turn → Text → Reader S → Run (Reader S) Bytes
    get_piece turn hash w =
        let (hit, w1) = cache_get hash w in
        elim hit [
          | some body ↦ ok body w1
          | none ↦ do
            let w2 = others turn.before w1
            (_, w3) ← (if turn.leads then uncaught (fill hash w2) else ok tt (prefetch hash w2))
            let (again, w4) = cache_get hash (others turn.after w3)
            ok (elim again [ some body ↦ body | none ↦ [] ]) w4
        ]

    -- The loop of `ReadAt`: `n` is `len(p)` after the clip and `got` the bytes copied so far. Each
    -- round copies at least one byte or breaks, so that `n` rounds are enough.
    unfoldable pub read_loop :
        ℕ → (ℕ → Turn) → TorrentMeta → ℕ → ℕ → Bytes → Reader S → Run (Reader S) Bytes
    read_loop zero turns tm n off got w = ok got w
    read_loop (suc rounds) turns tm n off got w =
        let rest = read_loop rounds turns tm n in
        if ltb (length got) n
        then if eqb tm.piece_len 0
          then crashed w
          else elim (get_elem? tm.piece_hashes (off / tm.piece_len)) [
            | none ↦ ok got w
            | some hash ↦ do
              (piece, w') ← get_piece (turns rounds) hash w
              let piece_off = off % tm.piece_len
              let copied = take (n - length got) (drop piece_off piece)
              (if leb (length piece) piece_off
                  then ok got w'
                  else if eqb (length copied) 0
                  then ok got w'
                  else rest (off + length copied) (got ++ copied) w')
          ]
        else ok got w

    -- `ReadAt(p, off)` with `want = len(p)`.
    unfoldable pub read_at :
        (ℕ → Turn) → TorrentMeta → FileEntry → ℕ → ℤ → Reader S → Run (Reader S) (Bytes × ReadError)
    read_at turns tm file want (negsuc _) w = ok ([], negative_offset) w
    read_at turns tm file want (pos off) w = if leb file.size off then ok ([], eof) w else do
      let remaining = file.size - off
      let n = if ltb remaining want then remaining else want
      (got, w') ← read_loop n turns tm n (file.offset + off) [] w
      let err =
          if ltb (length got) remaining && ltb (length got) n
          then eof
          else if leb file.size (off + length got)
          then eof
          else nil
      ok (got, err) w'
