-- ===== src/Gc.antt =====
-- gc.go: the pieces that no torrent names are deleted. The workers' steps come in any order; how many
-- workers there are only rules orders out. A panic of a worker or of the goroutine that lists ends the
-- process.
pub mod Pool
pub mod Mark
pub mod Kept
pub mod Owed
pub mod Reached
pub mod Sweep
pub mod Stale
pub mod Whole
pub mod Count
pub mod Tally
use samogon.Base.{
  Text, Bytes, Map, lookup, insert, ℕ, zero, suc, Bool, true, false, List, [], ◌∷◌, length, take,
  get_elem?, drop_at, if◌then◌else◌, Option, none, some,
}
use samogon.Config.{Config, prefix_torrents, prefix_pieces}
use samogon.Meta.Parsed.{Info}
use samogon.Storage.{Storage, cat, delete, list, list_stream}
use samogon.Storage.Client.{S3}
use samogon.Strings.{base}
use samogon.Throw.{
  Run, ok, thrown, crashed, ◌>>=◌, Exception, bad_metainfo, try, on_state, uncaught,
}

-- A worker of `pmap` that has taken the key of a torrent: it has still to read it, or it is in the loop
-- over the torrent's pieces and has these hashes still to store.
pub data Marker : Type 0 where
  reading : Text → Marker
  storing : List (Option Text) → Marker

-- The bucket, the set `alive` and the counters, with the workers that mark and the keys that were given
-- to the workers that delete.
pub record Gc (S : S3) : Type 0 where
  pub store : Storage S
  pub alive : Map Bool
  pub marking : List Marker
  pub stale : List Text
  pub loaded : ℕ
  pub skipped : ℕ
  pub scanned : ℕ
  pub kept : ℕ
  pub deleted : ℕ

-- The local variables of `runGc` at its start.
abbrev pub started : {S : S3} → Storage S → Gc S
started st = record {
  store = st;
  alive = [];
  marking = [];
  stale = [];
  loaded = 0;
  skipped = 0;
  scanned = 0;
  kept = 0;
  deleted = 0;
}

-- `load` is `metainfo.Load` followed by `UnmarshalInfo`.
module _ {S : S3} (load : Bytes → Option Info) where
  -- What the callback of `Try` does before its loop.
  unfoldable pub mark_load : Text → Gc S → Run (Gc S) Info
  mark_load key w = do
    (raw, w1) ← on_state (λ st. record w { store = st }) (cat key w.store)
    elim (load raw) [ none ↦ thrown (bad_metainfo key) w1 | some info ↦ ok info w1 ]

  -- A step of a worker, with what it has then still to do. An exception of `Cat`
  -- or of the load ends in `Catch`; `Unwrap` panics with another value for want of a v1 hash.
  unfoldable pub mark_step : Marker → Gc S → Run (Gc S) (Option Marker)
  mark_step (reading key) w = elim (mark_load key w) [
    | ok info w' ↦ ok (some (storing info.pieces)) w'
    | thrown _ w' ↦ ok none (record w' { skipped = suc w'.skipped })
    | crashed w' ↦ crashed w'
  ]
  mark_step (storing []) w = ok none (record w { loaded = suc w.loaded })
  mark_step (storing (none ∷ hs)) w = crashed w
  mark_step (storing (some h ∷ hs)) w =
      ok (some (storing hs)) (record w { alive = insert h true w.alive })

  -- The worker at a place makes a step; a place where none is does nothing.
  unfoldable pub mark_at : ℕ → Gc S → Run (Gc S) (Unit {0})
  mark_at i w = elim (get_elem? w.marking i) [
    | none ↦ ok tt w
    | some m ↦ do
      (next, w') ← mark_step m (record w { marking = drop_at i w.marking })
      ok tt (elim next [ none ↦ w' | some m' ↦ record w' { marking = m' ∷ w'.marking } ])
  ]

  unfoldable pub run_marks : List ℕ → Gc S → Run (Gc S) (Unit {0})
  run_marks [] w = ok tt w
  run_marks (i ∷ is) w = do (_, w') ← mark_at i w; run_marks is w'

  -- The rest of a worker's loop, with a round for each hash and one for the end.
  unfoldable pub finish_stores : ℕ → Marker → Gc S → Run (Gc S) (Unit {0})
  finish_stores zero m w = ok tt w
  finish_stores (suc rounds) m w = do
    (next, w') ← mark_step m w
    elim next [ none ↦ ok tt w' | some m' ↦ finish_stores rounds m' w' ]

  -- A worker goes on to the end of its torrent.
  unfoldable pub finish_marker : Marker → Gc S → Run (Gc S) (Unit {0})
  finish_marker (storing hs) w = finish_stores (suc (length hs)) (storing hs) w
  finish_marker (reading key) w = do
    (next, w') ← mark_step (reading key) w
    elim next [
      | none ↦ ok tt w'
      | some (reading _) ↦ ok tt w'
      | some (storing hs) ↦ finish_stores (suc (length hs)) (storing hs) w'
    ]

  unfoldable pub finish_markers : List Marker → Gc S → Run (Gc S) (Unit {0})
  finish_markers [] w = ok tt w
  finish_markers (m ∷ ms) w = do (_, w') ← finish_marker m w; finish_markers ms w'

  -- `pmap` over the torrents. Before each send, and before the wait at the end, the workers make the
  -- steps that `orders` names; what is left then is done worker by worker.
  unfoldable pub mark : (ℕ → List ℕ) → List Text → Gc S → Run (Gc S) (Unit {0})
  mark orders [] w = do
    (_, w') ← run_marks (orders 0) w
    finish_markers w'.marking (record w' { marking = [] })
  mark orders (k ∷ ks) w = do
    (_, w') ← run_marks (orders (suc (length ks))) w
    mark orders ks (record w' { marking = reading k ∷ w'.marking })

-- A worker's `Delete`, whose panic no `Try` recovers.
unfoldable pub remove_piece : {S : S3} → Text → Gc S → Run (Gc S) (Unit {0})
remove_piece key w = do
  (_, w') ← on_state (λ st. record w { store = st }) (uncaught (delete key w.store))
  ok tt (record w' { deleted = suc w'.deleted })

module _ {S : S3} where
  -- Some worker takes the key at a place of the channel and deletes it.
  unfoldable pub delete_at : ℕ → Gc S → Run (Gc S) (Unit {0})
  delete_at i w = elim (get_elem? w.stale i) [
    | none ↦ ok tt w
    | some key ↦ remove_piece key (record w { stale = drop_at i w.stale })
  ]

  unfoldable pub run_deletes : List ℕ → Gc S → Run (Gc S) (Unit {0})
  run_deletes [] w = ok tt w
  run_deletes (i ∷ is) w = do (_, w') ← delete_at i w; run_deletes is w'

  -- The loop over the streamed keys. Before each of them the workers delete what `orders` names.
  unfoldable pub scan : (ℕ → List ℕ) → List Text → Gc S → Run (Gc S) (Unit {0})
  scan orders [] w = ok tt w
  scan orders (k ∷ ks) w = do
    (_, w1) ← run_deletes (orders (length ks)) w
    let rest = scan orders ks
    elim (lookup (base k) w1.alive) [
      | some _ ↦ rest (record w1 { scanned = suc w1.scanned; kept = suc w1.kept })
      | none ↦ rest (record w1 { scanned = suc w1.scanned; stale = k ∷ w1.stale })
    ]

  -- `workers.Wait()`: what is left in the channel is deleted, in the order in which the keys stand.
  unfoldable pub finish_deletes : List Text → Gc S → Run (Gc S) (Unit {0})
  finish_deletes [] w = ok tt w
  finish_deletes (k ∷ ks) w = do (_, w') ← remove_piece k w; finish_deletes ks w'

  -- The sweep. If the goroutine that lists panics, the process dies when `dies` keys were looked at.
  unfoldable pub sweep : (ℕ → List ℕ) → List ℕ → ℕ → List Text → Bool → Gc S → Run (Gc S) (Unit {0})
  sweep orders last dies pieces true w = do
    (_, w1) ← scan orders (take dies pieces) w
    (_, w2) ← run_deletes last w1
    crashed w2
  sweep orders last dies pieces false w = do
    (_, w1) ← scan orders pieces w
    (_, w2) ← run_deletes last w1
    finish_deletes w2.stale (record w2 { stale = [] })

-- The orders of the workers' steps, and when the process dies if the goroutine that lists panics.
pub record Schedule : Type 0 where
  pub marks : ℕ → List ℕ
  pub deletes : ℕ → List ℕ
  pub last : List ℕ
  pub dies : ℕ

module _ {S : S3} (load : Bytes → Option Info) (s : Schedule) where
  unfoldable pub run_gc : Config → Storage S → Run (Gc S) (Unit {0})
  run_gc cfg store = do
    (keys, w1) ← on_state started (list (prefix_torrents cfg) store)
    (_, w2) ← mark load s.marks keys w1
    let ((pieces, panics), st) = list_stream (prefix_pieces cfg) w2.store
    sweep s.deletes s.last s.dies pieces panics (record w2 { store = st; stale = [] })
