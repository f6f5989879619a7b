-- ===== src/Get2.antt =====
-- get2.go: the pieces that a file lies in, and the fetch of each of them.
pub mod Cover
pub mod Work
pub mod Count
use samogon.Base.{
  Text, Bytes, ◌==◌, ℕ, zero, suc, ◌+◌, ◌-◌, ◌/◌, Bool, List, [], ◌∷◌, length, get_elem?, drop_at,
  if◌then◌else◌, Option, none, some, ltb,
}
use samogon.Base.Int.{ℤ, pos, negsuc}
use samogon.Config.{Config, key_piece}
use samogon.Meta.{Meta, FileEntry, TorrentMeta, find_name, reload}
use samogon.Meta.Parsed.{Info}
use samogon.Sftp.{split_path, find_file}
use samogon.Storage.{Storage}
use samogon.Storage.Client.{S3, Reply, success, failure}
use samogon.Strings.{slash}
use samogon.Throw.{Run, ok, thrown, crashed, ◌>>=◌, no_such_target, no_such_torrent, no_such_file}

-- Go's division of a signed number by a positive one: towards zero.
unfoldable pub quotient : ℤ → ℕ → ℤ
quotient (pos n) d = pos (n / d)
quotient (negsuc n) d = elim (suc n / d) [ zero ↦ pos 0 | suc q ↦ negsuc q ]

abbrev pub pred_ℤ : ℕ → ℤ
pred_ℤ zero = negsuc 0
pred_ℤ (suc n) = pos n

-- The `n` pieces from the `i`th on; an index beyond the last one panics.
unfoldable pub piece_range : ℕ → ℕ → List Text → Option (List Text)
piece_range zero i hs = some []
piece_range (suc n) i hs =
    let rest = piece_range n (suc i) hs in
    elim (get_elem? hs i) [
      | none ↦ none
      | some h ↦ elim rest [ none ↦ none | some l ↦ some (h ∷ l) ]
    ]

-- The end of `resolveHashes`: the pieces from `startPiece` to `endPiece`. A division by zero panics.
unfoldable pub file_pieces : TorrentMeta → FileEntry → Option (List Text)
file_pieces tm file = elim tm.piece_len [
  | zero ↦ none
  | suc pl ↦
      let start_piece = file.offset / suc pl in
      elim (quotient (pred_ℤ (file.offset + file.size)) (suc pl)) [
        | negsuc _ ↦ some []
        | pos end_piece ↦ piece_range (suc end_piece - start_piece) start_piece tm.piece_hashes
      ]
]

unfoldable pub resolve_hashes : {S : S3} → Text → Meta S → Run (Meta S) (List Text)
resolve_hashes target m =
    let (tname, fpath) = split_path (slash ∷ target) in
    if tname == [] then thrown (no_such_target target) m else elim (find_name m tname) [
      | none ↦ thrown (no_such_torrent tname) m
      | some tm ↦ if fpath == [] then ok tm.piece_hashes m else elim (find_file fpath tm.files) [
        | none ↦ thrown (no_such_file fpath) m
        | some file ↦ elim (file_pieces tm file) [ none ↦ crashed m | some hashes ↦ ok hashes m ]
      ]
    ]

-- The counters that the workers share, and the hashes that workers took and have not counted.
pub record Counters : Type 0 where
  pub ops : ℕ
  pub bytes_fetched : ℕ
  pub errs : ℕ
  pub fetching : List Text

abbrev pub no_counts : Counters
no_counts = record { ops = 0; bytes_fetched = 0; errs = 0; fetching = [] }

module _ {S : S3} (cfg : Config) where
  -- The number of bytes of the piece's body.
  unfoldable pub get2_fetch : Text → Storage S → Reply ℕ × Storage S
  get2_fetch hash st =
      let (r, s') = S.get_object (key_piece cfg hash) st.s3 in
      (
        elim r [ success body ↦ success (length body) | failure e ↦ failure e ],
        record st { s3 = s' },
      )

  -- What a worker does with a hash that it took.
  unfoldable pub get2_one : Text → Counters → Storage S → Counters × Storage S
  get2_one h c st =
      let (r, st') = get2_fetch h st in
      (
        elim r [
          | success n ↦ record c { bytes_fetched = c.bytes_fetched + n; ops = suc c.ops }
          | failure _ ↦ record c { errs = suc c.errs }
        ],
        st',
      )

  -- The worker with the hash at a place goes on to the end of its round; a place where none is does
  -- nothing.
  unfoldable pub get2_at : ℕ → Counters → Storage S → Counters × Storage S
  get2_at i c st = elim (get_elem? c.fetching i) [
    | none ↦ (c, st)
    | some h ↦ get2_one h (record c { fetching = drop_at i c.fetching }) st
  ]

  unfoldable pub get2_steps : List ℕ → Counters → Storage S → Counters × Storage S
  get2_steps [] c st = (c, st)
  get2_steps (i ∷ is) c st = let (c', st') = get2_at i c st in get2_steps is c' st'

  unfoldable pub get2_finish : List Text → Counters → Storage S → Counters × Storage S
  get2_finish [] c st = (c, st)
  get2_finish (h ∷ hs) c st = let (c', st') = get2_one h c st in get2_finish hs c' st'

  -- The workers empty the queue; each hash is taken by one of them, in the queue's order. Before each
  -- take, and before the wait at the end, those that `orders` names go on.
  unfoldable pub work : (ℕ → List ℕ) → List Text → Counters → Storage S → Counters × Storage S
  work orders [] c st =
      let (c', st') = get2_steps (orders 0) c st in
      get2_finish c'.fetching (record c' { fetching = [] }) st'
  work orders (h ∷ queue) c st =
      let (c', st') = get2_steps (orders (suc (length queue))) c st in
      work orders queue (record c' { fetching = h ∷ c'.fetching }) st'

  -- `runGet2`; `shuffle` is the order that `rand.Shuffle` gives, or the order as it is.
  unfoldable pub run_get2 :
      (Bytes → Option Info)
      → (List Text → List Text)
      → (ℕ → List ℕ)
      → Text
      → Storage S
      → Run (Meta S) Counters
  run_get2 load shuffle orders target st = do
    (_, m) ← reload load cfg (record { store = st; by_name = []; by_hash = [] })
    (hashes, m') ← resolve_hashes target m
    let (c, st') = work orders (shuffle hashes) no_counts m'.store
    ok c (record m' { store = st' })
