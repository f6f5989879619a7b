-- ===== src/Meta.antt =====
-- meta.go: the torrents in memory, by infohash and by display name.
pub mod Parsed
pub mod Offsets
pub mod Prune
pub mod Order
pub mod Reload
use samogon.Base.{
  Text, bytes, Bytes, ◌==◌, Map, lookup, insert, erase, ℕ, ◌+◌, Bool, true, false, ◌||◌, List, [],
  ◌∷◌, ◌++◌, length, take, if◌then◌else◌, Option, none, some, ltb, map,
}
use samogon.Config.{Config, prefix_torrents, key_torrent}
use samogon.Strings.{base, trim, join, dot}
use samogon.Throw.{Run, ok, thrown, crashed, ◌>>=◌, Exception, bad_metainfo, try, catch, on_state}
use samogon.Storage.{Storage, cat, list}
use samogon.Storage.Client.{S3}
use samogon.Meta.Parsed.{Info, InfoFile}

-- `offset` is where the file begins in the piece stream.
pub record FileEntry : Type 0 where
  pub path : Text
  pub size : ℕ
  pub offset : ℕ

pub record TorrentMeta : Type 0 where
  pub infohash : Text
  pub name : Text
  pub display_name : Text
  pub piece_len : ℕ
  pub total_len : ℕ
  pub files : List FileEntry
  pub piece_hashes : List Text

pub record Meta (S : S3) : Type 0 where
  pub store : Storage S
  pub by_name : Map TorrentMeta
  pub by_hash : Map TorrentMeta

-- Where `newMeta` starts.
abbrev pub new_meta : {S : S3} → Storage S → Meta S
new_meta st = record { store = st; by_name = []; by_hash = [] }

unfoldable pub sanitize_name : Text → Text
unfolding trim
sanitize_name n =
    let t = trim n in
    if t == [] || (t == dot ∷ [] || t == dot ∷ dot ∷ []) then bytes "torrent" else t

-- The loop over `info.Files`.
unfoldable pub file_entries : ℕ → List InfoFile → List FileEntry
file_entries offset [] = []
file_entries offset (f ∷ fs) =
    record { path = join f.path; size = f.length; offset = offset }
    ∷ file_entries (offset + f.length) fs

-- The loop over the pieces; `Unwrap` panics where there is no v1 hash.
unfoldable pub v1_hashes : List (Option Text) → Option (List Text)
v1_hashes [] = some []
v1_hashes (none ∷ hs) = none
v1_hashes (some h ∷ hs) = elim (v1_hashes hs) [ none ↦ none | some rest ↦ some (h ∷ rest) ]

unfoldable pub build_meta : Info → Text → Option TorrentMeta
unfolding file_entries v1_hashes
build_meta info infohash =
    let name = sanitize_name info.name in
    let files : List FileEntry = elim info.files [
      | [] ↦ record { path = name; size = info.length; offset = 0 } ∷ []
      | f ∷ fs ↦ file_entries 0 (f ∷ fs)
    ] in
    elim (v1_hashes info.pieces) [
      | none ↦ none
      | some hashes ↦ some (record {
        infohash = infohash;
        name = name;
        display_name = [];
        piece_len = info.piece_length;
        total_len = info.total_length;
        files = files;
        piece_hashes = hashes;
      })
    ]

unfoldable pub unique_name : Map TorrentMeta → Text → Text → Text
unique_name by_name name infohash = elim (lookup name by_name) [
  | none ↦ name
  | some _ ↦ name ++ (b'-' ∷ (if ltb 8 (length infohash) then take 8 infohash else infohash))
]

-- Both maps point to the new torrent.
unfoldable pub add_meta : {S : S3} → Text → TorrentMeta → Meta S → Meta S
unfolding unique_name
add_meta infohash built m =
    let display = unique_name m.by_name built.name built.infohash in
    let tm = record built { display_name = display } in
    record m { by_hash = insert infohash tm m.by_hash; by_name = insert display tm m.by_name }

-- The loop of `pruneGone`; the torrents that `seen` lacks go from both maps.
unfoldable pub prune_loop :
    Map Bool
    → Map TorrentMeta
    → Map TorrentMeta × Map TorrentMeta
    → Map TorrentMeta × Map TorrentMeta
prune_loop seen [] maps = maps
prune_loop seen ((ih, tm) ∷ rest) (by_hash, by_name) = prune_loop seen rest (elim (lookup ih seen) [
  | some _ ↦ (by_hash, by_name)
  | none ↦ (erase ih by_hash, erase tm.display_name by_name)
])

unfoldable pub prune_gone : {S : S3} → Map Bool → Meta S → Meta S
unfolding prune_loop
prune_gone seen m =
    let (by_hash, by_name) = prune_loop seen m.by_hash (m.by_hash, m.by_name) in
    record m { by_hash = by_hash; by_name = by_name }

unfoldable pub names : {S : S3} → Meta S → List Text
names m = map (λ (n, _). n) m.by_name

unfoldable pub find_name : {S : S3} → Meta S → Text → Option TorrentMeta
find_name m name = lookup name m.by_name

-- `load` is `metainfo.Load` followed by `UnmarshalInfo`: the library's, with `none` for an error.
module _ {S : S3} (load : Bytes → Option Info) (cfg : Config) where
  unfoldable pub load_one : Text → Meta S → Run (Meta S) (Unit {0})
  unfolding add_meta build_meta cat
  load_one infohash m = do
    (raw, m') ← on_state (λ st. record m { store = st }) (cat (key_torrent cfg infohash) m.store)
    elim (load raw) [
      | none ↦ thrown (bad_metainfo infohash) m'
      | some info ↦ elim (build_meta info infohash) [
        | none ↦ crashed m'
        | some built ↦ ok tt (add_meta infohash built m')
      ]
    ]

  -- The loop over the keys. An exception is logged and its torrent skipped.
  unfoldable pub load_loop : List Text → Map Bool → Meta S → Run (Meta S) (Map Bool)
  unfolding load_one try
  load_loop [] seen m = ok seen m
  load_loop (k ∷ keys) seen m =
      let seen' = insert (base k) true seen in
      let rest = load_loop keys seen' in
      elim (lookup (base k) m.by_hash) [
        | some _ ↦ rest m
        | none ↦ do (_, m') ← try (load_one (base k) m); rest m'
      ]

  unfoldable pub reload : Meta S → Run (Meta S) (Unit {0})
  unfolding load_loop prune_gone list
  reload m = do
    (keys, m') ← on_state (λ st. record m { store = st }) (list (prefix_torrents cfg) m.store)
    (seen, m'') ← load_loop keys [] m'
    ok tt (prune_gone seen m'')
