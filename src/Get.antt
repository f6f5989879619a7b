-- ===== src/Get.antt =====
-- get.go: the file that the command's argument names, and the loop that copies it out.
pub mod Copy
pub mod Whole
pub mod Command
use samogon.Base.{
  Text, Bytes, ◌==◌, ℕ, zero, suc, ◌+◌, ◌-◌, List, [], ◌∷◌, ◌++◌, length, if◌then◌else◌, Option,
  none, some, ltb, ◌⊎◌, inl, inr,
}
use samogon.Base.Int.{pos}
use samogon.Cache.{new_lru}
use samogon.Config.{Config}
use samogon.File.{Reader, Turn, nil, eof, negative_offset, read_at}
use samogon.Meta.{FileEntry, TorrentMeta, Meta, new_meta, find_name, reload}
use samogon.Meta.Parsed.{Info}
use samogon.Storage.{Storage}
use samogon.Sftp.{VirtualFile, split_path, find_file}
use samogon.Storage.Client.{S3}
use samogon.Strings.{slash}
use samogon.Throw.{
  Exception, no_such_target, no_such_torrent, no_such_file, short_stream, wrapped, Run, ok, thrown,
  crashed, ◌>>=◌,
}

-- The file to copy: the path below the torrent, or the only file of a torrent named alone.
unfoldable pub get_target : {S : S3} → Meta S → Text → Exception ⊎ VirtualFile
get_target m target =
    let (tname, fpath) = split_path (slash ∷ target) in
    if tname == [] then inl (no_such_target target) else elim (find_name m tname) [
      | none ↦ inl (no_such_torrent tname)
      | some tm ↦
          if fpath == []
          then elim tm.files [
            | f ∷ [] ↦ inr (record { tm = tm; file = f })
            | _ ↦ inl (no_such_target tname)
          ]
          else elim (find_file fpath tm.files) [
            | none ↦ inl (no_such_file fpath)
            | some f ↦ inr (record { tm = tm; file = f })
          ]
    ]

-- The loop of `runGet`, `out` being what the output file holds and `chunk` the length of the buffer,
-- above zero. A round that does not end the loop copies a byte, so that a round for each byte is enough.
unfoldable pub get_loop :
    {S : S3}
    → Config
    → ℕ
    → (ℕ → ℕ → Turn)
    → TorrentMeta
    → FileEntry
    → ℕ
    → ℕ
    → Bytes
    → Reader S
    → Run (Reader S) Bytes
get_loop cfg zero turns tm file chunk off out w = ok out w
get_loop cfg (suc rounds) turns tm file chunk off out w =
    let rest = get_loop cfg rounds turns tm file chunk in
    if ltb off file.size
    then (do
      let remaining = file.size - off
      let want = if ltb remaining chunk then remaining else chunk
      ((got, err), w') ← read_at cfg (turns rounds) tm file want (pos off) w
      elim err [
        | eof ↦
            if ltb (off + length got) file.size
            then thrown (short_stream (off + length got) file.size) w'
            else ok (out ++ got) w'
        | nil ↦ rest (off + length got) (out ++ got) w'
        | negative_offset ↦ thrown (wrapped []) w'
      ])
    else ok out w

-- The loop from the file's first byte.
unfoldable pub get_file :
    {S : S3}
    → Config
    → (ℕ → ℕ → Turn)
    → TorrentMeta
    → FileEntry
    → ℕ
    → Reader S
    → Run (Reader S) Bytes
get_file cfg turns tm file chunk w = get_loop cfg file.size turns tm file chunk 0 [] w

-- The store and the empty cache that `runGet` reads through, after the reload.
abbrev pub reader_of : {S : S3} → Config → Meta S → Reader S
reader_of cfg m = record { store = m.store; cache = new_lru cfg.lru_size }

-- `runGet`, with what it writes to an output file that takes all of it; `chunk` is the length of the
-- buffer, above zero.
unfoldable pub run_get :
    {S : S3}
    → (Bytes → Option Info)
    → Config
    → (ℕ → ℕ → Turn)
    → ℕ
    → Text
    → Storage S
    → Run (Reader S) Bytes
run_get load cfg turns chunk target st = elim (reload load cfg (new_meta st)) [
  | thrown e m ↦ thrown e (reader_of cfg m)
  | crashed m ↦ crashed (reader_of cfg m)
  | ok _ m ↦ elim (get_target m target) [
    | inl e ↦ thrown e (reader_of cfg m)
    | inr v ↦ get_file cfg turns v.tm v.file chunk (reader_of cfg m)
  ]
]
