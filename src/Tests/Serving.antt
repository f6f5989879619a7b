-- ===== src/Tests/Serving.antt =====
-- The cache, the reads of files and the paths of sftp.go, on examples.
use samogon.Base.{
  length, List, none, insert, erase, true, false, bytes, lookup, text_dec, ℕ, ◌≡◌, refl, [], ◌∷◌,
  some, arith, inr,
}
use samogon.Base.Int.{pos}
use samogon.Cache.{new_lru, get, put}
use samogon.Cache.Refine.{new_lru-IsValid}
use samogon.Cache.Index.{entries, IsValid}
use samogon.Cache.Runs.{Call, get_call, put_call, run, spec_run, run-spec_run, get-put}
use samogon.File.{Reader, Turn, look, warm, read_at, eof}
use samogon.File.Good.{Good}
use samogon.File.Safe.{IsRead, read_at-IsRead}
use samogon.File.Alone.{alone}
use samogon.File.Exact.{read_at_exact}
use samogon.Get.{get_file}
use samogon.Get.Copy.{get_file_lem}
use samogon.Sftp.{VirtualFile, split_path, find_file, stat_path, open_file}
use samogon.Sftp.Paths.{open_file-stat_path, stat_path-open_file}
use samogon.Meta.{find_name}
use samogon.Strings.{
  base, clean_rooted, clean_parts, split_slash, join, trim_prefix, cut, has_prefix, trim_right,
}
use samogon.Throw.{ok, Ensures}
use samogon.Tests.Bucket.{memory, memory-IsLawful, memory-IsReliable}
use samogon.Tests.Fixture.{
  config, bucket, stream, file, torrent, library, reader, torrent-IsStored, reader-Good,
}

get-put_example : (get {V = ℕ} (put (new_lru 2) (bytes "a") 5) (bytes "a")).1 ≡ some 5
unfolding new_lru
get-put_example = get-put (new_lru 2) (bytes "a") 5 (new_lru-IsValid 2) (omega arith)

abbrev calls : List (Call ℕ)
calls =
    put_call (bytes "a") 1
    ∷ put_call (bytes "b") 2
    ∷ get_call (bytes "a")
    ∷ put_call (bytes "c") 3
    ∷ get_call (bytes "b")
    ∷ []

-- The third key pushes out the one used least recently.
calls-run : (run calls (new_lru 2)).1 ≡ some 1 ∷ none ∷ []
unfolding run new_lru get put lookup insert erase text_dec
calls-run = refl

run-spec_run_example :
    IsValid (run calls (new_lru 2)).0
    × (entries (run calls (new_lru 2)).0.ll ≡ (spec_run 2 calls []).0)
    × ((run calls (new_lru 2)).1 ≡ (spec_run 2 calls []).1)
run-spec_run_example = run-spec_run 2 calls

-- A goroutine in the way: it warms the other piece, and the read's own `Do` only waits.
abbrev crowded : ℕ → Turn
crowded _ = record {
  before = look (bytes "b") ∷ warm (bytes "b") ∷ [];
  leads = true;
  after = warm (bytes "x") ∷ [];
}

read_at-IsRead_example :
    Ensures
      (Good memory-IsLawful config bucket 2)
      (λ r _. IsRead stream file 2 1 r)
      (read_at config crowded torrent file 2 (pos 1) reader)
read_at-IsRead_example =
    read_at-IsRead memory-IsLawful config bucket 2 torrent stream torrent-IsStored crowded file 2 1
      reader reader-Good

read_at_exact_example :
    (w' : Reader memory) × (read_at config (λ _. alone) torrent file 2 (pos 1) reader
      ≡ ok (11 ∷ 12 ∷ [], eof) w')
    × Good memory-IsLawful config bucket 2 w'
read_at_exact_example =
    read_at_exact memory-IsLawful memory-IsReliable.answers config bucket 2 (omega arith) torrent
      stream torrent-IsStored (omega arith) (omega arith) file 2 1 reader reader-Good (omega arith)
      (omega arith)

abbrev opened : VirtualFile
opened = record { tm = torrent; file = file }

paths : Unit {0}
unfolding split_path clean_rooted clean_parts split_slash join trim_prefix cut has_prefix find_file
    find_name lookup text_dec base trim_right
paths = tt

split_path_run : split_path (bytes "/n//d/./x/../f/") ≡ (bytes "n", bytes "d/f")
unfolding paths
split_path_run = refl

opens : open_file library (bytes "n/d/f") ≡ inr opened
unfolding paths open_file
opens = refl

stats :
    stat_path library (bytes "/n/d/f")
    ≡ inr (record { name = bytes "f"; size = 3; dir = false } ∷ [])
unfolding paths stat_path
stats = refl

open_file-stat_path_example :
    (find_name library (split_path (bytes "n/d/f")).0 ≡ some torrent)
    × (find_file (split_path (bytes "n/d/f")).1 torrent.files ≡ some file)
    × (stat_path library (bytes "n/d/f")
        ≡ inr (record { name = base (split_path (bytes "n/d/f")).1; size = 3; dir = false } ∷ []))
open_file-stat_path_example = open_file-stat_path library (bytes "n/d/f") opened opens

stat_path-open_file_example :
    (v : VirtualFile) × (open_file library (bytes "/n/d/f") ≡ inr v) × (v.file.size ≡ 3)
stat_path-open_file_example =
    stat_path-open_file library (bytes "/n/d/f")
      (record { name = bytes "f"; size = 3; dir = false }) stats refl

get_file_lem_example :
    Ensures
      (Good memory-IsLawful config bucket 2)
      (λ res _. (res ≡ 10 ∷ 11 ∷ 12 ∷ []) × (length res ≡ 3))
      (get_file config (λ _. crowded) torrent file 2 reader)
get_file_lem_example =
    get_file_lem memory-IsLawful config bucket 2 torrent stream torrent-IsStored file 2
      (omega arith) (λ _. crowded) reader reader-Good
