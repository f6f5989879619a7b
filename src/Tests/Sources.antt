-- ===== src/Tests/Sources.antt =====
-- The torrents in memory, their listings and the stream of repack, on examples.
use mathlib.Core.Option.{none-ne-some}
use samogon.Base.{
  Bool, All, Text, Bytes, bytes, lookup, text_dec, ℕ, ◌+◌, ◌≤◌, ◌≡◌, ◌≢◌, refl, true, false, List,
  [], ◌∷◌, length, none, some, arith, inr,
}
use samogon.Config.{key_torrent, key_piece}
use samogon.File.{Turn, look, warm}
use samogon.File.Good.{Good}
use samogon.Meta.{
  TorrentMeta, build_meta, v1_hashes, file_entries, sanitize_name, prune_gone, find_name,
}
use samogon.Meta.Offsets.{Fills, build_meta-Fills}
use samogon.Meta.Parsed.{Info}
use samogon.Meta.Prune.{prune_gone-lookup}
use samogon.Repack.{PieceStream, stream_read, extract_infohash, all_hex, is_hex}
use samogon.Repack.Reads.{stream_read-IsNext}
use samogon.Repack.Stream.{Bodies, OnPiece, IsNext}
use samogon.Repack.Target.{extract_infohash-key_torrent}
use samogon.Sftp.{split_path, list_path, list_files, sort_infos, insert_info, less, dir_prefix}
use samogon.Sftp.Listing.{IsListed, list_path-IsListed}
use samogon.Strings.{
  clean_rooted, clean_parts, split_slash, join, trim_prefix, cut, has_prefix, trim, trim_left,
  trim_right,
}
use samogon.Throw.{Ensures}
use samogon.Tests.Bucket.{memory, memory-IsLawful}
use samogon.Tests.Fixture.{config, bucket, torrent, library, reader, reader-Good}

abbrev parsed : Info
parsed = record {
  name = bytes "/n/";
  piece_length = 2;
  length = 0;
  total_length = 3;
  files =
      record { path = bytes "d" ∷ bytes "f" ∷ []; length = 2 }
      ∷ record { path = bytes "g" ∷ []; length = 1 }
      ∷ [];
  pieces = some (bytes "a") ∷ some (bytes "b") ∷ [];
}

abbrev built : TorrentMeta
built = record {
  infohash = bytes "t";
  name = bytes "n";
  display_name = [];
  piece_len = 2;
  total_len = 3;
  files =
      record { path = bytes "d/f"; size = 2; offset = 0 }
      ∷ record { path = bytes "g"; size = 1; offset = 2 }
      ∷ [];
  piece_hashes = bytes "a" ∷ bytes "b" ∷ [];
}

builds : build_meta parsed (bytes "t") ≡ some built
unfolding build_meta v1_hashes file_entries sanitize_name trim trim_left trim_right join text_dec
builds = refl

build_meta-Fills_example :
    Fills 0 built.files built.total_len
    × All (λ f. f.offset + f.size ≤ built.total_len) built.files
    × (length built.piece_hashes ≡ 2)
build_meta-Fills_example = build_meta-Fills parsed (bytes "t") built builds refl

prune_gone-lookup_example :
    lookup (bytes "t") (prune_gone [] library).by_hash ≡ elim (lookup {V = Bool} (bytes "t") []) [
      | none ↦ none
      | some _ ↦ lookup (bytes "t") library.by_hash
    ]
prune_gone-lookup_example = prune_gone-lookup [] library (bytes "t")

paths : Unit {0}
unfolding split_path clean_rooted clean_parts split_slash join trim_prefix cut has_prefix find_name
    lookup text_dec list_path list_files sort_infos insert_info less dir_prefix
paths = tt

listing :
    list_path library (bytes "n/d") ≡ inr (record { name = bytes "f"; size = 3; dir = false } ∷ [])
unfolding paths
listing = refl

in_torrent :
    (find_name library (split_path (bytes "n/d")).0 ≡ some torrent)
    × ((split_path (bytes "n/d")).0 ≡ bytes "n")
unfolding paths
in_torrent = (refl, refl)

named : (t : Text) → t ≡ bytes "n" → t ≢ []
named t e f = cc

list_path-IsListed_example :
    All
      (IsListed (dir_prefix (split_path (bytes "n/d")).1) torrent.files)
      (record { name = bytes "f"; size = 3; dir = false } ∷ [])
list_path-IsListed_example =
    list_path-IsListed library (bytes "n/d") torrent
      (record { name = bytes "f"; size = 3; dir = false } ∷ []) in_torrent.0
      (named (split_path (bytes "n/d")).0 in_torrent.1) listing

abbrev hash : Text
hash = bytes "5e3e284f5e3e284f5e3e284f5e3e284f5e3e28c7"

hash_hex : all_hex hash ≡ true
unfolding all_hex is_hex
hash_hex = refl

extract_infohash-key_torrent_example : extract_infohash (key_torrent config hash) ≡ inr hash
extract_infohash-key_torrent_example =
    extract_infohash-key_torrent config hash hash_hex (omega arith)

abbrev contents : List Bytes
contents = (10 ∷ 11 ∷ []) ∷ (12 ∷ []) ∷ []

contents-Bodies : Bodies config bucket torrent.piece_hashes contents
unfolding lookup text_dec key_piece
contents-Bodies = (refl, (refl, tt))

abbrev opened : PieceStream memory
opened = record { reader = reader; cur = 0; pos = 0; buf = none }

opened-OnPiece : OnPiece memory-IsLawful config bucket 2 contents opened
opened-OnPiece = record { good = reader-Good; buffered = λ b e. absurd (none-ne-some b e) }

abbrev crowded : ℕ → Turn
crowded _ = record { before = look (bytes "b") ∷ []; leads = true; after = warm (bytes "b") ∷ [] }

stream_read-IsNext_example :
    Ensures
      (λ s'. Good memory-IsLawful config bucket 2 s'.reader)
      (λ r s'.
        OnPiece memory-IsLawful config bucket 2 contents s'
        × IsNext contents 2 (10 ∷ 11 ∷ 12 ∷ []) s' r)
      (stream_read config crowded torrent.piece_hashes 2 opened)
stream_read-IsNext_example =
    stream_read-IsNext memory-IsLawful config bucket 2 crowded torrent.piece_hashes contents 2
      opened contents-Bodies opened-OnPiece
