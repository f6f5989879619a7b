-- ===== src/Tests/Copies.antt =====
-- The copy of a file by get.go, on a small bucket.
use mathlib.Core.Option.{some-injective}
use mathlib.Core.Path.{subst}
use samogon.Base.{
  Text, Bytes, bytes, text_dec, ◌≡◌, refl, sym, ap, ◌∙◌, [], ◌∷◌, Option, some, arith,
}
use samogon.Config.{key_torrent}
use samogon.File.{Reader}
use samogon.File.Alone.{alone}
use samogon.File.Good.{Good}
use samogon.File.Safe.{IsStored}
use samogon.Get.{get_file, run_get}
use samogon.Get.Command.{IsFileOf, run_get-IsFileOf}
use samogon.Get.Whole.{get_file_whole}
use samogon.Meta.{TorrentMeta, build_meta, v1_hashes, file_entries, sanitize_name}
use samogon.Meta.Parsed.{Info}
use samogon.Storage.Laws.{at}
use samogon.Strings.{trim, trim_left, trim_right}
use samogon.Throw.{ok, Ensures}
use samogon.Tests.Bucket.{memory, memory-IsLawful, memory-IsReliable}
use samogon.Tests.Fixture.{
  config, bucket, storage, stream, torrent, torrent-IsStored, file, reader, reader-Good,
}

get_file_whole_example :
    (w' : Reader memory) × (get_file config (λ _ _. alone) torrent file 2 reader
      ≡ ok (10 ∷ 11 ∷ 12 ∷ []) w')
    × Good memory-IsLawful config bucket 2 w'
get_file_whole_example =
    get_file_whole memory-IsLawful memory-IsReliable.answers config bucket 2 (omega arith) torrent
      stream torrent-IsStored (omega arith) (omega arith) file (omega arith) 2 (omega arith) reader
      reader-Good

abbrev manifest : Info
manifest = record {
  name = bytes "n";
  piece_length = 2;
  length = 3;
  total_length = 3;
  files = [];
  pieces = some (bytes "a") ∷ some (bytes "b") ∷ [];
}

abbrev load : Bytes → Option Info
load _ = some manifest

abbrev made : Text → TorrentMeta
made ih = record {
  infohash = ih;
  name = bytes "n";
  display_name = [];
  piece_len = 2;
  total_len = 3;
  files = record { path = bytes "n"; size = 3; offset = 0 } ∷ [];
  piece_hashes = bytes "a" ∷ bytes "b" ∷ [];
}

builds : (ih : Text) → build_meta manifest ih ≡ some (made ih)
unfolding build_meta v1_hashes file_entries sanitize_name trim trim_left trim_right text_dec
builds ih = refl

stored :
    (ih : Text) (raw : Bytes) (info : Info) (built : TorrentMeta)
    → bucket (key_torrent config ih) ≡ some raw
    → load raw ≡ some info
    → build_meta info ih ≡ some built
    → IsStored config bucket built stream
stored ih raw info built from loads is =
    subst (λ (t : TorrentMeta). IsStored config bucket t stream)
      (some-injective (made ih) built (
        sym (builds ih)
        ∙ (ap (λ (i : Info). build_meta i ih) (some-injective manifest info loads) ∙ is)))
      torrent-IsStored

run_get-IsFileOf_example :
    Ensures
      (λ w. (j : Text) → at memory-IsLawful w.store j ≡ bucket j)
      (λ res _. IsFileOf memory-IsLawful load config bucket (λ _. stream) stored (bytes "n") res)
      (run_get load config (λ _ _. alone) 2 (bytes "n") storage)
run_get-IsFileOf_example =
    run_get-IsFileOf memory-IsLawful load config bucket (λ _. stream) stored (λ _ _. alone) 2
      (bytes "n") storage (omega arith) (λ j. refl)
