-- ===== src/Tests/Fixture.antt =====
-- A bucket with one torrent of two pieces, for the examples.
use mathlib.Core.Option.{none-ne-some, some-injective}
use mathlib.Core.Path.{subst}
use samogon.Base.{
  Text, Bytes, bytes, Map, lookup, ℕ, zero, suc, ◌≡◌, refl, [], ◌∷◌, take, drop, ◌*◌, Option, some,
  text_dec,
}
use samogon.Cache.{new_lru}
use samogon.Cache.Refine.{new_lru-IsValid}
use samogon.Config.{Config, key_piece}
use samogon.File.{Reader}
use samogon.File.Good.{Good}
use samogon.File.Safe.{IsStored}
use samogon.Meta.{FileEntry, TorrentMeta, Meta}
use samogon.Storage.{Storage}
use samogon.Tests.Bucket.{memory, memory-IsLawful}

abbrev pub config : Config
config = record {
  aws_key = bytes "k";
  aws_secret = bytes "s";
  s3_endpt = bytes "http://h";
  s3_bucket = bytes "b";
  s3_root = bytes "r";
  listen = bytes ":2222";
  user = bytes "u";
  pass = bytes "p";
  auth_keys = bytes "keys";
  host_key = bytes "host";
  reload_secs = 30;
  lru_size = 2;
  up_sem = 2;
  prefetch_distance = 1;
  inflight_pieces = 1;
  region = bytes "us-east-1";
  tg_token = bytes "t";
  tg_allow_users = bytes "12, 7";
  socks5 = [];
  data_dir = [];
}

abbrev pub objects : Map Bytes
objects =
    (bytes "r/torrents/t", 7 ∷ [])
    ∷ (bytes "r/pieces/a", 10 ∷ 11 ∷ [])
    ∷ (bytes "r/pieces/b", 12 ∷ [])
    ∷ (bytes "r/pieces/x", 13 ∷ [])
    ∷ []

abbrev pub bucket : Text → Option Bytes
bucket k = lookup k objects

abbrev pub storage : Storage memory
storage = record { s3 = objects; puts = 0 }

abbrev pub stream : Bytes
stream = 10 ∷ 11 ∷ 12 ∷ []

abbrev pub file : FileEntry
file = record { path = bytes "d/f"; size = 3; offset = 0 }

abbrev pub torrent : TorrentMeta
torrent = record {
  infohash = bytes "t";
  name = bytes "n";
  display_name = bytes "n";
  piece_len = 2;
  total_len = 3;
  files = file ∷ [];
  piece_hashes = bytes "a" ∷ bytes "b" ∷ [];
}

abbrev pub library : Meta memory
library = record {
  store = storage;
  by_name = (bytes "n", torrent) ∷ [];
  by_hash = (bytes "t", torrent) ∷ [];
}

abbrev pub reader : Reader memory
reader = record { store = storage; cache = new_lru 2 }

stored_at :
    (i : ℕ) (h g : Text)
    → some h ≡ some g
    → bucket (key_piece config h) ≡ some (take 2 (drop (i * 2) stream))
    → bucket (key_piece config g) ≡ some (take 2 (drop (i * 2) stream))
stored_at i h g e =
    subst (λ (k : Text). bucket (key_piece config k) ≡ some (take 2 (drop (i * 2) stream)))
      (some-injective h g e)

pub torrent-IsStored : IsStored config bucket torrent stream
unfolding lookup key_piece text_dec
torrent-IsStored zero h e = stored_at 0 (bytes "a") h e refl
torrent-IsStored (suc zero) h e = stored_at 1 (bytes "b") h e refl
torrent-IsStored (suc (suc i)) h e = absurd (none-ne-some h e)

pub reader-Good : Good memory-IsLawful config bucket 2 reader
unfolding new_lru
reader-Good = record { valid = new_lru-IsValid 2; coherent = tt; room = refl; same = λ k. refl }
