-- ===== src/Get2/Count.antt =====
-- The counters of get2.go after a run.
use mathlib.Core.List.{Perm}
use mathlib.Core.List.Perm
use samogon.Base.{Text, Bytes, ◌≡◌, List, Option}
use samogon.Config.{Config}
use samogon.Get2.{Counters, resolve_hashes}
use samogon.Meta.{Meta}
use samogon.Storage.{Storage}
use samogon.Storage.Client.{S3, IsLawful}
use samogon.Throw.{ok}
use samogon.Get2.Work.{Tally}

module _ {S : S3} (L : IsLawful S) (cfg : Config) (bucket : Text → Option Bytes) where
  -- What a run of the command has counted: the fetches, in some order, of the hashes that the target
  -- stands for, among the torrents in memory.
  pub record IsCounted (target : Text) (c : Counters) (m : Meta S) : Type 0 where
    pub loaded : Meta S
    pub hashes : List Text
    pub resolved : resolve_hashes target loaded ≡ ok hashes loaded
    pub names_same : loaded.by_name ≡ m.by_name
    pub done : List Text
    pub order : Perm done hashes
    pub counted : Tally L cfg bucket done c.ops c.bytes_fetched c.errs
