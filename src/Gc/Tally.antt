-- ===== src/Gc/Tally.antt =====
-- The counters of `runGc`: every key that is listed is worked on once.
use samogon.Base.{Text, Bytes, ℕ, ◌+◌, ◌≡◌, List, length, Option, some}
use samogon.Config.{Config, prefix_pieces}
use samogon.Gc.{Gc, Schedule}
use samogon.Meta.Parsed.{Info}
use samogon.Storage.{Storage}
use samogon.Storage.Client.{S3, IsLawful, keys_of}

module _ {S : S3} where
  -- Of `n` keys all but `rest` are looked at, and each of these is kept, deleted, or one of the `held`
  -- that are still to be deleted; the first pass counted `m` torrents.
  abbrev Sweeps : ℕ → ℕ → ℕ → ℕ → Gc S → Type 0
  Sweeps rest held n m w =
      (w.scanned + rest ≡ n)
      × ((w.kept + w.deleted + held ≡ w.scanned) × (w.loaded + w.skipped ≡ m))

  -- The keys that are still to be deleted wait for the workers.
  abbrev Held : ℕ → ℕ → ℕ → Gc S → Type 0
  Held rest n m w = Sweeps rest (length w.stale) n m w

module _ {S : S3} (L : IsLawful S) (load : Bytes → Option Info) (s : Schedule) (cfg : Config)
    (bucket : Text → Option Bytes) where
  -- What was counted: the listed torrents, and the pieces of a listing of the bucket.
  pub record IsTallied (keys : List Text) (w : Gc S) : Type 0 where
    pub now : S.State
    pub pieces : List Text
    pub unchanged : (j : Text) → L.contents now j ≡ bucket j
    pub streamed : keys_of (S.list_objects (prefix_pieces cfg) now).0 ≡ some pieces
    pub torrents : w.loaded + w.skipped ≡ length keys
    pub all : w.scanned ≡ length pieces
    pub each : w.kept + w.deleted ≡ length pieces
