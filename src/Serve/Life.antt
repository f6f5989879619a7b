-- ===== src/Serve/Life.antt =====
-- The metadata of a server over its whole life, in serve.go and meta.go.
use samogon.Base.{All, Text, Bytes, ◌≡◌, refl, List, [], ◌∷◌, Option, some}
use samogon.Config.{Config, key_torrent}
use samogon.Meta.{Meta, new_meta, reload}
use samogon.Meta.Parsed.{Info}
use samogon.Meta.Order.{IsMeta, new_meta-IsMeta}
use samogon.Meta.Reload.{AllStored, reload-IsMeta}
use samogon.Serve.{tick, ticks, serve_meta}
use samogon.Storage.{Storage}
use samogon.Storage.Client.{S3, IsLawful}
use samogon.Storage.Laws.{at}
use samogon.Throw.{Ensures, Ensures-bind, Ensures-map, Ensures-try}

module _ {S : S3} (L : IsLawful S) (load : Bytes → Option Info) (cfg : Config)
    (known : Text → Bytes → Type 0) where
  -- The .torrents of the bucket are known.
  abbrev pub IsKnown : Storage S → Type 0
  IsKnown st = (ih : Text) (b : Bytes) → at L st (key_torrent cfg ih) ≡ some b → known ih b

  tick-IsMeta :
      (m : Meta S)
      → IsMeta load known m
      → IsKnown m.store
      → Ensures (IsMeta load known) (λ _ _. Unit {0}) (tick load cfg m)
  unfolding tick
  tick-IsMeta m good knows =
      Ensures-try (IsMeta load known) (λ _ _. Unit {0}) (λ _ _. Unit {0}) (reload load cfg m)
        (Ensures-map (λ m'. IsMeta load known m' × ((j : Text) → at L m'.store j ≡ at L m.store j))
          (IsMeta load known) (λ _ m'. AllStored (at L m.store) m') (λ _ _. Unit {0}) _
          (λ m' i. i.0) (λ _ _ _ _. tt)
          (reload-IsMeta load known L cfg (at L m.store) knows m good (λ j. refl)))
        (λ _ _ _. tt) (λ _ _ _. tt)

  ticks-IsMeta :
      (fs : List (Storage S → Storage S)) (m : Meta S)
      → All (λ f. (st : Storage S) → IsKnown (f st)) fs
      → IsMeta load known m
      → Ensures (IsMeta load known) (λ _ _. Unit {0}) (ticks load cfg fs m)
  unfolding ticks
  ticks-IsMeta [] m writes good = (good, tt)
  ticks-IsMeta (f ∷ fs) m (write, writes) good =
      Ensures-bind (IsMeta load known) (λ _ _. Unit {0}) (λ _ _. Unit {0}) _ _
        (tick-IsMeta (record m { store = f m.store })
          (record { hashes = good.hashes; shown = good.shown }) (write m.store))
        (λ _ m' good' _. ticks-IsMeta fs m' writes good')

  -- However the bucket changes between the reloads of a server, and whichever reloads fail, the metadata
  -- stays in order: each torrent in memory stands under its infohash and is what `buildMeta` gives for a
  -- .torrent that was in the bucket under it, and each name shows a torrent in memory.
  pub serve_meta-IsMeta :
      (fs : List (Storage S → Storage S)) (st : Storage S)
      → IsKnown st
      → All (λ f. (s : Storage S) → IsKnown (f s)) fs
      → Ensures (IsMeta load known) (λ _ _. Unit {0}) (serve_meta load cfg fs st)
  unfolding serve_meta
  serve_meta-IsMeta fs st knows writes =
      Ensures-bind (IsMeta load known) (λ _ _. Unit {0}) (λ _ _. Unit {0}) _ _
        (tick-IsMeta (new_meta st) (new_meta-IsMeta load known st) knows)
        (λ _ m good _. ticks-IsMeta fs m writes good)
