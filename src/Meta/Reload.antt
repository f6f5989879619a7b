-- ===== src/Meta/Reload.antt =====
-- What `Reload` of meta.go keeps true of the two maps.
use mathlib.Core.Option.{none-ne-some}
use mathlib.Core.Path.{subst}
use samogon.Base.{
  All, All_map, eq_true, Text, Bytes, Bool, true, ◌==◌, Map, lookup, insert, lookup-insert,
  lookup-nil, ◌≡◌, refl, sym, ap, ◌∙◌, List, [], ◌∷◌, Option, none, some, Option-cases, Bool-cases,
  inl, inr,
}
use samogon.Config.{Config, key_torrent, prefix_torrents}
use samogon.Meta.{TorrentMeta, Meta, build_meta, load_one, load_loop, reload}
use samogon.Meta.Parsed.{Info}
use samogon.Storage.{cat, list}
use samogon.Storage.Client.{S3, IsLawful}
use samogon.Storage.Laws.{at, cat_lem, list_lem}
use samogon.Strings.{base}
use samogon.Throw.{Ensures, Ensures-bind, Ensures-map, Ensures-try, Ensures-on_state}
use samogon.Meta.Order.{IsMeta, add_meta-IsMeta, prune_gone-IsMeta}

-- Each name shows a torrent whose infohash is the leaf of a key in the bucket.
pub record AllStored {S : S3} (view : Text → Option Bytes) (m : Meta S) : Type 0 where
  pub stored :
      (n : Text) (tm : TorrentMeta)
      → lookup n m.by_name ≡ some tm
      → (k : Text) × (b : Bytes) × (base k ≡ tm.infohash) × (view k ≡ some b)

module _ (load : Bytes → Option Info) (known : Text → Bytes → Type 0) where
  module _ {S : S3} (L : IsLawful S) (cfg : Config) (view : Text → Option Bytes)
      (knows : (ih : Text) (b : Bytes) → view (key_torrent cfg ih) ≡ some b → known ih b) where
    -- The maps are in order, and the bucket is as `view`.
    abbrev InOrder : Meta S → Type 0
    InOrder m = IsMeta load known m × ((j : Text) → at L m.store j ≡ view j)

    load_one-InOrder :
        (ih : Text) (m : Meta S)
        → InOrder m
        → lookup ih m.by_hash ≡ none
        → Ensures InOrder (λ _ _. Unit {0}) (load_one load cfg ih m)
    unfolding load_one
    load_one-InOrder ih m (good, same) fresh =
        Ensures-bind InOrder (λ b m'. (m'.by_hash ≡ m.by_hash) × known ih b) (λ _ _. Unit {0}) _ _
          (Ensures-on_state InOrder (λ b m'. (m'.by_hash ≡ m.by_hash) × known ih b)
            (λ st. record m { store = st }) (cat (key_torrent cfg ih) m.store)
            (Ensures-map (λ st'. (j : Text) → at L st' j ≡ at L m.store j)
              (λ st'. InOrder (record m { store = st' }))
              (λ b _. at L m.store (key_torrent cfg ih) ≡ some b)
              (λ b _. (m.by_hash ≡ m.by_hash) × known ih b) (cat (key_torrent cfg ih) m.store)
              (λ st' kept.
                (record { hashes = good.hashes; shown = good.shown }, λ j. kept j ∙ same j))
              (λ b st' kept here. (refl, knows ih b (sym (same (key_torrent cfg ih)) ∙ here)))
              (cat_lem L (key_torrent cfg ih) m.store)))
          (λ b m' order (maps, from). elim (Option-cases (load b)) [
            | inl bad ↦ rw bad order
            | inr (info, loads) ↦ elim (Option-cases (build_meta info ih)) [
              | inl bad ↦ rw (loads, bad) order
              | inr (built, builds) ↦
                  rw (loads, builds)
                    (
                      (
                        add_meta-IsMeta load known m' ih b info built order.0
                            (ap (lookup ih) maps ∙ fresh) from loads builds,
                        order.1,
                      ),
                      tt,
                    )
            ]
          ])

    module _ (listed : Text → Type 0) where
      abbrev Seen : Map Bool → Type 0
      Seen seen = (ih : Text) (b : Bool) → lookup ih seen ≡ some b → listed ih

      load_loop-InOrder :
          (keys : List Text) (seen : Map Bool) (m : Meta S)
          → All (λ k. listed (base k)) keys
          → Seen seen
          → InOrder m
          → Ensures InOrder (λ seen' _. Seen seen') (load_loop load cfg keys seen m)
      unfolding load_loop
      load_loop-InOrder [] seen m on s order = (order, s)
      load_loop-InOrder (k ∷ keys) seen m (here, on) s order =
          elim (Option-cases (lookup (base k) m.by_hash)) [
            | inr (tm, there) ↦
                rw (there, load_loop)
                  (load_loop-InOrder keys (insert (base k) true seen) m on more order)
            | inl fresh ↦
                rw (fresh, load_loop)
                  (Ensures-bind InOrder (λ _ _. Unit {0}) (λ seen' _. Seen seen') _ _
                    (Ensures-try InOrder (λ _ _. Unit {0}) (λ _ _. Unit {0})
                      (load_one load cfg (base k) m) (load_one-InOrder (base k) m order fresh)
                      (λ _ _ _. tt) (λ _ _ _. tt))
                    (λ _ m' order' _.
                      load_loop-InOrder keys (insert (base k) true seen) m' on more order'))
          ]
        where
          more : Seen (insert (base k) true seen)
          more ih b e = elim (Bool-cases (ih == base k)) [
            | inl same ↦ subst listed (sym (eq_true ih (base k) same)) here
            | inr differs ↦ s ih b (rw (lookup-insert ih (base k) true seen, differs) at e)
          ]

    -- A key of the bucket has the leaf.
    abbrev Stored : Text → Type 0
    Stored ih = (k : Text) × (b : Bytes) × (base k ≡ ih) × (view k ≡ some b)

    -- `Reload` of maps in order keeps them in order and changes no object, however it ends: each torrent
    -- stands under its infohash and is what `buildMeta` gives for a .torrent known under it, as those of
    -- the bucket are, and each name shows a torrent in memory. After a `Reload` that returns, each name
    -- shows a torrent whose infohash is the leaf of a key in the bucket.
    pub reload-IsMeta :
        (m : Meta S)
        → IsMeta load known m
        → ((j : Text) → at L m.store j ≡ view j)
        → Ensures
            (λ m'. IsMeta load known m' × ((j : Text) → at L m'.store j ≡ view j))
            (λ _ m'. AllStored view m')
            (reload load cfg m)
    unfolding reload
    reload-IsMeta m good same =
        Ensures-bind InOrder (λ keys _. All (λ k. Stored (base k)) keys) _ _ _
          (Ensures-on_state InOrder (λ keys _. All (λ k. Stored (base k)) keys)
            (λ st. record m { store = st }) (list (prefix_torrents cfg) m.store)
            (Ensures-map (λ st'. (j : Text) → at L st' j ≡ at L m.store j)
              (λ st'. InOrder (record m { store = st' }))
              (λ keys _. All (λ k. (b : Bytes) × (at L m.store k ≡ some b)) keys)
              (λ keys _. All (λ k. Stored (base k)) keys) (list (prefix_torrents cfg) m.store)
              (λ st' kept.
                (record { hashes = good.hashes; shown = good.shown }, λ j. kept j ∙ same j))
              (λ keys st' kept present.
                All_map keys (λ k (b, is). (k, b, refl, sym (same k) ∙ is)) present)
              (list_lem L (prefix_torrents cfg) m.store)))
          (λ keys m' order present.
            Ensures-bind InOrder (λ seen _. Seen Stored seen) _ _ _
              (load_loop-InOrder Stored keys [] m' present
                (λ ih b e. absurd (none-ne-some b (sym (lookup-nil ih) ∙ e))) order)
              (λ seen m'' order' s.
                let pruned = prune_gone-IsMeta load known seen m'' order'.0 in
                (
                  (pruned.0, order'.1),
                  record {
                    stored = λ n tm e. let (b, there) = pruned.1 n tm e in s tm.infohash b there;
                  },
                )))
