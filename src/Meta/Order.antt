-- ===== src/Meta/Order.antt =====
-- When the two maps of meta.go are in order, and that its operations on them keep them so.
use mathlib.Core.Bool.{true≢false}
use mathlib.Core.Option.{some-injective, none-ne-some}
use mathlib.Core.Path.{subst}
use samogon.Base.{
  eq_true, Text, Bytes, Bool, ◌==◌, eq_refl, eq_ne, Map, lookup, insert, erase, lookup-insert,
  lookup-erase, ◌≡◌, ◌≢◌, refl, sym, ap, ◌∙◌, [], ◌∷◌, Option, none, some, Option-cases, Bool-cases,
  inl, inr, arith,
}
use samogon.Meta.{
  TorrentMeta, Meta, new_meta, build_meta, v1_hashes, unique_name, add_meta, prune_loop, prune_gone,
}
use samogon.Meta.Parsed.{Info}
use samogon.Meta.Prune.{prune_gone-lookup}
use samogon.Storage.{Storage}
use samogon.Storage.Client.{S3}

build_meta-infohash :
    (info : Info) (ih : Text) (tm : TorrentMeta) → build_meta info ih ≡ some tm → tm.infohash ≡ ih
unfolding build_meta
build_meta-infohash info ih tm e = elim (Option-cases (v1_hashes info.pieces)) [
  | inl bad ↦ absurd (none-ne-some tm (rw (bad, build_meta) at e))
  | inr (hs, good) ↦
      ap (λ (t : TorrentMeta). t.infohash) (sym (some-injective _ tm (rw (good, build_meta) at e)))
]

-- A name that is left was there before, and is not that of a torrent that went.
prune_loop-name :
    (seen : Map Bool) (n : Text) (tm : TorrentMeta) (rest by_hash by_name : Map TorrentMeta)
    → lookup n (prune_loop seen rest (by_hash, by_name)).1 ≡ some tm
    → (lookup n by_name ≡ some tm)
      × ((ih : Text) (t : TorrentMeta)
          → lookup ih rest ≡ some t
          → lookup ih seen ≡ none
          → n ≢ t.display_name)
unfolding prune_loop lookup
prune_loop-name seen n tm [] by_hash by_name e = (e, λ ih t bad. absurd (none-ne-some t bad))
prune_loop-name seen n tm ((j, u) ∷ rest) by_hash by_name e = elim (Option-cases (lookup j seen)) [
  | inr (b, there) ↦
      let (before, others) =
        prune_loop-name seen n tm rest by_hash by_name (rw (there, prune_loop) at e) in
      (
        before,
        λ ih t here gone. elim (Bool-cases (ih == j)) [
          | inl same ↦ absurd (
              none-ne-some b (sym gone ∙ (ap (λ (k : Text). lookup k seen) (ground arith) ∙ there)))
          | inr differs ↦ others ih t (rw differs at here) gone
        ],
      )
  | inl out ↦
      let (left, others) =
        prune_loop-name seen n tm rest (erase j by_hash) (erase u.display_name by_name)
          (rw (out, prune_loop) at e) in
      let (before, apart) = kept n u.display_name by_name left in
      (
        before,
        λ ih t here gone. elim (Bool-cases (ih == j)) [
          | inl same ↦ λ x. apart (
              x
              ∙ ap (λ (w : TorrentMeta). w.display_name)
                  (sym (some-injective u t (rw same at here))))
          | inr differs ↦ others ih t (rw differs at here) gone
        ],
      )
]
  where
    kept :
        (n d : Text) (m : Map TorrentMeta)
        → lookup n (erase d m) ≡ some tm
        → (lookup n m ≡ some tm) × (n ≢ d)
    kept n d m e = elim (Bool-cases (n == d)) [
      | inl same ↦ absurd (none-ne-some tm (rw (lookup-erase n d m, same) at e))
      | inr differs ↦ (
        rw (lookup-erase n d m, differs) at e,
        λ x. true≢false (sym (eq_refl d) ∙ (ap (λ (k : Text). k == d) (sym x) ∙ differs)),
      )
    ]

module _ (load : Bytes → Option Info) (known : Text → Bytes → Type 0) where
  -- A torrent in memory is what `buildMeta` gives for a known .torrent, but for its name on display.
  pub record IsBuilt (ih : Text) (tm : TorrentMeta) : Type 0 where
    pub raw : Bytes
    pub info : Info
    pub built : TorrentMeta
    pub from : known ih raw
    pub loads : load raw ≡ some info
    pub builds : build_meta info ih ≡ some built
    pub same : tm ≡ record built { display_name = tm.display_name }

  -- Each torrent stands under its infohash, and each name shows the torrent that has it on display,
  -- which stands under its infohash too.
  pub record IsMeta {S : S3} (m : Meta S) : Type 0 where
    pub hashes : (ih : Text) (tm : TorrentMeta) → lookup ih m.by_hash ≡ some tm → IsBuilt ih tm
    pub shown :
        (n : Text) (tm : TorrentMeta)
        → lookup n m.by_name ≡ some tm
        → (n ≡ tm.display_name) × (lookup tm.infohash m.by_hash ≡ some tm)

  pub new_meta-IsMeta : {S : S3} (st : Storage S) → IsMeta (new_meta st)
  unfolding lookup
  new_meta-IsMeta st = record {
    hashes = λ ih tm e. absurd (none-ne-some tm e);
    shown = λ n tm e. absurd (none-ne-some tm e);
  }

  -- A new torrent, under an infohash that had none.
  pub add_meta-IsMeta :
      {S : S3} (m : Meta S) (ih : Text) (raw : Bytes) (info : Info) (built : TorrentMeta)
      → IsMeta m
      → lookup ih m.by_hash ≡ none
      → known ih raw
      → load raw ≡ some info
      → build_meta info ih ≡ some built
      → IsMeta (add_meta ih built m)
  unfolding add_meta
  add_meta-IsMeta m ih raw info built good fresh from loads builds = record {
    hashes = λ j t e. elim (Bool-cases (j == ih)) [
      | inl same ↦
          subst (λ (w : Text × TorrentMeta). IsBuilt w.0 w.1)
            (ap (λ (x : Text). (x, tm)) (sym (eq_true j ih same))
              ∙ ap (λ (x : TorrentMeta). (j, x))
                  (some-injective tm t (rw (lookup-insert j ih tm m.by_hash, same) at e)))
            (record {
              raw = raw;
              info = info;
              built = built;
              from = from;
              loads = loads;
              builds = builds;
              same = refl;
            })
      | inr differs ↦ good.hashes j t (rw (lookup-insert j ih tm m.by_hash, differs) at e)
    ];
    shown = λ n t e. elim (Bool-cases (n == display)) [
      | inl same ↦
          subst
            (λ (w : TorrentMeta).
              (n ≡ w.display_name) × (lookup w.infohash (insert ih tm m.by_hash) ≡ some w))
            (some-injective tm t (rw (lookup-insert n display tm m.by_name, same) at e))
            (eq_true n display same, here)
      | inr differs ↦
          let (name, there) =
            good.shown n t (rw (lookup-insert n display tm m.by_name, differs) at e) in
          (
            name,
            rw
                (
                  lookup-insert t.infohash ih tm m.by_hash,
                  eq_ne t.infohash ih (λ x.
                      none-ne-some t
                        (sym fresh ∙ (ap (λ (k : Text). lookup k m.by_hash) (sym x) ∙ there))),
                )
                there,
          )
    ];
  }
    where
      display : Text
      display = unique_name m.by_name built.name built.infohash

      tm : TorrentMeta
      tm = record built { display_name = display }

      here : lookup built.infohash (insert ih tm m.by_hash) ≡ some tm
      here = rw (
        lookup-insert built.infohash ih tm m.by_hash,
        build_meta-infohash info ih built builds,
        eq_refl ih,
      )

  -- The torrents that were not seen go, and the names left show torrents that were seen.
  pub prune_gone-IsMeta :
      {S : S3} (seen : Map Bool) (m : Meta S)
      → IsMeta m
      → IsMeta (prune_gone seen m)
        × ((n : Text) (tm : TorrentMeta)
            → lookup n (prune_gone seen m).by_name ≡ some tm
            → (b : Bool) × (lookup tm.infohash seen ≡ some b))
  unfolding prune_gone
  prune_gone-IsMeta seen m good = (
    record {
      hashes = λ ih tm e. elim (Option-cases (lookup ih seen)) [
        | inl out ↦ absurd (none-ne-some tm (sym (rw out at (prune_gone-lookup seen m ih)) ∙ e))
        | inr (b, there) ↦ good.hashes ih tm (sym (rw there at (prune_gone-lookup seen m ih)) ∙ e)
      ];
      shown = λ n tm e.
          let (b, there) = was_seen n tm e in
          let before =
            good.shown n tm (prune_loop-name seen n tm m.by_hash m.by_hash m.by_name e).0 in
          (before.0, rw there at (prune_gone-lookup seen m tm.infohash) ∙ before.1);
    },
    was_seen,
  )
    where
      was_seen :
          (n : Text) (tm : TorrentMeta)
          → lookup n (prune_loop seen m.by_hash (m.by_hash, m.by_name)).1 ≡ some tm
          → (b : Bool) × (lookup tm.infohash seen ≡ some b)
      was_seen n tm e = elim (Option-cases (lookup tm.infohash seen)) [
        | inr there ↦ there
        | inl out ↦
            let (name, others) = prune_loop-name seen n tm m.by_hash m.by_hash m.by_name e in
            let (named, here) = good.shown n tm name in
            absurd (others tm.infohash tm here out named)
      ]
