-- ===== src/Get/Command.antt =====
-- `runGet` of get.go as a whole: what it writes is a file of a torrent of the bucket.
use mathlib.Core.Option.{some-injective, none-ne-some}
use mathlib.Core.Path.{subst}
use mathlib.Core.Sum.{inr-injective, inl-ne-inr}
use samogon.Base.{
  eq_true, In, Text, Bytes, ◌==◌, ℕ, ◌<◌, ◌≡◌, refl, sym, ap, ◌∙◌, Bool-cases, Option-cases, List,
  [], ◌∷◌, length, take, drop, Option, some, ◌⊎◌, inl, inr, Sum-cases,
}
use samogon.Cache.{new_lru}
use samogon.Cache.Refine.{new_lru-IsValid}
use samogon.Config.{Config, key_torrent}
use samogon.File.{Turn}
use samogon.File.Good.{Good}
use samogon.File.Safe.{IsStored}
use samogon.Get.{get_target, get_file, reader_of, run_get}
use samogon.Get.Copy.{get_file_lem}
use samogon.Meta.{FileEntry, TorrentMeta, Meta, new_meta, find_name, reload, build_meta}
use samogon.Meta.Parsed.{Info}
use samogon.Meta.Order.{IsBuilt, IsMeta, new_meta-IsMeta}
use samogon.Meta.Reload.{AllStored, reload-IsMeta}
use samogon.Sftp.{VirtualFile, split_path, find_file}
use samogon.Storage.{Storage}
use samogon.Storage.Client.{S3, IsLawful}
use samogon.Storage.Laws.{at}
use samogon.Strings.{slash}
use samogon.Throw.{Exception, no_such_target, Run, ok, thrown, crashed, Ensures, Ensures-map}

find_file-In :
    (p : Text) (fs : List FileEntry) (f : FileEntry)
    → find_file p fs ≡ some f
    → In f fs × (f.path ≡ p)
unfolding find_file
find_file-In p [] f e = absurd (none-ne-some f e)
find_file-In p (g ∷ fs) f e = elim (Bool-cases (g.path == p)) [
  | inl here ↦
      let same = some-injective g f (rw (here, find_file) at e) in
      (inl (sym same), ap (λ (x : FileEntry). x.path) (sym same) ∙ eq_true g.path p here)
  | inr there ↦
      let (later, path) = find_file-In p fs f (rw (there, find_file) at e) in (inr later, path)
]

-- The only file of a torrent that is named alone.
only_file :
    (tm : TorrentMeta) (tname : Text) (fs : List FileEntry) (x : Text → Exception) (v : VirtualFile)
    → ◌≡◌ {A = Exception ⊎ VirtualFile}
        (elim fs [ f ∷ [] ↦ inr (record { tm = tm; file = f }) | _ ↦ inl (x tname) ])
        (inr v)
    → (tm ≡ v.tm) × In v.file fs
only_file tm tname [] x v e = absurd (inl-ne-inr e)
only_file tm tname (f ∷ []) x v e =
    let same = inr-injective _ v e in
    (ap (λ (w : VirtualFile). w.tm) same, inl (ap (λ (w : VirtualFile). w.file) (sym same)))
only_file tm tname (f ∷ g ∷ fs) x v e = absurd (inl-ne-inr e)

-- The file has the path that the target gives, if it gives one.
abbrev pub IsAsked : Text → FileEntry → Type 0
IsAsked target file =
    ((split_path (slash ∷ target)).1 ≡ []) ⊎ (file.path ≡ (split_path (slash ∷ target)).1)

-- The target is a file of a torrent in memory.
get_target-In :
    {S : S3} (m : Meta S) (target : Text) (v : VirtualFile)
    → get_target m target ≡ inr v
    → (find_name m (split_path (slash ∷ target)).0 ≡ some v.tm)
      × In v.file v.tm.files
      × IsAsked target v.file
unfolding get_target
get_target-In m target v e = elim (Bool-cases ((split_path (slash ∷ target)).0 == [])) [
  | inl a ↦ absurd (inl-ne-inr (rw (a, get_target) at e))
  | inr a ↦ elim (Option-cases (find_name m (split_path (slash ∷ target)).0)) [
    | inl b ↦ absurd (inl-ne-inr (rw (a, b, get_target) at e))
    | inr (tm, b) ↦ elim (Bool-cases ((split_path (slash ∷ target)).1 == [])) [
      | inl c ↦
          let (same, there) =
            only_file tm (split_path (slash ∷ target)).0 tm.files no_such_target v
              (rw (a, b, c, get_target) at e) in
          (
            b ∙ ap some same,
            subst (λ (t : TorrentMeta). In v.file t.files) same there,
            inl (eq_true (split_path (slash ∷ target)).1 [] c),
          )
      | inr c ↦ elim (Option-cases (find_file (split_path (slash ∷ target)).1 tm.files)) [
        | inl d ↦ absurd (inl-ne-inr (rw (a, b, c, d, get_target) at e))
        | inr (file, d) ↦
            let same = inr-injective _ v (rw (a, b, c, d, get_target) at e) in
            subst
              (λ (w : VirtualFile).
                (find_name m (split_path (slash ∷ target)).0 ≡ some w.tm)
                × In w.file w.tm.files
                × IsAsked target w.file)
              same
              (let (there, path) = find_file-In (split_path (slash ∷ target)).1 tm.files file d in
                (b, there, inr path))
      ]
    ]
  ]
]

module _ {S : S3} (L : IsLawful S) (load : Bytes → Option Info) (cfg : Config)
    (bucket : Text → Option Bytes) (stream : Text → Bytes)
    (stored : (ih : Text) (raw : Bytes) (info : Info) (built : TorrentMeta)
      → bucket (key_torrent cfg ih) ≡ some raw
      → load raw ≡ some info
      → build_meta info ih ≡ some built
      → IsStored cfg bucket built (stream ih)) where
  -- The bytes are those of the file that was asked for, of a torrent whose .torrent is in the bucket.
  pub record IsFileOf (target : Text) (res : Bytes) : Type 0 where
    pub infohash : Text
    pub raw : Bytes
    pub info : Info
    pub built : TorrentMeta
    pub from : bucket (key_torrent cfg infohash) ≡ some raw
    pub loads : load raw ≡ some info
    pub builds : build_meta info infohash ≡ some built
    pub file : FileEntry
    pub inside : In file built.files
    pub asked : IsAsked target file
    pub content : res ≡ take file.size (drop file.offset (stream infohash))
    pub whole : length res ≡ file.size

  abbrev Known : Text → Bytes → Type 0
  Known ih b = bucket (key_torrent cfg ih) ≡ some b

  abbrev Same : Storage S → Type 0
  Same st = (j : Text) → at L st j ≡ bucket j

  copied :
      (turns : ℕ → ℕ → Turn) (chunk : ℕ) (pos : 0 < chunk) (target : Text) (m : Meta S)
      (v : VirtualFile)
      → Same m.store
      → (b : IsBuilt load Known v.tm.infohash v.tm) → In v.file v.tm.files
      → IsAsked target v.file
      → Ensures
          (λ w. Same w.store)
          (λ res _. IsFileOf target res)
          (get_file cfg turns v.tm v.file chunk (reader_of cfg m))
  unfolding new_lru
  copied turns chunk pos target m v same b inside asked =
      Ensures-map (Good L cfg bucket cfg.lru_size) (λ w. Same w.store)
        (λ res _.
          (res ≡ take v.file.size (drop v.file.offset (stream v.tm.infohash)))
          × (length res ≡ v.file.size))
        (λ res _. IsFileOf target res) _ (λ w g. g.same)
        (λ res w g (content, whole). record {
          infohash = v.tm.infohash;
          raw = b.raw;
          info = b.info;
          built = b.built;
          from = b.from;
          loads = b.loads;
          builds = b.builds;
          file = v.file;
          inside = subst (λ (t : TorrentMeta). In v.file t.files) b.same inside;
          asked = asked;
          content = content;
          whole = whole;
        })
        (get_file_lem L cfg bucket cfg.lru_size v.tm (stream v.tm.infohash)
          (subst (λ (t : TorrentMeta). IsStored cfg bucket t (stream v.tm.infohash)) (sym b.same)
            (stored v.tm.infohash b.raw b.info b.built b.from b.loads b.builds))
          v.file chunk pos turns (reader_of cfg m)
          (record {
            valid = new_lru-IsValid cfg.lru_size;
            coherent = tt;
            room = refl;
            same = same;
          }))

  -- The bucket holds the pieces of the torrents whose .torrents it holds; the buffer has a length above
  -- zero. Whatever other goroutines do and however the service fails, `runGet` changes no object of the
  -- bucket, and if it returns it has written the whole of a file of a torrent of the bucket, which has
  -- the path that the target gives if it gives one.
  pub run_get-IsFileOf :
      (turns : ℕ → ℕ → Turn) (chunk : ℕ) (target : Text) (st : Storage S)
      → 0 < chunk
      → ((j : Text) → at L st j ≡ bucket j)
      → Ensures
          (λ w. (j : Text) → at L w.store j ≡ bucket j)
          (λ res _. IsFileOf target res)
          (run_get load cfg turns chunk target st)
  unfolding run_get find_name
  run_get-IsFileOf turns chunk target st pos same = after (reload load cfg (new_meta st)) (
      reload-IsMeta load Known L cfg bucket (λ ih b e. e) (new_meta st)
        (new_meta-IsMeta load Known st) same)
    where
      after :
          (r : Run (Meta S) (Unit {0}))
          → Ensures (λ m. IsMeta load Known m × Same m.store) (λ _ m. AllStored bucket m) r
          → Ensures
              (λ w. Same w.store)
              (λ res _. IsFileOf target res)
              (elim r [
                | thrown e m ↦ thrown e (reader_of cfg m)
                | crashed m ↦ crashed (reader_of cfg m)
                | ok _ m ↦ elim (get_target m target) [
                  | inl e ↦ thrown e (reader_of cfg m)
                  | inr v ↦ get_file cfg turns v.tm v.file chunk (reader_of cfg m)
                ]
              ])
      after (thrown e m) (good, kept) = kept
      after (crashed m) (good, kept) = kept
      after (ok _ m) ((good, kept), all) = elim (Sum-cases (get_target m target)) [
        | inl (e, bad) ↦ rw bad kept
        | inr (v, found) ↦
            let (named, inside, asked) = get_target-In m target v found in
            let shown = good.shown (split_path (slash ∷ target)).0 v.tm named in
            rw found (
              copied turns chunk pos target m v kept (good.hashes v.tm.infohash v.tm shown.1) inside
                asked)
      ]
