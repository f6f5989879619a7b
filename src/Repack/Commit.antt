-- ===== src/Repack/Commit.antt =====
-- `runRepack` as a whole: the pieces, and then the .torrent that names them.
use mathlib.Core.Option.{some-injective, none-ne-some}
use samogon.Base.{
  All, Text, Bytes, ◌==◌, eq_refl, ℕ, ◌+◌, ◌<◌, ◌≡◌, ◌≢◌, refl, sym, ap, ◌∙◌, ◌⊎◌, inl, inr,
  Bool-cases, Option-cases, List, [], ◌∷◌, ◌++◌, map, length, Option, some, arith, eqb,
}
use samogon.Cache.{new_lru}
use samogon.Cache.Refine.{new_lru-IsValid}
use samogon.Config.{Config, key_piece, key_torrent}
use samogon.Config.Keys.{key_torrent-ne-key_piece, key_torrent_injective}
use samogon.File.{Turn}
use samogon.Meta.{TorrentMeta, build_meta}
use samogon.Meta.Parsed.{Info}
use samogon.Repack.{extract_infohash}
use samogon.Repack.Job.{packing, publish, run_repack, store_of}
use samogon.Repack.Upload.{hex, key_of, Pack, Pick}
use samogon.Repack.Loop.{IsCut}
use samogon.Repack.Wait.{Drained, pack_all_lem}
use samogon.Repack.Pack.{Packed, Markers, Bodies-map}
use samogon.Repack.Stream.{joined, Bodies}
use samogon.Storage.{Storage, cat, put_bytes}
use samogon.Storage.Client.{S3, IsLawful}
use samogon.Storage.Laws.{at, cat_lem, put_bytes_lem}
use samogon.Throw.{Run, ok, thrown, crashed, Ensures, Ensures-bind, Ensures-map}

-- What a repack that returned has left: the new pieces are stored under their hashes and cover the
-- source stream, the source's pieces are still there, and the new .torrent, made of the hashes of the
-- new pieces, is stored. Where its infohash is the source's, nothing is: the source's .torrent stands.
pub record IsRepacked {S : S3} (L : IsLawful S) (sha1 : Bytes → Bytes) (cfg : Config)
    (rebuild : Bytes → ℕ → Bytes → Option (Bytes × Text)) (size : ℕ) (infohash : Text) (raw : Bytes)
    (hs : List Text) (bs : List Bytes) (st : Storage S) : Type 0 where
  pub chunks : List Bytes
  pub cut : IsCut size (joined bs) chunks
  pub stored : All (λ c. at L st (key_of sha1 cfg c) ≡ some c) chunks
  pub sources : Bodies cfg (at L st) hs bs
  pub raw_new : Bytes
  pub new_infohash : Text
  pub rebuilt : rebuild raw size (joined (map sha1 chunks)) ≡ some (raw_new, new_infohash)
  pub committed :
      ((new_infohash ≡ infohash) × (at L st (key_torrent cfg infohash) ≡ some raw))
      ⊎ (at L st (key_torrent cfg new_infohash) ≡ some raw_new)

-- A put of the new .torrent was begun: the new pieces that it names are all stored and cover the source
-- stream, and no other marker was touched.
pub record IsPublished {S : S3} (L : IsLawful S) (sha1 : Bytes → Bytes) (cfg : Config)
    (rebuild : Bytes → ℕ → Bytes → Option (Bytes × Text)) (size : ℕ) (raw : Bytes) (bs : List Bytes)
    (start st : Storage S) : Type 0 where
  pub chunks : List Bytes
  pub cut : IsCut size (joined bs) chunks
  pub stored : All (λ c. at L st (key_of sha1 cfg c) ≡ some c) chunks
  pub raw_new : Bytes
  pub new_infohash : Text
  pub rebuilt : rebuild raw size (joined (map sha1 chunks)) ≡ some (raw_new, new_infohash)
  pub others :
      (j : Text) → j ≢ new_infohash → at L st (key_torrent cfg j) ≡ at L start (key_torrent cfg j)

module _ {S : S3} (L : IsLawful S) (sha1 : Bytes → Bytes) (cfg : Config)
    (load : Bytes → Option (Info × Text)) (rebuild : Bytes → ℕ → Bytes → Option (Bytes × Text))
    (size : ℕ) (pos : 0 < size) (infohash : Text) (raw : Bytes) (hs : List Text) (bs : List Bytes)
    (content : Text → Bytes)
    (stands : (a c z : Bytes) → a ++ (c ++ z) ≡ joined bs → content (hex (sha1 c)) ≡ c)
    (start : Storage S) where
  abbrev Untouched : Storage S → Type 0
  Untouched st = (j : Text) → at L st (key_torrent cfg j) ≡ at L start (key_torrent cfg j)

  abbrev Published : Storage S → Type 0
  Published = IsPublished L sha1 cfg rebuild size raw bs start

  abbrev Ordered : Storage S → Type 0
  Ordered st = Untouched st ⊎ Published st

  abbrev Repacked : Storage S → Type 0
  Repacked = IsRepacked L sha1 cfg rebuild size infohash raw hs bs

  abbrev AllDone : Pack S → Type 0
  AllDone = Drained L sha1 cfg cfg.lru_size hs bs content (at L start) stands size

  put_new :
      (p : Pack S) (r : Bytes) (n : Text)
      → (d : AllDone p) → rebuild raw size p.new_pieces ≡ some (r, n)
      → Ensures Ordered (λ _ st'. Repacked st') (put_bytes (key_torrent cfg n) r p.src.reader.store)
  unfolding key_of
  put_new p r n d e =
      let st = p.src.reader.store in
      let piece : (h : Text) → key_piece cfg h ≢ key_torrent cfg n =
        λ h x. key_torrent-ne-key_piece cfg n h (sym x) in
      Ensures-map (λ (st' : Storage S). (j : Text) → j ≢ key_torrent cfg n → at L st' j ≡ at L st j)
        Ordered (λ _ st'. (at L st' (key_torrent cfg n) ≡ some r) × (st'.puts ≡ st.puts + 1))
        (λ _ st'. Repacked st') _
        (λ st' others. inr (record {
          chunks = d.chunks;
          cut = d.cut;
          stored = stored_on st st' d.chunks (λ h. others (key_piece cfg h) (piece h)) d.stored;
          raw_new = r;
          new_infohash = n;
          rebuilt = ap (λ (x : Bytes). rebuild raw size x) (sym d.kept.named) ∙ e;
          others = λ j differs.
              others (key_torrent cfg j) (λ x. differs (key_torrent_injective cfg j n x))
              ∙ d.kept.markers j;
        }))
        (λ _ st' others (here, _). record {
          chunks = d.chunks;
          cut = d.cut;
          stored = stored_on st st' d.chunks (λ h. others (key_piece cfg h) (piece h)) d.stored;
          sources =
              Bodies-map L sha1 cfg cfg.lru_size hs bs content (at L start) (at L st) (at L st') hs
                bs (λ h b is. others (key_piece cfg h) (piece h) ∙ is) d.kept.sources;
          raw_new = r;
          new_infohash = n;
          rebuilt = ap (λ (x : Bytes). rebuild raw size x) (sym d.kept.named) ∙ e;
          committed = inr here;
        })
        (put_bytes_lem L (key_torrent cfg n) r st)
    where
      stored_on :
          (st st' : Storage S) (cs : List Bytes)
          → ((h : Text) → at L st' (key_piece cfg h) ≡ at L st (key_piece cfg h))
          → All (λ c. at L st (key_of sha1 cfg c) ≡ some c) cs
          → All (λ c. at L st' (key_of sha1 cfg c) ≡ some c) cs
      stored_on st st' [] keep p = tt
      stored_on st st' (c ∷ cs) keep (is, p) =
          (keep (hex (sha1 c)) ∙ is, stored_on st st' cs keep p)

  publish_lem :
      (total : ℕ) (p : Pack S)
      → at L start (key_torrent cfg infohash) ≡ some raw
      → AllDone p
      → Ensures Ordered
          (λ _ st'. Repacked st')
          (publish sha1 cfg load rebuild size infohash raw total p)
  unfolding publish
  publish_lem total p is d = elim (Bool-cases (eqb p.bytes_read total)) [
    | inr short ↦ rw (short, publish) (inl d.kept.markers)
    | inl whole ↦ elim (Option-cases (rebuild raw size p.new_pieces)) [
      | inl bad ↦ rw (whole, bad, publish) (inl d.kept.markers)
      | inr ((r, n), e) ↦ elim (Bool-cases (n == infohash)) [
        | inr other ↦ rw (whole, e, other, publish) (put_new p r n d e)
        | inl same ↦
            rw (whole, e, same, publish)
              (
                inl d.kept.markers,
                record {
                  chunks = d.chunks;
                  cut = d.cut;
                  stored = d.stored;
                  sources = d.kept.sources;
                  raw_new = r;
                  new_infohash = n;
                  rebuilt = ap (λ (x : Bytes). rebuild raw size x) (sym d.kept.named) ∙ e;
                  committed = inl (ground arith, d.kept.markers infohash ∙ is);
                },
              )
      ]
    ]
  ]

  -- The variables before the loop.
  packing-Packed :
      (st : Storage S)
      → ((j : Text) → at L st j ≡ at L start j)
      → ((h : Text) (b : Bytes) → at L start (key_piece cfg h) ≡ some b → content h ≡ b)
      → Bodies cfg (at L start) hs bs
      → Packed L sha1 cfg cfg.lru_size hs bs content (at L start) [] [] (packing sha1 cfg st)
  unfolding new_lru
  packing-Packed st same held sources = record {
    on = record {
      good = record {
        valid = new_lru-IsValid cfg.lru_size;
        coherent = tt;
        room = refl;
        same = λ j. refl;
      };
      buffered = λ b e. absurd (none-ne-some b e);
    };
    sources =
        Bodies-map L sha1 cfg cfg.lru_size hs bs content (at L start) (at L start) (at L st) hs bs
          (λ h b is. same (key_piece cfg h) ∙ is) sources;
    held = λ h b is. held h b (sym (same (key_piece cfg h)) ∙ is);
    markers = λ j. same (key_torrent cfg j);
    stored = tt;
    waiting = λ c waits. elim waits [ inl w ↦ absurd w | inr w ↦ absurd w ];
    tallied = refl;
    named = refl;
    counted = refl;
    measured = refl;
    whole = refl;
  }

  after_loop :
      (b : Bytes) (total : ℕ) (r : Run (Pack S) (Unit {0}))
      → b ≡ raw
      → at L start (key_torrent cfg infohash) ≡ some raw
      → Ensures (Markers L sha1 cfg cfg.lru_size hs bs content (at L start)) (λ _ p. AllDone p) r
      → Ensures Ordered
          (λ _ st'. Repacked st')
          (elim r [
            | ok _ p ↦ publish sha1 cfg load rebuild size infohash b total p
            | thrown e p ↦ thrown e (store_of sha1 cfg p)
            | crashed p ↦ crashed (store_of sha1 cfg p)
          ])
  after_loop b total (ok _ p) same is (_, d) = rw same (publish_lem total p is d)
  after_loop b total (thrown e p) same is kept = inl kept
  after_loop b total (crashed p) same is kept = inl kept

  -- Every piece in the bucket, and every part of the source stream, is what `content` gives for its
  -- hash. In whatever order the steps of the uploads come, among each other and between the reads, and
  -- whatever other goroutines do in the cache, a repack of a stored torrent that loads, with all its
  -- pieces in the bucket: wherever it ends, a crash included, either no marker of a torrent has changed,
  -- or all the new pieces are already stored, and they cover the source stream, and no marker but that of
  -- the .torrent made of their hashes has changed. If it returns, the new pieces are stored and cover the
  -- source stream, the source's pieces are still there, and the new .torrent is stored, or its infohash
  -- is the source's, and then the source's .torrent still stands there.
  pub run_repack-IsRepacked :
      (rounds : ℕ) (uploads : ℕ → List Pick) (picks : ℕ → Pick) (turns : ℕ → ℕ → ℕ → Turn)
      (target : Text) (info : Info) (tm : TorrentMeta)
      → extract_infohash target ≡ inr infohash
      → at L start (key_torrent cfg infohash) ≡ some raw
      → load raw ≡ some (info, infohash)
      → build_meta info infohash ≡ some tm
      → tm.piece_hashes ≡ hs
      → ((h : Text) (b : Bytes) → at L start (key_piece cfg h) ≡ some b → content h ≡ b)
      → Bodies cfg (at L start) hs bs
      → length (joined bs) < rounds
      → Ensures
          (λ st'.
            ((j : Text) → at L st' (key_torrent cfg j) ≡ at L start (key_torrent cfg j))
            ⊎ IsPublished L sha1 cfg rebuild size raw bs start st')
          (λ _ st'. IsRepacked L sha1 cfg rebuild size infohash raw hs bs st')
          (run_repack sha1 cfg load rebuild rounds uploads picks turns size target start)
  unfolding run_repack
  run_repack-IsRepacked rounds uploads picks turns target info tm names is loads built pieces held
        sources fuel =
      rw (names, run_repack)
        (Ensures-bind Ordered (λ b st1. (b ≡ raw) × ((j : Text) → at L st1 j ≡ at L start j))
          (λ _ st'. Repacked st') (cat (key_torrent cfg infohash) start) _
          (read (cat (key_torrent cfg infohash) start) (cat_lem L (key_torrent cfg infohash) start))
          (λ b st1 _ (e, same).
            rw (ap load e, loads, eq_refl infohash, built, pieces)
              (after_loop b info.total_length _ e is (
                pack_all_lem L sha1 cfg cfg.lru_size hs bs content (at L start) stands rounds
                  uploads picks turns size (packing sha1 cfg st1)
                  (packing-Packed st1 same held sources) pos fuel))))
    where
      read :
          (r : Run (Storage S) Bytes)
          → Ensures
              (λ st'. (j : Text) → at L st' j ≡ at L start j)
              (λ b _. at L start (key_torrent cfg infohash) ≡ some b)
              r
          → Ensures Ordered (λ b st1. (b ≡ raw) × ((j : Text) → at L st1 j ≡ at L start j)) r
      read (ok b st1) (same, here) =
          (inl (λ j. same (key_torrent cfg j)), (some-injective b raw (sym here ∙ is), same))
      read (thrown e st1) same = inl (λ j. same (key_torrent cfg j))
      read (crashed st1) same = inl (λ j. same (key_torrent cfg j))
