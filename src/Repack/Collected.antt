-- ===== src/Repack/Collected.antt =====
-- A repack and a garbage collection after it: the new pieces outlive the collection.
use mathlib.Core.Path.{subst}
use samogon.Base.{
  All, All_of_In, In, Text, Bytes, eqb, ℕ, ◌<◌, ◌≡◌, ◌≢◌, refl, sym, ap, ◌∙◌, inl, inr, List, [],
  ◌∷◌, ◌++◌, map, length, Option, none, some, false, arith,
}
use samogon.Config.{Config, key_piece, key_torrent}
use samogon.Config.Keys.{NoSlash, base-key, has_prefix-key_torrent}
use samogon.File.{Turn}
use samogon.Gc.{Gc, Schedule, started, run_gc}
use samogon.Gc.Whole.{run_gc_keeps}
use samogon.Meta.{TorrentMeta, build_meta}
use samogon.Meta.Parsed.{Info}
use samogon.Repack.{extract_infohash}
use samogon.Repack.Commit.{IsRepacked, run_repack-IsRepacked}
use samogon.Repack.Job.{run_repack}
use samogon.Repack.Loop.{IsCut}
use samogon.Repack.Pack.{one_piece, All-append}
use samogon.Repack.Stream.{joined, Bodies}
use samogon.Repack.Upload.{hex, hex_digit, key_of, Pick}
use samogon.Storage.{Storage}
use samogon.Storage.Client.{S3, IsLawful, IsReliable}
use samogon.Storage.Laws.{at}
use samogon.Strings.{slash}
use samogon.Throw.{Run, ok, thrown, crashed, ◌>>=◌, on_state, Ensures, Ensures-map}

digit-NoSlash : (n : ℕ) → eqb (hex_digit n) slash ≡ false
digit-NoSlash n = ground arith

hex-NoSlash : (bs : Bytes) → NoSlash (hex bs)
unfolding hex
hex-NoSlash [] = tt
hex-NoSlash (b ∷ bs) = (digit-NoSlash _, (digit-NoSlash _, hex-NoSlash bs))

hex-ne-nil : (bs : Bytes) → bs ≢ [] → hex bs ≢ []
unfolding hex
hex-ne-nil [] ne e = absurd (ne refl)
hex-ne-nil (b ∷ bs) ne e = cc

-- Every new piece has bytes.
pieces_filled :
    (size : ℕ) (stream : Bytes) (chunks : List Bytes)
    → 0 < size
    → IsCut size stream chunks
    → All (λ c. c ≢ []) chunks
pieces_filled size stream chunks pos cut = subst (All (λ (c : Bytes). c ≢ [])) (sym cut.parts) (
    All-append (λ (c : Bytes). c ≢ []) cut.wholes (one_piece cut.last) (wholes cut.wholes cut.sizes)
      (last cut.last))
  where
    wholes : (cs : List Bytes) → All (λ c. length c ≡ size) cs → All (λ c. c ≢ []) cs
    wholes [] p = tt
    wholes (c ∷ cs) (e, p) = ((λ nil. omega (arith, e, pos, ap length nil)), wholes cs p)

    last : (c : Bytes) → All (λ c. c ≢ []) (one_piece c)
    last [] = tt
    last (b ∷ c) = ((λ e. cc), tt)

-- The part of `load` that the collector uses.
abbrev pub info_of : (Bytes → Option (Info × Text)) → Bytes → Option Info
info_of load raw = elim (load raw) [ none ↦ none | some (info, _) ↦ some info ]

module _ {S : S3} (L : IsLawful S) (reliable : IsReliable S L) (sha1 : Bytes → Bytes)
    (filled : (c : Bytes) → c ≢ [] → sha1 c ≢ []) (cfg : Config)
    (load : Bytes → Option (Info × Text)) (rebuild : Bytes → ℕ → Bytes → Option (Bytes × Text))
    (size : ℕ) (pos : 0 < size) (infohash : Text) (raw : Bytes) (hs : List Text) (bs : List Bytes)
    (renamed : (named r : Bytes) (n : Text) → rebuild raw size named ≡ some (r, n) → infohash ≢ n)
    (reads : (cs : List Bytes) (r : Bytes) (n : Text)
      → IsCut size (joined bs) cs
      → rebuild raw size (joined (map sha1 cs)) ≡ some (r, n)
      → (i : Info) × (load r ≡ some (i, n)) × (i.pieces ≡ map (λ c. some (hex (sha1 c))) cs))
    (s : Schedule) where
  -- The pieces of a cut are all stored.
  abbrev pub CutStored : Storage S → Type 0
  CutStored st =
      (chunks : List Bytes) × IsCut size (joined bs) chunks
      × All (λ c. at L st (key_of sha1 cfg c) ≡ some c) chunks

  named_in :
      (cs : List Bytes) (c : Bytes)
      → In c cs
      → In (some (hex (sha1 c))) (map (λ c. some (hex (sha1 c))) cs)
  named_in [] c i = absurd i
  named_in (d ∷ cs) c (inl e) = inl (ap (λ (x : Bytes). some (hex (sha1 x))) e)
  named_in (d ∷ cs) c (inr i) = inr (named_in cs c i)

  All_In : (P : Bytes → Type 0) (cs : List Bytes) (c : Bytes) → All P cs → In c cs → P c
  All_In P [] c p i = absurd i
  All_In P (d ∷ cs) c (p, ps) (inl e) = subst P (sym e) p
  All_In P (d ∷ cs) c (p, ps) (inr i) = All_In P cs c ps i

  -- One piece of the new torrent outlives the collection.
  one_kept :
      (st : Storage S) (r : IsRepacked L sha1 cfg rebuild size infohash raw hs bs st) (c : Bytes)
      → In c r.chunks
      → Ensures
          (λ w. at L w.store (key_of sha1 cfg c) ≡ some c)
          (λ _ _. Unit {0})
          (run_gc (info_of load) s cfg st)
  unfolding key_of
  one_kept st r c i =
      let (info, loads, pieces) = reads r.chunks r.raw_new r.new_infohash r.cut r.rebuilt in
      let there : at L st (key_torrent cfg r.new_infohash) ≡ some r.raw_new = elim r.committed [
        | inl (same, _) ↦ absurd (renamed _ r.raw_new r.new_infohash r.rebuilt (sym same))
        | inr is ↦ is
      ] in
      let ne = hex-ne-nil (sha1 c) (
        filled c (
          All_In (λ c. c ≢ []) r.chunks c (pieces_filled size (joined bs) r.chunks pos r.cut) i)) in
      let leaf = (base-key cfg (hex (sha1 c)) (hex-NoSlash (sha1 c)) ne).0 in
      let good : info_of load r.raw_new ≡ some info = rw (loads, info_of) in
      Ensures-map (λ w. at L w.store (key_of sha1 cfg c) ≡ at L st (key_of sha1 cfg c))
        (λ w. at L w.store (key_of sha1 cfg c) ≡ some c) (λ _ _. Unit {0}) (λ _ _. Unit {0}) _
        (λ w e. e ∙ All_In (λ c. at L st (key_of sha1 cfg c) ≡ some c) r.chunks c r.stored i)
        (λ _ _ _ _. tt)
        (run_gc_keeps L (info_of load) s cfg (at L st) reliable (key_torrent cfg r.new_infohash)
          r.raw_new info (key_of sha1 cfg c) st (λ j. refl)
          (has_prefix-key_torrent cfg r.new_infohash) there good
          (subst (λ (h : Text). In (some h) info.pieces) (sym leaf)
            (subst (In (some (hex (sha1 c)))) (sym pieces) (named_in r.chunks c i))))

  -- What holds of each of some pieces however the run ends holds of all.
  each :
      (cs : List Bytes) (P : Bytes → Gc S → Type 0) (r : Run (Gc S) (Unit {0}))
      → ((c : Bytes) → In c cs → Ensures (P c) (λ _ _. Unit {0}) r)
      → Ensures (λ w. All (λ c. P c w) cs) (λ _ _. Unit {0}) r
  each cs P (ok _ w) h = (All_of_In cs (λ c i. (h c i).0), tt)
  each cs P (thrown e w) h = All_of_In cs h
  each cs P (crashed w) h = All_of_In cs h

  repacked_kept :
      (st : Storage S)
      → IsRepacked L sha1 cfg rebuild size infohash raw hs bs st
      → Ensures (λ w. CutStored w.store) (λ _ _. Unit {0}) (run_gc (info_of load) s cfg st)
  repacked_kept st r =
      Ensures-map (λ w. All (λ c. at L w.store (key_of sha1 cfg c) ≡ some c) r.chunks)
        (λ w. CutStored w.store) (λ _ _. Unit {0}) (λ _ _. Unit {0}) _
        (λ w all. (r.chunks, r.cut, all)) (λ _ _ _ _. tt)
        (each r.chunks (λ c w. at L w.store (key_of sha1 cfg c) ≡ some c) _ (one_kept st r))

  after_repack :
      (K : Storage S → Type 0) (r : Run (Storage S) (Unit {0}))
      → Ensures K (λ _ st. IsRepacked L sha1 cfg rebuild size infohash raw hs bs st) r
      → Ensures
          (λ _. Unit {0})
          (λ _ w. CutStored w.store)
          (on_state started r >>= (λ (_, w). run_gc (info_of load) s cfg w.store))
  after_repack K (ok _ st) (_, is) = Ensures-held _ (repacked_kept st is)
    where
      Ensures-held :
          (g : Run (Gc S) (Unit {0}))
          → Ensures (λ w. CutStored w.store) (λ _ _. Unit {0}) g
          → Ensures (λ _. Unit {0}) (λ _ w. CutStored w.store) g
      Ensures-held (ok _ w) (i, _) = (tt, i)
      Ensures-held (thrown e w) i = tt
      Ensures-held (crashed w) i = tt
  after_repack K (thrown e st) k = tt
  after_repack K (crashed st) k = tt

  -- Over a service of which no read fails, where the .torrent that a repack writes has another infohash
  -- than its source and loads again with the hashes of the new pieces, and with no collision of a new
  -- piece with a stored one: a repack and a garbage collection after it, both of which return, leave the
  -- whole source stream in the bucket, cut into pieces of the asked size, each under its hash. This
  -- holds for any order of the uploads' and of the collector's steps.
  pub run_repack-run_gc :
      (content : Text → Bytes)
      → ((a c z : Bytes) → a ++ (c ++ z) ≡ joined bs → content (hex (sha1 c)) ≡ c)
      → (start : Storage S) (rounds : ℕ) (uploads : ℕ → List Pick) (picks : ℕ → Pick)
        (turns : ℕ → ℕ → ℕ → Turn) (target : Text) (info : Info) (tm : TorrentMeta)
      → extract_infohash target ≡ inr infohash
      → at L start (key_torrent cfg infohash) ≡ some raw
      → load raw ≡ some (info, infohash)
      → build_meta info infohash ≡ some tm
      → tm.piece_hashes ≡ hs
      → ((h : Text) (b : Bytes) → at L start (key_piece cfg h) ≡ some b → content h ≡ b)
      → Bodies cfg (at L start) hs bs
      → length (joined bs) < rounds
      → Ensures
          (λ _. Unit {0})
          (λ _ w.
            (chunks : List Bytes) × IsCut size (joined bs) chunks
            × All (λ c. at L w.store (key_of sha1 cfg c) ≡ some c) chunks)
          (on_state started
              (run_repack sha1 cfg load rebuild rounds uploads picks turns size target start)
            >>= (λ (_, w). run_gc (info_of load) s cfg w.store))
  run_repack-run_gc content stands start rounds uploads picks turns target info tm names is loads
        built pieces held sources fuel =
      after_repack _ _ (
        run_repack-IsRepacked L sha1 cfg load rebuild size pos infohash raw hs bs content stands
          start rounds uploads picks turns target info tm names is loads built pieces held sources
          fuel)
