-- ===== src/Repack/Pack.antt =====
-- The loop of `runRepack`: every new piece is stored or held by a goroutine, and together they are what
-- was read of the source stream.
use mathlib.Core.List.{append_assoc}
use mathlib.Core.Option.{some-injective}
use mathlib.Core.Path.{subst, fun_ext}
use samogon.Base.{
  All, All_map, In, Text, Bytes, ℕ, ◌+◌, ◌≡◌, refl, sym, ap, ◌∙◌, ◌⊎◌, inl, inr, List, [], ◌∷◌,
  ◌++◌, map, length, Option, some,
}
use samogon.Cache.Index.{entries}
use samogon.Config.{Config, key_piece, key_torrent}
use samogon.Config.Keys.{key_piece_injective, key_torrent-ne-key_piece}
use samogon.Repack.{PieceStream}
use samogon.Repack.Stream.{joined, Bodies, OnPiece, ahead}
use samogon.Repack.Upload.{hex, Pack, key_of, with_store}
use samogon.Storage.{Storage}
use samogon.Storage.Client.{S3, IsLawful}
use samogon.Storage.Laws.{at}

-- A chunk as a list of pieces: none if it is empty.
abbrev pub one_piece : Bytes → List Bytes
one_piece [] = []
one_piece (c ∷ l) = (c ∷ l) ∷ []

pub joined-append : (l m : List Bytes) → joined (l ++ m) ≡ joined l ++ joined m
joined-append [] m = refl
joined-append (b ∷ l) m =
    ap (◌++◌ b) (joined-append l m) ∙ sym (append_assoc b (joined l) (joined m))

pub All-append :
    {A : Type 0} (P : A → Type 0) (xs ys : List A) → All P xs → All P ys → All P (xs ++ ys)
All-append P [] ys p q = q
All-append P (x ∷ xs) ys p q = (p.0, All-append P xs ys p.1 q)

module _ {S : S3} (L : IsLawful S) (sha1 : Bytes → Bytes) (cfg : Config) (cap : ℕ) (hs : List Text)
    (bs : List Bytes) (content : Text → Bytes) (start : Text → Option Bytes) where
  abbrev pub view : Pack S → Text → Option Bytes
  view p k = at L p.src.reader.store k

  -- The markers of all torrents are as they were.
  abbrev pub Markers : Pack S → Type 0
  Markers p = (t : Text) → view p (key_torrent cfg t) ≡ start (key_torrent cfg t)

  abbrev pub Waiting : Pack S → Bytes → Type 0
  Waiting p c = In c p.pending ⊎ In c p.missing

  -- A piece is stored, or a goroutine holds it.
  abbrev pub Placed : (Text → Option Bytes) → Pack S → Bytes → Type 0
  Placed v p c = (v (key_of sha1 cfg c) ≡ some c) ⊎ Waiting p c

  -- Between two steps of the loop: the pieces `chunks` are named, and stored or held by a goroutine,
  -- `chunk` is read and no goroutine's yet, and the stream goes on behind it. Every piece in the bucket
  -- or in a goroutine is what its hash stands for.
  pub record Packed (chunks : List Bytes) (chunk : Bytes) (p : Pack S) : Type 0 where
    pub on : OnPiece L cfg (view p) cap bs p.src
    pub sources : Bodies cfg (view p) hs bs
    pub held : (h : Text) (b : Bytes) → view p (key_piece cfg h) ≡ some b → content h ≡ b
    pub markers : Markers p
    pub stored : All (Placed (view p) p) chunks
    pub waiting : (c : Bytes) → Waiting p c → content (hex (sha1 c)) ≡ c
    pub tallied : p.new_puts + p.skip_puts + (length p.pending + length p.missing) ≡ p.piece_count
    pub named : p.new_pieces ≡ joined (map sha1 chunks)
    pub counted : p.piece_count ≡ length chunks
    pub measured : p.bytes_read ≡ length (joined chunks)
    pub whole : joined chunks ++ (chunk ++ ahead bs p.src) ≡ joined bs

  pub Bodies-map :
      (v w : Text → Option Bytes) (gs : List Text) (cs : List Bytes)
      → ((h : Text) (b : Bytes) → v (key_piece cfg h) ≡ some b → w (key_piece cfg h) ≡ some b)
      → Bodies cfg v gs cs
      → Bodies cfg w gs cs
  Bodies-map v w [] [] keep b = tt
  Bodies-map v w [] (c ∷ cs) keep b = b
  Bodies-map v w (g ∷ gs) [] keep b = b
  Bodies-map v w (g ∷ gs) (c ∷ cs) keep (e, b) = (keep g c e, Bodies-map v w gs cs keep b)

  -- After a read, which changes no object.
  pub Packed-read :
      (chunks : List Bytes) (got : Bytes) (p : Pack S) (s' : PieceStream S)
      → Packed chunks [] p
      → OnPiece L cfg (view p) cap bs s'
      → got ++ ahead bs s' ≡ ahead bs p.src
      → Packed chunks got (record p { src = s' })
  Packed-read chunks got p s' k on same =
      let view : ◌≡◌ {A = Text → Option Bytes} (view p) (λ j. at L s'.reader.store j) =
        fun_ext (λ j. sym (on.good.same j)) in
      record {
        on = subst (λ (v : Text → Option Bytes). OnPiece L cfg v cap bs s') view on;
        sources = subst (λ (v : Text → Option Bytes). Bodies cfg v hs bs) view k.sources;
        held =
            subst
              (λ (v : Text → Option Bytes).
                (h : Text) (b : Bytes) → v (key_piece cfg h) ≡ some b → content h ≡ b)
              view k.held;
        markers = λ t. on.good.same (key_torrent cfg t) ∙ k.markers t;
        stored = subst (λ (v : Text → Option Bytes). All (Placed v p) chunks) view k.stored;
        waiting = k.waiting;
        tallied = k.tallied;
        named = k.named;
        counted = k.counted;
        measured = k.measured;
        whole = ap (◌++◌ (joined chunks)) same ∙ k.whole;
      }

  -- The object at `j` is as it was, or it is now the piece `chunk` under its key.
  abbrev Stays : Bytes → Pack S → Storage S → Text → Type 0
  Stays chunk p st j =
      (at L st j ≡ view p j) ⊎ ((j ≡ key_of sha1 cfg chunk) × (at L st j ≡ some chunk))

  -- Every piece that was stored is, where `chunk` is put under its hash.
  Stays-stored :
      (chunks : List Bytes) (got chunk : Bytes) (p : Pack S) (st : Storage S)
      → Packed chunks got p
      → content (hex (sha1 chunk)) ≡ chunk
      → ((j : Text) → Stays chunk p st j)
      → (h : Text) (b : Bytes) → view p (key_piece cfg h) ≡ some b
      → at L st (key_piece cfg h) ≡ some b
  unfolding key_of
  Stays-stored chunks got chunk p st k stands stays h b is = elim (stays (key_piece cfg h)) [
    | inl same ↦ same ∙ is
    | inr (e, here) ↦
        here
        ∙ ap (λ (c : Bytes). some c)
            (sym stands
              ∙ (ap content (sym (key_piece_injective cfg h (hex (sha1 chunk)) e)) ∙ k.held h b is))
  ]

  Stays-held :
      (chunks : List Bytes) (got chunk : Bytes) (p : Pack S) (st : Storage S)
      → Packed chunks got p
      → content (hex (sha1 chunk)) ≡ chunk
      → ((j : Text) → Stays chunk p st j)
      → (h : Text) (b : Bytes) → at L st (key_piece cfg h) ≡ some b
      → content h ≡ b
  unfolding key_of
  Stays-held chunks got chunk p st k stands stays h b is = elim (stays (key_piece cfg h)) [
    | inl same ↦ k.held h b (sym same ∙ is)
    | inr (e, here) ↦
        ap content (key_piece_injective cfg h (hex (sha1 chunk)) e)
        ∙ (stands ∙ some-injective chunk b (sym here ∙ is))
  ]

  Stays-Markers :
      (chunks : List Bytes) (got chunk : Bytes) (p : Pack S) (st : Storage S)
      → Packed chunks got p
      → ((j : Text) → Stays chunk p st j)
      → Markers (with_store p st)
  unfolding key_of
  Stays-Markers chunks got chunk p st k stays t = elim (stays (key_torrent cfg t)) [
    | inl same ↦ same ∙ k.markers t
    | inr (e, here) ↦ absurd (key_torrent-ne-key_piece cfg t (hex (sha1 chunk)) e)
  ]

  -- After a step of a goroutine, which moves its piece on.
  pub Packed-moved :
      (chunks : List Bytes) (got chunk : Bytes) (p : Pack S) (st : Storage S)
      (pending missing : List Bytes) (new skip : ℕ)
      → Packed chunks got p
      → content (hex (sha1 chunk)) ≡ chunk
      → ((j : Text) → Stays chunk p st j)
      → ((c : Bytes)
          → Waiting p c
          → (at L st (key_of sha1 cfg c) ≡ some c) ⊎ (In c pending ⊎ In c missing))
      → ((c : Bytes) → In c pending ⊎ In c missing → Waiting p c)
      → new + skip + (length pending + length missing)
        ≡ p.new_puts + p.skip_puts + (length p.pending + length p.missing)
      → Packed chunks got (record (with_store p st) {
        pending = pending;
        missing = missing;
        new_puts = new;
        skip_puts = skip;
      })
  unfolding key_of
  Packed-moved chunks got chunk p st pending missing new skip k stands stays on_ back same =
      let keep = Stays-stored chunks got chunk p st k stands stays in
      let after : Pack S = record (with_store p st) {
        pending = pending;
        missing = missing;
        new_puts = new;
        skip_puts = skip;
      } in
      record {
        on = record {
          good = record {
            valid = k.on.good.valid;
            coherent =
                All_map (entries p.src.reader.cache.ll) (λ (h, b) is. keep h b is)
                  k.on.good.coherent;
            room = k.on.good.room;
            same = λ j. refl;
          };
          buffered = k.on.buffered;
        };
        sources = Bodies-map (view p) (at L st) hs bs keep k.sources;
        held = Stays-held chunks got chunk p st k stands stays;
        markers = Stays-Markers chunks got chunk p st k stays;
        stored =
            All_map {P = Placed (view p) p} {Q = Placed (at L st) after} chunks
              (λ c placed. elim placed [
                | inl is ↦ inl (keep (hex (sha1 c)) c is)
                | inr waits ↦ on_ c waits
              ])
              k.stored;
        waiting = λ c waits. k.waiting c (back c waits);
        tallied = same ∙ k.tallied;
        named = k.named;
        counted = k.counted;
        measured = k.measured;
        whole = k.whole;
      }
