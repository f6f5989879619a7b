-- ===== src/Repack/Emit.antt =====
-- The start of an upload in the loop of `runRepack`.
use mathlib.Core.List.{append_assoc, append-nil}
use mathlib.Core.Path.{subst}
use samogon.Base.{
  All_map, In, Text, Bytes, ℕ, suc, ◌+◌, ◌≡◌, refl, sym, ap, ◌∙◌, ◌⊎◌, inl, inr, List, [], ◌∷◌,
  ◌++◌, map, length, length-append, true, Option, arith, ltb,
}
use samogon.Config.{Config}
use samogon.Repack.Job.{emit}
use samogon.Repack.Pack.{one_piece, joined-append, All-append, view, Packed, Placed}
use samogon.Repack.Upload.{hex, Pack}
use samogon.Repack.Stream.{joined, ahead}
use samogon.Storage.Client.{S3, IsLawful}

named-append :
    (sha1 : Bytes → Bytes) (l : List Bytes) (c : Bytes)
    → joined (map sha1 (l ++ (c ∷ []))) ≡ joined (map sha1 l) ++ sha1 c
named-append sha1 [] c = append-nil (sha1 c)
named-append sha1 (b ∷ l) c =
    ap (◌++◌ (sha1 b)) (named-append sha1 l c)
    ∙ sym (append_assoc (sha1 b) (joined (map sha1 l)) (sha1 c))

pub joined-one_piece : (c : Bytes) → joined (one_piece c) ≡ c
joined-one_piece [] = refl
joined-one_piece (b ∷ c) = append-nil (b ∷ c)

module _ {S : S3} (L : IsLawful S) (sha1 : Bytes → Bytes) (cfg : Config) (cap : ℕ) (hs : List Text)
    (bs : List Bytes) (content : Text → Bytes) (start : Text → Option Bytes)
    (stands : (a c z : Bytes) → a ++ (c ++ z) ≡ joined bs → content (hex (sha1 c)) ≡ c) where
  abbrev Between : List Bytes → Bytes → Pack S → Type 0
  Between = Packed L sha1 cfg cap hs bs content start

  -- After a goroutine is started for a chunk that is not empty.
  emitted :
      (chunks : List Bytes) (got : Bytes) (p : Pack S)
      → Between chunks got p
      → Between (chunks ++ (got ∷ [])) [] (record p {
        pending = got ∷ p.pending;
        new_pieces = p.new_pieces ++ sha1 got;
        piece_count = suc p.piece_count;
        bytes_read = p.bytes_read + length got;
      })
  emitted chunks got p k =
      let whole = joined-append chunks (got ∷ []) ∙ ap (◌++◌ (joined chunks)) (append-nil got) in
      let now : Pack S = record p {
        pending = got ∷ p.pending;
        new_pieces = p.new_pieces ++ sha1 got;
        piece_count = suc p.piece_count;
        bytes_read = p.bytes_read + length got;
      } in
      let placed : Pack S → Bytes → Type 0 = λ q.
        Placed L sha1 cfg cap hs bs content start (view L sha1 cfg cap hs bs content start p) q in
      record {
        on = k.on;
        sources = k.sources;
        held = k.held;
        markers = k.markers;
        stored =
            All-append (placed now) chunks (got ∷ [])
              (All_map {P = placed p} {Q = placed now} chunks (λ c is. older c is) k.stored)
              (inr (inl (inl refl)), tt);
        waiting = queued;
        tallied = omega (arith, k.tallied);
        named = ap (λ (t : Bytes). t ++ sha1 got) k.named ∙ sym (named-append sha1 chunks got);
        counted = omega (arith, k.counted, length-append chunks (got ∷ []));
        measured = omega (arith, k.measured, ap length whole, length-append (joined chunks) got);
        whole =
            ap (λ (t : Bytes). t ++ ahead bs p.src) whole
            ∙ (append_assoc (joined chunks) got (ahead bs p.src) ∙ k.whole);
      }
    where
      older :
          {A : Type 0} (c : Bytes)
          → A ⊎ (In c p.pending ⊎ In c p.missing)
          → A ⊎ (In c (got ∷ p.pending) ⊎ In c p.missing)
      older c (inl is) = inl is
      older c (inr (inl w)) = inr (inl (inr w))
      older c (inr (inr w)) = inr (inr w)

      queued : (c : Bytes) → In c (got ∷ p.pending) ⊎ In c p.missing → content (hex (sha1 c)) ≡ c
      queued c (inl (inl e)) =
          ap (λ (x : Bytes). content (hex (sha1 x))) e
          ∙ (stands (joined chunks) got (ahead bs p.src) k.whole ∙ sym e)
      queued c (inl (inr w)) = k.waiting c (inl w)
      queued c (inr w) = k.waiting c (inr w)

  pub emit_lem :
      (chunks : List Bytes) (got : Bytes) (p : Pack S)
      → Between chunks got p
      → Between (chunks ++ one_piece got) [] (emit sha1 cfg got p)
  unfolding emit
  emit_lem chunks [] p k = subst (λ (l : List Bytes). Between l [] p) (sym (append-nil chunks)) k
  emit_lem chunks (c ∷ l) p k =
      let some_bytes : ltb 0 (length (c ∷ l)) ≡ true = ground arith in
      rw (some_bytes, emit) (emitted chunks (c ∷ l) p k)
