-- ===== src/Repack/Wait.antt =====
-- The end of the loop of `runRepack`, and the wait for the uploads after it.
use samogon.Base.{
  All, All_map, In, Text, Bytes, ℕ, ◌<◌, ◌≡◌, ◌⊎◌, inl, inr, List, [], ◌∷◌, ◌++◌, length, Option,
  some, arith,
}
use samogon.Config.{Config}
use samogon.File.{Turn}
use samogon.Repack.Job.{pack_loop, pack_all}
use samogon.Repack.Pack.{view, Markers, Packed}
use samogon.Repack.Drain.{wait_uploads_lem}
use samogon.Repack.Upload.{hex, Pack, Pick, key_of, steps_left}
use samogon.Repack.Stream.{joined}
use samogon.Storage.Client.{S3, IsLawful}
use samogon.Throw.{Ensures, Ensures-bind, Ensures-map}
use samogon.Repack.Loop.{IsCut, Done, pack_loop_lem}

no_element : {A : Type 0} (xs : List A) (x : A) → length xs ≡ 0 → In x xs → ⊥
no_element [] x e here = here
no_element (y ∷ ys) x e here = absurd (omega (arith, e))

module _ {S : S3} (L : IsLawful S) (sha1 : Bytes → Bytes) (cfg : Config) (cap : ℕ) (hs : List Text)
    (bs : List Bytes) (content : Text → Bytes) (start : Text → Option Bytes)
    (stands : (a c z : Bytes) → a ++ (c ++ z) ≡ joined bs → content (hex (sha1 c)) ≡ c) where
  abbrev Between : List Bytes → Bytes → Pack S → Type 0
  Between = Packed L sha1 cfg cap hs bs content start

  abbrev Kept : Pack S → Type 0
  Kept = Markers L sha1 cfg cap hs bs content start

  -- All pieces are read, and stored.
  pub record Drained (size : ℕ) (p : Pack S) : Type 0 where
    pub chunks : List Bytes
    pub cut : IsCut size (joined bs) chunks
    pub kept : Between chunks [] p
    pub stored :
        All (λ c. view L sha1 cfg cap hs bs content start p (key_of sha1 cfg c) ≡ some c) chunks

  none_waits : (p : Pack S) (c : Bytes) → steps_left p ≡ 0 → In c p.pending ⊎ In c p.missing → ⊥
  unfolding steps_left
  none_waits p c over (inl w) = absurd (no_element p.pending c (omega (arith, over)) w)
  none_waits p c over (inr w) = absurd (no_element p.missing c (omega (arith, over)) w)

  pub pack_all_lem :
      (rounds : ℕ) (uploads : ℕ → List Pick) (picks : ℕ → Pick) (turns : ℕ → ℕ → ℕ → Turn)
      (size : ℕ) (p : Pack S)
      → Between [] [] p
      → 0 < size
      → length (joined bs) < rounds
      → Ensures Kept
          (λ _ p'. Drained size p')
          (pack_all sha1 cfg rounds uploads picks turns hs size p)
  unfolding pack_all
  pack_all_lem rounds uploads picks turns size p k pos fuel =
      Ensures-bind Kept (λ _ p'. Done L sha1 cfg cap hs bs content start stands size p')
        (λ _ p'. Drained size p') (pack_loop sha1 cfg rounds uploads turns hs size p) _
        (pack_loop_lem L sha1 cfg cap hs bs content start stands rounds uploads turns size [] p k tt
          pos (omega (arith, fuel)))
        (λ _ p1 i d.
          Ensures-map Kept Kept (λ _ p'. Between d.chunks [] p' × (steps_left p' ≡ 0))
            (λ _ p'. Drained size p') _ (λ p' j. j)
            (λ _ p' j (k', over). record {
              chunks = d.chunks;
              cut = d.cut;
              kept = k';
              stored =
                  All_map d.chunks
                    (λ c placed. elim placed [
                      | inl is ↦ is
                      | inr w ↦ absurd (none_waits p' c over w)
                    ])
                    k'.stored;
            })
            (wait_uploads_lem L sha1 cfg cap hs bs content start d.chunks [] (steps_left p1) picks
              p1 d.kept (omega arith)))
