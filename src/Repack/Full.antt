-- ===== src/Repack/Full.antt =====
-- `io.ReadFull` on the source stream: it fills the request, or the stream ends.
use mathlib.Core.List.{append_assoc}
use mathlib.Core.Path.{subst}
use samogon.Base.{
  Text, Bytes, ℕ, zero, suc, ◌-◌, ◌≤◌, ◌<◌, ◌≡◌, ◌≢◌, refl, ap, ◌∙◌, ◌⊎◌, inl, inr, Bool-cases,
  List, [], ◌++◌, length, length-append, if◌then◌else◌, Option, arith, ltb, ltb→lt, ltb→le,
}
use samogon.Config.{Config}
use samogon.File.{Turn, ReadError, nil, eof, negative_offset}
use samogon.File.Good.{Good}
use samogon.Repack.{PieceStream, stream_read}
use samogon.Repack.Job.{FullError, full, full_error, read_full}
use samogon.Repack.Reads.{stream_read-IsNext}
use samogon.Repack.Stream.{Bodies, OnPiece, IsNext, ahead}
use samogon.Storage.Client.{S3, IsLawful}
use samogon.Throw.{Run, ok, Ensures, Ensures-bind}

-- What a `ReadFull` of `want` bytes leaves, where `before` was ahead of it.
abbrev pub IsFull : {S : S3} → List Bytes → ℕ → Bytes → PieceStream S → Bytes × FullError → Type 0
IsFull bs want before s' (got, err) =
    (got ++ ahead bs s' ≡ before)
    × (((length got ≡ want) × (err ≡ full))
        ⊎ ((ahead bs s' ≡ []) × (length got < want) × (err ≡ full_error want (length got))))

full_error_enough : (want got : ℕ) → want ≤ got → full_error want got ≡ full
unfolding full_error
full_error_enough want got h = ground arith

module _ {S : S3} (L : IsLawful S) (sha1 : Bytes → Bytes) (cfg : Config)
    (bucket : Text → Option Bytes) (cap : ℕ) (hs : List Text) (bs : List Bytes)
    (all : Bodies cfg bucket hs bs) where
  -- Whether so many rounds are enough: none for a full buffer, one at the end of the stream, else two.
  abbrev Enough : ℕ → ℕ → Bytes → PieceStream S → Type 0
  Enough rounds want got s =
      (length got ≡ want) ⊎ (((ahead bs s ≡ []) × (0 < rounds)) ⊎ (1 < rounds))

  nil_left : (a b : Bytes) → a ++ b ≡ [] → length a ≡ 0
  nil_left a b e = omega (arith, length-append a b, ap length e)

  no_bytes : (n : ℕ) (err : ReadError) → err ≡ (if ltb 0 n then nil else eof) → n ≡ 0 → err ≡ eof
  no_bytes n err e z = ground arith

  -- What a `Read` in the loop leaves to the rounds after it.
  Enough-next :
      (rounds want : ℕ) (got more : Bytes) (s s' : PieceStream S)
      → length got < want
      → Enough (suc rounds) want got s
      → IsNext bs (want - length got) (ahead bs s) s' (more, nil)
      → (length (got ++ more) ≤ want) × Enough rounds want (got ++ more) s'
  Enough-next rounds want got more s s' less enough (same, inl (filled, _)) =
      (omega (arith, length-append got more), inl (omega (arith, length-append got more)))
  Enough-next rounds want got more s s' less (inl e) (same, inr (over, short, err)) =
      absurd (omega arith)
  Enough-next rounds want got more s s' less (inr (inl (gone, _))) (same, inr (over, short, err)) =
      absurd
        (nil-ne-eof (no_bytes (length more) nil err (nil_left more (ahead bs s') (same ∙ gone))))
    where
      nil-ne-eof : ◌≡◌ {A = ReadError} nil eof → ⊥
      nil-ne-eof e = cc
  Enough-next rounds want got more s s' less (inr (inr two)) (same, inr (over, short, err)) =
      (omega (arith, length-append got more), inr (inl (over, omega arith)))

  stopped :
      (want : ℕ) (got more : Bytes) (s s' : PieceStream S) (err : ReadError)
      → length got < want
      → ◌≢◌ {A = ReadError} err nil
      → IsNext bs (want - length got) (ahead bs s) s' (more, err)
      → IsFull bs want (got ++ ahead bs s) s' (got ++ more, full_error want (length (got ++ more)))
  stopped want got more s s' err less bad (same, inl (_, fine)) = absurd (bad fine)
  stopped want got more s s' err less bad (same, inr (over, short, _)) = (
    append_assoc got more (ahead bs s') ∙ ap (◌++◌ got) same,
    inr (over, omega (arith, length-append got more), refl),
  )

  abbrev Left : ℕ → Bytes → Run (PieceStream S) (Bytes × FullError) → Type 0
  Left want before =
      Ensures (λ s'. Good L cfg bucket cap s'.reader)
        (λ r s'. OnPiece L cfg bucket cap bs s' × IsFull bs want before s' r)

  after_read :
      (want : ℕ) (got more : Bytes) (err : ReadError) (s s' : PieceStream S)
      → length got < want
      → Good L cfg bucket cap s'.reader
      → OnPiece L cfg bucket cap bs s'
      → IsNext bs (want - length got) (ahead bs s) s' (more, err)
      → (next : Run (PieceStream S) (Bytes × FullError))
      → (IsNext bs (want - length got) (ahead bs s) s' (more, nil)
          → Left want (got ++ ahead bs s) next)
      → Left want (got ++ ahead bs s) (elim err [
        | nil ↦ next
        | eof ↦ ok (got ++ more, full_error want (length (got ++ more))) s'
        | negative_offset ↦ ok (got ++ more, full_error want (length (got ++ more))) s'
      ])
  after_read want got more nil s s' less g on is next k = k is
  after_read want got more eof s s' less g on is next k =
      (g, (on, stopped want got more s s' eof less (λ e. cc) is))
  after_read want got more negative_offset s s' less g on is next k =
      (g, (on, stopped want got more s s' negative_offset less (λ e. cc) is))

  pub read_full_lem :
      (rounds : ℕ) (turns : ℕ → ℕ → Turn) (want : ℕ) (got : Bytes) (s : PieceStream S)
      → OnPiece L cfg bucket cap bs s
      → length got ≤ want
      → Enough rounds want got s
      → Ensures
          (λ s'. Good L cfg bucket cap s'.reader)
          (λ r s'. OnPiece L cfg bucket cap bs s' × IsFull bs want (got ++ ahead bs s) s' r)
          (read_full sha1 cfg rounds turns hs want got s)
  unfolding read_full
  read_full_lem zero turns want got s on le (inl e) =
      (on.good, (on, (refl, inl (e, full_error_enough want (length got) (omega arith)))))
  read_full_lem zero turns want got s on le (inr (inl (_, none_left))) = absurd (omega arith)
  read_full_lem zero turns want got s on le (inr (inr two)) = absurd (omega arith)
  read_full_lem (suc rounds) turns want got s on le enough =
      elim (Bool-cases (ltb (length got) want)) [
        | inr filled ↦
            let e : want ≤ length got = ltb→le (length got) want filled in
            rw (filled, read_full) (on.good, (on, (refl, inl (omega arith, refl))))
        | inl more ↦
            rw (more, read_full)
              (Ensures-bind (λ (s' : PieceStream S). Good L cfg bucket cap s'.reader)
                (λ r s'.
                  OnPiece L cfg bucket cap bs s' × IsNext bs (want - length got) (ahead bs s) s' r)
                (λ r s'. OnPiece L cfg bucket cap bs s' × IsFull bs want (got ++ ahead bs s) s' r)
                (stream_read cfg (turns rounds) hs (want - length got) s) _
                (stream_read-IsNext L cfg bucket cap (turns rounds) hs bs (want - length got) s all
                  on)
                (λ (got', err) s' g (on', is).
                  after_read want got got' err s s' (ltb→lt (length got) want more) g on' is
                    (read_full sha1 cfg rounds turns hs want (got ++ got') s')
                    (λ filled.
                      let (le', enough') =
                        Enough-next rounds want got got' s s' (ltb→lt (length got) want more) enough
                          filled in
                      subst
                        (λ (before : Bytes).
                          Ensures (λ (t : PieceStream S). Good L cfg bucket cap t.reader)
                            (λ (r : Bytes × FullError) t.
                              OnPiece L cfg bucket cap bs t × IsFull bs want before t r)
                            (read_full sha1 cfg rounds turns hs want (got ++ got') s'))
                        (append_assoc got got' (ahead bs s') ∙ ap (◌++◌ got) filled.0)
                        (read_full_lem rounds turns want (got ++ got') s' on' le' enough'))))
      ]
