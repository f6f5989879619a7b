-- ===== src/Repack/Cut.antt =====
-- A stream is cut into new pieces in one way only.
use mathlib.Core.List.{tail-eq_of_cons-eq}
use samogon.Base.{
  All, Bytes, ℕ, ◌<◌, ◌≡◌, refl, sym, ap, ◌∙◌, List, [], ◌∷◌, ◌++◌, length, length-append, arith,
}
use samogon.Repack.Emit.{joined-one_piece}
use samogon.Repack.Loop.{IsCut}
use samogon.Repack.Pack.{one_piece}
use samogon.Repack.Stream.{joined}

append-split : (w v a b : Bytes) → length w ≡ length v → w ++ a ≡ v ++ b → (w ≡ v) × (a ≡ b)
append-split [] [] a b len e = (refl, e)
append-split [] (y ∷ v) a b len e = absurd (omega (arith, len))
append-split (x ∷ w) [] a b len e = absurd (omega (arith, len))
append-split (x ∷ w) (y ∷ v) a b len e =
    let (same, rest) = append-split w v a b (omega (arith, len)) (tail-eq_of_cons-eq e) in
    (cc, rest)

cut_once :
    (size : ℕ) (ws vs : List Bytes) (l m : Bytes)
    → All (λ c. length c ≡ size) ws
    → All (λ c. length c ≡ size) vs
    → length l < size
    → length m < size
    → joined (ws ++ one_piece l) ≡ joined (vs ++ one_piece m)
    → ws ++ one_piece l ≡ vs ++ one_piece m
cut_once size [] [] l m _ _ less less' e =
    ap one_piece (sym (joined-one_piece l) ∙ (e ∙ joined-one_piece m))
cut_once size [] (v ∷ vs) l m _ (len, _) less less' e = absurd (
    omega (
      arith,
      len,
      less,
      ap length (sym (joined-one_piece l) ∙ e),
      length-append v (joined (vs ++ one_piece m)),
    ))
cut_once size (w ∷ ws) [] l m (len, _) _ less less' e = absurd (
    omega (
      arith,
      len,
      less',
      ap length (e ∙ joined-one_piece m),
      length-append w (joined (ws ++ one_piece l)),
    ))
cut_once size (w ∷ ws) (v ∷ vs) l m (len, lens) (len', lens') less less' e =
    let (same, rest) = append-split w v _ _ (len ∙ sym len') e in
    let more = cut_once size ws vs l m lens lens' less less' rest in
    ap (λ (c : Bytes). c ∷ (ws ++ one_piece l)) same ∙ ap (◌∷◌ v) more

pub IsCut-unique :
    (size : ℕ) (stream : Bytes) (cs ds : List Bytes)
    → IsCut size stream cs
    → IsCut size stream ds
    → cs ≡ ds
IsCut-unique size stream cs ds c d =
    c.parts
    ∙ (cut_once size c.wholes d.wholes c.last d.last c.sizes d.sizes c.shorter d.shorter
          (ap joined (sym c.parts) ∙ (c.covers ∙ (sym d.covers ∙ ap joined d.parts)))
        ∙ sym d.parts)
