-- ===== src/Repack/Reads.antt =====
-- `pieceStream` of repack.go reads the pieces of the source torrent in order, without a gap.
use mathlib.Core.Option.{some-injective, none-ne-some}
use mathlib.Core.Path.{subst}
use mathlib.Core.List.{append_assoc}
use samogon.Base.{
  Text, Bytes, ℕ, zero, suc, ◌+◌, ◌-◌, ◌≤◌, ◌<◌, ◌≡◌, refl, sym, ap, ◌∙◌, ◌⊎◌, inl, inr, Bool-cases,
  Option-cases, List, [], ◌∷◌, ◌++◌, length, get_elem?, take, drop, drop-drop, length-take,
  length-drop, length-append, drop-nil_of_length-le, Option, none, some, arith, ltb, leb, min,
  ltb→lt, ltb→le,
}
use samogon.Config.{Config, key_piece}
use samogon.File.{Turn, ReadError}
use samogon.File.Good.{Good}
use samogon.Repack.{PieceStream, fetch, current, advance, stream_loop, stream_read}
use samogon.Storage.Client.{S3, IsLawful}
use samogon.Throw.{on_state, Ensures, Ensures-bind, Ensures-map, Ensures-on_state}
use samogon.Repack.Stream.{joined, Bodies, ahead, IsNext, OnPiece, at_hash, past_hashes, fetch_lem}

module _ {S : S3} (L : IsLawful S) (cfg : Config) (bucket : Text → Option Bytes) (cap : ℕ) where
  current_lem :
      (turn : Turn) (hs : List Text) (bs : List Bytes) (h : Text) (s : PieceStream S)
      → Bodies cfg bucket hs bs
      → OnPiece L cfg bucket cap bs s
      → get_elem? hs s.cur ≡ some h
      → Ensures
          (λ s'. Good L cfg bucket cap s'.reader)
          (λ body s1.
            (drop s1.cur bs ≡ body ∷ drop (suc s1.cur) bs)
            × (s1.cur ≡ s.cur)
            × (ahead bs s ≡ drop s1.pos body ++ joined (drop (suc s1.cur) bs)))
          (current cfg turn h s)
  unfolding current
  current_lem turn hs bs h s all on e = elim (Option-cases s.buf) [
    | inr (b, hit) ↦ rw (hit, current) (on.good, (on.buffered b hit, refl, refl))
    | inl miss ↦
        let (c, next, held, _) = at_hash L cfg bucket cap hs bs s.cur h all e in
        rw (miss, current)
          (Ensures-bind (λ (s' : PieceStream S). Good L cfg bucket cap s'.reader)
            (λ (b : Bytes) (s' : PieceStream S).
              (bucket (key_piece cfg h) ≡ some b) × (s'.cur ≡ s.cur))
            _ (on_state (λ w. record s { reader = w }) (fetch cfg turn h s.reader)) _
            (Ensures-on_state (λ (s' : PieceStream S). Good L cfg bucket cap s'.reader)
              (λ (b : Bytes) (s' : PieceStream S).
                (bucket (key_piece cfg h) ≡ some b) × (s'.cur ≡ s.cur))
              (λ w. record s { reader = w }) (fetch cfg turn h s.reader)
              (Ensures-map (Good L cfg bucket cap) (Good L cfg bucket cap)
                (λ b _. bucket (key_piece cfg h) ≡ some b) _ _ (λ _ g. g) (λ b w g is. (is, refl))
                (fetch_lem L cfg bucket cap turn h s.reader on.good)))
            (λ b s' g (is, same). (g, found b s' c next (some-injective c b (sym held ∙ is)) same)))
  ]
    where
      found :
          (b : Bytes) (s' : PieceStream S) (c : Bytes)
          → drop s.cur bs ≡ c ∷ drop (suc s.cur) bs
          → c ≡ b
          → s'.cur ≡ s.cur
          → (drop s'.cur bs ≡ b ∷ drop (suc s'.cur) bs)
            × (s'.cur ≡ s.cur)
            × (joined (drop s.cur bs) ≡ b ++ joined (drop (suc s'.cur) bs))
      found b s' c next is same = (rw (same, ← is) next, same, rw (same, ← is) (ap joined next))

  -- A round's end leaves what was not copied.
  advance_lem :
      (bs : List Bytes) (body : Bytes) (n : ℕ) (s : PieceStream S)
      → Good L cfg bucket cap s.reader
      → drop s.cur bs ≡ body ∷ drop (suc s.cur) bs
      → OnPiece L cfg bucket cap bs (advance cfg body n s)
        × (ahead bs (advance cfg body n s)
            ≡ drop n (drop s.pos body) ++ joined (drop (suc s.cur) bs))
        × (((advance cfg body n s).cur ≡ suc s.cur)
            ⊎ (((advance cfg body n s).cur ≡ s.cur) × (s.pos + n < length body)))
  unfolding advance
  advance_lem bs body n s g here = elim (Bool-cases (leb (length body) (s.pos + n))) [
    | inl done ↦
        let none_left : drop n (drop s.pos body) ≡ [] =
          drop-drop s.pos n (s.pos + n) body refl
          ∙ drop-nil_of_length-le (s.pos + n) body (ground arith) in
        rw (done, advance, none_left)
          (record { good = g; buffered = λ b e. absurd (none-ne-some b e) }, refl, inl refl)
    | inr more ↦
        rw (more, advance)
          (
            record { good = g; buffered = λ b e. rw (← some-injective body b e) here },
            ap (λ (t : Bytes). t ++ joined (drop (suc s.cur) bs))
                (sym (drop-drop s.pos n (s.pos + n) body refl)),
            inr (refl, ground arith),
          )
  ]

  take-drop_rest : (k : ℕ) (x : Bytes) → take k x ++ drop (length (take k x)) x ≡ x
  take-drop_rest zero x = refl
  take-drop_rest (suc k) [] = refl
  take-drop_rest (suc k) (c ∷ x) = ap (◌∷◌ c) (take-drop_rest k x)

  at_end :
      (hs : List Text) (bs : List Bytes) (s : PieceStream S)
      → Bodies cfg bucket hs bs
      → OnPiece L cfg bucket cap bs s
      → get_elem? hs s.cur ≡ none
      → ahead bs s ≡ []
  at_end hs bs s all on e =
      let past = past_hashes L cfg bucket cap hs bs s.cur all e in
      elim (Option-cases s.buf) [
        | inl miss ↦ rw miss (ap joined past)
        | inr (b, hit) ↦ absurd (nil-ne-cons b (drop (suc s.cur) bs) (sym past ∙ on.buffered b hit))
      ]
    where
      nil-ne-cons : (b : Bytes) (r : List Bytes) → ◌≡◌ {A = List Bytes} [] (b ∷ r) → ⊥
      nil-ne-cons b r e = cc

  fewer :
      (rounds want got hashes cur cur' copied pos body : ℕ)
      → (want - got) + (hashes - cur) ≤ suc rounds
      → cur < hashes
      → got < want
      → copied ≡ min (want - got) (body - pos)
      → (cur' ≡ suc cur) ⊎ ((cur' ≡ cur) × (pos + copied < body))
      → (want - (got + copied)) + (hashes - cur') ≤ rounds
  fewer rounds want got hashes cur cur' copied pos body le lt less is (inl e) = omega arith
  fewer rounds want got hashes cur cur' copied pos body le lt less is (inr (e, more)) = omega arith

  stream_loop_lem :
      (rounds : ℕ) (turns : ℕ → Turn) (hs : List Text) (bs : List Bytes) (want : ℕ) (got : Bytes)
      (s : PieceStream S)
      → Bodies cfg bucket hs bs
      → OnPiece L cfg bucket cap bs s
      → length got ≤ want
      → (want - length got) + (length hs - s.cur) ≤ rounds
      → Ensures
          (λ s'. Good L cfg bucket cap s'.reader)
          (λ r s'. OnPiece L cfg bucket cap bs s' × IsNext bs want (got ++ ahead bs s) s' r)
          (stream_loop cfg rounds turns hs want got s)
  unfolding stream_loop
  stream_loop_lem zero turns hs bs want got s all on le fuel =
      (on.good, (on, (refl, inl (omega arith, refl))))
  stream_loop_lem (suc rounds) turns hs bs want got s all on le fuel =
      elim (Bool-cases (ltb (length got) want)) [
        | inr full ↦
            let enough : want ≤ length got = ltb→le (length got) want full in
            rw (full, stream_loop) (on.good, (on, (refl, inl (omega arith, refl))))
        | inl more ↦
            let less : length got < want = ltb→lt (length got) want more in
            elim (Option-cases (get_elem? hs s.cur)) [
              | inl past ↦
                  rw (more, past, stream_loop)
                    (on.good, (on, (refl, inr (at_end hs bs s all on past, less, refl))))
              | inr (h, e) ↦
                  rw (more, e, stream_loop)
                    (Ensures-bind (λ (s' : PieceStream S). Good L cfg bucket cap s'.reader)
                      (λ body s1.
                        (drop s1.cur bs ≡ body ∷ drop (suc s1.cur) bs)
                        × (s1.cur ≡ s.cur)
                        × (ahead bs s ≡ drop s1.pos body ++ joined (drop (suc s1.cur) bs)))
                      (λ (r : Bytes × ReadError) s'.
                        OnPiece L cfg bucket cap bs s' × IsNext bs want (got ++ ahead bs s) s' r)
                      (current cfg (turns rounds) h s) _
                      (current_lem (turns rounds) hs bs h s all on e)
                      (λ body s1 g1 (here, same, was).
                        let x = drop s1.pos body in
                        let copied = take (want - length got) x in
                        let (on2, now, moved) = advance_lem bs body (length copied) s1 g1 here in
                        let len : length copied ≡ min (want - length got) (length body - s1.pos) =
                          omega
                            (arith, length-take (want - length got) x, length-drop s1.pos body) in
                        let (_, _, _, inside) = at_hash L cfg bucket cap hs bs s.cur h all e in
                        let next : PieceStream S = advance cfg body (length copied) s1 in
                        let tail = joined (drop (suc s1.cur) bs) in
                        let whole : (got ++ copied) ++ ahead bs next ≡ got ++ ahead bs s =
                          append_assoc got copied (ahead bs next)
                          ∙ ap (◌++◌ got) (
                              ap (◌++◌ copied) now
                              ∙ (sym (append_assoc copied (drop (length copied) x) tail)
                                  ∙ (ap (λ (t : Bytes). t ++ tail)
                                        (take-drop_rest (want - length got) x)
                                      ∙ sym was))) in
                        let shorter =
                          fewer rounds want (length got) (length hs) s1.cur next.cur (length copied)
                            s1.pos (length body) (omega (arith, fuel, same))
                            (omega (arith, inside, same)) less len moved in
                        subst
                          (λ (before : Bytes).
                            Ensures (λ (s' : PieceStream S). Good L cfg bucket cap s'.reader)
                              (λ (r : Bytes × ReadError) s'.
                                OnPiece L cfg bucket cap bs s' × IsNext bs want before s' r)
                              (stream_loop cfg rounds turns hs want (got ++ copied) next))
                          whole
                          (stream_loop_lem rounds turns hs bs want (got ++ copied) next all on2
                            (omega (arith, length-append got copied, len))
                            (omega (arith, length-append got copied, shorter)))))
            ]
      ]

  -- The bucket holds the torrent's pieces, and the cache only what the bucket holds. Whatever other
  -- goroutines do and however the service fails, a `Read` of the stream that returns
  -- gives the bytes that come next, as many as asked for unless the stream ends, and `EOF` exactly when
  -- it is asked for some and has none. Reads in a row so give the pieces of the torrent, one after the other.
  pub stream_read-IsNext :
      (turns : ℕ → Turn) (hs : List Text) (bs : List Bytes) (want : ℕ) (s : PieceStream S)
      → Bodies cfg bucket hs bs
      → OnPiece L cfg bucket cap bs s
      → Ensures
          (λ s'. Good L cfg bucket cap s'.reader)
          (λ r s'. OnPiece L cfg bucket cap bs s' × IsNext bs want (ahead bs s) s' r)
          (stream_read cfg turns hs want s)
  unfolding stream_read
  stream_read-IsNext turns hs bs want s all on =
      stream_loop_lem (want + length hs) turns hs bs want [] s all on (omega arith) (omega arith)
