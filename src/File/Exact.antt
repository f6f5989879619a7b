-- ===== src/File/Exact.antt =====
-- `ReadAt` where no other goroutine interferes and the service answers: all the bytes asked for.
use samogon.Base.{
  Text, Bytes, ℕ, zero, suc, ◌+◌, ◌-◌, ◌*◌, ◌/◌, ◌%◌, ◌≤◌, ◌<◌, ◌≡◌, refl, sym, ap, ◌∙◌, inl, inr,
  false, ◌&&◌, Bool-cases, [], ◌++◌, length, take, drop, get_elem?, get_elem?_of_lt, Option, some,
  arith, if◌then◌else◌, ltb, leb, eqb, min, length-take, length-append, length-drop, drop-drop,
  drop-take, take-take-min, ltb→lt, ltb→le,
}
use samogon.Base.Int.{pos}
use samogon.Config.{Config, key_piece}
use samogon.File.{Reader, ReadError, nil, eof, read_loop, read_at}
use samogon.File.Prefix.{Begins, append-Begins}
use samogon.File.Good.{Good}
use samogon.File.Safe.{IsStored}
use samogon.Meta.{FileEntry, TorrentMeta}
use samogon.Storage.Client.{S3, IsLawful}
use samogon.Throw.{ok}
use samogon.File.Alone.{alone, Answers, get_piece-alone}

leb_of_lt : (a b : ℕ) → b < a → leb a b ≡ false
leb_of_lt a b h = ground arith

eqb_of_pos : (a : ℕ) → 0 < a → eqb a 0 ≡ false
eqb_of_pos a h = ground arith

clip_min :
    (want remaining : ℕ) → (if ltb remaining want then remaining else want) ≡ min want remaining
clip_min want remaining = elim (Bool-cases (ltb remaining want)) [
  | inl less ↦ rw less (omega (arith, ltb→lt remaining want less))
  | inr more ↦ rw more (omega (arith, ltb→le remaining want more))
]

-- The last tests of `ReadAt` after a loop that ran to its end.
ends :
    (n m remaining size off : ℕ) (bytes : Bytes)
    → n ≡ m
    → ◌≡◌ {A = Bytes × ReadError}
        (
          take n bytes,
          if ltb n remaining && ltb n n then eof else if leb size (off + n) then eof else nil,
        )
        (take m bytes, if leb size (off + m) then eof else nil)
ends n m remaining size off bytes e = rw e (ground arith)

module _ {S : S3} (L : IsLawful S) (answers : Answers L) (cfg : Config)
    (bucket : Text → Option Bytes) (cap : ℕ) (cap_pos : 0 < cap) where
  module _ (tm : TorrentMeta) (stream : Bytes) (stored : IsStored cfg bucket tm stream)
      (len_pos : 0 < tm.piece_len)
      (covered : length stream ≤ length tm.piece_hashes * tm.piece_len) where
    -- The piece of an offset inside the stream.
    piece_of :
        (off : ℕ)
        → off < length stream
        → (h : Text) × (get_elem? tm.piece_hashes (off / tm.piece_len) ≡ some h)
          × (bucket (key_piece cfg h)
              ≡ some (take tm.piece_len (drop (off / tm.piece_len * tm.piece_len) stream)))
    piece_of off inside =
        let i = off / tm.piece_len in
        let below : i < length tm.piece_hashes = grind arith in
        let (h, found) = get_elem?_of_lt tm.piece_hashes i below in (h, found, stored i h found)

    -- What one round copies of `m` bytes still wanted.
    copied_eq :
        (off m : ℕ)
        → take m (
            drop
              (off % tm.piece_len)
              (take tm.piece_len (drop (off / tm.piece_len * tm.piece_len) stream)))
          ≡ take (min m (tm.piece_len - off % tm.piece_len)) (drop off stream)
    copied_eq off m =
        let l = tm.piece_len in
        let r = off % l in
        let start = off / l * l in
        ap (take m) (drop-take r l (l - r) (drop start stream) (omega arith))
        ∙ (take-take-min m (l - r) (drop r (drop start stream))
            ∙ ap (take (min m (l - r))) (drop-drop start r off stream (omega arith)))

    piece_length :
        (off : ℕ)
        → off < length stream
        → off % tm.piece_len
          < length (take tm.piece_len (drop (off / tm.piece_len * tm.piece_len) stream))
    piece_length off h =
        let start = off / tm.piece_len * tm.piece_len in
        omega (arith, length-take tm.piece_len (drop start stream), length-drop start stream)

    copied_length : (off c : ℕ) → off + c ≤ length stream → length (take c (drop off stream)) ≡ c
    copied_length off c h = omega (arith, length-take c (drop off stream), length-drop off stream)

    read_loop_exact :
        (rounds n start off : ℕ) (got : Bytes) (w : Reader S)
        → Good L cfg bucket cap w
        → off ≡ start + length got
        → start + n ≤ length stream
        → length got ≤ n
        → n ≤ rounds + length got
        → got ≡ take (length got) (drop start stream)
        → (w' : Reader S) × (read_loop cfg rounds (λ _. alone) tm n off got w
            ≡ ok (take n (drop start stream)) w')
          × Good L cfg bucket cap w'
    unfolding read_loop
    read_loop_exact zero n start off got w g here fits le fuel is =
        let e : length got ≡ n = omega arith in
        (w, ap (λ (x : Bytes). ok x w) (is ∙ ap (λ (m : ℕ). take m (drop start stream)) e), g)
    read_loop_exact (suc rounds) n start off got w g here fits le fuel is =
        elim (Bool-cases (ltb (length got) n)) [
          | inr stop ↦
              let e : length got ≡ n = ground arith in
              (
                w,
                rw (stop, read_loop)
                    (ap (λ (x : Bytes). ok x w)
                      (is ∙ ap (λ (m : ℕ). take m (drop start stream)) e)),
                g,
              )
          | inl more ↦
              let less : length got < n = ltb→lt (length got) n more in
              let good : eqb tm.piece_len 0 ≡ false = ground arith in
              let (h, found, object) = piece_of off (ground arith) in
              let (w1, ran, g1) = get_piece-alone L answers cfg bucket cap cap_pos h _ w g object in
              let piece = take tm.piece_len (drop (off / tm.piece_len * tm.piece_len) stream) in
              let copied = take (n - length got) (drop (off % tm.piece_len) piece) in
              let c = min (n - length got) (tm.piece_len - off % tm.piece_len) in
              let same : copied ≡ take c (drop off stream) = copied_eq off (n - length got) in
              let len : length copied ≡ c = ap length same ∙ copied_length off c (omega arith) in
              let begins : Begins copied (drop (length got) (drop start stream)) =
                same
                ∙ (ap (λ (k : ℕ). take k (drop off stream)) (sym len)
                    ∙ ap (take (length copied))
                        (sym (drop-drop start (length got) off stream (sym here)))) in
              let inside : leb (length piece) (off % tm.piece_len) ≡ false =
                leb_of_lt (length piece) (off % tm.piece_len)
                  (omega (arith, piece_length off (omega arith))) in
              let some_bytes : eqb (length copied) 0 ≡ false =
                eqb_of_pos (length copied) (omega arith) in
              let (w2, rest, g2) =
                read_loop_exact rounds n start (off + length copied) (got ++ copied) w1 g1
                  (omega (arith, length-append got copied)) fits
                  (omega (arith, length-append got copied))
                  (omega (arith, length-append got copied))
                  (append-Begins got copied _ is begins) in
              (w2, rw (more, good, found, ran, inside, some_bytes, read_loop) rest, g2)
        ]

    -- Where no other goroutine interferes and the service answers every `GetObject`, where the cache
    -- has room for an entry and the bucket holds the pieces of the torrent, which cover the stream: a
    -- read from inside a file that lies in the stream returns all the bytes asked for up to the file's
    -- end, with `EOF` exactly when it reaches that end.
    pub read_at_exact :
        (file : FileEntry) (want off : ℕ) (w : Reader S)
        → Good L cfg bucket cap w
        → file.offset + file.size ≤ length stream
        → off < file.size
        → let n = min want (file.size - off) in
          (w' : Reader S) × (read_at cfg (λ _. alone) tm file want (pos off) w
            ≡ ok
                (
                  take n (drop (file.offset + off) stream),
                  if leb file.size (off + n) then eof else nil,
                )
                w')
          × Good L cfg bucket cap w'
    unfolding read_at
    read_at_exact file want off w g fits inside =
        let remaining = file.size - off in
        let n = if ltb remaining want then remaining else want in
        let e : n ≡ min want remaining = clip_min want remaining in
        let start = file.offset + off in
        let room : start + n ≤ length stream = omega arith in
        let (w', ran, g') =
          read_loop_exact n n start start [] w g (omega arith) room (omega arith) (omega arith)
            refl in
        let len = copied_length start n room in
        (
          w',
          rw (leb_of_lt file.size off inside, read_at, ran, len)
              (ap (λ r. ok r w')
                (ends n (min want remaining) remaining file.size off (drop start stream) e)),
          g',
        )
