-- ===== src/Get/Whole.antt =====
-- The copy of `runGet` in get.go comes to the end of the file.
use mathlib.Core.List.{append-nil, append_assoc}
use samogon.Base.{
  Text, Bytes, ℕ, zero, suc, ◌+◌, ◌-◌, ◌*◌, ◌≤◌, ◌<◌, ◌≡◌, sym, ap, ◌∙◌, inl, inr, true, false,
  Bool-cases, [], ◌++◌, length, take, drop, take-append-take, drop-drop, length-take, length-drop,
  if◌then◌else◌, Option, arith, ltb, leb, ltb→lt, ltb→le, min,
}
use samogon.Config.{Config}
use samogon.File.{Reader}
use samogon.File.Alone.{alone, Answers}
use samogon.File.Exact.{read_at_exact}
use samogon.File.Good.{Good}
use samogon.File.Safe.{IsStored}
use samogon.Get.{get_loop, get_file}
use samogon.Meta.{FileEntry, TorrentMeta}
use samogon.Storage.Client.{S3, IsLawful}
use samogon.Throw.{Run, ok}

ground_le : (a b : ℕ) → leb a b ≡ true → a ≤ b
ground_le a b e = ground arith

not_short : (a b : ℕ) → leb a b ≡ true → ltb b a ≡ false
not_short a b e = ground arith

-- The length of a request.
abbrev clip : ℕ → ℕ → ℕ
clip remaining chunk = if ltb remaining chunk then remaining else chunk

record Clipped (remaining chunk n : ℕ) : Type 0 where
  inside : min n remaining ≡ n
  some_ : 0 < n
  le : n ≤ remaining

clip-Clipped :
    (remaining chunk : ℕ)
    → 0 < remaining
    → 0 < chunk
    → Clipped remaining chunk (clip remaining chunk)
clip-Clipped remaining chunk r c = record {
  inside = ground arith;
  some_ = ground arith;
  le = ground arith;
}

module _ {S : S3} (L : IsLawful S) (answers : Answers L) (cfg : Config)
    (bucket : Text → Option Bytes) (cap : ℕ) (cap_pos : 0 < cap) (tm : TorrentMeta) (stream : Bytes)
    (stored : IsStored cfg bucket tm stream) (len_pos : 0 < tm.piece_len)
    (covered : length stream ≤ length tm.piece_hashes * tm.piece_len) (file : FileEntry)
    (fits : file.offset + file.size ≤ length stream) (chunk : ℕ) (some_chunk : 0 < chunk) where
  abbrev rest_of : ℕ → Bytes
  rest_of off = drop (file.offset + off) stream

  nothing_left :
      (off : ℕ) (out : Bytes) (w : Reader S)
      → file.size - off ≡ 0
      → ◌≡◌ {A = Run (Reader S) Bytes}
          (ok out w)
          (ok (out ++ take (file.size - off) (rest_of off)) w)
  nothing_left off out w e =
      ap (λ (x : Bytes). ok x w)
        (sym (ap (λ (k : ℕ). out ++ take k (rest_of off)) e ∙ append-nil out))

  got_length : (off n : ℕ) → off + n ≤ file.size → length (take n (rest_of off)) ≡ n
  got_length off n le =
      omega (arith, length-take n (rest_of off), length-drop (file.offset + off) stream, fits)

  joins :
      (off k n : ℕ) (out : Bytes)
      → k ≡ n
      → n ≤ file.size - off
      → (out ++ take n (rest_of off)) ++ take (file.size - (off + k)) (rest_of (off + k))
        ≡ out ++ take (file.size - off) (rest_of off)
  joins off k n out e le =
      append_assoc out (take n (rest_of off)) (take (file.size - (off + k)) (rest_of (off + k)))
      ∙ ap (◌++◌ out) (
          ap (λ (l : Bytes). take n (rest_of off) ++ take (file.size - (off + k)) l)
            (sym
              (drop-drop (file.offset + off) n (file.offset + (off + k)) stream (omega (arith, e))))
          ∙ take-append-take n (file.size - (off + k)) (file.size - off) (rest_of off)
              (omega (arith, e, le)))

  get_loop_whole :
      (rounds off : ℕ) (out : Bytes) (w : Reader S)
      → Good L cfg bucket cap w
      → off ≤ file.size
      → file.size - off ≤ rounds
      → (w' : Reader S) × (get_loop cfg rounds (λ _ _. alone) tm file chunk off out w
          ≡ ok (out ++ take (file.size - off) (rest_of off)) w')
        × Good L cfg bucket cap w'
  unfolding get_loop
  get_loop_whole zero off out w g le fuel = (w, nothing_left off out w (omega arith), g)
  get_loop_whole (suc rounds) off out w g le fuel = elim (Bool-cases (ltb off file.size)) [
    | inr done ↦ (
      w,
      rw (done, get_loop) (nothing_left off out w (omega (arith, ltb→le off file.size done))),
      g,
    )
    | inl more ↦
        let less : off < file.size = ltb→lt off file.size more in
        let n = clip (file.size - off) chunk in
        let c = clip-Clipped (file.size - off) chunk (omega arith) some_chunk in
        let (w1, ran, g1) =
          read_at_exact L answers cfg bucket cap cap_pos tm stream stored len_pos covered file n off
            w g fits less in
        let got = take n (rest_of off) in
        let read = rw c.inside at ran in
        let len : length got ≡ n = got_length off n (omega (arith, c.le)) in
        elim (Bool-cases (leb file.size (off + n))) [
          | inl last ↦
              let all : n ≡ file.size - off =
                omega (arith, c.le, ground_le file.size (off + n) last) in
              (
                w1,
                rw (more, read, last, len, not_short file.size (off + n) last, get_loop)
                    (ap (λ (k : ℕ). ok (out ++ take k (rest_of off)) w1) all),
                g1,
              )
          | inr before ↦
              let (w2, rest, g2) =
                get_loop_whole rounds (off + length got) (out ++ got) w1 g1
                  (omega (arith, len, c.le)) (omega (arith, len, c.some_, fuel)) in
              (
                w2,
                rw (more, read, before, get_loop)
                    (rest ∙ ap (λ (x : Bytes). ok x w2) (joins off (length got) n out len c.le)),
                g2,
              )
        ]
  ]

  -- Where no other goroutine interferes and the service answers every `GetObject`, where the cache has room
  -- for an entry and the bucket holds the pieces of the torrent, which cover the stream: the copy of a file
  -- that lies in the stream, with a buffer of a length above zero, returns, and has written all its bytes.
  pub get_file_whole :
      (w : Reader S)
      → Good L cfg bucket cap w
      → (w' : Reader S) × (get_file cfg (λ _ _. alone) tm file chunk w
          ≡ ok (take file.size (drop file.offset stream)) w')
        × Good L cfg bucket cap w'
  unfolding get_file
  get_file_whole w g =
      let (w', run, g') = get_loop_whole file.size 0 [] w g (omega arith) (omega arith) in
      let all : file.size - 0 ≡ file.size = omega arith in
      let start : file.offset + 0 ≡ file.offset = omega arith in
      (
        w',
        run
            ∙ (ap (λ (i : ℕ). ok (take (file.size - 0) (drop i stream)) w') start
                ∙ ap (λ (k : ℕ). ok (take k (drop file.offset stream)) w') all),
        g',
      )
