-- ===== src/Get/Copy.antt =====
-- What `runGet` writes is the file.
use mathlib.Core.Path.{subst}
use samogon.Base.{
  Text, Bytes, ℕ, zero, suc, ◌+◌, ◌-◌, ◌≤◌, ◌<◌, ◌≡◌, refl, sym, ap, ◌∙◌, inl, inr, Bool-cases, [],
  ◌++◌, length, take, drop, take-append-take, drop-drop, if◌then◌else◌, Option, arith, ltb, ltb→lt,
  ltb→le, length-append,
}
use samogon.Base.Int.{pos}
use samogon.Config.{Config}
use samogon.File.{Reader, Turn, ReadError, nil, eof, negative_offset, read_at}
use samogon.File.Good.{Good}
use samogon.File.Safe.{IsStored, IsRead, read_at-IsRead}
use samogon.Get.{get_loop, get_file}
use samogon.Meta.{FileEntry, TorrentMeta}
use samogon.Storage.Client.{S3, IsLawful}
use samogon.Throw.{Run, ok, thrown, short_stream, wrapped, Ensures, Ensures-bind}

module _ {S : S3} (L : IsLawful S) (cfg : Config) (bucket : Text → Option Bytes) (cap : ℕ)
    (tm : TorrentMeta) (stream : Bytes) (stored : IsStored cfg bucket tm stream) (file : FileEntry)
    (chunk : ℕ) (some_chunk : 0 < chunk) where
  -- The first `off` bytes of the file.
  abbrev Copied : ℕ → Bytes → Type 0
  Copied off out = (out ≡ take off (drop file.offset stream)) × (length out ≡ off)

  Copied-more :
      (off : ℕ) (out got : Bytes)
      → Copied off out
      → got ≡ take (length got) (drop (file.offset + off) stream)
      → Copied (off + length got) (out ++ got)
  Copied-more off out got (is, len) e = (
    ap (λ (x : Bytes). x ++ got) is
        ∙ (ap (λ (x : Bytes). take off (drop file.offset stream) ++ x)
              (e
                ∙ ap (take (length got))
                    (sym (drop-drop file.offset off (file.offset + off) stream refl)))
            ∙ take-append-take off (length got) (off + length got) (drop file.offset stream) refl),
    omega (arith, length-append out got),
  )

  asked_some :
      (off : ℕ)
      → off < file.size
      → 0 < (if ltb (file.size - off) chunk then file.size - off else chunk)
  asked_some off less = ground arith

  after_read :
      (off : ℕ) (out : Bytes) (want : ℕ) (got : Bytes) (err : ReadError) (w : Reader S)
      → Good L cfg bucket cap w
      → Copied off out
      → off < file.size
      → IsRead stream file want off (got, err)
      → (next : Run (Reader S) Bytes)
      → (length got ≡ want
          → length got ≤ file.size - off
          → Copied (off + length got) (out ++ got)
          → Ensures (Good L cfg bucket cap) (λ res _. Copied file.size res) next)
      → Ensures
          (Good L cfg bucket cap)
          (λ res _. Copied file.size res)
          (elim err [
            | eof ↦
                if ltb (off + length got) file.size
                then thrown (short_stream (off + length got) file.size) w
                else ok (out ++ got) w
            | nil ↦ next
            | negative_offset ↦ thrown (wrapped []) w
          ])
  after_read off out want got nil w g is less (_, fits, bytes, inl full) next k =
      k full fits (Copied-more off out got is bytes)
  after_read off out want got nil w g is less (_, fits, bytes, inr bad) next k = cc
  after_read off out want got negative_offset w g is less read next k = g
  after_read off out want got eof w g is less (_, fits, bytes, _) next k =
      elim (Bool-cases (ltb (off + length got) file.size)) [
        | inl short ↦ rw short g
        | inr whole ↦
            let past : file.size ≤ off + length got = ltb→le (off + length got) file.size whole in
            let copied : Copied file.size (out ++ got) =
              subst (λ (n : ℕ). Copied n (out ++ got)) (omega arith)
                (Copied-more off out got is bytes) in
            rw whole (g, copied)
      ]

  get_loop_lem :
      (rounds : ℕ) (turns : ℕ → ℕ → Turn) (off : ℕ) (out : Bytes) (w : Reader S)
      → Good L cfg bucket cap w
      → Copied off out
      → off ≤ file.size
      → file.size - off ≤ rounds
      → Ensures
          (Good L cfg bucket cap)
          (λ res _. Copied file.size res)
          (get_loop cfg rounds turns tm file chunk off out w)
  unfolding get_loop
  get_loop_lem zero turns off out w g is le fuel =
      (g, subst (λ (n : ℕ). Copied n out) (omega arith) is)
  get_loop_lem (suc rounds) turns off out w g is le fuel = elim (Bool-cases (ltb off file.size)) [
    | inr done ↦
        let past : file.size ≤ off = ltb→le off file.size done in
        rw (done, get_loop) (g, subst (λ (n : ℕ). Copied n out) (omega arith) is)
    | inl more ↦
        let less : off < file.size = ltb→lt off file.size more in
        let want = if ltb (file.size - off) chunk then file.size - off else chunk in
        rw (more, get_loop)
          (Ensures-bind (Good L cfg bucket cap) (λ r _. IsRead stream file want off r)
            (λ res _. Copied file.size res) (read_at cfg (turns rounds) tm file want (pos off) w) _
            (read_at-IsRead L cfg bucket cap tm stream stored (turns rounds) file want off w g)
            (λ (got, err) w' g' read.
              after_read off out want got err w' g' is less read
                (get_loop cfg rounds turns tm file chunk (off + length got) (out ++ got) w')
                (λ full fits copied.
                  get_loop_lem rounds turns (off + length got) (out ++ got) w' g' copied
                    (omega (arith, fits, less)) (omega (arith, full, asked_some off less, fuel)))))
  ]

  -- The bucket holds the torrent's pieces, and the cache only what the bucket holds; the buffer has a
  -- length above zero. Whatever other goroutines do and however the service fails, a copy that ends
  -- without a panic has written the whole file and nothing else: all its bytes, in order.
  pub get_file_lem :
      (turns : ℕ → ℕ → Turn) (w : Reader S)
      → Good L cfg bucket cap w
      → Ensures
          (Good L cfg bucket cap)
          (λ res _. (res ≡ take file.size (drop file.offset stream)) × (length res ≡ file.size))
          (get_file cfg turns tm file chunk w)
  unfolding get_file
  get_file_lem turns w g =
      get_loop_lem file.size turns 0 [] w g (refl, refl) (omega arith) (omega arith)
