-- ===== src/Meta/Offsets.antt =====
-- The files of a torrent in meta.go lie in the piece stream one after the other.
use mathlib.Core.Option.{some-injective, none-ne-some}
use mathlib.Core.Path.{subst}
use samogon.Base.{
  All, Text, ℕ, ◌+◌, ◌≤◌, ◌≡◌, refl, sym, ap, ◌∙◌, List, [], ◌∷◌, Option, none, some, arith, length,
  Option-cases, inl, inr,
}
use samogon.Meta.{FileEntry, TorrentMeta, file_entries, v1_hashes, build_meta, sanitize_name}
use samogon.Meta.Parsed.{Info, InfoFile}

abbrev pub sizes : List InfoFile → ℕ
sizes [] = 0
sizes (f ∷ fs) = f.length + sizes fs

-- What `TotalLength` adds up: the sizes of the files, or the length of the one file.
abbrev pub total_size : Info → ℕ
total_size info = elim info.files [ [] ↦ info.length | f ∷ fs ↦ sizes (f ∷ fs) ]

-- The files fill the range from `start` to `end`, without a gap and without an overlap.
abbrev pub Fills : ℕ → List FileEntry → ℕ → Type 0
Fills start [] end = start ≡ end
Fills start (f ∷ fs) end = (f.offset ≡ start) × Fills (start + f.size) fs end

Fills-le : (start : ℕ) (fs : List FileEntry) (end : ℕ) → Fills start fs end → start ≤ end
Fills-le start [] end e = omega arith
Fills-le start (f ∷ fs) end (e, rest) = omega (arith, Fills-le (start + f.size) fs end rest)

-- Each file ends inside the range.
Fills-inside :
    (start : ℕ) (fs : List FileEntry) (end : ℕ)
    → Fills start fs end
    → All (λ f. f.offset + f.size ≤ end) fs
Fills-inside start [] end e = tt
Fills-inside start (f ∷ fs) end (e, rest) = (
  omega (arith, Fills-le (start + f.size) fs end rest),
  Fills-inside (start + f.size) fs end rest,
)

file_entries-Fills :
    (start : ℕ) (fs : List InfoFile) (end : ℕ)
    → start + sizes fs ≡ end
    → Fills start (file_entries start fs) end
unfolding file_entries
file_entries-Fills start [] end e = omega arith
file_entries-Fills start (f ∷ fs) end e =
    (refl, file_entries-Fills (start + f.length) fs end (omega arith))

v1_hashes-length :
    (ps : List (Option Text)) (hs : List Text) → v1_hashes ps ≡ some hs → length hs ≡ length ps
unfolding v1_hashes
v1_hashes-length [] hs e = ap length (sym (some-injective [] hs e))
v1_hashes-length (none ∷ ps) hs e = absurd (none-ne-some hs e)
v1_hashes-length (some h ∷ ps) hs e = elim (Option-cases (v1_hashes ps)) [
  | inl bad ↦ absurd (none-ne-some hs (rw (bad, v1_hashes) at e))
  | inr (rest, good) ↦
      ap length (sym (some-injective (h ∷ rest) hs (rw (good, v1_hashes) at e)))
      ∙ omega (arith, v1_hashes-length ps rest good)
]

files-Fills :
    (name : Text) (fs : List InfoFile) (len total : ℕ)
    → total ≡ elim fs [ [] ↦ len | f ∷ r ↦ sizes (f ∷ r) ]
    → Fills 0
        (elim fs [
          | [] ↦ record { path = name; size = len; offset = 0 } ∷ []
          | f ∷ r ↦ file_entries 0 (f ∷ r)
        ])
        total
files-Fills name [] len total e = (refl, omega arith)
files-Fills name (f ∷ r) len total e = file_entries-Fills 0 (f ∷ r) total (omega arith)

-- `buildMeta` of a torrent whose total length is that of its files gives files that fill the stream from
-- the start to the total length, each of them inside, and one hash for each piece.
pub build_meta-Fills :
    (info : Info) (infohash : Text) (tm : TorrentMeta)
    → build_meta info infohash ≡ some tm
    → info.total_length ≡ total_size info
    → Fills 0 tm.files tm.total_len
      × All (λ f. f.offset + f.size ≤ tm.total_len) tm.files
      × (length tm.piece_hashes ≡ length info.pieces)
unfolding build_meta
build_meta-Fills info infohash tm e total = elim (Option-cases (v1_hashes info.pieces)) [
  | inl bad ↦ absurd (none-ne-some tm (rw (bad, build_meta) at e))
  | inr (hs, good) ↦
      let same = some-injective _ tm (rw (good, build_meta) at e) in
      let fills : Fills 0 tm.files tm.total_len =
        subst (λ (t : TorrentMeta). Fills 0 t.files t.total_len) same
          (files-Fills (sanitize_name info.name) info.files info.length info.total_length total) in
      (
        fills,
        Fills-inside 0 tm.files tm.total_len fills,
        ap (λ (t : TorrentMeta). length t.piece_hashes) (sym same)
            ∙ v1_hashes-length info.pieces hs good,
      )
]
