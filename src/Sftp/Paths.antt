-- ===== src/Sftp/Paths.antt =====
-- Opening, listing and stat of paths in sftp.go agree with one another and with the torrent's files.
use mathlib.Core.Sum.{inr-injective, inl-ne-inr}
use mathlib.Core.Bool.{true≢false}
use mathlib.Core.List.{head-eq_of_cons-eq}
use mathlib.Core.Path.{subst}
use samogon.Base.{
  sym, ap, ◌∙◌, Text, ◌==◌, ◌≡◌, refl, true, false, List, [], ◌∷◌, ◌++◌, some, inl, inr, ◌⊎◌,
  Bool-cases, Option-cases,
}
use samogon.Meta.{Meta, find_name}
use samogon.Sftp.{VInfo, VirtualFile, split_path, find_file, stat_path, open_file, has_under}
use samogon.Storage.Client.{S3}
use samogon.Throw.{Exception}
use samogon.Strings.{slash, base}

same_info : (i j : VInfo) → ◌≡◌ {A = Exception ⊎ List VInfo} (inr (i ∷ [])) (inr (j ∷ [])) → i ≡ j
same_info i j e = head-eq_of_cons-eq (inr-injective (i ∷ []) (j ∷ []) e)

-- A directory is no regular file.
dir-absurd :
    (i j : VInfo)
    → ◌≡◌ {A = Exception ⊎ List VInfo} (inr (i ∷ [])) (inr (j ∷ []))
    → i.dir ≡ true
    → j.dir ≡ false
    → ⊥
dir-absurd i j e is is_not =
    true≢false (sym is ∙ (ap (λ (k : VInfo). k.dir) (same_info i j e) ∙ is_not))

-- If a path opens, it names a file of a torrent in memory: `Stat` of the path answers one regular
-- file with the leaf of the path as its name and the size that reads are bounded by.
pub open_file-stat_path :
    {S : S3} (m : Meta S) (p : Text) (v : VirtualFile)
    → open_file m p ≡ inr v
    → (find_name m (split_path p).0 ≡ some v.tm)
      × (find_file (split_path p).1 v.tm.files ≡ some v.file)
      × (stat_path m p
          ≡ inr (record { name = base (split_path p).1; size = v.file.size; dir = false } ∷ []))
unfolding open_file stat_path
open_file-stat_path m p v e = elim (Bool-cases ((split_path p).0 == [])) [
  | inl a ↦ absurd (inl-ne-inr (rw (a, open_file) at e))
  | inr a ↦ elim (Bool-cases ((split_path p).1 == [])) [
    | inl b ↦ absurd (inl-ne-inr (rw (a, b, open_file) at e))
    | inr b ↦ elim (Option-cases (find_name m (split_path p).0)) [
      | inl c ↦ absurd (inl-ne-inr (rw (a, b, c, open_file) at e))
      | inr (tm, c) ↦ elim (Option-cases (find_file (split_path p).1 tm.files)) [
        | inl f ↦ absurd (inl-ne-inr (rw (a, b, c, f, open_file) at e))
        | inr (g, f) ↦
            let same : ◌≡◌ {A = VirtualFile} (record { tm = tm; file = g }) v =
              inr-injective _ _ (rw (a, b, c, f, open_file) at e) in
            subst
              (λ (w : VirtualFile).
                (find_name m (split_path p).0 ≡ some w.tm)
                × (find_file (split_path p).1 w.tm.files ≡ some w.file)
                × (stat_path m p
                    ≡ inr (
                        record { name = base (split_path p).1; size = w.file.size; dir = false }
                        ∷ [])))
              same (c, f, rw (a, c, b, f, stat_path))
      ]
    ]
  ]
]

-- If `Stat` of a path answers a regular file, the path opens, as a file of the size that was told.
pub stat_path-open_file :
    {S : S3} (m : Meta S) (p : Text) (i : VInfo)
    → stat_path m p ≡ inr (i ∷ [])
    → i.dir ≡ false
    → (v : VirtualFile) × (open_file m p ≡ inr v) × (v.file.size ≡ i.size)
unfolding open_file stat_path
stat_path-open_file m p i e d = elim (Bool-cases ((split_path p).0 == [])) [
  | inl a ↦ absurd (dir-absurd _ i (rw (a, stat_path) at e) refl d)
  | inr a ↦ elim (Option-cases (find_name m (split_path p).0)) [
    | inl c ↦ absurd (inl-ne-inr (rw (a, c, stat_path) at e))
    | inr (tm, c) ↦ elim (Bool-cases ((split_path p).1 == [])) [
      | inl b ↦ absurd (dir-absurd _ i (rw (a, c, b, stat_path) at e) refl d)
      | inr b ↦ elim (Option-cases (find_file (split_path p).1 tm.files)) [
        | inl f ↦ elim (Bool-cases (has_under ((split_path p).1 ++ (slash ∷ [])) tm.files)) [
          | inl u ↦ absurd (dir-absurd _ i (rw (a, c, b, f, u, stat_path) at e) refl d)
          | inr u ↦ absurd (inl-ne-inr (rw (a, c, b, f, u, stat_path) at e))
        ]
        | inr (g, f) ↦ (
          record { tm = tm; file = g },
          rw (a, b, c, f, open_file),
          ap (λ (k : VInfo). k.size) (same_info _ i (rw (a, c, b, f, stat_path) at e)),
        )
      ]
    ]
  ]
]
