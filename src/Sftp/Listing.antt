-- ===== src/Sftp/Listing.antt =====
-- What `list` of sftp.go shows is there.
use mathlib.Core.Option.{some-injective, none-ne-some}
use mathlib.Core.Path.{subst}
use mathlib.Core.Sum.{inr-injective}
use samogon.Base.{
  eq_ne, ◌≢◌, All, In, Text, Map, lookup, insert, ℕ, ◌≡◌, refl, ap, ◌∙◌, Bool, true, false, List,
  [], ◌∷◌, ◌++◌, length, drop, some, inl, inr, ◌⊎◌, arith, Bool-cases, Option-cases, eqb,
}
use samogon.Meta.{FileEntry, TorrentMeta, Meta, find_name}
use samogon.Sftp.{
  VInfo, less, insert_info, sort_infos, list_files, dir_prefix, list_path, split_path,
}
use samogon.Storage.Client.{S3}
use samogon.Strings.{slash, cut, has_prefix}

has_prefix-drop : (s p : Text) → has_prefix s p ≡ true → s ≡ p ++ drop (length p) s
unfolding has_prefix
has_prefix-drop s [] e = refl
has_prefix-drop [] (c ∷ p) e = cc
has_prefix-drop (d ∷ s) (c ∷ p) e =
    let same : d ≡ c = ground arith in
    let rest : has_prefix s p ≡ true = ground arith in
    rw same (ap (◌∷◌ c) (has_prefix-drop s p rest))

nil_or_cons : (l : Text) → (l ≡ []) ⊎ ((c : ℕ) × (r : Text) × (l ≡ c ∷ r))
nil_or_cons [] = inl refl
nil_or_cons (c ∷ r) = inr (c, r, refl)

cut_lem : (s rest : Text) → (cut s).1 ≡ some rest → s ≡ (cut s).0 ++ (slash ∷ rest)
unfolding cut
cut_lem [] rest e = absurd (none-ne-some rest e)
cut_lem (c ∷ s) rest e = elim (Bool-cases (eqb c slash)) [
  | inl here ↦
      let same : c ≡ slash = ground arith in
      rw (here, same) (ap (◌∷◌ slash) (some-injective s rest (rw here at e)))
  | inr there ↦ rw there (ap (◌∷◌ c) (cut_lem s rest (rw there at e)))
]

-- What an entry of a directory says of the files: a regular file is one of them with its size, and a
-- directory has one of them below it.
abbrev pub IsListed : Text → List FileEntry → VInfo → Type 0
IsListed prefix files i = (f : FileEntry) × In f files × (elim i.dir [
  | false ↦ (f.path ≡ prefix ++ i.name) × (f.size ≡ i.size)
  | true ↦ (rest : Text) × (f.path ≡ prefix ++ (i.name ++ (slash ∷ rest)))
])

later_Listed :
    (prefix : Text) (f : FileEntry) (fs : List FileEntry) (l : List VInfo)
    → All (IsListed prefix fs) l
    → All (IsListed prefix (f ∷ fs)) l
later_Listed prefix f fs [] p = tt
later_Listed prefix f fs (i ∷ l) ((g, at, is), rest) =
    ((g, inr at, is), later_Listed prefix f fs l rest)

module _ {κ} (P : VInfo → Type κ) where
  All-insert_info : (i : VInfo) (l : List VInfo) → P i → All P l → All P (insert_info i l)
  unfolding insert_info
  All-insert_info i [] p q = (p, tt)
  All-insert_info i (j ∷ l) p (q, r) = elim (Bool-cases (less j.name i.name)) [
    | inl yes_ ↦ rw (yes_, insert_info) (q, All-insert_info i l p r)
    | inr no_ ↦ rw (no_, insert_info) (p, (q, r))
  ]

  All-sort_infos : (l : List VInfo) → All P l → All P (sort_infos l)
  unfolding sort_infos
  All-sort_infos [] p = tt
  All-sort_infos (i ∷ l) (p, q) = All-insert_info i (sort_infos l) p (All-sort_infos l q)

list_files-Listed :
    (prefix : Text) (seen : Map Bool) (fs : List FileEntry)
    → All (IsListed prefix fs) (list_files prefix seen fs)
unfolding list_files
list_files-Listed prefix seen [] = tt
list_files-Listed prefix seen (f ∷ fs) =
    let next = later_Listed prefix f fs _ (list_files-Listed prefix seen fs) in
    elim (Bool-cases (has_prefix f.path prefix)) [
      | inr out ↦ rw (out, list_files) next
      | inl under ↦
          let path : f.path ≡ prefix ++ drop (length prefix) f.path =
            has_prefix-drop f.path prefix under in
          elim (nil_or_cons (drop (length prefix) f.path)) [
            | inl same ↦ rw (under, same, list_files) next
            | inr (c, r, same) ↦
                let whole : f.path ≡ prefix ++ (c ∷ r) = path ∙ ap (◌++◌ prefix) same in
                elim (Option-cases (cut (c ∷ r)).1) [
                  | inl leaf ↦
                      rw (under, same, leaf, list_files) ((f, inl refl, (whole, refl)), next)
                  | inr (below, deep) ↦ elim (Option-cases (lookup (cut (c ∷ r)).0 seen)) [
                    | inr (_, old) ↦ rw (under, same, deep, old, list_files) next
                    | inl new ↦
                        rw (under, same, deep, new, list_files)
                          (
                            (
                              f,
                              inl refl,
                              (below, whole ∙ ap (◌++◌ prefix) (cut_lem (c ∷ r) below deep)),
                            ),
                            later_Listed prefix f fs _
                                (list_files-Listed prefix (insert (cut (c ∷ r)).0 true seen) fs),
                          )
                  ]
                ]
          ]
    ]

-- If listing a path inside a torrent succeeds, every entry is there: a regular file is a file of the
-- torrent at that place and has its size, and a directory has a file of the torrent below it.
pub list_path-IsListed :
    {S : S3} (m : Meta S) (p : Text) (tm : TorrentMeta) (l : List VInfo)
    → find_name m (split_path p).0 ≡ some tm
    → (split_path p).0 ≢ []
    → list_path m p ≡ inr l
    → All (IsListed (dir_prefix (split_path p).1) tm.files) l
unfolding list_path
list_path-IsListed m p tm l found named e =
    subst (All (IsListed (dir_prefix (split_path p).1) tm.files))
      (inr-injective _ l (rw (eq_ne (split_path p).0 [] named, found, list_path) at e))
      (All-sort_infos (IsListed (dir_prefix (split_path p).1) tm.files) _
        (list_files-Listed (dir_prefix (split_path p).1) [] tm.files))
