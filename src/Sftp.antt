-- ===== src/Sftp.antt =====
-- sftp.go: the handlers that open, list and stat paths.
pub mod Paths
pub mod Listing
use samogon.Base.{
  Text, ◌==◌, Map, lookup, insert, ℕ, ◌-◌, ◌≤◌, Bool, true, false, ◌&&◌, ◌||◌, List, [], ◌∷◌, ◌++◌,
  length, take, drop, if◌then◌else◌, Option, none, some, inl, inr, ◌⊎◌, ltb, eqb, leb, map,
}
use samogon.Meta.{FileEntry, TorrentMeta, Meta, names, find_name}
use samogon.Storage.Client.{S3}
use samogon.Strings.{slash, dot, has_prefix, trim_prefix, cut, base, clean_rooted}
use samogon.Throw.{
  Exception, not_a_file, no_such_torrent, no_such_file, no_such_path, readlink, unknown_method,
}

pub record VInfo : Type 0 where
  pub name : Text
  pub size : ℕ
  pub dir : Bool

-- The part of a `virtualFile` that tells one from another.
pub record VirtualFile : Type 0 where
  pub tm : TorrentMeta
  pub file : FileEntry

unfoldable pub split_path : Text → Text × Text
unfolding clean_rooted trim_prefix cut
split_path p =
    let q = trim_prefix (clean_rooted p) (slash ∷ []) in
    if q == [] || q == dot ∷ []
    then ([], [])
    else let (head, tail) = cut q in elim tail [ none ↦ (q, []) | some rest ↦ (head, rest) ]

-- The first file of the path.
unfoldable pub find_file : Text → List FileEntry → Option FileEntry
find_file p [] = none
find_file p (f ∷ fs) = if f.path == p then some f else find_file p fs

-- Whether a file's path begins with the prefix.
unfoldable pub has_under : Text → List FileEntry → Bool
unfolding has_prefix
has_under p [] = false
has_under p (f ∷ fs) = has_prefix f.path p || has_under p fs

-- The order of Go strings.
unfoldable pub less : Text → Text → Bool
less s [] = false
less [] (d ∷ t) = true
less (c ∷ s) (d ∷ t) = ltb c d || eqb c d && less s t

unfoldable pub insert_info : VInfo → List VInfo → List VInfo
insert_info i [] = i ∷ []
insert_info i (j ∷ l) = if less j.name i.name then j ∷ insert_info i l else i ∷ (j ∷ l)

-- `sort.Slice` and `sort.Strings`, by name.
unfoldable pub sort_infos : List VInfo → List VInfo
sort_infos [] = []
sort_infos (i ∷ l) = insert_info i (sort_infos l)

-- The loop of `list` over the files, `seen` being `seenDir`.
unfoldable pub list_files : Text → Map Bool → List FileEntry → List VInfo
list_files prefix seen [] = []
list_files prefix seen (f ∷ fs) =
    let rest = drop (length prefix) f.path in
    let next = list_files prefix seen fs in
    elim (has_prefix f.path prefix) [
      | false ↦ next
      | true ↦ elim rest [
        | [] ↦ next
        | c ∷ s ↦
            let (name, tail) = cut (c ∷ s) in
            elim tail [
              | none ↦ record { name = c ∷ s; size = f.size; dir = false } ∷ next
              | some _ ↦ elim (lookup name seen) [
                | some _ ↦ next
                | none ↦
                    record { name = name; size = 0; dir = true }
                    ∷ list_files prefix (insert name true seen) fs
              ]
            ]
      ]
    ]

-- The prefix of the paths in a directory of a torrent.
unfoldable pub dir_prefix : Text → Text
dir_prefix fpath = if fpath == [] then [] else fpath ++ (slash ∷ [])

-- What `Fileread` and `Filelist` answer: the exception that their `Try` caught, or the result.
unfoldable pub list_path : {S : S3} → Meta S → Text → Exception ⊎ List VInfo
list_path m p =
    let (tname, fpath) = split_path p in
    if tname == []
    then inr (sort_infos (map (λ n. record { name = n; size = 0; dir = true }) (names m)))
    else elim (find_name m tname) [
      | none ↦ inl (no_such_torrent tname)
      | some tm ↦ inr (sort_infos (list_files (dir_prefix fpath) [] tm.files))
    ]

unfoldable pub stat_path : {S : S3} → Meta S → Text → Exception ⊎ List VInfo
stat_path m p =
    let (tname, fpath) = split_path p in
    if tname == []
    then inr (record { name = slash ∷ []; size = 0; dir = true } ∷ [])
    else elim (find_name m tname) [
      | none ↦ inl (no_such_torrent tname)
      | some tm ↦
          if fpath == []
          then inr (record { name = tname; size = tm.total_len; dir = true } ∷ [])
          else elim (find_file fpath tm.files) [
            | some f ↦ inr (record { name = base fpath; size = f.size; dir = false } ∷ [])
            | none ↦
                if has_under (fpath ++ (slash ∷ [])) tm.files
                then inr (record { name = base fpath; size = 0; dir = true } ∷ [])
                else inl (no_such_path p)
          ]
    ]

unfoldable pub open_file : {S : S3} → Meta S → Text → Exception ⊎ VirtualFile
open_file m p =
    let (tname, fpath) = split_path p in
    if tname == [] || fpath == [] then inl (not_a_file p) else elim (find_name m tname) [
      | none ↦ inl (no_such_torrent tname)
      | some tm ↦ elim (find_file fpath tm.files) [
        | none ↦ inl (no_such_file p)
        | some f ↦ inr (record { tm = tm; file = f })
      ]
    ]

-- The methods of a `Filelist` request.
pub data Method : Type 0 where
  list_method stat_method readlink_method : Method
  other_method : Text → Method

unfoldable pub filelist : {S : S3} → Meta S → Method → Text → Exception ⊎ List VInfo
filelist m list_method p = list_path m p
filelist m stat_method p = stat_path m p
filelist m readlink_method p = inl (readlink p)
filelist m (other_method name) p = inl (unknown_method name)

-- `ListAt(out, off)` with `want = len(out)`: the entries, and whether `io.EOF` comes with them.
unfoldable pub list_at {ℓ} : {A : Type ℓ} → List A → ℕ → ℕ → List A × Bool
list_at l want off =
    if leb (length l) off
    then ([], true)
    else let n = take want (drop off l) in (n, ltb (length n) want)
