-- ===== src/Get2/Cover.antt =====
-- The pieces that get2.go fetches for a file are those that the file lies in.
use native.Mathlib.Nat.{div-mul-le_self, lt-div-mul-add, div-lt_iff_lt-mul, le-div_iff_mul-le}
use samogon.Base.{
  Text, ◌==◌, ℕ, zero, suc, ◌+◌, ◌-◌, ◌*◌, ◌/◌, ◌≤◌, ◌<◌, ◌≡◌, refl, ap, ◌∙◌, List, [], ◌∷◌, length,
  take, drop, get_elem?, get_elem?_of_lt, some, arith, false,
}
use mathlib.Core.Option.{some-injective, none-ne-some}
use samogon.Get2.{quotient, piece_range, file_pieces, resolve_hashes}
use samogon.Meta.{Meta, FileEntry, TorrentMeta, find_name}
use samogon.Sftp.{split_path, find_file}
use samogon.Storage.Client.{S3}
use samogon.Strings.{slash}
use samogon.Throw.{ok}

-- The hashes are those of the pieces from the one that the file's first byte lies in to the one that
-- its last byte lies in.
pub record IsCover (tm : TorrentMeta) (file : FileEntry) (hashes : List Text) : Type 0 where
  pub start_piece : ℕ
  pub end_piece : ℕ
  pub taken : hashes ≡ take (suc end_piece - start_piece) (drop start_piece tm.piece_hashes)
  pub ordered : start_piece ≤ end_piece
  pub inside : end_piece < length tm.piece_hashes
  pub first_in : start_piece * tm.piece_len ≤ file.offset
  pub first_before : file.offset < start_piece * tm.piece_len + tm.piece_len
  pub last_in : end_piece * tm.piece_len < file.offset + file.size
  pub last_before : file.offset + file.size ≤ end_piece * tm.piece_len + tm.piece_len

positive_suc : (n : ℕ) → 0 < n → (p : ℕ) × (n ≡ suc p)
positive_suc zero bad = absurd (omega arith)
positive_suc (suc p) _ = (p, refl)

drop-cons :
    {A : Type 0} (l : List A) (i : ℕ) (a : A)
    → get_elem? l i ≡ some a
    → drop i l ≡ a ∷ drop (suc i) l
drop-cons [] i a e = absurd (none-ne-some a e)
drop-cons (x ∷ l) zero a e = ap (λ (y : _). y ∷ l) (some-injective x a e)
drop-cons (x ∷ l) (suc i) a e = drop-cons l i a e

piece_range-take :
    (n i : ℕ) (hs : List Text) → i + n ≤ length hs → piece_range n i hs ≡ some (take n (drop i hs))
unfolding piece_range
piece_range-take zero i hs le = refl
piece_range-take (suc n) i hs le =
    let (h, here) = get_elem?_of_lt hs i (omega arith) in
    rw (here, piece_range, drop-cons hs i h here, piece_range-take n (suc i) hs (omega arith))

-- Where the numbers of a range of bytes are divided by the length of the pieces.
record Ends (offset n pl last : ℕ) : Type 0 where
  first_in : offset / pl * pl ≤ offset
  first_before : offset < offset / pl * pl + pl
  last_in : n / pl * pl ≤ n
  last_before : n < n / pl * pl + pl
  ordered : offset / pl ≤ n / pl
  inside : n / pl < last

ends : (offset n pl last : ℕ) → 0 < pl → offset ≤ n → n < last * pl → Ends offset n pl last
ends offset n pl last positive le fits = record {
  first_in = div-mul-le_self offset pl;
  first_before = lt-div-mul-add positive;
  last_in = div-mul-le_self n pl;
  last_before = lt-div-mul-add positive;
  ordered = (le-div_iff_mul-le positive).1 (omega (arith, div-mul-le_self offset pl, le));
  inside = (div-lt_iff_lt-mul positive).1 fits;
}

module _ (tm : TorrentMeta) (file : FileEntry) where
  file_pieces_run :
      (p n : ℕ)
      → tm.piece_len ≡ suc p
      → file.offset + file.size ≡ suc n
      → file_pieces tm file
        ≡ piece_range (suc (n / suc p) - file.offset / suc p) (file.offset / suc p) tm.piece_hashes
  unfolding file_pieces quotient
  file_pieces_run p n len total = rw (len, file_pieces, total)

  file_pieces-IsCover :
      (p n : ℕ)
      → tm.piece_len ≡ suc p
      → file.offset + file.size ≡ suc n
      → 0 < file.size
      → file.offset + file.size ≤ length tm.piece_hashes * tm.piece_len
      → (hashes : List Text) × (file_pieces tm file ≡ some hashes) × IsCover tm file hashes
  file_pieces-IsCover p n len total positive fits =
      let e =
        ends file.offset n tm.piece_len (length tm.piece_hashes) (omega (arith, len)) (omega arith)
          (omega (arith, fits, total)) in
      let hashes =
        take (suc (n / tm.piece_len) - file.offset / tm.piece_len)
          (drop (file.offset / tm.piece_len) tm.piece_hashes) in
      (
        hashes,
        file_pieces_run p n len total
            ∙ rw (← len) (
                piece_range-take (suc (n / tm.piece_len) - file.offset / tm.piece_len)
                  (file.offset / tm.piece_len) tm.piece_hashes
                  (omega (arith, e.ordered, e.inside))),
        record {
          start_piece = file.offset / tm.piece_len;
          end_piece = n / tm.piece_len;
          taken = refl;
          ordered = e.ordered;
          inside = e.inside;
          first_in = e.first_in;
          first_before = e.first_before;
          last_in = omega (arith, e.last_in, total);
          last_before = omega (arith, e.last_before, total);
        },
      )

-- For a file that is not empty and ends inside the pieces, `resolveHashes` of its path returns the
-- hashes of the pieces that have a byte of the file, in order.
pub resolve_hashes-IsCover :
    {S : S3} (m : Meta S) (target : Text) (tm : TorrentMeta) (file : FileEntry)
    → ((split_path (slash ∷ target)).0 == []) ≡ false
    → ((split_path (slash ∷ target)).1 == []) ≡ false
    → find_name m (split_path (slash ∷ target)).0 ≡ some tm
    → find_file (split_path (slash ∷ target)).1 tm.files ≡ some file
    → 0 < tm.piece_len
    → 0 < file.size
    → file.offset + file.size ≤ length tm.piece_hashes * tm.piece_len
    → (hashes : List Text) × (resolve_hashes target m ≡ ok hashes m) × IsCover tm file hashes
unfolding resolve_hashes
resolve_hashes-IsCover m target tm file named pathed found_ there piece_positive positive fits =
    let (p, len) = positive_suc tm.piece_len piece_positive in
    let (n, total) = positive_suc (file.offset + file.size) (omega arith) in
    let (hashes, run, cover) = file_pieces-IsCover tm file p n len total positive fits in
    (hashes, rw (named, found_, pathed, there, run, resolve_hashes), cover)
