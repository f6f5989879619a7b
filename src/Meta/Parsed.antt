-- ===== src/Meta/Parsed.antt =====
-- What the torrent library's `metainfo.Info` gives for a parsed torrent.
use samogon.Base.{Text, ℕ, List, Option}

pub record InfoFile : Type 0 where
  pub path : List Text
  pub length : ℕ

-- `pieces` holds for each index below `NumPieces` the hexadecimal v1 hash, if the torrent has one;
-- `total_length` is the answer of `TotalLength`.
pub record Info : Type 0 where
  pub name : Text
  pub piece_length : ℕ
  pub length : ℕ
  pub total_length : ℕ
  pub files : List InfoFile
  pub pieces : List (Option Text)
