-- ===== src/Repack/Upload.antt =====
-- The goroutines of `runRepack` that store the new pieces. Each asks first whether its piece is there
-- and puts it if not: two steps, and between them stand any steps of the others. The semaphore only
-- rules orders out. `sha1` is the hash of crypto/sha1.
use samogon.Base.{
  Text, Bytes, ℕ, zero, suc, ◌+◌, ◌-◌, ◌/◌, ◌%◌, List, [], ◌∷◌, length, get_elem?, drop_at,
  if◌then◌else◌, none, some, ltb, eqb,
}
use samogon.Config.{Config, key_piece}
use samogon.Repack.{PieceStream}
use samogon.Storage.{Storage, stat, put_bytes}
use samogon.Storage.Client.{S3}
use samogon.Throw.{Run, ok, ◌>>=◌, on_state, uncaught}

abbrev pub hex_digit : ℕ → ℕ
hex_digit n = if ltb n 10 then b'0' + n else b'a' + (n - 10)

-- `hex.EncodeToString`
unfoldable pub hex : Bytes → Text
hex [] = []
hex (b ∷ bs) = hex_digit (b / 16) ∷ (hex_digit (b % 16) ∷ hex bs)

-- The local variables of `runRepack`, with the stream and with the goroutines that `putWg` counts: the
-- pieces of those that have not asked yet, and of those that found theirs missing.
pub record Pack (S : S3) : Type 0 where
  pub src : PieceStream S
  pub new_pieces : Bytes
  pub piece_count : ℕ
  pub bytes_read : ℕ
  pub new_puts : ℕ
  pub skip_puts : ℕ
  pub pending : List Bytes
  pub missing : List Bytes

-- The next step of the goroutines: the one at this place of `pending` or of `missing` goes on.
pub data Pick : Type 0 where
  check store : ℕ → Pick

-- The key under which a new piece is stored.
unfoldable pub key_of : (Bytes → Bytes) → Config → Bytes → Text
key_of sha1 cfg chunk = key_piece cfg (hex (sha1 chunk))

abbrev pub with_store : {S : S3} → Pack S → Storage S → Pack S
with_store p st = record p { src = record p.src { reader = record p.src.reader { store = st } } }

-- A step that is possible: the one picked, or else the first goroutine's.
unfoldable pub due : {S : S3} → Pick → Pack S → Pick
due (check i) p =
    if ltb i (length p.pending)
    then check i
    else if ltb 0 (length p.pending)
    then check 0
    else store 0
due (store i) p =
    if ltb i (length p.missing)
    then store i
    else if ltb 0 (length p.missing)
    then store 0
    else check 0

-- How many steps the goroutines have still to make.
unfoldable pub steps_left : {S : S3} → Pack S → ℕ
steps_left p = length p.pending + length p.pending + length p.missing

module _ {S : S3} (sha1 : Bytes → Bytes) (cfg : Config) where
  -- `Stat`, and the return if the piece is there.
  unfoldable pub upload_check : Bytes → Pack S → Pack S
  upload_check chunk p =
      let (there, st) = stat (key_of sha1 cfg chunk) p.src.reader.store in
      if there
      then record (with_store p st) { skip_puts = suc p.skip_puts }
      else record (with_store p st) { missing = chunk ∷ p.missing }

  -- `PutBytes`, whose panic no `Try` recovers.
  unfoldable pub upload_store : Bytes → Pack S → Run (Pack S) (Unit {0})
  upload_store chunk p = do
    (_, p') ←
        on_state (with_store p)
          (uncaught (put_bytes (key_of sha1 cfg chunk) chunk p.src.reader.store))
    ok tt (record p' { new_puts = suc p'.new_puts })

  -- A step of a goroutine; a place where none is does nothing.
  unfoldable pub step_upload : Pick → Pack S → Run (Pack S) (Unit {0})
  step_upload (check i) p = elim (get_elem? p.pending i) [
    | none ↦ ok tt p
    | some chunk ↦ ok tt (upload_check chunk (record p { pending = drop_at i p.pending }))
  ]
  step_upload (store i) p = elim (get_elem? p.missing i) [
    | none ↦ ok tt p
    | some chunk ↦ upload_store chunk (record p { missing = drop_at i p.missing })
  ]

  -- What the goroutines do while the loop stands still.
  unfoldable pub run_uploads : List Pick → Pack S → Run (Pack S) (Unit {0})
  run_uploads [] p = ok tt p
  run_uploads (pick ∷ picks) p = do (_, p') ← step_upload pick p; run_uploads picks p'

  -- `putWg.Wait()`: the goroutines go on, in some order, until none is left.
  unfoldable pub wait_uploads : ℕ → (ℕ → Pick) → Pack S → Run (Pack S) (Unit {0})
  wait_uploads zero picks p = ok tt p
  wait_uploads (suc rounds) picks p =
      let rest = wait_uploads rounds picks in
      if eqb (steps_left p) 0
      then ok tt p
      else do (_, p') ← step_upload (due (picks rounds) p) p; rest p'
