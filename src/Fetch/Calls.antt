-- ===== src/Fetch/Calls.antt =====
-- The calls that the torrent client makes of the storage of fetch.go, with the bucket behind it.
use samogon.Base.{
  All, Text, Bytes, lookup, ℕ, suc, ◌⊎◌, get_elem?, drop_at, Option, if◌then◌else◌, ◌<◌, ◌≡◌, inl,
  inr, Bool, true, false, Bool-cases, List, [], ◌∷◌, some, eqb, arith,
}
use mathlib.Core.Path.{subst}
use samogon.Config.{Config, key_piece}
use samogon.Fetch.{
  PieceState, PieceError, Fetch, find_state, set_state, state_for, write_copy, write_resume,
  release, give_back, completion, upload, read_piece,
}
use samogon.Storage.{Storage}
use samogon.Storage.Client.{S3, IsLawful}
use samogon.Storage.Laws.{at}
use samogon.Throw.{Exception, ok, thrown}

-- The storage, and the calls of `MarkComplete` under way: those that read the buffer and wait to put it,
-- with the hash and the buffer, and the hashes of those that have put the object and not yet taken the
-- lock again. `freeing` counts the marks that dropped a buffer and have not given its slot back.
pub record Work (S : S3) : Type 0 where
  pub fetch : Fetch S
  pub uploads : List (Text × Option Bytes)
  pub put_done : List Text
  pub freeing : ℕ

abbrev pub begin : {S : S3} → Fetch S → Work S
begin f = record { fetch = f; uploads = []; put_done = []; freeing = 0 }

abbrev pub with_states : {S : S3} → Work S → List (ℕ × PieceState) → Work S
with_states w states = record w { fetch = record w.fetch { states = states } }

-- The state of piece `i` is replaced, and the number of taken slots.
abbrev pub with_piece : {S : S3} → Work S → ℕ → PieceState × ℕ → Work S
with_piece w i (ps, slots) = record w {
  fetch = record w.fetch { states = set_state i ps w.fetch.states; slots = slots };
}

-- The state of piece `i` is replaced by one that may have lost its buffer.
abbrev pub with_release : {S : S3} → Work S → ℕ → PieceState × Bool → Work S
with_release w i (ps, freed) = record w {
  fetch = record w.fetch { states = set_state i ps w.fetch.states };
  freeing = if freed then suc w.freeing else w.freeing;
}

abbrev pub with_bucket : {S : S3} → Work S → Storage S → Work S
with_bucket w st = record w { fetch = record w.fetch { store = st } }

-- One part of a call that runs under the lock of its piece, or a part between two locks. A `ReadAt` may
-- have read its state any time before the bucket; a read of the bucket that fails ends the process.
pub data CallStep {S : S3} (cfg : Config) : Work S → Work S → Type 0 where
  open_call :
      (w : Work S) (i : ℕ) (hash : Text) (len : ℕ)
      → CallStep cfg w (with_states w (state_for i hash len w.fetch.states))
  take_slot :
      (w : Work S)
      → w.fetch.slots < cfg.inflight_pieces
      → CallStep cfg w (record w { fetch = record w.fetch { slots = suc w.fetch.slots } })
  allocate :
      (w : Work S) (i : ℕ) (ps : PieceState)
      → find_state i w.fetch.states ≡ some ps
      → CallStep cfg w (with_piece w i (write_resume ps w.fetch.slots))
  write_call :
      (w : Work S) (i : ℕ) (b : Bytes) (off : ℕ) (ps : PieceState)
      → find_state i w.fetch.states ≡ some ps
      → CallStep cfg w (with_states w (set_state i (write_copy b off ps).0 w.fetch.states))
  read_call :
      (w : Work S) (st : Storage S) (ps : PieceState) (want off : ℕ) (b : Bytes) (e : PieceError)
      → read_piece cfg want off ps w.fetch.store ≡ ok (b, e) st
      → CallStep cfg w (with_bucket w st)
  capture_call :
      (w : Work S) (i : ℕ) (ps : PieceState)
      → find_state i w.fetch.states ≡ some ps
      → CallStep cfg w (record w { uploads = (ps.hash, ps.buf) ∷ w.uploads })
  put_call :
      (w : Work S) (st : Storage S) (n : ℕ) (hash : Text) (data_ : Option Bytes)
      → get_elem? w.uploads n ≡ some (hash, data_)
      → upload cfg hash data_ w.fetch.store ≡ ok tt st
      → CallStep cfg w (record (with_bucket w st) {
        uploads = drop_at n w.uploads;
        put_done = hash ∷ w.put_done;
      })
  put_fails :
      (w : Work S) (st : Storage S) (x : Exception) (n : ℕ) (hash : Text) (data_ : Option Bytes)
      → get_elem? w.uploads n ≡ some (hash, data_)
      → upload cfg hash data_ w.fetch.store ≡ thrown x st
      → CallStep cfg w (record (with_bucket w st) { uploads = drop_at n w.uploads })
  complete_call :
      (w : Work S) (i n : ℕ) (ps : PieceState)
      → find_state i w.fetch.states ≡ some ps
      → get_elem? w.put_done n ≡ some ps.hash
      → CallStep cfg w
          (record (with_release w i (release true ps)) { put_done = drop_at n w.put_done })
  not_complete_call :
      (w : Work S) (i : ℕ) (ps : PieceState)
      → find_state i w.fetch.states ≡ some ps
      → CallStep cfg w (with_release w i (release false ps))
  free_call :
      (w : Work S) (n : ℕ)
      → w.freeing ≡ suc n
      → CallStep cfg w
          (record w { fetch = record w.fetch { slots = give_back w.fetch.slots }; freeing = n })
  ask_call :
      (w : Work S) (i : ℕ) (ps : PieceState)
      → find_state i w.fetch.states ≡ some ps
      → CallStep cfg w (with_states w (set_state i (completion w.fetch.known ps).0 w.fetch.states))

pub data Calls {S : S3} (cfg : Config) : Work S → Work S → Type 0 where
  no_call : {w : Work S} → Calls cfg w w
  then_call : {u v w : Work S} → Calls cfg u v → CallStep cfg v w → Calls cfg u w

-- A piece is marked as complete with its buffer at hand, and that holds the piece's bytes: the client has
-- checked the hash. Each other part of a call comes as it will.
abbrev pub IsVerified :
    {S : S3} {cfg : Config} → (Text → Bytes) → {w v : Work S} → CallStep cfg w v → Type 0
IsVerified content (capture_call w i ps _) = ps.buf ≡ some (content ps.hash)
IsVerified content (open_call _ _ _ _) = Unit
IsVerified content (take_slot _ _) = Unit
IsVerified content (allocate _ _ _ _) = Unit
IsVerified content (write_call _ _ _ _ _ _) = Unit
IsVerified content (read_call _ _ _ _ _ _ _ _) = Unit
IsVerified content (put_call _ _ _ _ _ _ _) = Unit
IsVerified content (put_fails _ _ _ _ _ _ _ _) = Unit
IsVerified content (complete_call _ _ _ _ _ _) = Unit
IsVerified content (not_complete_call _ _ _ _) = Unit
IsVerified content (free_call _ _ _) = Unit
IsVerified content (ask_call _ _ _ _) = Unit

abbrev pub AreVerified :
    {S : S3} {cfg : Config} → (Text → Bytes) → {w v : Work S} → Calls cfg w v → Type 0
AreVerified content no_call = Unit
AreVerified content (then_call calls step) = AreVerified content calls × IsVerified content step

-- A put that fails leaves the old object or the new one.
abbrev pub Overwrites : {S : S3} → IsLawful S → Type 0
Overwrites {S} L =
    (k : Text) (b c : Bytes) (s : S.State)
    → L.contents s k ≡ some c
    → (L.contents (S.put_object k b s).1 k ≡ some c)
      ⊎ (L.contents (S.put_object k b s).1 k ≡ some b)

module _ {S : S3} (L : IsLawful S) (cfg : Config) (content : Text → Bytes) where
  -- The bytes of the piece of this hash are in the bucket.
  abbrev pub Present : Storage S → Text → Type 0
  Present st h = at L st (key_piece cfg h) ≡ some (content h)

  abbrev pub Backed : Storage S → ℕ × PieceState → Type 0
  Backed st e = e.1.complete ≡ true → Present st e.1.hash

  -- Every piece that counts as complete, or will, is in the bucket, and what waits to be put is the piece.
  pub record AllBacked (w : Work S) : Type 0 where
    pub states : All (Backed w.fetch.store) w.fetch.states
    pub uploads : All (λ u. u.1 ≡ some (content u.0)) w.uploads
    pub put_done : All (Present w.fetch.store) w.put_done
    pub known : (h : Text) (v : Bool) → lookup h w.fetch.known ≡ some v → Present w.fetch.store h

  pub set_state-All :
      (P : ℕ × PieceState → Type 0) (i : ℕ) (new : PieceState) (l : List (ℕ × PieceState))
      → ((j : ℕ) → P (j, new))
      → All P l
      → All P (set_state i new l)
  unfolding set_state
  set_state-All P i new [] here all = tt
  set_state-All P i new ((j, ps) ∷ l) here (p, all) = elim (Bool-cases (eqb i j)) [
    | inl e ↦ rw (e, set_state) (here j, all)
    | inr e ↦ rw (e, set_state) (p, set_state-All P i new l here all)
  ]

  pub find_state-All :
      (P : PieceState → Type 0) (i : ℕ) (ps : PieceState) (l : List (ℕ × PieceState))
      → All (λ (e : ℕ × PieceState). P e.1) l
      → find_state i l ≡ some ps
      → P ps
  unfolding find_state
  find_state-All P i ps [] all e = cc
  find_state-All P i ps ((j, qs) ∷ l) (p, all) e = elim (Bool-cases (eqb i j)) [
    | inl here ↦ subst P (ground (arith, e)) p
    | inr there ↦ find_state-All P i ps l all (rw there at e)
  ]
