-- ===== src/Fetch/Slots.antt =====
-- The semaphore `bufSem` of fetch.go: writers that wait for a slot, among all other operations.
use samogon.Base.{
  Text, Bytes, Map, ℕ, suc, ◌+◌, ◌≤◌, ◌<◌, ◌≡◌, ap, refl, inl, inr, Option-cases, Bool, true, false,
  List, [], ◌∷◌, ◌++◌, Option, none, some, arith,
}
use samogon.Fetch.{
  PieceState, find_state, set_state, state_for, write_copy, write_resume, release, give_back,
  completion,
}

-- A `WriteAt` of another goroutine that released the lock: it waits for a slot, or has one and waits
-- for the lock. Or a mark of another goroutine that dropped a buffer: it frees the slot with no lock held.
pub data Task : Type 0 where
  wants : ℕ → Bytes → ℕ → Task
  holds : ℕ → Bytes → ℕ → Task
  frees : Task

pub record World : Type 0 where
  pub states : List (ℕ × PieceState)
  pub slots : ℕ
  pub tasks : List Task

abbrev pub then_free : Bool → List Task → List Task
then_free false tasks = tasks
then_free true tasks = frees ∷ tasks

-- One atomic step of some goroutine, where `cap` is `InflightPieces`.
pub data Step (cap : ℕ) (known : Map Bool) : World → World → Type 0 where
  open_piece :
      (w : World) (i : ℕ) (hash : Text) (len : ℕ)
      → Step cap known w (record w { states = state_for i hash len w.states })
  write_now :
      (w : World) (i : ℕ) (b : Bytes) (off : ℕ) (ps : PieceState) (buf : Bytes)
      → find_state i w.states ≡ some ps
      → ps.buf ≡ some buf
      → Step cap known w (record w { states = set_state i (write_copy b off ps).0 w.states })
  write_wait :
      (w : World) (i : ℕ) (b : Bytes) (off : ℕ) (ps : PieceState)
      → find_state i w.states ≡ some ps
      → ps.buf ≡ none
      → Step cap known w (record w { tasks = wants i b off ∷ w.tasks })
  acquire :
      (w : World) (i : ℕ) (b : Bytes) (off : ℕ) (before after : List Task)
      → w.tasks ≡ before ++ (wants i b off ∷ after)
      → w.slots < cap
      → Step cap known w
          (record w { slots = suc w.slots; tasks = before ++ (holds i b off ∷ after) })
  resume :
      (w : World) (i : ℕ) (b : Bytes) (off : ℕ) (before after : List Task) (ps : PieceState)
      → w.tasks ≡ before ++ (holds i b off ∷ after)
      → find_state i w.states ≡ some ps
      → Step cap known w (record {
        states = set_state i (write_copy b off (write_resume ps w.slots).0).0 w.states;
        slots = (write_resume ps w.slots).1;
        tasks = before ++ after;
      })
  finish :
      (w : World) (i : ℕ) (complete : Bool) (ps : PieceState)
      → find_state i w.states ≡ some ps
      → Step cap known w (record w {
        states = set_state i (release complete ps).0 w.states;
        tasks = then_free (release complete ps).1 w.tasks;
      })
  free :
      (w : World) (before after : List Task)
      → w.tasks ≡ before ++ (frees ∷ after)
      → Step cap known w (record w { slots = give_back w.slots; tasks = before ++ after })
  complete_known :
      (w : World) (i : ℕ) (ps : PieceState)
      → find_state i w.states ≡ some ps
      → Step cap known w (record w { states = set_state i (completion known ps).0 w.states })

pub data Reach (cap : ℕ) (known : Map Bool) : World → World → Type 0 where
  here : (w : World) → Reach cap known w w
  next : {u v w : World} → Reach cap known u v → Step cap known v w → Reach cap known u w

abbrev pub one_if_some : Option Bytes → ℕ
one_if_some none = 0
one_if_some (some _) = 1

-- How many pieces hold a buffer.
abbrev pub buffered : List (ℕ × PieceState) → ℕ
buffered [] = 0
buffered ((i, ps) ∷ l) = one_if_some ps.buf + buffered l

-- How many writers hold a slot and no buffer yet.
abbrev pub holding : List Task → ℕ
holding [] = 0
holding (wants i b off ∷ ts) = holding ts
holding (holds i b off ∷ ts) = suc (holding ts)
holding (frees ∷ ts) = holding ts

-- How many marks have dropped a buffer and not yet given its slot back.
abbrev pub freeing : List Task → ℕ
freeing [] = 0
freeing (wants i b off ∷ ts) = freeing ts
freeing (holds i b off ∷ ts) = freeing ts
freeing (frees ∷ ts) = suc (freeing ts)

-- Every slot belongs to a buffer, to a writer that will use it or give it back, or to a mark that will
-- give it back.
pub record IsCounted (cap : ℕ) (w : World) : Type 0 where
  pub counted : w.slots ≡ buffered w.states + holding w.tasks + freeing w.tasks
  pub within : w.slots ≤ cap

holding-append : (ts us : List Task) → holding (ts ++ us) ≡ holding ts + holding us
holding-append [] us = omega arith
holding-append (wants i b off ∷ ts) us = omega (arith, holding-append ts us)
holding-append (holds i b off ∷ ts) us = omega (arith, holding-append ts us)
holding-append (frees ∷ ts) us = omega (arith, holding-append ts us)

freeing-append : (ts us : List Task) → freeing (ts ++ us) ≡ freeing ts + freeing us
freeing-append [] us = omega arith
freeing-append (wants i b off ∷ ts) us = omega (arith, freeing-append ts us)
freeing-append (holds i b off ∷ ts) us = omega (arith, freeing-append ts us)
freeing-append (frees ∷ ts) us = omega (arith, freeing-append ts us)

buffered-set_state :
    (i : ℕ) (new ps : PieceState) (l : List (ℕ × PieceState))
    → find_state i l ≡ some ps
    → buffered (set_state i new l) + one_if_some ps.buf ≡ buffered l + one_if_some new.buf
unfolding find_state set_state
buffered-set_state i new ps [] h = absurd (ground arith)
buffered-set_state i new ps ((j, qs) ∷ l) h = ground (arith, buffered-set_state i new ps l)

buffered-state_for :
    (i : ℕ) (hash : Text) (len : ℕ) (l : List (ℕ × PieceState))
    → buffered (state_for i hash len l) ≡ buffered l
unfolding state_for
buffered-state_for i hash len l = ground arith

-- A copy neither allocates nor frees.
buf-write_copy :
    (b : Bytes) (off : ℕ) (ps : PieceState)
    → one_if_some (write_copy b off ps).0.buf ≡ one_if_some ps.buf
unfolding write_copy
buf-write_copy b off ps = ground arith

buf-completion :
    (known : Map Bool) (ps : PieceState)
    → one_if_some (completion known ps).0.buf ≡ one_if_some ps.buf
unfolding completion
buf-completion known ps = ground arith

buf-write_resume :
    (ps : PieceState) (slots : ℕ)
    → 0 < slots
    → (one_if_some (write_resume ps slots).0.buf ≡ 1)
      × ((write_resume ps slots).1 + one_if_some ps.buf ≡ slots)
unfolding write_resume
buf-write_resume ps slots h = ground arith

-- What is no longer a buffer is a slot to give back.
buf-release :
    (complete : Bool) (ps : PieceState) (tasks : List Task)
    → (one_if_some (release complete ps).0.buf ≡ 0)
      × ((holding (then_free (release complete ps).1 tasks) ≡ holding tasks)
          × (freeing (then_free (release complete ps).1 tasks)
              ≡ freeing tasks + one_if_some ps.buf))
unfolding release
buf-release complete ps tasks = elim (Option-cases ps.buf) [
  | inl e ↦ rw (e, release) (ap one_if_some e, (refl, omega arith))
  | inr (b, e) ↦ rw (e, release) (refl, (refl, omega arith))
]

pub Step-IsCounted :
    {cap : ℕ} {known : Map Bool} {v w : World}
    → Step cap known v w
    → IsCounted cap v
    → IsCounted cap w
unfolding give_back
Step-IsCounted (open_piece w i hash len) c = omega (arith, buffered-state_for i hash len w.states)
Step-IsCounted (write_now w i b off ps buf f e) c =
    omega
      (arith, buffered-set_state i (write_copy b off ps).0 ps w.states f, buf-write_copy b off ps)
Step-IsCounted (write_wait w i b off ps f e) c = omega arith
Step-IsCounted (acquire w i b off before after e room) c = omega (
  arith,
  ap holding e,
  holding-append before (wants i b off ∷ after),
  holding-append before (holds i b off ∷ after),
  ap freeing e,
  freeing-append before (wants i b off ∷ after),
  freeing-append before (holds i b off ∷ after),
)
Step-IsCounted (resume w i b off before after ps e f) c =
    let held : holding w.tasks ≡ suc (holding (before ++ after)) = omega (
      arith,
      ap holding e,
      holding-append before (holds i b off ∷ after),
      holding-append before after,
    ) in
    let freed : freeing w.tasks ≡ freeing (before ++ after) = omega (
      arith,
      ap freeing e,
      freeing-append before (holds i b off ∷ after),
      freeing-append before after,
    ) in
    omega (
      arith,
      buffered-set_state i (write_copy b off (write_resume ps w.slots).0).0 ps w.states f,
      buf-write_copy b off (write_resume ps w.slots).0,
      buf-write_resume ps w.slots (omega arith),
    )
Step-IsCounted (finish w i complete ps f) c = omega (
  arith,
  buffered-set_state i (release complete ps).0 ps w.states f,
  buf-release complete ps w.tasks,
)
Step-IsCounted (free w before after e) c = omega (
  arith,
  ap holding e,
  holding-append before (frees ∷ after),
  holding-append before after,
  ap freeing e,
  freeing-append before (frees ∷ after),
  freeing-append before after,
)
Step-IsCounted {known = known} (complete_known w i ps f) c =
    omega
      (arith, buffered-set_state i (completion known ps).0 ps w.states f, buf-completion known ps)

pub Reach-IsCounted :
    {cap : ℕ} {known : Map Bool} {v w : World}
    → IsCounted cap v
    → Reach cap known v w
    → IsCounted cap w
Reach-IsCounted c (here _) = c
Reach-IsCounted c (next r s) = Step-IsCounted s (Reach-IsCounted c r)

abbrev pub initial : World
initial = record { states = []; slots = 0; tasks = [] }

-- Whatever the goroutines do, at most `InflightPieces` pieces hold a buffer at any time, and the
-- tokens in the semaphore are those of the buffers, of the writers that took one on the way to a buffer,
-- and of the marks that dropped a buffer and have not yet given its token back.
pub buffered-le-cap :
    (cap : ℕ) (known : Map Bool) (w : World)
    → Reach cap known initial w
    → (buffered w.states ≤ cap) × (w.slots ≡ buffered w.states + holding w.tasks + freeing w.tasks)
buffered-le-cap cap known w r =
    let c : IsCounted cap w = Reach-IsCounted (omega arith) r in (omega arith, omega arith)
