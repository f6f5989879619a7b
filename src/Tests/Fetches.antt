-- ===== src/Tests/Fetches.antt =====
-- The download of a torrent of two pieces, of which the bucket holds one.
use mathlib.Core.Option.{none-ne-some, some-injective}
use samogon.Base.{
  In, Text, bytes, Bytes, ◌==◌, text_dec, Map, lookup, ℕ, zero, suc, ◌≡◌, refl, sym, inl, inr, Bool,
  true, false, Bool-cases, eq_true, if◌then◌else◌, Option-cases, ◌&&◌, ◌||◌, List, [], ◌∷◌, Option,
  none, some, arith, insert, lookup-insert,
}
use mathlib.Core.Path.{subst}
use samogon.Config.{key_piece, key_torrent}
use samogon.Config.Keys.{key_piece_injective}
use samogon.Fetch.{
  PieceState, Fetch, find_state, set_state, state_for, write_copy, write_resume, release, give_back,
  completion, upload, run_fetch, splice,
}
use samogon.Fetch.Calls.{
  Work, begin, open_call, take_slot, allocate, write_call, capture_call, put_call, complete_call,
  free_call, ask_call, Calls, AreVerified, no_call, then_call, Overwrites,
}
use samogon.Fetch.Whole.{IsClient, IsFlat, run_fetch-Stored}
use samogon.Meta.Parsed.{Info}
use samogon.Storage.{Storage, put_bytes}
use samogon.Storage.Laws.{at}
use samogon.Throw.{Run, ok, Ensures}
use samogon.Tests.Bucket.{memory, memory-IsLawful}
use samogon.Tests.Fixture.{config}

abbrev torrent : Info
torrent = record {
  name = bytes "n";
  piece_length = 2;
  length = 4;
  total_length = 4;
  files = [];
  pieces = some (bytes "a") ∷ some (bytes "q") ∷ [];
}

abbrev storage : Storage memory
storage = record { s3 = (key_piece config (bytes "a"), 1 ∷ 3 ∷ []) ∷ []; puts = 0 }

-- The client's calls from a storage with no states: the first piece is known or not, the second is
-- downloaded.
abbrev begun : Storage memory → Map Bool → Work memory
begun st known = begin (record { store = st; known = known; states = []; slots = 0 })

abbrev first : PieceState
first = record { hash = bytes "a"; len = 2; buf = none; complete = false }

abbrev second : PieceState
second = record { hash = bytes "q"; len = 2; buf = none; complete = false }

abbrev allocated : PieceState
allocated = record second { buf = some (0 ∷ 0 ∷ []) }

abbrev written : PieceState
written = record second { buf = some (7 ∷ 9 ∷ []) }

abbrev stored : Storage memory → Storage memory
stored st = record {
  s3 = insert (key_piece config (bytes "q")) (7 ∷ 9 ∷ []) st.s3;
  puts = suc st.puts;
}

abbrev states_with : Map Bool → PieceState → List (ℕ × PieceState)
states_with known ps = (1, ps) ∷ (0, (completion known first).0) ∷ []

abbrev done : Storage memory → Map Bool → Work memory
done st known = record {
  fetch = record {
    store = stored st;
    known = known;
    states = states_with known (record second { complete = true });
    slots = 0;
  };
  uploads = [];
  put_done = [];
  freeing = 0;
}

calls : (st : Storage memory) (known : Map Bool) → Calls config (begun st known) (done st known)
unfolding state_for find_state set_state write_copy write_resume release give_back upload put_bytes
    splice
calls st known =
    then_call
      (then_call
        (then_call
          (then_call
            (then_call
              (then_call
                (then_call
                  (then_call
                    (then_call (then_call no_call (open_call (begun st known) 0 (bytes "a") 2))
                      (ask_call _ 0 first refl))
                    (open_call _ 1 (bytes "q") 2))
                  (take_slot _ (omega arith)))
                (allocate _ 1 second refl))
              (write_call _ 1 (7 ∷ 9 ∷ []) 0 allocated refl))
            (capture_call _ 1 written refl))
          (put_call _ (stored st) 0 (bytes "q") (some (7 ∷ 9 ∷ [])) refl refl))
        (complete_call _ 1 0 written refl refl))
      (free_call _ 0 refl)

-- What the pieces are.
abbrev content : Text → Bytes
content h = if h == bytes "q" then 7 ∷ 9 ∷ [] else 1 ∷ 3 ∷ []

calls_verified : (st : Storage memory) (known : Map Bool) → AreVerified content (calls st known)
unfolding calls text_dec
calls_verified st known = (((((((((((tt, tt), tt), tt), tt), tt), tt), refl), tt), tt), tt))

-- Whether a piece of this hash counts as complete at a place.
abbrev held : Text → ℕ → List (ℕ × PieceState) → Bool
held h i states = elim (find_state i states) [
  | none ↦ false
  | some ps ↦ (ps.hash == h) && ps.complete
]

abbrev all_held : List (Option Text) → List (ℕ × PieceState) → Bool
all_held [] states = true
all_held (none ∷ hs) states = all_held hs states
all_held (some h ∷ hs) states = (held h 0 states || held h 1 states) && all_held hs states

-- The client: it says that it is done when both places hold what the torrent names.
abbrev client_on :
    Info → Storage memory → Map Bool → List (ℕ × PieceState) → ℕ → Run (Fetch memory) Bool
client_on info st known [] zero =
    ok (all_held info.pieces (done st known).fetch.states) (done st known).fetch
client_on info st known [] (suc n) =
    ok false (record { store = st; known = known; states = []; slots = suc n })
client_on info st known (s ∷ ss) n =
    ok false (record { store = st; known = known; states = s ∷ ss; slots = n })

abbrev client : Info → Fetch memory → Run (Fetch memory) Bool
client info f = client_on info f.store f.known f.states f.slots

abbrev IsHeld : Text → List (ℕ × PieceState) → Type 0
IsHeld h states =
    (i : ℕ) × (ps : PieceState) × (find_state i states ≡ some ps)
    × (ps.hash ≡ h)
    × (ps.complete ≡ true)

held-IsHeld :
    (h : Text) (i : ℕ) (states : List (ℕ × PieceState)) → held h i states ≡ true → IsHeld h states
held-IsHeld h i states e = elim (Option-cases (find_state i states)) [
  | inl out ↦ absurd (false-ne-true (rw (out, held) at e))
  | inr (ps, there) ↦
      let both : ((ps.hash == h) && ps.complete) ≡ true = rw (there, held) at e in
      (i, ps, there, ground arith, ground arith)
]
  where
    false-ne-true : ◌≡◌ {A = Bool} false true → ⊥
    false-ne-true e = cc

all_held-IsHeld :
    (hs : List (Option Text)) (states : List (ℕ × PieceState)) (h : Text)
    → all_held hs states ≡ true
    → In (some h) hs
    → IsHeld h states
all_held-IsHeld [] states h e i = absurd i
all_held-IsHeld (none ∷ hs) states h e (inl bad) = absurd (none-ne-some h (sym bad))
all_held-IsHeld (none ∷ hs) states h e (inr i) = all_held-IsHeld hs states h e i
all_held-IsHeld (some g ∷ hs) states h e (inl same) = elim (Bool-cases (held g 0 states)) [
  | inl yes_ ↦
      held-IsHeld h 0 states
        (subst (λ (x : Text). held x 0 states ≡ true) (sym (some-injective h g same)) yes_)
  | inr no_ ↦
      held-IsHeld h 1 states (
        subst (λ (x : Text). held x 1 states ≡ true) (sym (some-injective h g same)) (ground arith))
]
all_held-IsHeld (some g ∷ hs) states h e (inr i) = all_held-IsHeld hs states h (ground arith) i

client-IsClient : IsClient config content client
client-IsClient = record { calls = λ info f. go info f.store f.known f.states f.slots }
  where
    go :
        (info : Info) (st : Storage memory) (known : Map Bool) (states : List (ℕ × PieceState))
        (slots : ℕ)
        → Ensures {0, 0, 0}
            (λ _. Unit {0})
            (λ waited f'.
              (w : Work memory) × (made : Calls config
                (begin (record { store = st; known = known; states = states; slots = slots }))
                w)
              × AreVerified content made
              × (w.fetch ≡ f')
              × (waited ≡ true → (h : Text) → In (some h) info.pieces → IsHeld h f'.states))
            (client_on info st known states slots)
    go info st known [] zero = (
      tt,
      (
        done st known,
        calls st known,
        calls_verified st known,
        refl,
        λ e h i. all_held-IsHeld info.pieces (done st known).fetch.states h e i,
      ),
    )
    go info st known [] (suc n) = (tt, (_, no_call, tt, refl, λ e. cc))
    go info st known (s ∷ ss) n = (tt, (_, no_call, tt, refl, λ e. cc))

memory-Overwrites : Overwrites memory-IsLawful
memory-Overwrites k b c m is = inr (ground (arith, lookup-insert k k b m))

storage-IsFlat : IsFlat config (at memory-IsLawful storage)
unfolding lookup
storage-IsFlat k b is under = elim (Bool-cases (k == key_piece config (bytes "a"))) [
  | inl here ↦ (bytes "a", ground arith, (refl, tt), λ e. cc)
  | inr there ↦ absurd (none-ne-some b (rw there at is))
]

storage-right :
    (h : Text) (b : Bytes)
    → at memory-IsLawful storage (key_piece config h) ≡ some b
    → b ≡ content h
unfolding lookup text_dec
storage-right h b is = elim (Bool-cases (key_piece config h == key_piece config (bytes "a"))) [
  | inl here ↦
      subst (λ (x : Text). b ≡ content x)
        (sym (key_piece_injective config h (bytes "a") (eq_true _ _ here)))
        (sym (some-injective (1 ∷ 3 ∷ []) b (rw here at is)))
  | inr there ↦ absurd (none-ne-some b (rw there at is))
]

fresh : at memory-IsLawful storage (key_torrent config (bytes "new")) ≡ none
unfolding lookup text_dec key_torrent key_piece
fresh = refl

run_fetch-Stored_example :
    Ensures
      (λ _. Unit {0})
      (λ _ st'.
        (h : Text)
        → In (some h) torrent.pieces
        → at memory-IsLawful st' (key_piece config h) ≡ some (content h))
      (run_fetch (λ _. some (torrent, bytes "new")) client config (5 ∷ []) storage)
run_fetch-Stored_example =
    run_fetch-Stored memory-IsLawful (λ _. some (torrent, bytes "new")) client config content
      memory-Overwrites client-IsClient torrent (bytes "new") (5 ∷ []) storage storage-IsFlat
      storage-right refl (omega arith) fresh
