-- ===== src/Fetch/Stored.antt =====
-- A piece that the storage of fetch.go calls complete is in the bucket.
use samogon.Base.{
  All, All_map, All_get_elem?, drop_at, List, [], ◌∷◌, zero, suc, Text, Bytes, lookup, ℕ, ◌+◌, ◌≡◌,
  refl, sym, ◌∙◌, inl, inr, Bool, true, false, Bool-cases, Option-cases, some, ltb, length,
}
use mathlib.Core.Path.{subst}
use mathlib.Core.Bool.{true≢false}
use samogon.Config.{Config, key_piece}
use samogon.Fetch.{PieceState, find_state, state_for, write_copy, write_resume, release, completion}
use samogon.Fetch.Calls.{
  Work, with_piece, with_release, with_bucket, CallStep, IsVerified, AreVerified, open_call,
  take_slot, allocate, write_call, read_call, capture_call, put_call, put_fails, complete_call,
  not_complete_call, free_call, ask_call, Calls, no_call, then_call, Overwrites, Present, Backed,
  AllBacked, set_state-All, find_state-All,
}
use samogon.Storage.{Storage}
use samogon.Storage.Client.{S3, IsLawful}
use samogon.Storage.Laws.{at}
use samogon.Throw.{Ensures}
use samogon.Fetch.Puts.{uploaded, upload_failed, read_same}

-- A change of the buffer alone.
abbrev Alike : PieceState → PieceState → Type 0
Alike ps qs = (qs.hash ≡ ps.hash) × (qs.complete ≡ ps.complete)

write_resume-Alike : (ps : PieceState) (slots : ℕ) → Alike ps (write_resume ps slots).0
unfolding write_resume
write_resume-Alike ps slots = elim (Option-cases ps.buf) [
  | inl e ↦ rw e (refl, refl)
  | inr (b, e) ↦ rw e (refl, refl)
]

write_copy-Alike : (b : Bytes) (off : ℕ) (ps : PieceState) → Alike ps (write_copy b off ps).0
unfolding write_copy
write_copy-Alike b off ps = elim (Option-cases ps.buf) [
  | inl e ↦ rw e (refl, refl)
  | inr (buf, e) ↦ elim (Bool-cases (ltb (length buf) (off + length b))) [
    | inl long ↦ rw (e, long) (refl, refl)
    | inr fits ↦ rw (e, fits) (refl, refl)
  ]
]

release_same :
    (complete : Bool) (ps : PieceState)
    → ((release complete ps).0.hash ≡ ps.hash) × ((release complete ps).0.complete ≡ complete)
unfolding release
release_same complete ps = elim (Option-cases ps.buf) [
  | inl e ↦ rw e (refl, refl)
  | inr (b, e) ↦ rw e (refl, refl)
]

All-drop_at : {A : Type 0} (P : A → Type 0) (i : ℕ) (l : List A) → All P l → All P (drop_at i l)
All-drop_at P i [] p = tt
All-drop_at P zero (x ∷ l) (_, p) = p
All-drop_at P (suc i) (x ∷ l) (here, p) = (here, All-drop_at P i l p)

module _ {S : S3} (L : IsLawful S) (cfg : Config) (content : Text → Bytes)
    (overwrites : Overwrites L) where
  abbrev Good : Work S → Type 0
  Good = AllBacked L cfg content

  abbrev Here : Storage S → Text → Type 0
  Here = Present L cfg content

  -- The state of a piece is replaced by one that is backed.
  piece_replaced :
      (w : Work S) (i : ℕ) (new : PieceState) (slots : ℕ)
      → (new.complete ≡ true → Here w.fetch.store new.hash)
      → Good w
      → Good (with_piece w i (new, slots))
  piece_replaced w i new slots backed good = record {
    states =
        set_state-All L cfg content (Backed L cfg content w.fetch.store) i new w.fetch.states
          (λ j. backed) good.states;
    uploads = good.uploads;
    put_done = good.put_done;
    known = good.known;
  }

  -- The same where the buffer of the piece may be dropped.
  piece_released :
      (w : Work S) (i : ℕ) (new : PieceState) (freed : Bool)
      → (new.complete ≡ true → Here w.fetch.store new.hash)
      → Good w
      → Good (with_release w i (new, freed))
  piece_released w i new freed backed good =
      let replaced = piece_replaced w i new w.fetch.slots backed good in
      record {
        states = replaced.states;
        uploads = replaced.uploads;
        put_done = replaced.put_done;
        known = replaced.known;
      }

  found :
      (w : Work S) (i : ℕ) (ps : PieceState)
      → find_state i w.fetch.states ≡ some ps
      → Good w
      → ps.complete ≡ true
      → Here w.fetch.store ps.hash
  found w i ps e good =
      find_state-All L cfg content (λ ps. ps.complete ≡ true → Here w.fetch.store ps.hash) i ps
        w.fetch.states good.states e

  alike_backed :
      (w : Work S) (i : ℕ) (ps new : PieceState)
      → find_state i w.fetch.states ≡ some ps
      → Alike ps new
      → Good w
      → new.complete ≡ true
      → Here w.fetch.store new.hash
  alike_backed w i ps new e (same, done) good complete =
      subst (Here w.fetch.store) (sym same) (found w i ps e good (sym done ∙ complete))

  asked_backed :
      (w : Work S) (i : ℕ) (ps : PieceState)
      → find_state i w.fetch.states ≡ some ps
      → Good w
      → (completion w.fetch.known ps).0.complete ≡ true
      → Here w.fetch.store (completion w.fetch.known ps).0.hash
  unfolding completion
  asked_backed w i ps e good = elim (Bool-cases ps.complete) [
    | inl done ↦ rw (done, completion) (λ _. found w i ps e good done)
    | inr open_ ↦ elim (Option-cases (lookup ps.hash w.fetch.known)) [
      | inl out ↦
          rw (open_, out, completion) (λ complete. absurd (true≢false (sym complete ∙ open_)))
      | inr (v, there) ↦ rw (open_, there, completion) (λ _. good.known ps.hash v there)
    ]
  ]

  bucket_moved :
      (w : Work S) (st : Storage S)
      → ((g : Text) → Here w.fetch.store g → Here st g)
      → Good w
      → Good (with_bucket w st)
  bucket_moved w st keep good = record {
    states =
        All_map {P = Backed L cfg content w.fetch.store} {Q = Backed L cfg content st}
          w.fetch.states (λ (i, ps) backed complete. keep ps.hash (backed complete)) good.states;
    uploads = good.uploads;
    put_done = All_map {P = Here w.fetch.store} {Q = Here st} w.put_done keep good.put_done;
    known = λ h v e. keep h (good.known h v e);
  }

  opened :
      (w : Work S) (i : ℕ) (hash : Text) (len : ℕ)
      → Good w
      → All (Backed L cfg content w.fetch.store) (state_for i hash len w.fetch.states)
  unfolding state_for
  opened w i hash len good = elim (Option-cases (find_state i w.fetch.states)) [
    | inl fresh ↦ rw (fresh, state_for) ((λ e. absurd (true≢false (sym e))), good.states)
    | inr (ps, e) ↦ rw (e, state_for) good.states
  ]

  -- Every part of a call keeps the pieces that count as complete in the bucket.
  step-Good : {w v : Work S} (step : CallStep cfg w v) → IsVerified content step → Good w → Good v
  step-Good (open_call w i hash len) _ good = record {
    states = opened w i hash len good;
    uploads = good.uploads;
    put_done = good.put_done;
    known = good.known;
  }
  step-Good (take_slot w free) _ good = record {
    states = good.states;
    uploads = good.uploads;
    put_done = good.put_done;
    known = good.known;
  }
  step-Good (allocate w i ps e) _ good =
      piece_replaced w i (write_resume ps w.fetch.slots).0 (write_resume ps w.fetch.slots).1
        (alike_backed w i ps (write_resume ps w.fetch.slots).0 e
          (write_resume-Alike ps w.fetch.slots) good)
        good
  step-Good (write_call w i b off ps e) _ good =
      piece_replaced w i (write_copy b off ps).0 w.fetch.slots
        (alike_backed w i ps (write_copy b off ps).0 e (write_copy-Alike b off ps) good) good
  step-Good (read_call w st ps want off b x read) _ good =
      let same =
        (subst (Ensures (λ st'. (j : Text) → at L st' j ≡ at L w.fetch.store j) (λ _ _. Unit {0}))
          read (read_same L cfg content overwrites want off ps w.fetch.store)).0 in
      bucket_moved w st (λ g here. same (key_piece cfg g) ∙ here) good
  step-Good (capture_call w i ps e) verified good = record {
    states = good.states;
    uploads = (verified, good.uploads);
    put_done = good.put_done;
    known = good.known;
  }
  step-Good (put_call w st n h body e put) _ good =
      let (keep, here) =
        uploaded L cfg content overwrites h body w.fetch.store st
          (All_get_elem? (λ u. u.1 ≡ some (content u.0)) w.uploads n (h, body) good.uploads e)
          put in
      let moved = bucket_moved w st keep good in
      record {
        states = moved.states;
        uploads = All-drop_at _ n w.uploads good.uploads;
        put_done = (here, moved.put_done);
        known = moved.known;
      }
  step-Good (put_fails w st x n h body e put) _ good =
      let moved =
        bucket_moved w st
          (upload_failed L cfg content overwrites h body w.fetch.store st x
            (All_get_elem? (λ u. u.1 ≡ some (content u.0)) w.uploads n (h, body) good.uploads e)
            put)
          good in
      record {
        states = moved.states;
        uploads = All-drop_at _ n w.uploads good.uploads;
        put_done = moved.put_done;
        known = moved.known;
      }
  step-Good (complete_call w i n ps e done) _ good =
      let released =
        piece_released w i (release true ps).0 (release true ps).1
          (λ _.
            subst (Here w.fetch.store) (sym (release_same true ps).0)
              (All_get_elem? (Here w.fetch.store) w.put_done n ps.hash good.put_done done))
          good in
      record {
        states = released.states;
        uploads = released.uploads;
        put_done = All-drop_at _ n w.put_done good.put_done;
        known = released.known;
      }
  step-Good (not_complete_call w i ps e) _ good =
      piece_released w i (release false ps).0 (release false ps).1
        (λ complete. absurd (true≢false (sym complete ∙ (release_same false ps).1))) good
  step-Good (free_call w n e) _ good = record {
    states = good.states;
    uploads = good.uploads;
    put_done = good.put_done;
    known = good.known;
  }
  step-Good (ask_call w i ps e) _ good =
      piece_replaced w i (completion w.fetch.known ps).0 w.fetch.slots (asked_backed w i ps e good)
        good

  pub Calls-AllBacked :
      {w v : Work S} (calls : Calls cfg w v) → AreVerified content calls → Good w → Good v
  Calls-AllBacked no_call _ good = good
  Calls-AllBacked (then_call calls step) (before, last) good =
      step-Good step last (Calls-AllBacked calls before good)

  -- A piece that its state calls complete.
  pub complete_present :
      (w : Work S) (i : ℕ) (ps : PieceState)
      → Good w
      → find_state i w.fetch.states ≡ some ps
      → ps.complete ≡ true
      → Here w.fetch.store ps.hash
  complete_present w i ps good e complete = found w i ps e good complete
