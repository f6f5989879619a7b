-- ===== src/Tests/Jobs.antt =====
-- The collector, the download and the keys, on examples.
use mathlib.Core.Option.{some-injective}
use mathlib.Core.List.{head-eq_of_cons-eq}
use mathlib.Core.Path.{subst}
use samogon.Base.{
  In, Text, Bytes, bytes, lookup, text_dec, ◌+◌, ◌≤◌, ◌≡◌, ◌≢◌, refl, Bool, true, false, [], ◌∷◌,
  Option, none, some, arith, inl, inr,
}
use samogon.Config.{key_torrent, key_piece, prefix_torrents, prefix_pieces}
use samogon.Config.Keys.{base-key}
use samogon.Fetch.{
  PieceState, Fetch, state_for, find_state, set_state, write_resume, release, splice, write_copy,
  read_piece, nil, upload, run_fetch,
}
use samogon.Fetch.Buffer.{write_copy-read_piece}
use samogon.Fetch.Commit.{IsConfined, run_fetch_lem, run_fetch_abandoned}
use samogon.Fetch.Slots.{
  World, Reach, here, next, open_piece, write_wait, acquire, resume, finish, frees, initial,
  buffered, holding, freeing, buffered-le-cap,
}
use samogon.Gc.{Schedule, run_gc}
use samogon.Gc.Whole.{run_gc_keeps, run_gc_deletes}
use samogon.Meta.Parsed.{Info}
use samogon.Storage.Laws.{at, put_bytes_lem}
use samogon.Strings.{base, has_prefix, split_slash, trim_right}
use samogon.Throw.{Run, ok, ◌>>=◌, on_state, Ensures, Ensures-bind, Ensures-map, Ensures-on_state}
use samogon.Tests.Bucket.{memory, memory-IsLawful, memory-IsReliable}
use samogon.Tests.Fixture.{config, bucket, storage}

abbrev manifest : Info
manifest = record {
  name = bytes "n";
  piece_length = 2;
  length = 3;
  total_length = 3;
  files = [];
  pieces = some (bytes "a") ∷ some (bytes "b") ∷ [];
}

abbrev load : Bytes → Option Info
load _ = some manifest

names : Unit {0}
unfolding lookup text_dec has_prefix base split_slash trim_right prefix_torrents prefix_pieces
    key_torrent key_piece
names = tt

torrent_key :
    (has_prefix (bytes "r/torrents/t") (prefix_torrents config) ≡ true)
    × (bucket (bytes "r/torrents/t") ≡ some (7 ∷ []))
unfolding names
torrent_key = (refl, refl)

piece_named : In (some (base (bytes "r/pieces/a"))) manifest.pieces
unfolding names
piece_named = inl refl

-- The last worker first, and some steps between the sends.
abbrev racing : Schedule
racing = record { marks = λ n. 1 ∷ (0 ∷ []); deletes = λ n. 0 ∷ []; last = 1 ∷ []; dies = 1 }

run_gc_keeps_example :
    Ensures
      (λ w. at memory-IsLawful w.store (bytes "r/pieces/a") ≡ bucket (bytes "r/pieces/a"))
      (λ _ _. Unit {0})
      (run_gc load racing config storage)
run_gc_keeps_example =
    run_gc_keeps memory-IsLawful load racing config bucket memory-IsReliable (bytes "r/torrents/t")
      (7 ∷ []) manifest (bytes "r/pieces/a") storage (λ j. refl) torrent_key.0 torrent_key.1 refl
      piece_named

stray :
    (has_prefix (bytes "r/pieces/x") (prefix_pieces config) ≡ true)
    × (bucket (bytes "r/pieces/x") ≡ some (13 ∷ []))
unfolding names
stray = (refl, refl)

stray_unnamed :
    (info : Info) → some manifest ≡ some info → ¬ In (some (base (bytes "r/pieces/x"))) info.pieces
unfolding names
stray_unnamed info e =
    subst (λ (i : Info). ¬ In (some (base (bytes "r/pieces/x"))) i.pieces)
      (some-injective manifest info e)
      (λ i. elim i [
        | inl f ↦ omega (arith, head-eq_of_cons-eq (some-injective (bytes "x") (bytes "a") f))
        | inr rest ↦ elim rest [
          | inl f ↦ omega (arith, head-eq_of_cons-eq (some-injective (bytes "x") (bytes "b") f))
          | inr bad ↦ absurd bad
        ]
      ])

run_gc_deletes_example :
    Ensures
      (λ _. Unit {0})
      (λ _ w. at memory-IsLawful w.store (bytes "r/pieces/x") ≡ none)
      (run_gc load racing config storage)
run_gc_deletes_example =
    run_gc_deletes memory-IsLawful load racing config bucket memory-IsReliable.lists
      (bytes "r/pieces/x") (13 ∷ []) storage (λ j. refl) stray.0 stray.1
      (λ t s raw info under same read good. stray_unnamed info good)

base-key_example :
    (base (key_piece config (bytes "a")) ≡ bytes "a")
    × (base (key_torrent config (bytes "a")) ≡ bytes "a")
base-key_example = base-key config (bytes "a") (refl, tt) (λ e. cc)

-- A piece of two bytes that waits for the only slot and gets it. It is written and dropped, and the slot
-- is not yet given back.
abbrev waiting : World
waiting = record {
  states = (0, record { hash = bytes "a"; len = 2; buf = none; complete = false }) ∷ [];
  slots = 1;
  tasks = frees ∷ [];
}

waiting-Reach : Reach 1 [] initial waiting
unfolding state_for find_state set_state write_resume write_copy release splice
waiting-Reach =
    next
      (next
        (next
          (next (next (here initial) (open_piece initial 0 (bytes "a") 2))
            (write_wait _ 0 (5 ∷ []) 1 _ refl refl))
          (acquire _ 0 (5 ∷ []) 1 [] [] refl (omega arith)))
        (resume _ 0 (5 ∷ []) 1 [] [] _ refl refl))
      (finish _ 0 false _ refl)

buffered-le-cap_example :
    (buffered waiting.states ≤ 1)
    × (waiting.slots ≡ buffered waiting.states + holding waiting.tasks + freeing waiting.tasks)
buffered-le-cap_example = buffered-le-cap 1 [] waiting waiting-Reach

abbrev filling : PieceState
filling = record { hash = bytes "a"; len = 3; buf = some (0 ∷ 0 ∷ 0 ∷ []); complete = false }

write_copy-read_piece_example :
    ((write_copy (8 ∷ 9 ∷ []) 1 filling).1 ≡ (2, nil))
    × (read_piece config 2 1 (write_copy (8 ∷ 9 ∷ []) 1 filling).0 storage
        ≡ ok (8 ∷ 9 ∷ [], nil) storage)
    × (read_piece config 1 0 (write_copy (8 ∷ 9 ∷ []) 1 filling).0 storage
        ≡ read_piece config 1 0 filling storage)
write_copy-read_piece_example =
    write_copy-read_piece config filling (0 ∷ 0 ∷ 0 ∷ []) (8 ∷ 9 ∷ []) 1 1 0 storage refl
      (omega arith) (omega arith) (inl (omega arith))

-- A client that uploads one piece, and then finishes or gives up.
abbrev uploader : Bool → Info → Fetch memory → Run (Fetch memory) Bool
uploader finishes info f =
    on_state (λ st. record f { store = st }) (upload config (bytes "z") (some (1 ∷ [])) f.store)
    >>= λ (_, g). ok finishes g

uploaded :
    (finishes : Bool) (f : Fetch memory)
    → Ensures
        (λ g.
          (j : Text)
          → ((h : Text) → j ≢ key_piece config h)
          → at memory-IsLawful g.store j ≡ at memory-IsLawful f.store j)
        (λ waited _. waited ≡ finishes)
        (uploader finishes manifest f)
unfolding upload
uploaded finishes f =
    Ensures-bind
      (λ g.
        (j : Text)
        → ((h : Text) → j ≢ key_piece config h)
        → at memory-IsLawful g.store j ≡ at memory-IsLawful f.store j)
      (λ _ _. Unit {0}) (λ waited _. waited ≡ finishes)
      (on_state (λ st. record f { store = st }) (upload config (bytes "z") (some (1 ∷ [])) f.store))
      (λ (_, g). ok finishes g)
      (Ensures-on_state
        (λ g.
          (j : Text)
          → ((h : Text) → j ≢ key_piece config h)
          → at memory-IsLawful g.store j ≡ at memory-IsLawful f.store j)
        (λ _ _. Unit {0}) (λ st. record f { store = st })
        (upload config (bytes "z") (some (1 ∷ [])) f.store)
        (Ensures-map
          (λ st'.
            (j : Text)
            → j ≢ key_piece config (bytes "z")
            → at memory-IsLawful st' j ≡ at memory-IsLawful f.store j)
          (λ st'.
            (j : Text)
            → ((h : Text) → j ≢ key_piece config h)
            → at memory-IsLawful st' j ≡ at memory-IsLawful f.store j)
          (λ _ st'.
            (at memory-IsLawful st' (key_piece config (bytes "z")) ≡ some (1 ∷ []))
            × (st'.puts ≡ f.store.puts + 1))
          (λ _ _. Unit {0}) _ (λ st' h j outside. h j (outside (bytes "z"))) (λ _ _ _ _. tt)
          (put_bytes_lem memory-IsLawful (key_piece config (bytes "z")) (1 ∷ []) f.store)))
      (λ _ g i _. (i, refl))

uploader-IsConfined : (finishes : Bool) → IsConfined memory-IsLawful config (uploader finishes)
uploader-IsConfined finishes = record {
  outside = λ info f.
      Ensures-map _ _ (λ waited _. waited ≡ finishes) (λ _ _. Unit {0}) (uploader finishes info f)
        (λ _ h. h) (λ _ _ _ _. tt) (uploaded finishes f);
}

abbrev load_hash : Bytes → Option (Info × Text)
load_hash _ = some (manifest, bytes "new")

fresh : (at memory-IsLawful storage (key_torrent config (bytes "new")) ≡ none)
unfolding names
fresh = refl

run_fetch_lem_example :
    Ensures
      (λ st'.
        at memory-IsLawful st' (key_torrent config (bytes "t"))
        ≡ at memory-IsLawful storage (key_torrent config (bytes "t")))
      (λ _ st'. (b : Bytes) × (at memory-IsLawful st' (key_torrent config (bytes "new")) ≡ some b))
      (run_fetch load_hash (uploader true) config (1 ∷ []) storage)
run_fetch_lem_example =
    run_fetch_lem memory-IsLawful load_hash (uploader true) config (uploader-IsConfined true)
      manifest (bytes "new") (1 ∷ []) storage (bytes "t") refl (omega arith)
      (λ e. absurd (omega (arith, head-eq_of_cons-eq e)))

run_fetch_abandoned_example :
    Ensures
      (λ st'.
        at memory-IsLawful st' (key_torrent config (bytes "new"))
        ≡ at memory-IsLawful storage (key_torrent config (bytes "new")))
      (λ _ _. ⊥)
      (run_fetch load_hash (uploader false) config (1 ∷ []) storage)
run_fetch_abandoned_example =
    run_fetch_abandoned memory-IsLawful load_hash (uploader false) config
      (uploader-IsConfined false)
      (λ info f.
        Ensures-map _ (λ _. Unit {0}) (λ waited _. waited ≡ false) _ (uploader false info f)
          (λ _ _. tt) (λ _ _ _ e. e) (uploaded false f))
      manifest (bytes "new") (1 ∷ []) storage (bytes "new") refl (omega arith) fresh
