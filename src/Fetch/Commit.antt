-- ===== src/Fetch/Commit.antt =====
-- The commit of `runFetch`: the .torrent is written last.
use mathlib.Core.Option.{none-ne-some}
use mathlib.Core.Bool.{true≢false}
use samogon.Base.{
  Text, Bytes, ◌+◌, ◌<◌, ◌≡◌, ◌≢◌, sym, ◌∙◌, Bool, Bool-cases, true, false, [], length, leb,
  if◌then◌else◌, Map, Option, none, some, inl, inr, arith,
}
use samogon.Config.{Config, key_torrent, key_piece}
use samogon.Config.Keys.{key_torrent-ne-key_piece, key_torrent_injective}
use samogon.Fetch.{Fetch, known_pieces, download, run_fetch}
use samogon.Meta.Parsed.{Info}
use samogon.Storage.{Storage, list_pieces, put_bytes, stat}
use samogon.Storage.Client.{S3, IsLawful}
use samogon.Storage.Laws.{at, put_bytes_lem, stat_lem, list_pieces_at}
use samogon.Throw.{
  Run, ok, thrown, crashed, not_waited, Ensures, Ensures-bind, Ensures-and, Ensures-map,
  Ensures-on_state, on_state,
}

-- The torrent client works on the storage that it is given, which writes under the keys of pieces
-- alone.
pub record IsConfined {S : S3} (L : IsLawful S) (cfg : Config)
    (client : Info → Fetch S → Run (Fetch S) Bool) : Type 0 where
  pub outside :
      (info : Info) (f : Fetch S)
      → Ensures
          (λ f'. (j : Text) → ((h : Text) → j ≢ key_piece cfg h) → at L f'.store j ≡ at L f.store j)
          (λ _ _. Unit {0})
          (client info f)

-- The client never gets to the end of the download.
abbrev pub NeverDone : {S : S3} → (Info → Fetch S → Run (Fetch S) Bool) → Type 0
NeverDone client =
    (info : Info) (f : Fetch _)
    → Ensures (λ _. Unit {0}) (λ waited _. waited ≡ false) (client info f)

module _ {S : S3} (L : IsLawful S) (load : Bytes → Option (Info × Text))
    (client : Info → Fetch S → Run (Fetch S) Bool) (cfg : Config)
    (confined : IsConfined L cfg client) where
  -- No marker is other than in `st`.
  abbrev Same : Storage S → Storage S → Type 0
  Same st st' = (t : Text) → at L st' (key_torrent cfg t) ≡ at L st (key_torrent cfg t)

  abbrev SameBut : Text → Storage S → Storage S → Type 0
  SameBut ih st st' =
      (t : Text) → t ≢ ih → at L st' (key_torrent cfg t) ≡ at L st (key_torrent cfg t)

  known_pieces_Same :
      (st : Storage S)
      → Ensures (λ st'. (j : Text) → at L st' j ≡ at L st j) (λ _ _. Unit {0}) (known_pieces cfg st)
  unfolding known_pieces
  known_pieces_Same st = go (list_pieces cfg st) (list_pieces_at L cfg st)
    where
      go :
          (r : Run (Storage S) (Map Bool))
          → Ensures (λ st'. (j : Text) → at L st' j ≡ at L st j) (λ _ _. Unit {0}) r
          → Ensures
              (λ st'. (j : Text) → at L st' j ≡ at L st j)
              (λ _ _. Unit {0})
              (elim r [
                | ok known st' ↦ ok known st'
                | thrown e st' ↦ ok [] st'
                | crashed st' ↦ crashed st'
              ])
      go (ok known st') h = h
      go (thrown e st') h = (h, tt)
      go (crashed st') h = h

  client_Same :
      (info : Info) (st : Storage S) (f : Fetch S)
      → Same st f.store
      → Ensures (Same st) (λ _ _. Unit {0}) (on_state (λ (g : Fetch S). g.store) (client info f))
  client_Same info st f same =
      Ensures-on_state (Same st) (λ _ _. Unit {0}) (λ (g : Fetch S). g.store) (client info f)
        (Ensures-map _ (λ g. Same st g.store) (λ _ _. Unit {0}) (λ _ _. Unit {0}) (client info f)
          (λ g h t. h (key_torrent cfg t) (λ k. key_torrent-ne-key_piece cfg t k) ∙ same t)
          (λ _ _ _ _. tt) (confined.outside info f))

  commit_lem :
      (ih : Text) (raw : Bytes) (st st2 : Storage S) (waited : Bool)
      → SameBut ih st st2
      → Ensures
          (SameBut ih st)
          (λ _ st'. at L st' (key_torrent cfg ih) ≡ some raw)
          (if waited then put_bytes (key_torrent cfg ih) raw st2 else thrown not_waited st2)
  commit_lem ih raw st st2 false same = same
  commit_lem ih raw st st2 true same =
      Ensures-map _ (SameBut ih st)
        (λ _ st'. (at L st' (key_torrent cfg ih) ≡ some raw) × (st'.puts ≡ st2.puts + 1)) _ _
        (λ st' h t ne.
          h (key_torrent cfg t) (λ e. ne (key_torrent_injective cfg t ih e)) ∙ same t ne)
        (λ _ _ _ (is, _). is) (put_bytes_lem L (key_torrent cfg ih) raw st2)

  download_lem :
      (info : Info) (ih : Text) (raw : Bytes) (st : Storage S)
      → Ensures
          (SameBut ih st)
          (λ _ st'. at L st' (key_torrent cfg ih) ≡ some raw)
          (download load client cfg info ih raw st)
  unfolding download
  download_lem info ih raw st =
      Ensures-bind (SameBut ih st) (λ _ st1. Same st st1)
        (λ _ st'. at L st' (key_torrent cfg ih) ≡ some raw) (known_pieces cfg st) _
        (Ensures-map _ (SameBut ih st) (λ _ _. Unit {0}) (λ _ st1. Same st st1)
          (known_pieces cfg st) (λ _ h t _. h (key_torrent cfg t))
          (λ _ _ h _ t. h (key_torrent cfg t)) (known_pieces_Same st))
        (λ known st1 _ same.
          Ensures-bind (SameBut ih st) (λ _ _. Unit {0})
            (λ _ st'. at L st' (key_torrent cfg ih) ≡ some raw)
            (on_state (λ (g : Fetch S). g.store) (client info _)) _
            (Ensures-map (Same st) (SameBut ih st) (λ _ _. Unit {0}) (λ _ _. Unit {0}) _
              (λ _ h t _. h t) (λ _ _ _ _. tt)
              (client_Same info st (record { store = st1; known = known; states = []; slots = 0 })
                same))
            (λ waited st2 i _. commit_lem ih raw st st2 waited i))

  -- With a client that writes under the keys of pieces alone, `runFetch` on bytes that load leaves the
  -- marker of every other torrent alone, however it ends. If it returns, the torrent's own marker is
  -- in the bucket.
  pub run_fetch_lem :
      (info : Info) (ih : Text) (raw : Bytes) (st : Storage S) (t : Text)
      → load raw ≡ some (info, ih)
      → 0 < length raw
      → t ≢ ih
      → Ensures
          (λ st'. at L st' (key_torrent cfg t) ≡ at L st (key_torrent cfg t))
          (λ _ st'. (b : Bytes) × (at L st' (key_torrent cfg ih) ≡ some b))
          (run_fetch load client cfg raw st)
  unfolding run_fetch
  run_fetch_lem info ih raw st t e n ne =
      let some_bytes : leb (length raw) 0 ≡ false = ground arith in
      let (same, there) = stat_lem L (key_torrent cfg ih) st in
      elim (Bool-cases ((stat (key_torrent cfg ih) st).0)) [
        | inl d ↦
            rw (some_bytes, e, d, run_fetch)
              (same (key_torrent cfg t), ((there d).0, same (key_torrent cfg ih) ∙ (there d).1))
        | inr d ↦
            rw (some_bytes, e, d, run_fetch)
              (Ensures-map (SameBut ih (stat (key_torrent cfg ih) st).1)
                (λ st'. at L st' (key_torrent cfg t) ≡ at L st (key_torrent cfg t))
                (λ _ st'. at L st' (key_torrent cfg ih) ≡ some raw)
                (λ _ st'. (b : Bytes) × (at L st' (key_torrent cfg ih) ≡ some b)) _
                (λ _ h. h t ne ∙ same (key_torrent cfg t)) (λ _ _ _ is. (raw, is))
                (download_lem info ih raw (stat (key_torrent cfg ih) st).1))
      ]

  abandoned_lem :
      (ih : Text) (raw : Bytes) (st st2 : Storage S) (waited : Bool)
      → Same st st2
      → waited ≡ false
      → Ensures
          (Same st)
          (λ _ _. ⊥)
          (if waited then put_bytes (key_torrent cfg ih) raw st2 else thrown not_waited st2)
  abandoned_lem ih raw st st2 false same e = same
  abandoned_lem ih raw st st2 true same e = absurd (true≢false e)

  download_abandoned :
      NeverDone client
      → (info : Info) (ih : Text) (raw : Bytes) (st : Storage S)
      → Ensures (Same st) (λ _ _. ⊥) (download load client cfg info ih raw st)
  unfolding download
  download_abandoned gives_up info ih raw st =
      Ensures-bind (Same st) (λ _ st1. Same st st1) (λ _ _. ⊥) (known_pieces cfg st) _
        (Ensures-map _ (Same st) (λ _ _. Unit {0}) (λ _ st1. Same st st1) (known_pieces cfg st)
          (λ _ h t. h (key_torrent cfg t)) (λ _ _ h _ t. h (key_torrent cfg t))
          (known_pieces_Same st))
        (λ known st1 _ same.
          let f : Fetch S = record { store = st1; known = known; states = []; slots = 0 } in
          Ensures-bind (Same st) (λ waited _. waited ≡ false) (λ _ _. ⊥)
            (on_state (λ (g : Fetch S). g.store) (client info f)) _
            (Ensures-map (Same st) (Same st) (λ waited _. Unit {0} × (waited ≡ false))
              (λ waited _. waited ≡ false) _ (λ _ h. h) (λ _ _ _ (_, h). h)
              (Ensures-and (Same st) (λ _. Unit {0}) (λ _ _. Unit {0}) (λ waited _. waited ≡ false)
                _ (client_Same info st f same)
                (Ensures-on_state (λ _. Unit {0}) (λ waited _. waited ≡ false)
                  (λ (g : Fetch S). g.store) (client info f) (gives_up info f))))
            (λ waited st2 i no. abandoned_lem ih raw st st2 waited i no))

  -- If the torrent is not committed and a client that writes under the keys of pieces alone does not
  -- finish the download, `runFetch` does not return: it panics, and no marker was written or changed.
  pub run_fetch_abandoned :
      NeverDone client
      → (info : Info) (ih : Text) (raw : Bytes) (st : Storage S) (t : Text)
      → load raw ≡ some (info, ih)
      → 0 < length raw
      → at L st (key_torrent cfg ih) ≡ none
      → Ensures
          (λ st'. at L st' (key_torrent cfg t) ≡ at L st (key_torrent cfg t))
          (λ _ _. ⊥)
          (run_fetch load client cfg raw st)
  unfolding run_fetch
  run_fetch_abandoned gives_up info ih raw st t e n fresh =
      let some_bytes : leb (length raw) 0 ≡ false = ground arith in
      let (same, there) = stat_lem L (key_torrent cfg ih) st in
      elim (Bool-cases ((stat (key_torrent cfg ih) st).0)) [
        | inl d ↦ absurd (none-ne-some (there d).0 (sym fresh ∙ (there d).1))
        | inr d ↦
            rw (some_bytes, e, d, run_fetch)
              (Ensures-map (Same (stat (key_torrent cfg ih) st).1)
                (λ st'. at L st' (key_torrent cfg t) ≡ at L st (key_torrent cfg t)) (λ _ _. ⊥)
                (λ _ _. ⊥) _ (λ _ h. h t ∙ same (key_torrent cfg t)) (λ _ _ _ bad. bad)
                (download_abandoned gives_up info ih raw (stat (key_torrent cfg ih) st).1))
      ]
