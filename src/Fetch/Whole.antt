-- ===== src/Fetch/Whole.antt =====
-- `runFetch` from the listing of the pieces to the commit: what it downloads is in the bucket.
use samogon.Base.{
  All, In, Text, Bytes, Map, lookup, lookup-insert, lookup-nil, ℕ, ◌+◌, ◌<◌, ◌≡◌, ◌≢◌, refl, sym,
  ap, ◌∙◌, inl, inr, Bool, true, false, Bool-cases, List, [], ◌∷◌, Option, none, some, leb, length,
  ◌==◌, if◌then◌else◌, arith,
}
use mathlib.Core.Option.{none-ne-some}
use mathlib.Core.Path.{subst}
use samogon.Config.{Config, key_piece, key_torrent, prefix_pieces}
use samogon.Config.Keys.{NoSlash, base-key, key_torrent-ne-key_piece}
use samogon.Fetch.{PieceState, Fetch, find_state, known_pieces, download, run_fetch}
use samogon.Fetch.Calls.{Work, begin, Calls, AreVerified, Overwrites, Present, AllBacked}
use samogon.Fetch.Stored.{Calls-AllBacked, complete_present}
use samogon.Meta.Parsed.{Info}
use samogon.Storage.{Storage, list, leaf_set, list_pieces, put_bytes, stat}
use samogon.Storage.Client.{S3, IsLawful}
use samogon.Storage.Laws.{at, list_lem, list_under, put_bytes_lem, stat_lem}
use samogon.Strings.{base, has_prefix}
use samogon.Throw.{
  Run, ok, thrown, crashed, ◌>>=◌, not_waited, Ensures, Ensures-bind, Ensures-and, Ensures-map,
  Ensures-on_state, on_state,
}

-- The torrent client makes calls of the storage, marks a piece as complete only when its buffer holds the
-- piece's bytes, and `WaitAll` says that the download is done only when each piece of the torrent counts
-- as complete.
pub record IsClient {S : S3} (cfg : Config) (content : Text → Bytes)
    (client : Info → Fetch S → Run (Fetch S) Bool) : Type 0 where
  pub calls :
      (info : Info) (f : Fetch S)
      → Ensures
          (λ _. Unit {0})
          (λ waited f'.
            (w : Work S) × (made : Calls cfg (begin f) w) × AreVerified content made
            × (w.fetch ≡ f')
            × (waited ≡ true
                → (h : Text) → In (some h) info.pieces
                → (i : ℕ) × (ps : PieceState) × (find_state i f'.states ≡ some ps)
                  × (ps.hash ≡ h)
                  × (ps.complete ≡ true)))
          (client info f)

-- Under the prefix of the pieces there are pieces alone.
abbrev pub IsFlat : Config → (Text → Option Bytes) → Type 0
IsFlat cfg view =
    (k : Text) (b : Bytes)
    → view k ≡ some b
    → has_prefix k (prefix_pieces cfg) ≡ true
    → (h : Text) × (k ≡ key_piece cfg h) × NoSlash h × (h ≢ [])

-- A hash is in the set only as the leaf of a key.
leaf_set-In :
    (h : Text) (v : Bool) (keys : List Text)
    → lookup h (leaf_set keys) ≡ some v
    → (k : Text) × In k keys × (base k ≡ h)
unfolding leaf_set
leaf_set-In h v [] e = absurd (none-ne-some v (sym (lookup-nil h) ∙ e))
leaf_set-In h v (k ∷ keys) e = elim (Bool-cases (h == base k)) [
  | inl here ↦ (k, inl refl, ground arith)
  | inr there ↦
      let (k', i, is) =
        leaf_set-In h v keys (ground (arith, lookup-insert h (base k) true (leaf_set keys))) in
      (k', inr i, is)
]

All_at : {A : Type 0} (P : A → Type 0) (l : List A) (a : A) → All P l → In a l → P a
All_at P [] a p i = absurd i
All_at P (x ∷ l) a (p, ps) (inl e) = subst P (sym e) p
All_at P (x ∷ l) a (p, ps) (inr i) = All_at P l a ps i

module _ {S : S3} (L : IsLawful S) (load : Bytes → Option (Info × Text))
    (client : Info → Fetch S → Run (Fetch S) Bool) (cfg : Config) (content : Text → Bytes)
    (overwrites : Overwrites L) (is_client : IsClient cfg content client) where
  abbrev Here : Storage S → Text → Type 0
  Here = Present L cfg content

  abbrev Any : Storage S → Type 0
  Any st = Unit {0}

  abbrev KnownHere : Map Bool → Storage S → Type 0
  KnownHere known st = (h : Text) (v : Bool) → lookup h known ≡ some v → Here st h

  -- An object that stands as a piece has the piece's bytes.
  abbrev IsRight : Storage S → Type 0
  IsRight st = (h : Text) (b : Bytes) → at L st (key_piece cfg h) ≡ some b → b ≡ content h

  leaf-Here :
      (st st' : Storage S) (keys : List Text)
      → IsRight st
      → IsFlat cfg (at L st)
      → ((j : Text) → at L st' j ≡ at L st j)
      → All (λ k. (b : Bytes) × (at L st k ≡ some b)) keys
      → All (λ k. has_prefix k (prefix_pieces cfg) ≡ true) keys
      → KnownHere (leaf_set keys) st'
  leaf-Here st st' keys right flat same present under h v e =
      let (k, i, leaf) = leaf_set-In h v keys e in
      let (b, is) = All_at _ keys k present i in
      let (g, named, plain, ne) = flat k b is (All_at _ keys k under i) in
      let hash : g ≡ h = sym (base-key cfg g plain ne).0 ∙ (ap base (sym named) ∙ leaf) in
      let there : at L st (key_piece cfg h) ≡ some b =
        ap (at L st) (ap (key_piece cfg) (sym hash) ∙ sym named) ∙ is in
      same _ ∙ (there ∙ ap some (right h b there))

  known_pieces-Here :
      (st : Storage S)
      → IsRight st
      → IsFlat cfg (at L st)
      → Ensures Any (λ known st'. KnownHere known st') (known_pieces cfg st)
  unfolding known_pieces list_pieces
  known_pieces-Here st right flat = go (list (prefix_pieces cfg) st) (
      Ensures-and (λ st'. (j : Text) → at L st' j ≡ at L st j)
        (λ st'. (j : Text) → at L st' j ≡ at L st j) _ _ _ (list_lem L (prefix_pieces cfg) st)
        (list_under L (prefix_pieces cfg) st))
    where
      go :
          (r : Run (Storage S) (List Text))
          → Ensures
              (λ st'. (j : Text) → at L st' j ≡ at L st j)
              (λ keys _.
                All (λ k. (b : Bytes) × (at L st k ≡ some b)) keys
                × All (λ k. has_prefix k (prefix_pieces cfg) ≡ true) keys)
              r
          → Ensures {0, 0, 0} Any
              (λ known st'. KnownHere known st')
              (elim (r >>= (λ (keys, st'). ok (leaf_set keys) st')) [
                | ok known st' ↦ ok known st'
                | thrown e st' ↦ ok [] st'
                | crashed st' ↦ crashed st'
              ])
      go (ok keys st') (same, (present, under)) =
          (tt, leaf-Here st st' keys right flat same present under)
      go (thrown e st') same = (tt, λ h v e'. absurd (none-ne-some v (sym (lookup-nil h) ∙ e')))
      go (crashed st') same = tt

  abbrev Stored : Info → Storage S → Type 0
  Stored info st = (h : Text) → In (some h) info.pieces → Here st h

  client_lem :
      (info : Info) (known : Map Bool) (st : Storage S)
      → KnownHere known st
      → Ensures Any
          (λ waited st'. waited ≡ true → Stored info st')
          (on_state
            (λ (f : Fetch S). f.store)
            (client info (record { store = st; known = known; states = []; slots = 0 })))
  client_lem info known st here =
      let f : Fetch S = record { store = st; known = known; states = []; slots = 0 } in
      let good : AllBacked L cfg content (begin f) = record {
        states = tt;
        uploads = tt;
        put_done = tt;
        known = here;
      } in
      Ensures-on_state Any (λ waited st'. waited ≡ true → Stored info st')
        (λ (f : Fetch S). f.store) (client info f)
        (Ensures-map (λ _. Unit {0}) (λ (f' : Fetch S). Any f'.store) _
          (λ waited f'. waited ≡ true → Stored info f'.store) (client info f) (λ _ _. tt)
          (λ waited f' _ (w, made, verified, same, all) done h i.
            let (n, ps, there, hash, complete) = all done h i in
            subst (λ (g : Fetch S). Here g.store h) same
              (subst (Here w.fetch.store) hash (
                complete_present L cfg content overwrites w n ps
                  (Calls-AllBacked L cfg content overwrites made verified good)
                  (ap (λ (g : Fetch S). find_state n g.states) same ∙ there) complete)))
          (is_client.calls info f))

  commit-Stored :
      (info : Info) (ih : Text) (raw : Bytes) (st : Storage S) (waited : Bool)
      → (waited ≡ true → Stored info st)
      → Ensures Any
          (λ _ st'. Stored info st')
          (if waited then put_bytes (key_torrent cfg ih) raw st else thrown not_waited st)
  commit-Stored info ih raw st false stored = tt
  commit-Stored info ih raw st true stored =
      Ensures-map (λ st'. (j : Text) → j ≢ key_torrent cfg ih → at L st' j ≡ at L st j) Any
        (λ _ st'. (at L st' (key_torrent cfg ih) ≡ some raw) × (st'.puts ≡ st.puts + 1))
        (λ _ st'. Stored info st') _ (λ _ _. tt)
        (λ _ st' others _ h i.
          others (key_piece cfg h) (λ e. key_torrent-ne-key_piece cfg ih h (sym e))
          ∙ stored refl h i)
        (put_bytes_lem L (key_torrent cfg ih) raw st)

  -- Over a bucket whose prefix of pieces holds pieces alone, each with the bytes of its hash, with a
  -- service whose failed puts leave the old object or the new one, and with a torrent client that makes
  -- calls of the storage, marks a piece as complete only when its buffer holds the piece's bytes, and says
  -- that the download is done only when each piece counts as complete: if `runFetch` of a torrent that is
  -- not committed returns, the bytes of each piece of the torrent are in the bucket under its hash.
  pub run_fetch-Stored :
      (info : Info) (ih : Text) (raw : Bytes) (st : Storage S)
      → IsFlat cfg (at L st)
      → ((h : Text) (b : Bytes) → at L st (key_piece cfg h) ≡ some b → b ≡ content h)
      → load raw ≡ some (info, ih)
      → 0 < length raw
      → at L st (key_torrent cfg ih) ≡ none
      → Ensures
          (λ _. Unit {0})
          (λ _ st'.
            (h : Text) → In (some h) info.pieces → at L st' (key_piece cfg h) ≡ some (content h))
          (run_fetch load client cfg raw st)
  unfolding run_fetch download
  run_fetch-Stored info ih raw st flat right e n fresh =
      let some_bytes : leb (length raw) 0 ≡ false = ground arith in
      let (same, there) = stat_lem L (key_torrent cfg ih) st in
      let st1 = (stat (key_torrent cfg ih) st).1 in
      elim (Bool-cases ((stat (key_torrent cfg ih) st).0)) [
        | inl d ↦ absurd (none-ne-some (there d).0 (sym fresh ∙ (there d).1))
        | inr d ↦
            rw (some_bytes, e, d, run_fetch)
              (Ensures-bind Any (λ known st'. KnownHere known st') (λ _ st'. Stored info st') _ _
                (known_pieces-Here st1 (λ h b is. right h b (sym (same (key_piece cfg h)) ∙ is))
                  (λ k b is under. flat k b (sym (same k) ∙ is) under))
                (λ known st2 _ here.
                  Ensures-bind Any (λ waited st'. waited ≡ true → Stored info st')
                    (λ _ st'. Stored info st') _ _ (client_lem info known st2 here)
                    (λ waited st3 _ stored. commit-Stored info ih raw st3 waited stored)))
      ]
