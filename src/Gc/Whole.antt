-- ===== src/Gc/Whole.antt =====
-- `runGc` from its first listing to its last deletion.
use mathlib.Core.Path.{subst}
use samogon.Base.{
  Text, Bytes, lookup, lookup-nil, ◌≡◌, sym, ◌∙◌, inl, inr, true, List, In, Option, none, some,
}
use samogon.Config.{Config, prefix_torrents, prefix_pieces}
use samogon.Gc.{Gc, Schedule, started, mark, run_gc}
use samogon.Gc.Mark.{Has, Same, insert_absent}
use samogon.Gc.Kept.{mark-Kept}
use samogon.Gc.Reached.{mark-Has}
use samogon.Gc.Sweep.{sweep_keeps}
use samogon.Gc.Stale.{sweep_dooms}
use samogon.Meta.Parsed.{Info}
use samogon.Storage.{Storage, list_stream}
use samogon.Storage.Client.{S3, success, IsLawful, IsReliable, keys_of}
use samogon.Storage.Laws.{at, list_keys, stream_pages_keys}
use samogon.Strings.{base, has_prefix}
use samogon.Throw.{Ensures, Ensures-bind, Ensures-map}

module _ {S : S3} (L : IsLawful S) (load : Bytes → Option Info) (s : Schedule) (cfg : Config)
    (bucket : Text → Option Bytes) where
  abbrev Keep : Text → Gc S → Type 0
  Keep k w = at L w.store k ≡ bucket k

  -- Where no read fails, and whatever the order of the workers' steps, a collection keeps each object whose leaf is the hash of a piece of a torrent
  -- that is stored and loads; this holds also if the process dies on the way.
  pub run_gc_keeps :
      IsReliable S L
      → (t : Text) (raw : Bytes) (info : Info) (k : Text) (st : Storage S)
      → ((j : Text) → at L st j ≡ bucket j)
      → has_prefix t (prefix_torrents cfg) ≡ true
      → bucket t ≡ some raw
      → load raw ≡ some info
      → In (some (base k)) info.pieces
      → Ensures (λ w. at L w.store k ≡ bucket k) (λ _ _. Unit {0}) (run_gc load s cfg st)
  unfolding run_gc list_stream
  run_gc_keeps reliable t raw info k st same under is good piece =
      let (keys, listed) = reliable.lists (prefix_torrents cfg) st.s3 in
      let st1 : Storage S = record st { s3 = (S.list_objects (prefix_torrents cfg) st.s3).1 } in
      let same1 = λ (j : Text). L.list-contents (prefix_torrents cfg) st.s3 j ∙ same j in
      let member =
        L.list-complete (prefix_torrents cfg) st.s3 keys t raw listed under (same t ∙ is) in
      rw (list_keys (prefix_torrents cfg) keys st listed) (
        Ensures-bind (Keep k) (λ _ w. Same L load bucket w × Has (base k) w.alive) (λ _ _. Unit {0})
          (mark load s.marks keys (started st1)) _
          (Ensures-map (Same L load bucket) (Keep k) (λ _ w. Has (base k) w.alive) _ _
            (λ w same2. same2 k) (λ _ w same2 h. (same2, h))
            (mark-Has L load bucket reliable t raw info (base k) is good piece s.marks keys
              (started st1) same1 (inr member)))
          (λ _ w2 _ (same2, has).
            sweep_keeps L k (bucket k) s.deletes s.last s.dies _ _ _
              (L.list-contents (prefix_pieces cfg) w2.store.s3 k ∙ same2 k) (has, λ there. there)))

  -- Where no listing fails, and whatever the order of the workers' steps, a collection that returns has deleted each piece whose hash was named by
  -- no torrent that could be read and loaded. So a torrent that is stored but could not be read, or
  -- did not load, protects none of its pieces.
  pub run_gc_deletes :
      ((p : Text) (s : S.State) → (keys : List Text) × (keys_of (S.list_objects p s).0 ≡ some keys))
      → (k : Text) (b : Bytes) (st : Storage S) → ((j : Text) → at L st j ≡ bucket j)
      → has_prefix k (prefix_pieces cfg) ≡ true
      → bucket k ≡ some b
      → ((t : Text) (s : S.State) (raw : Bytes) (info : Info)
          → has_prefix t (prefix_torrents cfg) ≡ true
          → ((j : Text) → L.contents s j ≡ bucket j)
          → (S.get_object t s).0 ≡ success raw
          → load raw ≡ some info
          → ¬ In (some (base k)) info.pieces)
      → Ensures (λ _. Unit {0}) (λ _ w. at L w.store k ≡ none) (run_gc load s cfg st)
  unfolding run_gc list_stream
  run_gc_deletes lists k b st same under is unnamed =
      let (keys, listed) = lists (prefix_torrents cfg) st.s3 in
      let st1 : Storage S = record st { s3 = (S.list_objects (prefix_torrents cfg) st.s3).1 } in
      let same1 = λ (j : Text). L.list-contents (prefix_torrents cfg) st.s3 j ∙ same j in
      rw (list_keys (prefix_torrents cfg) keys st listed) (
        Ensures-bind (λ _. Unit {0})
          (λ _ w. Same L load bucket w × (lookup (base k) w.alive ≡ none)) _
          (mark load s.marks keys (started st1)) _
          (Ensures-map (λ w. Same L load bucket w × (lookup (base k) w.alive ≡ none))
            (λ _. Unit {0}) (λ _ _. Unit {0}) _ _ (λ _ _. tt) (λ _ _ p _. p)
            (mark-Kept L load bucket (λ alive. lookup (base k) alive ≡ none) s.marks keys
              (started st1)
              (λ t i info (s', same', raw, read, good) g there alive dead.
                insert_absent (base k) g alive
                  (λ e.
                    unnamed t s' raw info
                      (L.list-prefix (prefix_torrents cfg) st.s3 keys t listed i) same' read good
                      (subst (λ (x : Text). In (some x) info.pieces) (sym e) there))
                  dead)
              tt (same1, lookup-nil (base k))))
          (λ _ w2 _ (same2, dead).
            let (pieces, streamed) = lists (prefix_pieces cfg) w2.store.s3 in
            let member =
              L.list-complete (prefix_pieces cfg) w2.store.s3 pieces k b streamed under
                (same2 k ∙ is) in
            rw (stream_pages_keys pieces _ streamed)
              (sweep_dooms L k s.deletes s.last s.dies pieces _ (dead, inl member))))
