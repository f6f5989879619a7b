-- ===== src/Gc/Mark.antt =====
-- The first pass of gc.go: what its workers keep of the set `alive`, whatever the order of their steps.
use samogon.Base.{
  Text, Bytes, Map, lookup, insert, lookup-insert, ◌≡◌, ◌≢◌, refl, sym, ◌∙◌, inl, inr, Bool, true,
  List, [], ◌∷◌, In, Option, none, some, arith, Option-cases,
}
use mathlib.Core.Path.{subst}
use samogon.Gc.{Gc, Marker, reading, storing, mark_load, mark_step}
use samogon.Meta.Parsed.{Info}
use samogon.Storage.{cat}
use samogon.Storage.Client.{S3, success, IsLawful}
use samogon.Storage.Laws.{at, Reply-cases}
use samogon.Throw.{Run, ok, thrown, crashed, Ensures}

-- A hash is in the set.
abbrev pub Has : Text → Map Bool → Type 0
Has h alive = lookup h alive ≡ some true

-- Marking takes no hash out of the set.
pub insert-Has : (h g : Text) (alive : Map Bool) → Has h alive → Has h (insert g true alive)
insert-Has h g alive e = ground (arith, lookup-insert h g true alive)

-- A hash comes into the set only where it is stored.
pub insert_absent :
    (h g : Text) (alive : Map Bool)
    → h ≢ g
    → lookup h alive ≡ none
    → lookup h (insert g true alive) ≡ none
insert_absent h g alive ne e = ground (arith, lookup-insert h g true alive, ne)

module _ {S : S3} (L : IsLawful S) (load : Bytes → Option Info) (bucket : Text → Option Bytes) where
  -- The bucket is as it was.
  abbrev pub Same : Gc S → Type 0
  Same w = (j : Text) → at L w.store j ≡ bucket j

  -- `Cat` of the key returned a .torrent that loads, while the bucket was as it is.
  abbrev pub Read : Text → Info → Type 0
  Read key info =
      (s : S.State) × ((j : Text) → L.contents s j ≡ bucket j)
      × (raw : Bytes) × ((S.get_object key s).0 ≡ success raw)
      × (load raw ≡ some info)

  -- It did not, at one such moment.
  abbrev pub Unread : Text → Type 0
  Unread key =
      (s : S.State) × ((j : Text) → L.contents s j ≡ bucket j)
      × ((raw : Bytes) (info : Info)
          → (S.get_object key s).0 ≡ success raw
          → load raw ≡ some info
          → ⊥)

  -- What a worker has to do after it has read the torrent of `key`.
  abbrev pub Next : Text → Option Marker → Type 0
  Next key none = Unread key
  Next key (some (reading _)) = ⊥
  Next key (some (storing hs)) = (info : Info) × Read key info × (hs ≡ info.pieces)

  pub mark_step-Next :
      (key : Text) (w : Gc S)
      → Same w
      → Ensures
          (λ w'. Same w' × ((w'.alive ≡ w.alive) × (w'.marking ≡ w.marking)))
          (λ next _. Next key next)
          (mark_step load (reading key) w)
  unfolding mark_step mark_load cat
  mark_step-Next key w same =
      let same' = λ (j : Text). L.get-contents key w.store.s3 j ∙ same j in
      elim (Reply-cases ((S.get_object key w.store.s3).0)) [
        | inr (err, e) ↦
            rw (e, mark_load, mark_step)
              ((same', (refl, refl)), (w.store.s3, same, λ raw info g _. cc))
        | inl (raw, e) ↦ elim (Option-cases (load raw)) [
          | inl bad ↦
              rw (e, bad, mark_load, mark_step)
                ((same', (refl, refl)), (w.store.s3, same, λ raw' info g l. cc))
          | inr (info, good) ↦
              rw (e, good, mark_load, mark_step)
                ((same', (refl, refl)), (info, (w.store.s3, same, raw, e, good), refl))
        ]
      ]

  -- What every hash that is stored keeps of the set, the whole pass keeps.
  module _ (C : Map Bool → Type 0) where
    abbrev pub Kept : Gc S → Type 0
    Kept w = Same w × C w.alive

    -- Storing the hashes keeps `C`.
    abbrev pub Closed : List (Option Text) → Type 0
    Closed hs = (g : Text) → In (some g) hs → (alive : Map Bool) → C alive → C (insert g true alive)

    -- The worker stores no hash but those that keep `C`.
    abbrev pub Fine : Marker → Type 0
    Fine (reading key) = (info : Info) → Read key info → Closed info.pieces
    Fine (storing hs) = Closed hs

    abbrev pub FineNext : Option Marker → Type 0
    FineNext none = Unit
    FineNext (some m) = Fine m

    -- A worker's step leaves the other workers alone.
    abbrev pub Stepped : Gc S → Option Marker → Gc S → Type 0
    Stepped w next w' = FineNext next × (w'.marking ≡ w.marking)

    Next-Fine :
        (key : Text) (next : Option Marker) → Fine (reading key) → Next key next → FineNext next
    Next-Fine key none fine n = tt
    Next-Fine key (some (reading k)) fine n = absurd n
    Next-Fine key (some (storing hs)) fine (info, read, e) = subst Closed (sym e) (fine info read)

    pub mark_step-Kept :
        (m : Marker) (w : Gc S) → Fine m → Kept w → Ensures Kept (Stepped w) (mark_step load m w)
    unfolding mark_step
    mark_step-Kept (reading key) w fine (same, c) = go _ (mark_step-Next key w same)
      where
        go :
            (r : Run (Gc S) (Option Marker))
            → Ensures
                (λ w'. Same w' × ((w'.alive ≡ w.alive) × (w'.marking ≡ w.marking)))
                (λ next _. Next key next)
                r
            → Ensures Kept (Stepped w) r
        go (ok next w') ((same', (a, m)), n) =
            ((same', subst C (sym a) c), (Next-Fine key next fine n, m))
        go (thrown e w') (same', (a, m)) = (same', subst C (sym a) c)
        go (crashed w') (same', (a, m)) = (same', subst C (sym a) c)
    mark_step-Kept (storing []) w fine kept = (kept, (tt, refl))
    mark_step-Kept (storing (none ∷ hs)) w fine kept = kept
    mark_step-Kept (storing (some h ∷ hs)) w fine (same, c) =
        ((same, fine h (inl refl) w.alive c), (λ g i. fine g (inr i), refl))
