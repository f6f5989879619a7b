-- ===== src/Storage/Laws.antt =====
-- What the calls of storage.go do to the bucket, over a lawful service.
use mathlib.Core.Path.{subst}
use mathlib.Core.Option.{some-injective, none-ne-some}
use mathlib.Core.List.{append-nil, append_assoc}
use samogon.Base.{
  All, All_of_In, List, [], ◌∷◌, ◌++◌, Option-cases, Bool-cases, true, false, Text, Bytes, ◌≡◌, ◌≢◌,
  refl, ◌+◌, ◌∙◌, sym, Option, none, some, arith, inl, inr, ◌⊎◌, ap,
}
use samogon.Strings.{has_prefix}
use samogon.Throw.{ok, Ensures, Ensures-bind, Ensures-map}
use mathlib.Core.Bool.{true≢false}
use samogon.Config.{Config, prefix_pieces}
use samogon.Storage.{
  list_pieces, is_not_found, leaf_set, Storage, list, list_pages, stream_pages, stat, put_bytes,
  delete, cat,
}
use samogon.Storage.Client.{S3, Reply, success, failure, IsLawful, IsReliable, keys_of}

pub Reply-cases :
    {A : Type 0} (r : Reply A)
    → ((a : A) × (r ≡ success a)) ⊎ ((e : samogon.Storage.Client.ApiError) × (r ≡ failure e))
Reply-cases (success a) = inl (a, refl)
Reply-cases (failure e) = inr (e, refl)

-- A listing of which no page fails.
list_pages_keys :
    {S : S3} (p : Text) (acc keys : List Text) (pages : List (Reply (List Text))) (st : Storage S)
    → keys_of pages ≡ some keys
    → list_pages p acc pages st ≡ ok (acc ++ keys) st
unfolding list_pages
list_pages_keys p acc keys [] st e =
    rw (← some-injective [] keys e) (ap (λ (l : List Text). ok l st) (sym (append-nil acc)))
list_pages_keys p acc keys (success page ∷ pages) st e = elim (Option-cases (keys_of pages)) [
  | inl bad ↦ absurd (none-ne-some keys (rw bad at e))
  | inr (rest, good) ↦
      list_pages_keys p (acc ++ page) rest pages st good
      ∙ ap (λ (l : List Text). ok l st)
          (append_assoc acc page rest
            ∙ ap (◌++◌ acc) (some-injective (page ++ rest) keys (rw good at e)))
]
list_pages_keys p acc keys (failure err ∷ pages) st e = cc

-- A listing changes no object, whatever its pages are.
list_pages_at :
    {S : S3} (I : Storage S → Type 0) (p : Text) (acc : List Text)
    (pages : List (Reply (List Text))) (st : Storage S)
    → I st
    → Ensures I (λ _ _. Unit {0}) (list_pages p acc pages st)
unfolding list_pages
list_pages_at I p acc [] st i = (i, tt)
list_pages_at I p acc (success page ∷ pages) st i = list_pages_at I p (acc ++ page) pages st i
list_pages_at I p acc (failure e ∷ pages) st i = elim (Bool-cases (is_not_found e)) [
  | inl yes_ ↦ rw (yes_, list_pages) (i, tt)
  | inr no_ ↦ rw (no_, list_pages) i
]

pub stream_pages_keys :
    (keys : List Text) (pages : List (Reply (List Text)))
    → keys_of pages ≡ some keys
    → stream_pages pages ≡ (keys, false)
unfolding stream_pages
stream_pages_keys keys [] e = ap (λ (l : List Text). (l, false)) (some-injective [] keys e)
stream_pages_keys keys (success page ∷ pages) e = elim (Option-cases (keys_of pages)) [
  | inl bad ↦ absurd (none-ne-some keys (rw bad at e))
  | inr (rest, good) ↦
      rw (stream_pages_keys rest pages good, some-injective (page ++ rest) keys (rw good at e))
]
stream_pages_keys keys (failure err ∷ pages) e = cc

pub list_keys :
    {S : S3} (p : Text) (keys : List Text) (st : Storage S)
    → keys_of (S.list_objects p st.s3).0 ≡ some keys
    → list p st ≡ ok keys (record st { s3 = (S.list_objects p st.s3).1 })
unfolding list
list_keys {S} p keys st e = list_pages_keys p [] keys (S.list_objects p st.s3).0 _ e

-- What a listing returns: nothing, or the keys of all pages behind those it had.
abbrev IsListing : List (Reply (List Text)) → List Text → List Text → Type 0
IsListing pages acc keys =
    (keys ≡ []) ⊎ ((rest : List Text) × (keys_of pages ≡ some rest) × (keys ≡ acc ++ rest))

more_pages :
    (page : List Text) (pages : List (Reply (List Text))) (acc keys : List Text)
    → IsListing pages (acc ++ page) keys
    → IsListing (success page ∷ pages) acc keys
more_pages page pages acc keys (inl e) = inl e
more_pages page pages acc keys (inr (rest, e, is)) =
    inr (page ++ rest, rw e, is ∙ append_assoc acc page rest)

list_pages-IsListing :
    {S : S3} (I : Storage S → Type 0) (p : Text) (acc : List Text)
    (pages : List (Reply (List Text))) (st : Storage S)
    → I st
    → Ensures I (λ keys _. IsListing pages acc keys) (list_pages p acc pages st)
unfolding list_pages
list_pages-IsListing I p acc [] st i = (i, inr ([], refl, sym (append-nil acc)))
list_pages-IsListing I p acc (success page ∷ pages) st i =
    Ensures-map I I (λ keys _. IsListing pages (acc ++ page) keys)
      (λ keys _. IsListing (success page ∷ pages) acc keys) _ (λ st' j. j)
      (λ keys st' j is. more_pages page pages acc keys is)
      (list_pages-IsListing I p (acc ++ page) pages st i)
list_pages-IsListing I p acc (failure e ∷ pages) st i = elim (Bool-cases (is_not_found e)) [
  | inl yes_ ↦ rw (yes_, list_pages) (i, inl refl)
  | inr no_ ↦ rw (no_, list_pages) i
]

module _ {S : S3} (L : IsLawful S) where
  abbrev pub at : Storage S → Text → Option Bytes
  at st k = L.contents st.s3 k

  listing_present :
      (p : Text) (st : Storage S) (keys : List Text)
      → IsListing (S.list_objects p st.s3).0 [] keys
      → All (λ k. (b : Bytes) × (at st k ≡ some b)) keys
  listing_present p st keys (inl e) = subst (All (λ k. (b : Bytes) × (at st k ≡ some b))) (sym e) tt
  listing_present p st keys (inr (rest, e, is)) =
      subst (All (λ k. (b : Bytes) × (at st k ≡ some b))) (sym is)
        (All_of_In rest (λ k here. L.list-present p st.s3 rest k e here))

  listing_under :
      (p : Text) (st : Storage S) (keys : List Text)
      → IsListing (S.list_objects p st.s3).0 [] keys
      → All (λ k. has_prefix k p ≡ true) keys
  listing_under p st keys (inl e) = subst (All (λ k. has_prefix k p ≡ true)) (sym e) tt
  listing_under p st keys (inr (rest, e, is)) =
      subst (All (λ k. has_prefix k p ≡ true)) (sym is)
        (All_of_In rest (λ k here. L.list-prefix p st.s3 rest k e here))

  -- `Cat` leaves the bucket alone, and what it returns is the object.
  pub cat_lem :
      (k : Text) (st : Storage S)
      → Ensures (λ st'. (j : Text) → at st' j ≡ at st j) (λ b _. at st k ≡ some b) (cat k st)
  unfolding cat
  cat_lem k st = elim (Reply-cases ((S.get_object k st.s3).0)) [
    | inl (b, e) ↦ rw (e, cat) (λ j. L.get-contents k st.s3 j, L.get-success k st.s3 b e)
    | inr (err, e) ↦ rw (e, cat) (λ j. L.get-contents k st.s3 j)
  ]

  -- The same, with the call that it returns the object of.
  pub cat_read :
      (k : Text) (st : Storage S)
      → Ensures
          (λ st'. (j : Text) → at st' j ≡ at st j)
          (λ b _. (S.get_object k st.s3).0 ≡ success b)
          (cat k st)
  unfolding cat
  cat_read k st = elim (Reply-cases ((S.get_object k st.s3).0)) [
    | inl (b, e) ↦ rw (e, cat) (λ j. L.get-contents k st.s3 j, refl)
    | inr (err, e) ↦ rw (e, cat) (λ j. L.get-contents k st.s3 j)
  ]

  -- `PutBytes` leaves every other object alone; if it returns, the object is stored.
  pub put_bytes_lem :
      (k : Text) (b : Bytes) (st : Storage S)
      → Ensures
          (λ st'. (j : Text) → j ≢ k → at st' j ≡ at st j)
          (λ _ st'. (at st' k ≡ some b) × (st'.puts ≡ st.puts + 1))
          (put_bytes k b st)
  unfolding put_bytes
  put_bytes_lem k b st = elim (Reply-cases ((S.put_object k b st.s3).0)) [
    | inl (_, e) ↦
        rw (e, put_bytes)
          (λ j h. L.put-contents_ne k b st.s3 j h, (L.put-success k b st.s3 e, omega arith))
    | inr (err, e) ↦ rw (e, put_bytes) (λ j h. L.put-contents_ne k b st.s3 j h)
  ]

  -- `Delete` leaves every other object alone; if it returns, the object is gone.
  pub delete_lem :
      (k : Text) (st : Storage S)
      → Ensures
          (λ st'. (j : Text) → j ≢ k → at st' j ≡ at st j)
          (λ _ st'. at st' k ≡ none)
          (delete k st)
  unfolding delete
  delete_lem k st = elim (Reply-cases ((S.delete_object k st.s3).0)) [
    | inl (_, e) ↦
        rw (e, delete) (λ j h. L.delete-contents_ne k st.s3 j h, L.delete-success k st.s3 e)
    | inr (err, e) ↦ rw (e, delete) (λ j h. L.delete-contents_ne k st.s3 j h)
  ]

  -- Where no read fails, `Cat` returns the object.
  pub cat_answers :
      IsReliable S L
      → (k : Text) (b : Bytes) (st : Storage S) → at st k ≡ some b
      → cat k st ≡ ok b (record st { s3 = (S.get_object k st.s3).1 })
  unfolding cat
  cat_answers reliable k b st is = rw (reliable.answers k st.s3 b is, cat)

  -- `Stat` leaves the bucket alone, and does not report an object that is not there.
  pub stat_lem :
      (k : Text) (st : Storage S)
      → ((j : Text) → at (stat k st).1 j ≡ at st j)
        × ((stat k st).0 ≡ true → (b : Bytes) × (at st k ≡ some b))
  unfolding stat
  stat_lem k st = elim (Reply-cases ((S.head_object k st.s3).0)) [
    | inl (_, e) ↦ (λ j. L.head-contents k st.s3 j, λ _. L.head-success k st.s3 e)
    | inr (err, e) ↦ (λ j. L.head-contents k st.s3 j, λ t. absurd (true≢false (sym t ∙ rw e)))
  ]

  -- `List` leaves the bucket alone, and what it returns are keys of objects.
  pub list_lem :
      (p : Text) (st : Storage S)
      → Ensures
          (λ st'. (j : Text) → at st' j ≡ at st j)
          (λ keys _. All (λ k. (b : Bytes) × (at st k ≡ some b)) keys)
          (list p st)
  unfolding list
  list_lem p st =
      Ensures-map (λ st'. (j : Text) → at st' j ≡ at st j) (λ st'. (j : Text) → at st' j ≡ at st j)
        (λ keys _. IsListing (S.list_objects p st.s3).0 [] keys)
        (λ keys _. All (λ k. (b : Bytes) × (at st k ≡ some b)) keys) _ (λ st' same. same)
        (λ keys st' same listed. listing_present p st keys listed)
        (list_pages-IsListing (λ st'. (j : Text) → at st' j ≡ at st j) p []
          (S.list_objects p st.s3).0 (record st { s3 = (S.list_objects p st.s3).1 })
          (λ j. L.list-contents p st.s3 j))

  -- The keys that `List` returns are under its prefix.
  pub list_under :
      (p : Text) (st : Storage S)
      → Ensures
          (λ st'. (j : Text) → at st' j ≡ at st j)
          (λ keys _. All (λ k. has_prefix k p ≡ true) keys)
          (list p st)
  unfolding list
  list_under p st =
      Ensures-map (λ st'. (j : Text) → at st' j ≡ at st j) (λ st'. (j : Text) → at st' j ≡ at st j)
        (λ keys _. IsListing (S.list_objects p st.s3).0 [] keys)
        (λ keys _. All (λ k. has_prefix k p ≡ true) keys) _ (λ st' same. same)
        (λ keys st' same listed. listing_under p st keys listed)
        (list_pages-IsListing (λ st'. (j : Text) → at st' j ≡ at st j) p []
          (S.list_objects p st.s3).0 (record st { s3 = (S.list_objects p st.s3).1 })
          (λ j. L.list-contents p st.s3 j))

  -- `ListPieces` leaves the bucket alone.
  pub list_pieces_at :
      (cfg : Config) (st : Storage S)
      → Ensures (λ st'. (j : Text) → at st' j ≡ at st j) (λ _ _. Unit {0}) (list_pieces cfg st)
  unfolding list_pieces list
  list_pieces_at cfg st =
      Ensures-bind (λ st'. (j : Text) → at st' j ≡ at st j) (λ _ _. Unit {0}) (λ _ _. Unit {0}) _
        (λ (keys, st'). ok (leaf_set keys) st')
        (list_pages_at (λ st'. (j : Text) → at st' j ≡ at st j) (prefix_pieces cfg) []
          (S.list_objects (prefix_pieces cfg) st.s3).0
          (record st { s3 = (S.list_objects (prefix_pieces cfg) st.s3).1 })
          (λ j. L.list-contents (prefix_pieces cfg) st.s3 j))
        (λ _ _ i _. (i, tt))
