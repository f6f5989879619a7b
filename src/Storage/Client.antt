-- ===== src/Storage/Client.antt =====
-- The S3 service and its client, which storage.go calls and does not implement: what the calls
-- answer, and the documented behaviour that the theorems rely on.
use samogon.Base.{In, Text, Bytes, ◌≡◌, ◌≢◌, true, List, ◌∷◌, [], ◌++◌, Option, none, some}
use samogon.Strings.{has_prefix}

-- The errors that `isNotFound` tells apart.
pub data ApiError : Type 0 where
  no_such_key no_such_bucket not_found : ApiError
  api_error : Text → ApiError
  other : ApiError

pub data Reply (A : Type 0) : Type 0 where
  success : A → Reply A
  failure : ApiError → Reply A

-- A call may change the state also where it only reads: the state holds what the network does.
pub record S3 : Type 1 where
  pub State : Type 0
  pub head_object : Text → State → Reply (Unit {0}) × State
  pub put_object : Text → Bytes → State → Reply (Unit {0}) × State
  pub get_object : Text → State → Reply Bytes × State
  pub delete_object : Text → State → Reply (Unit {0}) × State
  -- The replies to the pages of one listing, up to the last page or the first error.
  pub list_objects : Text → State → List (Reply (List Text)) × State

-- The keys of a listing of which no page failed.
abbrev pub keys_of : List (Reply (List Text)) → Option (List Text)
keys_of [] = some []
keys_of (success page ∷ pages) = elim (keys_of pages) [
  | none ↦ none
  | some keys ↦ some (page ++ keys)
]
keys_of (failure e ∷ pages) = none

-- The service keeps objects by key. A call that succeeds has its effect, and no call touches an
-- object of another key.
pub record IsLawful (S : S3) : Type 0 where
  pub contents : S.State → Text → Option Bytes
  pub head-success :
      (k : Text) (s : S.State)
      → (S.head_object k s).0 ≡ success tt
      → (b : Bytes) × (contents s k ≡ some b)
  pub head-contents :
      (k : Text) (s : S.State) (j : Text) → contents (S.head_object k s).1 j ≡ contents s j
  pub get-success :
      (k : Text) (s : S.State) (b : Bytes)
      → (S.get_object k s).0 ≡ success b
      → contents s k ≡ some b
  pub get-contents :
      (k : Text) (s : S.State) (j : Text) → contents (S.get_object k s).1 j ≡ contents s j
  pub put-success :
      (k : Text) (b : Bytes) (s : S.State)
      → (S.put_object k b s).0 ≡ success tt
      → contents (S.put_object k b s).1 k ≡ some b
  pub put-contents_ne :
      (k : Text) (b : Bytes) (s : S.State) (j : Text)
      → j ≢ k
      → contents (S.put_object k b s).1 j ≡ contents s j
  pub delete-success :
      (k : Text) (s : S.State)
      → (S.delete_object k s).0 ≡ success tt
      → contents (S.delete_object k s).1 k ≡ none
  pub delete-contents_ne :
      (k : Text) (s : S.State) (j : Text)
      → j ≢ k
      → contents (S.delete_object k s).1 j ≡ contents s j
  pub list-contents :
      (p : Text) (s : S.State) (j : Text) → contents (S.list_objects p s).1 j ≡ contents s j
  -- A listing that succeeds has every object under its prefix,
  pub list-complete :
      (p : Text) (s : S.State) (keys : List Text) (k : Text) (b : Bytes)
      → keys_of (S.list_objects p s).0 ≡ some keys
      → has_prefix k p ≡ true
      → contents s k ≡ some b
      → In k keys
  -- and no other.
  pub list-present :
      (p : Text) (s : S.State) (keys : List Text) (k : Text)
      → keys_of (S.list_objects p s).0 ≡ some keys
      → In k keys
      → (b : Bytes) × (contents s k ≡ some b)
  pub list-prefix :
      (p : Text) (s : S.State) (keys : List Text) (k : Text)
      → keys_of (S.list_objects p s).0 ≡ some keys
      → In k keys
      → has_prefix k p ≡ true

-- No read fails: the service answers every `GetObject` of an object that it keeps, and every listing.
pub record IsReliable (S : S3) (L : IsLawful S) : Type 0 where
  pub answers :
      (k : Text) (s : S.State) (b : Bytes)
      → L.contents s k ≡ some b
      → (S.get_object k s).0 ≡ success b
  pub lists :
      (p : Text) (s : S.State) → (keys : List Text) × (keys_of (S.list_objects p s).0 ≡ some keys)
