-- ===== src/Tests/Bucket.antt =====
-- A service that keeps its objects in a map and never fails, for the examples.
use mathlib.Core.Bool.{true≢false}
use mathlib.Core.Option.{some-injective, none-ne-some}
use mathlib.Core.Path.{subst}
use samogon.Base.{
  In, Text, Bytes, ◌==◌, Map, lookup, insert, erase, lookup-insert, lookup-erase, eq_refl, eq_ne,
  ◌≡◌, refl, sym, ap, ◌∙◌, Bool-cases, true, List, [], ◌∷◌, ◌++◌, if◌then◌else◌, Option, none, some,
  inl, inr, arith,
}
use samogon.Storage.Client.{
  S3, Reply, ApiError, success, failure, no_such_key, not_found, IsLawful, IsReliable,
}
use samogon.Strings.{has_prefix}

-- The keys under a prefix.
unfoldable pub matching : Text → Map Bytes → List Text
matching p [] = []
matching p ((k, _) ∷ m) = let rest = matching p m in if has_prefix k p then k ∷ rest else rest

abbrev pub found : {A : Type 0} → Option A → ApiError → Reply A
found none e = failure e
found (some a) e = success a

abbrev pub present : Option Bytes → Reply (Unit {0})
present none = failure not_found
present (some _) = success tt

abbrev pub memory : S3
memory = record {
  State = Map Bytes;
  head_object = λ k m. (present (lookup k m), m);
  put_object = λ k b m. (success tt, insert k b m);
  get_object = λ k m. (found (lookup k m) no_such_key, m);
  delete_object = λ k m. (success tt, erase k m);
  list_objects = λ p m. (success (matching p m) ∷ [], m);
}

pub append_nil : (l : List Text) → l ++ [] ≡ l
append_nil [] = refl
append_nil (x ∷ l) = ap (◌∷◌ x) (append_nil l)

pub matching_present :
    (p : Text) (m : Map Bytes) (k : Text)
    → In k (matching p m)
    → (b : Bytes) × (lookup k m ≡ some b)
unfolding matching lookup
matching_present p [] k i = absurd i
matching_present p ((j, v) ∷ m) k i = elim (Bool-cases (k == j)) [
  | inl here ↦ (v, rw here)
  | inr there ↦ elim (Bool-cases (has_prefix j p)) [
    | inl yes_ ↦ elim (rw (yes_, matching) at i) [
      | inl same ↦
          absurd (true≢false (sym (eq_refl j) ∙ (ap (λ (x : Text). x == j) (sym same) ∙ there)))
      | inr later ↦ rw there (matching_present p m k later)
    ]
    | inr no_ ↦ rw there (matching_present p m k (rw (no_, matching) at i))
  ]
]

pub matching_complete :
    (p : Text) (m : Map Bytes) (k : Text) (b : Bytes)
    → has_prefix k p ≡ true
    → lookup k m ≡ some b
    → In k (matching p m)
unfolding matching lookup
matching_complete p [] k b under is = absurd (none-ne-some b is)
matching_complete p ((j, v) ∷ m) k b under is = elim (Bool-cases (k == j)) [
  | inl here ↦
      let e : k ≡ j = ground arith in
      let under' : has_prefix j p ≡ true = subst (λ (i : Text). has_prefix i p ≡ true) e under in
      rw (under', matching) (inl e)
  | inr there ↦
      let rest = matching_complete p m k b under (rw there at is) in
      elim (Bool-cases (has_prefix j p)) [
        | inl yes_ ↦ rw (yes_, matching) (inr rest)
        | inr no_ ↦ rw (no_, matching) rest
      ]
]

pub matching-prefix :
    (p : Text) (m : Map Bytes) (k : Text) → In k (matching p m) → has_prefix k p ≡ true
unfolding matching
matching-prefix p [] k i = absurd i
matching-prefix p ((j, v) ∷ m) k i = elim (Bool-cases (has_prefix j p)) [
  | inl yes_ ↦ elim (rw (yes_, matching) at i) [
    | inl e ↦ subst (λ (l : Text). has_prefix l p ≡ true) (sym e) yes_
    | inr rest ↦ matching-prefix p m k rest
  ]
  | inr no_ ↦ matching-prefix p m k (rw (no_, matching) at i)
]

pub head_found : (o : Option Bytes) → present o ≡ success tt → (b : Bytes) × (o ≡ some b)
head_found none e = cc
head_found (some b) e = (b, refl)

pub get_found : (o : Option Bytes) (b : Bytes) → found o no_such_key ≡ success b → o ≡ some b
get_found none b e = cc
get_found (some c) b e = cc

abbrev pub memory-IsLawful : IsLawful memory
memory-IsLawful = record {
  contents = λ m k. lookup k m;
  head-success = λ k m e. head_found (lookup k m) e;
  head-contents = λ k m j. refl;
  get-success = λ k m b e. get_found (lookup k m) b e;
  get-contents = λ k m j. refl;
  put-success = λ k b m e. rw (lookup-insert k k b m, eq_refl k);
  put-contents_ne = λ k b m j ne. rw (lookup-insert j k b m, eq_ne j k ne);
  delete-success = λ k m e. rw (lookup-erase k k m, eq_refl k);
  delete-contents_ne = λ k m j ne. rw (lookup-erase j k m, eq_ne j k ne);
  list-contents = λ p m j. refl;
  list-complete = λ p m keys k b e under is.
      subst (λ (l : List Text). In k l) (sym (append_nil (matching p m)) ∙ some-injective _ keys e)
        (matching_complete p m k b under is);
  list-present = λ p m keys k e i. matching_present p m k (
      subst (λ (l : List Text). In k l) (sym (some-injective _ keys e) ∙ append_nil (matching p m))
        i);
  list-prefix = λ p m keys k e i. matching-prefix p m k (
      subst (λ (l : List Text). In k l) (sym (some-injective _ keys e) ∙ append_nil (matching p m))
        i);
}

abbrev pub memory-IsReliable : IsReliable memory memory-IsLawful
memory-IsReliable = record {
  answers = λ k m b e. ap (λ (o : Option Bytes). found o no_such_key) e;
  lists = λ p m. (matching p m ++ [], refl);
}
