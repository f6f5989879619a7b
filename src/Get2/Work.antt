-- ===== src/Get2/Work.antt =====
-- The workers of get2.go: each hash that they take is fetched and counted once.
use mathlib.Core.List.{Perm, perm_middle, append-nil}
use mathlib.Core.List.Perm
use mathlib.Core.Option.{some-injective, none-ne-some}
use mathlib.Core.Path.{subst}
use samogon.Base.{
  Option-cases, Text, Bytes, ℕ, zero, suc, ◌+◌, ◌++◌, ◌≡◌, refl, sym, ◌∙◌, List, [], ◌∷◌, length,
  get_elem?, drop_at, Option, some, inl, inr,
}
use samogon.Config.{Config, key_piece}
use samogon.Get2.{Counters, get2_fetch, get2_one, get2_at, get2_steps, get2_finish, work}
use samogon.Storage.{Storage}
use samogon.Storage.Client.{S3, ApiError, IsLawful, failure}
use samogon.Storage.Laws.{at, Reply-cases}

drop_at-Perm :
    (i : ℕ) (h : Text) (l : List Text) → get_elem? l i ≡ some h → Perm (h ∷ drop_at i l) l
drop_at-Perm i h [] e = absurd (none-ne-some h e)
drop_at-Perm zero h (x ∷ l) e =
    subst (λ (y : Text). Perm (y ∷ l) (x ∷ l)) (some-injective x h e) (Perm.refl (x ∷ l))
drop_at-Perm (suc i) h (x ∷ l) e =
    Perm.trans (Perm.swap x h (drop_at i l)) (Perm.cons x (drop_at-Perm i h l e))

module _ {S : S3} (L : IsLawful S) (cfg : Config) (bucket : Text → Option Bytes) where
  -- The counters of operations, bytes and errors that the fetches of these hashes make: a piece was
  -- read to its end, or the service failed for its key while the bucket was the same.
  pub data Tally : List Text → ℕ → ℕ → ℕ → Type 0 where
    nothing : Tally [] 0 0 0
    fetched :
        {hs : List Text} {ops n errs : ℕ} (h : Text) (body : Bytes)
        → bucket (key_piece cfg h) ≡ some body
        → Tally hs ops n errs
        → Tally (h ∷ hs) (suc ops) (n + length body) errs
    failed :
        {hs : List Text} {ops n errs : ℕ} (h : Text) (s : S.State) (e : ApiError)
        → ((j : Text) → L.contents s j ≡ bucket j)
        → (S.get_object (key_piece cfg h) s).0 ≡ failure e
        → Tally hs ops n errs
        → Tally (h ∷ hs) ops n (suc errs)

  -- Of the hashes `all` those but `rest` were fetched and counted.
  abbrev pub Counts : List Text → List Text → Counters → Type 0
  Counts all rest c =
      (done : List Text) × Tally done c.ops c.bytes_fetched c.errs × Perm (done ++ rest) all

  Counts-Perm :
      (all : List Text) {rest rest' : List Text} (c : Counters)
      → Perm rest' rest
      → Counts all rest c
      → Counts all rest' c
  Counts-Perm all c moved (done, tally, perm) =
      (done, tally, Perm.trans (Perm.append_left done moved) perm)

  abbrev pub Same : Storage S → Type 0
  Same st = (j : Text) → at L st j ≡ bucket j

  get2_one_lem :
      (h : Text) (rest all : List Text) (c : Counters) (st : Storage S)
      → Counts all (h ∷ rest) c
      → Same st
      → (Counts all rest (get2_one cfg h c st).0 × ((get2_one cfg h c st).0.fetching ≡ c.fetching))
        × Same (get2_one cfg h c st).1
  unfolding get2_one get2_fetch
  get2_one_lem h rest all c st (done, tally, perm) same =
      let perm' = Perm.trans (Perm.symm (perm_middle done rest)) perm in
      let same' = λ (j : Text). L.get-contents (key_piece cfg h) st.s3 j ∙ same j in
      elim (Reply-cases (S.get_object (key_piece cfg h) st.s3).0) [
        | inl (b, e) ↦
            let there = sym (same (key_piece cfg h)) ∙ L.get-success (key_piece cfg h) st.s3 b e in
            rw (e, get2_one, get2_fetch) (((h ∷ done, fetched h b there tally, perm'), refl), same')
        | inr (err, e) ↦
            rw (e, get2_one, get2_fetch)
              (((h ∷ done, failed h st.s3 err same e tally, perm'), refl), same')
      ]

  -- The others are with the workers, or in the queue.
  abbrev pub Shared : List Text → List Text → Counters → Type 0
  Shared all queue c = Counts all (c.fetching ++ queue) c

  get2_at-Shared :
      (i : ℕ) (all queue : List Text) (c : Counters) (st : Storage S)
      → Shared all queue c
      → Same st
      → Shared all queue (get2_at cfg i c st).0 × Same (get2_at cfg i c st).1
  unfolding get2_at
  get2_at-Shared i all queue c st shared same = elim (Option-cases (get_elem? c.fetching i)) [
    | inl out ↦ rw (out, get2_at) (shared, same)
    | inr (h, e) ↦
        let c' = record c { fetching = drop_at i c.fetching } in
        let ((counts, kept), same') =
          get2_one_lem h (drop_at i c.fetching ++ queue) all c' st
            (Counts-Perm all c (Perm.append_right queue (drop_at-Perm i h c.fetching e)) shared)
            same in
        rw (e, get2_at)
          (
            subst (λ (l : List Text). Counts all (l ++ queue) (get2_one cfg h c' st).0) (sym kept)
                counts,
            same',
          )
  ]

  get2_steps-Shared :
      (is : List ℕ) (all queue : List Text) (c : Counters) (st : Storage S)
      → Shared all queue c
      → Same st
      → Shared all queue (get2_steps cfg is c st).0 × Same (get2_steps cfg is c st).1
  unfolding get2_steps
  get2_steps-Shared [] all queue c st shared same = (shared, same)
  get2_steps-Shared (i ∷ is) all queue c st shared same =
      let (shared', same') = get2_at-Shared i all queue c st shared same in
      get2_steps-Shared is all queue _ _ shared' same'

  get2_finish-Counts :
      (hs all : List Text) (c : Counters) (st : Storage S)
      → Counts all hs c
      → Same st
      → Counts all [] (get2_finish cfg hs c st).0 × Same (get2_finish cfg hs c st).1
  unfolding get2_finish
  get2_finish-Counts [] all c st counts same = (counts, same)
  get2_finish-Counts (h ∷ hs) all c st counts same =
      let ((counts', _), same') = get2_one_lem h hs all c st counts same in
      get2_finish-Counts hs all _ _ counts' same'

  pub work-Counts :
      (orders : ℕ → List ℕ) (hs all : List Text) (c : Counters) (st : Storage S)
      → Shared all hs c
      → Same st
      → Counts all [] (work cfg orders hs c st).0 × Same (work cfg orders hs c st).1
  unfolding work
  work-Counts orders [] all c st shared same =
      let (shared', same') = get2_steps-Shared (orders 0) all [] c st shared same in
      let c' = (get2_steps cfg (orders 0) c st).0 in
      get2_finish-Counts c'.fetching all (record c' { fetching = [] })
        (get2_steps cfg (orders 0) c st).1
        (subst (λ (l : List Text). Counts all l c') (append-nil c'.fetching) shared') same'
  work-Counts orders (h ∷ hs) all c st shared same =
      let run = get2_steps cfg (orders (suc (length hs))) c st in
      let (shared', same') =
        get2_steps-Shared (orders (suc (length hs))) all (h ∷ hs) c st shared same in
      work-Counts orders hs all (record run.0 { fetching = h ∷ run.0.fetching }) run.1
        (Counts-Perm all run.0 (Perm.symm (perm_middle run.0.fetching hs)) shared') same'
