-- ===== src/Storage.antt =====
-- storage.go: the S3 client's calls, with what the source does about their errors.
pub mod Client
pub mod Laws
use samogon.Base.{
  Text, bytes, Bytes, ◌==◌, Map, lookup, insert, ℕ, suc, Bool, true, false, ◌||◌, List, [], ◌∷◌,
  ◌++◌, if◌then◌else◌, Option, none, some, ◌⊎◌, inl, inr,
}
use samogon.Config.{Config, prefix_pieces}
use samogon.Strings.{base}
use samogon.Throw.{Run, ok, thrown, crashed, ◌>>=◌, Exception, s3_put, s3_delete, s3_get, s3_list}
use samogon.Storage.Client.{
  S3, Reply, success, failure, ApiError, no_such_key, no_such_bucket, not_found, api_error, other,
}

-- The code of an error as `smithy.APIError` gives it.
abbrev not_found_code : Text → Bool
not_found_code c =
    c == bytes "NoSuchBucket"
    || (c == bytes "NoSuchKey" || (c == bytes "NotFound" || c == bytes "404"))

unfoldable pub is_not_found : ApiError → Bool
is_not_found no_such_key = true
is_not_found no_such_bucket = true
is_not_found not_found = true
is_not_found (api_error code) = not_found_code code
is_not_found other = false

-- The bucket as the client sees it, and the counter `Puts`.
pub record Storage (S : S3) : Type 0 where
  pub s3 : S.State
  pub puts : ℕ

-- What `ListStream` sends before it closes the channel, and whether its goroutine panics there:
-- no `Try` stands round that goroutine.
unfoldable pub stream_pages : List (Reply (List Text)) → List Text × Bool
unfolding is_not_found
stream_pages [] = ([], false)
stream_pages (success page ∷ pages) =
    let (keys, panics) = stream_pages pages in (page ++ keys, panics)
stream_pages (failure e ∷ pages) = if is_not_found e then ([], false) else ([], true)

-- `out[path.Base(k)] = true` for every key.
unfoldable pub leaf_set : List Text → Map Bool
leaf_set [] = []
leaf_set (k ∷ ks) = insert (base k) true (leaf_set ks)

module _ {S : S3} where
  unfoldable pub stat : Text → Storage S → Bool × Storage S
  stat key st =
      let (r, s') = S.head_object key st.s3 in
      (elim r [ success _ ↦ true | failure _ ↦ false ], record st { s3 = s' })

  unfoldable pub put_bytes : Text → Bytes → Storage S → Run (Storage S) (Unit {0})
  put_bytes key body st =
      let (r, s') = S.put_object key body st.s3 in
      elim r [
        | success _ ↦ ok tt (record { s3 = s'; puts = suc st.puts })
        | failure _ ↦ thrown (s3_put key) (record st { s3 = s' })
      ]

  -- `PutFile`, for what `os.Open` and `Stat` of the file give: an error, or the bytes.
  unfoldable pub put_file : Text → Exception ⊎ Bytes → Storage S → Run (Storage S) (Unit {0})
  put_file key (inl e) st = thrown e st
  put_file key (inr body) st =
      let (r, s') = S.put_object key body st.s3 in
      elim r [
        | success _ ↦ ok tt (record { s3 = s'; puts = suc st.puts })
        | failure _ ↦ thrown (s3_put key) (record st { s3 = s' })
      ]

  unfoldable pub delete : Text → Storage S → Run (Storage S) (Unit {0})
  delete key st =
      let (r, s') = S.delete_object key st.s3 in
      elim r [
        | success _ ↦ ok tt (record st { s3 = s' })
        | failure _ ↦ thrown (s3_delete key) (record st { s3 = s' })
      ]

  unfoldable pub cat : Text → Storage S → Run (Storage S) Bytes
  cat key st =
      let (r, s') = S.get_object key st.s3 in
      elim r [
        | success body ↦ ok body (record st { s3 = s' })
        | failure _ ↦ thrown (s3_get key) (record st { s3 = s' })
      ]

  -- The loop over the pages: each reply of the paginator in turn.
  unfoldable pub list_pages :
      Text → List Text → List (Reply (List Text)) → Storage S → Run (Storage S) (List Text)
  unfolding is_not_found
  list_pages prefix keys [] st = ok keys st
  list_pages prefix keys (success page ∷ pages) st = list_pages prefix (keys ++ page) pages st
  list_pages prefix keys (failure e ∷ pages) st =
      if is_not_found e then ok [] st else thrown (s3_list prefix) st

  unfoldable pub list : Text → Storage S → Run (Storage S) (List Text)
  unfolding list_pages
  list prefix st =
      let (pages, s') = S.list_objects prefix st.s3 in
      list_pages prefix [] pages (record st { s3 = s' })

  unfoldable pub list_stream : Text → Storage S → (List Text × Bool) × Storage S
  unfolding stream_pages
  list_stream prefix st =
      let (pages, s') = S.list_objects prefix st.s3 in (stream_pages pages, record st { s3 = s' })

  unfoldable pub list_pieces : Config → Storage S → Run (Storage S) (Map Bool)
  unfolding list leaf_set
  list_pieces cfg st = do (keys, st') ← list (prefix_pieces cfg) st; ok (leaf_set keys) st'
