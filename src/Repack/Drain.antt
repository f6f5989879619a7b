-- ===== src/Repack/Drain.antt =====
-- The goroutines of `runRepack`: their steps keep what the loop relies on, in any order, and the wait
-- ends with none left.
use mathlib.Core.Option.{none-ne-some}
use samogon.Base.{
  Text, Bytes, ℕ, zero, suc, ◌<◌, ◌≤◌, ◌≡◌, sym, ◌∙◌, inl, inr, Bool-cases, Option-cases, List, [],
  ◌∷◌, length, get_elem?, get_elem?_of_lt, Option, none, arith, eqb,
}
use samogon.Config.{Config}
use samogon.Repack.Pack.{Markers, Packed}
use samogon.Repack.Upload.{
  Pack, Pick, check, store, due, steps_left, step_upload, run_uploads, wait_uploads,
}
use samogon.Storage.Client.{S3, IsLawful}
use samogon.Throw.{Ensures, Ensures-bind, Ensures-map}
use samogon.Repack.Steps.{Stepped, upload_check_lem, upload_store_lem}

-- A goroutine stands at the picked place.
abbrev Ready : {S : S3} → Pick → Pack S → Type 0
Ready (check i) p = i < length p.pending
Ready (store i) p = i < length p.missing

due-Ready : {S : S3} (pick : Pick) (p : Pack S) → 0 < steps_left p → Ready (due pick p) p
unfolding due steps_left
due-Ready (check i) p some_left = ground arith
due-Ready (store i) p some_left = ground arith

out_of_range : {A : Type 0} (xs : List A) (i : ℕ) → get_elem? xs i ≡ none → i < length xs → ⊥
out_of_range xs i out inside =
    let (a, e) = get_elem?_of_lt xs i inside in none-ne-some a (sym out ∙ e)

module _ {S : S3} (L : IsLawful S) (sha1 : Bytes → Bytes) (cfg : Config) (cap : ℕ) (hs : List Text)
    (bs : List Bytes) (content : Text → Bytes) (start : Text → Option Bytes) (chunks : List Bytes)
    (got : Bytes) where
  abbrev Between : Pack S → Type 0
  Between = Packed L sha1 cfg cap hs bs content start chunks got

  abbrev Kept : Pack S → Type 0
  Kept = Markers L sha1 cfg cap hs bs content start

  step_upload_lem :
      (pick : Pick) (p : Pack S)
      → Between p
      → Ensures Kept
          (λ _ p'. Between p' × (Ready pick p → steps_left p' < steps_left p))
          (step_upload sha1 cfg pick p)
  unfolding step_upload
  step_upload_lem (check i) p k = elim (Option-cases (get_elem? p.pending i)) [
    | inl out ↦
        rw (out, step_upload) (k.markers, (k, λ ready. absurd (out_of_range p.pending i out ready)))
    | inr (chunk, e) ↦
        let (k', less) =
          upload_check_lem L sha1 cfg cap hs bs content start chunks got i chunk p e k in
        rw (e, step_upload) (k'.markers, (k', λ _. less))
  ]
  step_upload_lem (store i) p k = elim (Option-cases (get_elem? p.missing i)) [
    | inl out ↦
        rw (out, step_upload) (k.markers, (k, λ ready. absurd (out_of_range p.missing i out ready)))
    | inr (chunk, e) ↦
        rw (e, step_upload)
          (Ensures-map Kept Kept
            (λ _ p'. Stepped L sha1 cfg cap hs bs content start chunks got p p')
            (λ _ p'. Between p' × (Ready (store i) p → steps_left p' < steps_left p)) _
            (λ p' i'. i') (λ _ p' i' (k', less). (k', λ _. less))
            (upload_store_lem L sha1 cfg cap hs bs content start chunks got i chunk p e k))
  ]

  pub run_uploads_lem :
      (picks : List Pick) (p : Pack S)
      → Between p
      → Ensures Kept (λ _ p'. Between p') (run_uploads sha1 cfg picks p)
  unfolding run_uploads
  run_uploads_lem [] p k = (k.markers, k)
  run_uploads_lem (pick ∷ picks) p k =
      Ensures-bind Kept (λ _ p'. Between p' × (Ready pick p → steps_left p' < steps_left p))
        (λ _ p'. Between p') _ _ (step_upload_lem pick p k)
        (λ _ p' i (k', _). run_uploads_lem picks p' k')

  -- The wait ends with no goroutine left, in whatever order they go on.
  pub wait_uploads_lem :
      (rounds : ℕ) (picks : ℕ → Pick) (p : Pack S)
      → Between p
      → steps_left p ≤ rounds
      → Ensures Kept
          (λ _ p'. Between p' × (steps_left p' ≡ 0))
          (wait_uploads sha1 cfg rounds picks p)
  unfolding wait_uploads
  wait_uploads_lem zero picks p k enough = (k.markers, (k, omega (arith, enough)))
  wait_uploads_lem (suc rounds) picks p k enough = elim (Bool-cases (eqb (steps_left p) 0)) [
    | inl over ↦ rw (over, wait_uploads) (k.markers, (k, ground arith))
    | inr more ↦
        rw (more, wait_uploads)
          (Ensures-bind Kept
            (λ _ p'. Between p' × (Ready (due (picks rounds) p) p → steps_left p' < steps_left p))
            (λ _ p'. Between p' × (steps_left p' ≡ 0)) _ _
            (step_upload_lem (due (picks rounds) p) p k)
            (λ _ p' i (k', less).
              wait_uploads_lem rounds picks p' k'
                (omega (arith, enough, less (due-Ready (picks rounds) p (ground arith))))))
  ]
