-- ===== src/Serve/Keys.antt =====
-- The reading of the authorized_keys file in serve.go ends.
use mathlib.Core.Bool.{true≢false}
use mathlib.Core.List.{append-nil, append_assoc}
use mathlib.Core.Option.{some-injective, none-ne-some}
use mathlib.Core.Path.{subst}
use samogon.Base.{
  eq_refl, eq_true, Bytes, ◌==◌, ℕ, zero, suc, ◌≤◌, ◌<◌, ◌≡◌, refl, sym, ap, ◌∙◌, Bool-cases,
  Option-cases, List, [], ◌∷◌, ◌++◌, length, Option, none, some, inl, inr, false, ◌⊎◌, arith,
}
use samogon.Serve.{key_loop}

module _ (trim_space : Bytes → Bytes) (parse_key : Bytes → Option (Bytes × Bytes)) where
  -- A file of lines each of which parses into a key, up to what is blank.
  pub data IsKeyFile : Bytes → List Bytes → Type 0 where
    at_end : {rest : Bytes} → trim_space rest ≡ [] → IsKeyFile rest []
    line :
        {rest key next : Bytes} {keys : List Bytes}
        → (trim_space rest == []) ≡ false
        → parse_key rest ≡ some (key, next)
        → IsKeyFile next keys
        → IsKeyFile rest (key ∷ keys)

module _ (read_file : samogon.Base.Text → Option Bytes) (parse_private : Bytes → Option Bytes)
    (trim_space : Bytes → Bytes) (parse_key : Bytes → Option (Bytes × Bytes))
    (blank : trim_space [] ≡ [])
    (shorter : (rest key next : Bytes)
      → parse_key rest ≡ some (key, next)
      → length next < length rest) where
  head_key :
      (rest key next : Bytes) (keys : List Bytes)
      → (trim_space rest == []) ≡ false
      → parse_key rest ≡ some (key, next)
      → IsKeyFile trim_space parse_key rest keys
      → (more : List Bytes) × IsKeyFile trim_space parse_key next more
  head_key rest key next keys some_ parsed (at_end e) =
      absurd (true≢false (sym (eq_refl []) ∙ (ap (λ (t : Bytes). t == []) (sym e) ∙ some_)))
  head_key rest key next keys some_ parsed (line {next = n} {keys = more} _ other file) =
      (more, subst (λ (x : Bytes). IsKeyFile trim_space parse_key x more) (same n other) file)
    where
      same : {k : Bytes} (n : Bytes) → parse_key rest ≡ some (k, n) → n ≡ next
      same {k = k} n e =
          ap (λ (w : Bytes × Bytes). w.1) (some-injective (k, n) (key, next) (sym e ∙ parsed))

  no_key :
      (rest : Bytes) (keys : List Bytes)
      → (trim_space rest == []) ≡ false
      → parse_key rest ≡ none
      → ¬ IsKeyFile trim_space parse_key rest keys
  no_key rest keys some_ bad (at_end e) =
      true≢false (sym (eq_refl []) ∙ (ap (λ (t : Bytes). t == []) (sym e) ∙ some_))
  no_key rest keys some_ bad (line {key = k} {next = n} _ other _) =
      none-ne-some (k, n) (sym bad ∙ other)

  -- As many rounds as the file has bytes are enough: the loop returns the keys behind those it had if the
  -- file is one of keys, and fails if it is not.
  pub key_loop-IsKeyFile :
      (n : ℕ) (rest : Bytes) (out : List Bytes)
      → length rest ≤ n
      → ((keys : List Bytes) × IsKeyFile trim_space parse_key rest keys
          × (key_loop read_file trim_space parse_key parse_private n rest out ≡ some (out ++ keys)))
        ⊎ ((key_loop read_file trim_space parse_key parse_private n rest out ≡ none)
            × ((keys : List Bytes) → ¬ IsKeyFile trim_space parse_key rest keys))
  unfolding key_loop
  key_loop-IsKeyFile zero [] out le = inl (
    [],
    at_end blank,
    rw (ap (λ (t : Bytes). t == []) blank ∙ eq_refl [], key_loop) (ap some (sym (append-nil out))),
  )
  key_loop-IsKeyFile zero (b ∷ rest) out le = absurd (omega arith)
  key_loop-IsKeyFile (suc n) rest out le = elim (Bool-cases (trim_space rest == [])) [
    | inl done ↦ inl (
      [],
      at_end (eq_true (trim_space rest) [] done),
      rw (done, key_loop) (ap some (sym (append-nil out))),
    )
    | inr more ↦ elim (Option-cases (parse_key rest)) [
      | inl bad ↦ inr (rw (more, bad, key_loop), λ keys file. no_key rest keys more bad file)
      | inr ((key, next), parsed) ↦
          elim (key_loop-IsKeyFile n next (out ++ (key ∷ []))
            (omega (arith, shorter rest key next parsed))) [
              | inl (keys, file, run) ↦ inl (
                key ∷ keys,
                line more parsed file,
                rw (more, parsed, key_loop) (run ∙ ap some (append_assoc out (key ∷ []) keys)),
              )
              | inr (fails, no_file) ↦ inr (
                rw (more, parsed, key_loop) fails,
                λ keys file.
                    let (l, f) = head_key rest key next keys more parsed file in no_file l f,
              )
            ]
    ]
  ]
