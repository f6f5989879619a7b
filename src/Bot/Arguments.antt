-- ===== src/Bot/Arguments.antt =====
-- The arguments of gorn that bot.go builds.
use mathlib.Core.List.{head-eq_of_cons-eq, tail-eq_of_cons-eq, cons≢nil}
use samogon.Base.{
  All, Text, bytes, ◌==◌, ◌≡◌, ◌≢◌, refl, Bool-cases, List, [], ◌∷◌, ◌++◌, inl, inr, arith,
}
use samogon.Bot.{Document, env_args, env_keys, ignite_args, Telegram}

abbrev pub dashes : Text
dashes = bytes "--"

-- The arguments of a command that runs `samogon fetch` and nothing else: only that follows the first "--".
pub record IsFetch (args : List Text) : Type 0 where
  pub options : List Text
  pub split : args ≡ options ++ (dashes ∷ (bytes "samogon" ∷ (bytes "fetch" ∷ [])))
  pub apart : All (λ a. a ≢ dashes) options

module _ (telegram : Telegram) where
  env_args-apart :
      (keys : List Text)
      → All (λ k. (v : Text) → k ++ (b'=' ∷ v) ≢ dashes) keys
      → All (λ a. a ≢ dashes) (env_args telegram.getenv keys)
  unfolding env_args
  env_args-apart [] on = tt
  env_args-apart (k ∷ keys) (here, on) = elim (Bool-cases (telegram.getenv k == [])) [
    | inl unset ↦ rw (unset, env_args) (env_args-apart keys on)
    | inr given ↦
        rw (given, env_args)
          (
            λ e. cons≢nil (tail-eq_of_cons-eq (tail-eq_of_cons-eq e)),
            (here (telegram.getenv k), env_args-apart keys on),
          )
  ]

  pub ignite_args-IsFetch : (doc : Document) → IsFetch (ignite_args telegram.getenv doc)
  unfolding ignite_args
  ignite_args-IsFetch doc = record {
    options =
        bytes "ignite"
        ∷ (bytes "--root"
            ∷ (bytes "samogon"
                ∷ (bytes "--descr"
                    ∷ ((bytes "samogon fetch " ++ doc.file_name)
                        ∷ (bytes "--retry-error" ∷ env_args telegram.getenv env_keys)))));
    split = refl;
    apart = (
      λ e. omega (arith, head-eq_of_cons-eq e),
      (
        λ e. cons≢nil (tail-eq_of_cons-eq (tail-eq_of_cons-eq e)),
        (
          λ e. omega (arith, head-eq_of_cons-eq e),
          (
            λ e. cons≢nil (tail-eq_of_cons-eq (tail-eq_of_cons-eq e)),
            (
              λ e. omega (arith, head-eq_of_cons-eq e),
              (
                λ e. cons≢nil (tail-eq_of_cons-eq (tail-eq_of_cons-eq e)),
                env_args-apart env_keys (
                  λ v e. omega (arith, head-eq_of_cons-eq e),
                  (
                    λ v e. omega (arith, head-eq_of_cons-eq e),
                    (
                      λ v e. omega (arith, head-eq_of_cons-eq e),
                      (
                        λ v e. omega (arith, head-eq_of_cons-eq e),
                        (λ v e. omega (arith, head-eq_of_cons-eq e), tt),
                      ),
                    ),
                  ),
                ),
              ),
            ),
          ),
        ),
      ),
    );
  }
