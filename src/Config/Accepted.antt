-- ===== src/Config/Accepted.antt =====
-- What is known of a configuration that the commands accept.
use mathlib.Core.Option.{none-ne-some}
use mathlib.Core.Sum.{inr-injective, inl-ne-inr}
use mathlib.Core.Bool.{true≢false}
use mathlib.Core.Path.{subst}
use samogon.Base.{
  Text, bytes, ◌==◌, eq_refl, ◌≡◌, ◌≢◌, sym, ap, ◌∙◌, true, false, List, [], ◌∷◌, Option, none,
  some, ◌⊎◌, inl, inr, Bool-cases, Option-cases, eq_true,
}
use samogon.Config.{Config, validate}
use samogon.Config.Args.{checked, no_args, one_arg, Parse, serve_checks, parse_serve_args}
use samogon.Strings.{contains}
use samogon.Throw.{Exception}

-- The bucket can be addressed: credentials, an endpoint with a scheme, and a name.
pub record IsUsable (c : Config) : Type 0 where
  pub key : c.aws_key ≢ []
  pub secret : c.aws_secret ≢ []
  pub bucket : c.s3_bucket ≢ []
  pub scheme : contains c.s3_endpt (bytes "://") ≡ true

-- A server has its host key, and a client must show a password that is not empty or a listed key.
pub record IsServable (c : Config) : Type 0 where
  pub usable : IsUsable c
  pub host : c.host_key ≢ []
  pub password : c.user ≢ [] → c.pass ≢ []
  pub method : (c.user ≢ []) ⊎ (c.auth_keys ≢ [])

some-ne-none : {e : Exception} → some e ≢ none
some-ne-none {e} p = absurd (none-ne-some e (sym p))

not_nil : (s : Text) → (s == []) ≡ false → s ≢ []
not_nil s e p = true≢false (sym (eq_refl []) ∙ (ap (λ (t : Text). t == []) (sym p) ∙ e))

validate-IsUsable : (c : Config) → validate c ≡ none → IsUsable c
unfolding validate
validate-IsUsable c e = elim (Bool-cases (c.aws_key == [])) [
  | inl k ↦ absurd (some-ne-none (rw (k, validate) at e))
  | inr k ↦ elim (Bool-cases (c.aws_secret == [])) [
    | inl s ↦ absurd (some-ne-none (rw (k, s, validate) at e))
    | inr s ↦ elim (Bool-cases (c.s3_endpt == [])) [
      | inl p ↦ absurd (some-ne-none (rw (k, s, p, validate) at e))
      | inr p ↦ elim (Bool-cases (c.s3_bucket == [])) [
        | inl b ↦ absurd (some-ne-none (rw (k, s, p, b, validate) at e))
        | inr b ↦ elim (Bool-cases (contains c.s3_endpt (bytes "://"))) [
          | inl there ↦ record {
            key = not_nil c.aws_key k;
            secret = not_nil c.aws_secret s;
            bucket = not_nil c.s3_bucket b;
            scheme = there;
          }
          | inr missing ↦ absurd (some-ne-none (rw (k, s, p, b, missing, validate) at e))
        ]
      ]
    ]
  ]
]

checked-IsUsable :
    {O : Type 0} (c d : Config) (opts o : O)
    → checked c opts ≡ inr (d, o)
    → ◌≡◌ {A = Config × O} (c, opts) (d, o) × IsUsable d
checked-IsUsable {O = O} c d opts o e = elim (Option-cases (validate c)) [
  | inr (bad, is) ↦ absurd (inl-ne-inr (rw (is, checked) at e))
  | inl good ↦
      let same = inr-injective (c, opts) (d, o) (rw (good, checked) at e) in
      (same, subst IsUsable (ap (λ (w : Config × O). w.0) same) (validate-IsUsable c good))
]

no_args_lem :
    {O A : Type 0} (command : Text) (r : Option (Config × O × List Text))
    (next : Config → O → Exception ⊎ A) (a : A)
    → no_args command r next ≡ inr a
    → (c : Config) × (opts : O) × (next c opts ≡ inr a)
no_args_lem command none next a e = absurd (inl-ne-inr e)
no_args_lem command (some (c, opts, [])) next a e = (c, opts, e)
no_args_lem command (some (c, opts, b ∷ _)) next a e = absurd (inl-ne-inr e)

one_arg_lem :
    {O A : Type 0} (command : Text) (r : Option (Config × O × List Text))
    (next : Config → O → Text → Exception ⊎ A) (a : A)
    → one_arg command r next ≡ inr a
    → (c : Config) × (opts : O) × (arg : Text) × (next c opts arg ≡ inr a)
one_arg_lem command none next a e = absurd (inl-ne-inr e)
one_arg_lem command (some (c, opts, [])) next a e = absurd (inl-ne-inr e)
one_arg_lem command (some (c, opts, b ∷ [])) next a e = (c, opts, b, e)
one_arg_lem command (some (c, opts, b ∷ d ∷ _)) next a e = absurd (inl-ne-inr e)

serve_checks-IsServable :
    (c d : Config) (opts o : Unit {0}) → serve_checks c opts ≡ inr (d, o) → IsServable d
unfolding serve_checks
serve_checks-IsServable c d opts o e = elim (Bool-cases (c.host_key == [])) [
  | inl h ↦ absurd (inl-ne-inr (rw (h, serve_checks) at e))
  | inr h ↦ elim (Bool-cases (c.user == [])) [
    | inl u ↦ elim (Bool-cases (c.auth_keys == [])) [
      | inl k ↦ absurd (inl-ne-inr (rw (h, u, k, serve_checks) at e))
      | inr k ↦
          let (same, usable) = checked-IsUsable c d opts o (rw (h, u, k, serve_checks) at e) in
          subst (λ (x : Config). IsUsable x → IsServable x)
            (ap (λ (w : Config × Unit {0}). w.0) same)
            (λ good. record {
              usable = good;
              host = not_nil c.host_key h;
              password = λ named. absurd (named (eq_true c.user [] u));
              method = inr (not_nil c.auth_keys k);
            })
            usable
    ]
    | inr u ↦ elim (Bool-cases (c.pass == [])) [
      | inl p ↦ absurd (inl-ne-inr (rw (h, u, p, serve_checks) at e))
      | inr p ↦
          let (same, usable) = checked-IsUsable c d opts o (rw (h, u, p, serve_checks) at e) in
          subst (λ (x : Config). IsUsable x → IsServable x)
            (ap (λ (w : Config × Unit {0}). w.0) same)
            (λ good. record {
              usable = good;
              host = not_nil c.host_key h;
              password = λ _. not_nil c.pass p;
              method = inl (not_nil c.user u);
            })
            usable
    ]
  ]
]

pub parse_serve_args-IsServable :
    (getenv : Text → Text) (parse : Parse (Unit {0})) (d : Config) (o : Unit {0})
    → parse_serve_args getenv parse ≡ inr (d, o)
    → IsServable d
unfolding parse_serve_args
parse_serve_args-IsServable getenv parse d o e =
    let (c, opts, passed) = no_args_lem (bytes "samogon serve") _ serve_checks (d, o) e in
    serve_checks-IsServable c d opts o passed
