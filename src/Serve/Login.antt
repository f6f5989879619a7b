-- ===== src/Serve/Login.antt =====
-- Who may log in at a server that serve.go configured.
use mathlib.Core.Bool.{true≢false}
use mathlib.Core.List.{cons≢nil}
use mathlib.Core.Path.{subst}
use mathlib.Core.Sum.{inr-injective, inl-ne-inr}
use samogon.Base.{
  In, Text, Bytes, ◌==◌, eq_refl, Sum-cases, eq_true, eq_ne, length, ◌&&◌, ◌≡◌, ◌≢◌, sym, ap, ◌∙◌,
  true, false, refl, Bool, Bool-cases, Option-cases, List, [], ◌∷◌, Option, none, some, ◌⊎◌, inl,
  inr, if◌then◌else◌,
}
use samogon.Config.{Config}
use samogon.Config.Args.{Parse, parse_serve_args}
use samogon.Config.Accepted.{IsServable, parse_serve_args-IsServable}
use samogon.Serve.{
  ServerConfig, Attempt, password, public_key, admits, listed, key_loop, load_authorized_keys,
  load_host_key, build_ssh_config,
}

listed-In : (keys : List Bytes) (key : Bytes) → listed keys key ≡ true → In key keys
unfolding listed
listed-In [] key e = true≢false (sym e)
listed-In (k ∷ ks) key e = elim (Bool-cases (k == key)) [
  | inl here ↦ inl (sym (eq_true k key here))
  | inr there ↦ inr (listed-In ks key (rw (there, listed) at e))
]

In-listed : (keys : List Bytes) (key : Bytes) → In key keys → listed keys key ≡ true
unfolding listed
In-listed [] key absent = absurd absent
In-listed (k ∷ ks) key (inl here) =
    rw (subst (λ (x : Bytes). (x == key) ≡ true) here (eq_refl key), listed) refl
In-listed (k ∷ ks) key (inr there) = elim (Bool-cases (k == key)) [
  | inl e ↦ rw (e, listed) refl
  | inr e ↦ rw (e, listed) (In-listed ks key there)
]

module _ (read_file : Text → Option Bytes) (trim_space : Bytes → Bytes)
    (parse_key : Bytes → Option (Bytes × Bytes)) (parse_private : Bytes → Option Bytes) where
  -- What is to be let in: the one user with the one password, neither of them empty, or a key of the
  -- file of authorized keys, where one is configured.
  pub data IsAllowed (cfg : Config) : Attempt → Type 0 where
    by_password : cfg.user ≢ [] → cfg.pass ≢ [] → IsAllowed cfg (password cfg.user cfg.pass)
    by_key :
        {keys : List Bytes} {key : Bytes}
        → cfg.auth_keys ≢ []
        → load_authorized_keys read_file trim_space parse_key parse_private cfg.auth_keys ≡ inr keys
        → In key keys
        → IsAllowed cfg (public_key key)

  abbrev password_check : Config → Option (Text → Bytes → Bool)
  password_check cfg =
      if cfg.user == [] then none else some (λ user given. user == cfg.user && given == cfg.pass)

  -- The callbacks of a configuration that was built.
  build_callbacks :
      (cfg : Config) (scfg : ServerConfig)
      → build_ssh_config read_file trim_space parse_key parse_private cfg ≡ inr scfg
      → (scfg.password_callback ≡ password_check cfg)
        × (((cfg.auth_keys ≡ []) × (scfg.public_key_callback ≡ none))
            ⊎ ((keys : List Bytes) × (cfg.auth_keys ≢ [])
                × (load_authorized_keys read_file trim_space parse_key parse_private cfg.auth_keys
                    ≡ inr keys)
                × (scfg.public_key_callback ≡ some (listed keys))))
  unfolding build_ssh_config
  build_callbacks cfg scfg e = elim (Bool-cases (cfg.auth_keys == [])) [
    | inl none_ ↦
        elim (Sum-cases (load_host_key read_file trim_space parse_key parse_private cfg.host_key)) [
          | inl (x, bad) ↦ absurd (inl-ne-inr (rw (none_, bad, build_ssh_config) at e))
          | inr (signer, good) ↦
              let same = inr-injective _ scfg (rw (none_, good, build_ssh_config) at e) in
              (
                ap (λ (s : ServerConfig). s.password_callback) (sym same),
                inl (
                  eq_true cfg.auth_keys [] none_,
                  ap (λ (s : ServerConfig). s.public_key_callback) (sym same),
                ),
              )
        ]
    | inr given ↦
        elim (Sum-cases
          (load_authorized_keys read_file trim_space parse_key parse_private cfg.auth_keys)) [
            | inl (x, bad) ↦ absurd (inl-ne-inr (rw (given, bad, build_ssh_config) at e))
            | inr (keys, loaded) ↦
                elim (Sum-cases
                  (load_host_key read_file trim_space parse_key parse_private cfg.host_key)) [
                    | inl (x, bad) ↦
                        absurd (inl-ne-inr (rw (given, loaded, bad, build_ssh_config) at e))
                    | inr (signer, good) ↦
                        let same =
                          inr-injective _ scfg (rw (given, loaded, good, build_ssh_config) at e) in
                        (
                          ap (λ (s : ServerConfig). s.password_callback) (sym same),
                          inr (
                            keys,
                            (λ x.
                                true≢false (
                                  sym (eq_refl []) ∙ (ap (λ (t : Text). t == []) (sym x) ∙ given))),
                            loaded,
                            ap (λ (s : ServerConfig). s.public_key_callback) (sym same),
                          ),
                        )
                  ]
          ]
  ]

  load_authorized_keys-ne-nil :
      (path : Text)
      → load_authorized_keys read_file trim_space parse_key parse_private path ≢ inr []
  unfolding load_authorized_keys
  load_authorized_keys-ne-nil path e = elim (Option-cases (read_file path)) [
    | inl bad ↦ inl-ne-inr (rw (bad, load_authorized_keys) at e)
    | inr (content, there) ↦
        elim (Option-cases
          (key_loop read_file trim_space parse_key parse_private (length content) content [])) [
            | inl bad ↦ inl-ne-inr (rw (there, bad, load_authorized_keys) at e)
            | inr ([], loaded) ↦ inl-ne-inr (rw (there, loaded, load_authorized_keys) at e)
            | inr (k ∷ ks, loaded) ↦
                cons≢nil (inr-injective (k ∷ ks) [] (rw (there, loaded, load_authorized_keys) at e))
          ]
  ]

  password-IsAllowed :
      (cfg : Config) (scfg : ServerConfig) (user : Text) (given : Bytes)
      → IsServable cfg
      → scfg.password_callback ≡ password_check cfg
      → admits scfg (password user given) ≡ true
      → IsAllowed cfg (password user given)
  unfolding admits
  password-IsAllowed cfg scfg user given servable callback e = elim (Bool-cases (cfg.user == [])) [
    | inl none_ ↦ absurd (true≢false (sym (rw (callback, none_, admits) at e)))
    | inr named ↦ elim (Bool-cases (user == cfg.user)) [
      | inr differs ↦ absurd (true≢false (sym (rw (callback, named, differs, admits) at e)))
      | inl u ↦ elim (Bool-cases (given == cfg.pass)) [
        | inr differs ↦ absurd (true≢false (sym (rw (callback, named, u, differs, admits) at e)))
        | inl g ↦
            let there = λ (x : cfg.user ≡ []).
              true≢false (sym (eq_refl []) ∙ (ap (λ (t : Text). t == []) (sym x) ∙ named)) in
            subst (λ (w : Text × Bytes). IsAllowed cfg (password w.0 w.1))
              (ap (λ (x : Text). (x, cfg.pass)) (sym (eq_true user cfg.user u))
                ∙ ap (λ (x : Bytes). (user, x)) (sym (eq_true given cfg.pass g)))
              (by_password there (servable.password there))
      ]
    ]
  ]

  module _ (getenv : Text → Text) (parse : Parse (Unit {0})) (cfg : Config) (o : Unit {0})
      (scfg : ServerConfig) (parsed : parse_serve_args getenv parse ≡ inr (cfg, o))
      (built : build_ssh_config read_file trim_space parse_key parse_private cfg ≡ inr scfg) where
    admitted-IsAllowed : (a : Attempt) → admits scfg a ≡ true → IsAllowed cfg a
    unfolding admits
    admitted-IsAllowed (password user given) e =
        password-IsAllowed cfg scfg user given
          (parse_serve_args-IsServable getenv parse cfg o parsed) (build_callbacks cfg scfg built).0
          e
    admitted-IsAllowed (public_key key) e = elim (build_callbacks cfg scfg built).1 [
      | inl (_, without) ↦ absurd (true≢false (sym (rw (without, admits) at e)))
      | inr (keys, given, loaded, with_keys) ↦
          by_key given loaded (listed-In keys key (rw (with_keys, admits) at e))
    ]

    IsAllowed-admits : {a : Attempt} → IsAllowed cfg a → admits scfg a ≡ true
    unfolding admits
    IsAllowed-admits (by_password named _) = rw (
      (build_callbacks cfg scfg built).0,
      eq_ne cfg.user [] named,
      eq_refl cfg.user,
      eq_refl cfg.pass,
      admits,
    )
    IsAllowed-admits (by_key {keys} {key} given loaded there) =
        elim (build_callbacks cfg scfg built).1 [
          | inl (without, _) ↦ absurd (given without)
          | inr (keys', _, loaded', with_keys) ↦
              rw (with_keys, admits)
                (In-listed keys' key (
                  subst (λ (l : List Bytes). In key l)
                    (inr-injective keys keys' (sym loaded ∙ loaded')) there))
        ]

    -- A server whose arguments were accepted and whose ssh configuration was built lets in the user of
    -- the configuration with its password, neither of them empty, and each key of the file of authorized
    -- keys where one is configured, and turns away every other attempt.
    pub admits-IsAllowed :
        (a : Attempt)
        → ((admits scfg a ≡ true) × IsAllowed cfg a) ⊎ ((admits scfg a ≡ false) × ¬ IsAllowed cfg a)
    admits-IsAllowed a = elim (Bool-cases (admits scfg a)) [
      | inl e ↦ inl (e, admitted-IsAllowed a e)
      | inr e ↦ inr (e, λ allowed. true≢false (sym (IsAllowed-admits allowed) ∙ e))
    ]

    -- Such a server can be logged in to: there is an attempt that it lets in.
    pub admits_some : (a : Attempt) × (admits scfg a ≡ true)
    unfolding admits load_authorized_keys listed
    admits_some = elim (build_callbacks cfg scfg built).1 [
      | inr (keys, _, loaded, with_keys) ↦ first_key keys loaded with_keys
      | inl (no_keys_, _) ↦ elim (parse_serve_args-IsServable getenv parse cfg o parsed).method [
        | inr keyed ↦ absurd (keyed no_keys_)
        | inl named ↦ (
          password cfg.user cfg.pass,
          rw (
            (build_callbacks cfg scfg built).0,
            eq_ne cfg.user [] named,
            eq_refl cfg.user,
            eq_refl cfg.pass,
            admits,
          ),
        )
      ]
    ]
      where
        first_key :
            (keys : List Bytes)
            → load_authorized_keys read_file trim_space parse_key parse_private cfg.auth_keys
              ≡ inr keys
            → scfg.public_key_callback ≡ some (listed keys)
            → (a : Attempt) × (admits scfg a ≡ true)
        first_key [] loaded with_keys = absurd (load_authorized_keys-ne-nil cfg.auth_keys loaded)
        first_key (k ∷ ks) loaded with_keys =
            (public_key k, rw (with_keys, admits, eq_refl k, listed))
