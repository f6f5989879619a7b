-- ===== src/Serve.antt =====
-- serve.go: who may log in, which channels and requests are served, and the reloads of the metadata.
pub mod Login
pub mod Keys
pub mod Life
pub mod Session
use samogon.Base.{
  Text, Bytes, bytes, ◌==◌, ℕ, zero, suc, Bool, true, false, ◌&&◌, List, [], ◌∷◌, ◌++◌, drop,
  length, if◌then◌else◌, Option, none, some, ◌⊎◌, inl, inr, ltb,
}
use samogon.Config.{Config}
use samogon.Meta.{Meta, new_meta, reload}
use samogon.Meta.Parsed.{Info}
use samogon.Storage.{Storage}
use samogon.Storage.Client.{S3}
use samogon.Throw.{
  Exception, unreadable, bad_keys, no_keys, bad_host_key, handshake, accept_failed, Run, ok, thrown,
  crashed, ◌>>=◌, try, on_state,
}

-- The callbacks that decide on a login; a method without a callback is not offered.
pub record ServerConfig : Type 0 where
  pub password_callback : Option (Text → Bytes → Bool)
  pub public_key_callback : Option (Bytes → Bool)
  pub host_key : Bytes

-- `bytes.Equal(k.Marshal(), marshaled)` for one of the keys.
unfoldable pub listed : List Bytes → Bytes → Bool
listed [] key = false
listed (k ∷ ks) key = let rest = listed ks key in if k == key then true else rest

-- os.ReadFile, bytes.TrimSpace, ssh.ParseAuthorizedKey with the marshaled key and what is left of the
-- file, and ssh.ParsePrivateKey.
module _ (read_file : Text → Option Bytes) (trim_space : Bytes → Bytes)
    (parse_key : Bytes → Option (Bytes × Bytes)) (parse_private : Bytes → Option Bytes) where
  -- The loop of `loadAuthorizedKeys`, a round for each key. Where the fuel ends a key was left.
  unfoldable pub key_loop : ℕ → Bytes → List Bytes → Option (List Bytes)
  key_loop zero rest out = if trim_space rest == [] then some out else none
  key_loop (suc n) rest out =
      let loop = key_loop n in
      if trim_space rest == []
      then some out
      else elim (parse_key rest) [ none ↦ none | some (key, next) ↦ loop next (out ++ (key ∷ [])) ]

  unfoldable pub load_authorized_keys : Text → Exception ⊎ List Bytes
  load_authorized_keys path = elim (read_file path) [
    | none ↦ inl (unreadable path)
    | some content ↦ elim (key_loop (length content) content []) [
      | none ↦ inl (bad_keys path)
      | some out ↦ elim out [ [] ↦ inl (no_keys path) | k ∷ ks ↦ inr (k ∷ ks) ]
    ]
  ]

  unfoldable pub load_host_key : Text → Exception ⊎ Bytes
  load_host_key path = elim (read_file path) [
    | none ↦ inl (unreadable path)
    | some content ↦ elim (parse_private content) [
      | none ↦ inl (bad_host_key path)
      | some signer ↦ inr signer
    ]
  ]

  unfoldable pub build_ssh_config : Config → Exception ⊎ ServerConfig
  build_ssh_config cfg =
      let password : Option (Text → Bytes → Bool) =
        if cfg.user == []
        then none
        else some (λ user given. user == cfg.user && given == cfg.pass) in
      let keys : Exception ⊎ Option (Bytes → Bool) =
        if cfg.auth_keys == [] then inr none else elim (load_authorized_keys cfg.auth_keys) [
          | inl e ↦ inl e
          | inr allowed ↦ inr (some (listed allowed))
        ] in
      elim keys [
        | inl e ↦ inl e
        | inr callback ↦ elim (load_host_key cfg.host_key) [
          | inl e ↦ inl e
          | inr signer ↦ inr (record {
            password_callback = password;
            public_key_callback = callback;
            host_key = signer;
          })
        ]
      ]

-- What a client shows. A method that has no callback is refused by the ssh library.
pub data Attempt : Type 0 where
  password : Text → Bytes → Attempt
  public_key : Bytes → Attempt

unfoldable pub admits : ServerConfig → Attempt → Bool
admits scfg (password user given) = elim scfg.password_callback [
  | none ↦ false
  | some check ↦ check user given
]
admits scfg (public_key key) = elim scfg.public_key_callback [
  | none ↦ false
  | some check ↦ check key
]

module _ {S : S3} (load : Bytes → Option Info) (cfg : Config) where
  -- A round of `metaReloader`, and the first reload of `runServe`: an exception is logged.
  unfoldable pub tick : Meta S → Run (Meta S) (Option Exception)
  tick m = try (reload load cfg m)

  -- The reloads of a server, with what other programs do to the bucket before each of them.
  unfoldable pub ticks : List (Storage S → Storage S) → Meta S → Run (Meta S) (Unit {0})
  ticks [] m = ok tt m
  ticks (f ∷ fs) m = do (_, m') ← tick (record m { store = f m.store }); ticks fs m'

  -- `runServe` up to the sockets: the metadata that the handlers read after the reloads.
  unfoldable pub serve_meta : List (Storage S → Storage S) → Storage S → Run (Meta S) (Unit {0})
  serve_meta fs st = do (_, m) ← tick (new_meta st); ticks fs m
