-- ===== src/Config/Args.antt =====
-- The `parse*Args` functions of the commands. `parse` is the `Parse` of package flag, with the flags that
-- the command declares: what their values make of the configuration and the command's own options, with
-- the arguments left, or an error.
use samogon.Base.{
  Text, bytes, ◌==◌, zero, suc, Bool, true, not, ◌&&◌, List, [], ◌∷◌, if◌then◌else◌, Option, none,
  some, ◌⊎◌, inl, inr,
}
use samogon.Base.Int.{ℤ, pos, negsuc}
use samogon.Config.{Config, load_common, validate}
use samogon.Strings.{base, trim_right, trim_prefix, slash}
use samogon.Throw.{Exception, missing_option, bad_option, bad_flags, unexpected_args}

-- `validate(c)` at the end, which throws or leaves the options.
abbrev pub checked : {O : Type 0} → Config → O → Exception ⊎ (Config × O)
checked c opts = elim (validate c) [ none ↦ inr (c, opts) | some e ↦ inl e ]

-- `n < 1`, `n < 0` and `n <= 0`
abbrev pub positive : ℤ → Bool
positive (pos zero) = not true
positive (pos (suc n)) = true
positive (negsuc n) = not true

abbrev pub not_negative : ℤ → Bool
not_negative (pos n) = true
not_negative (negsuc n) = not true

abbrev pub Parse : Type 0 → Type 0
Parse O = Config → O → Option (Config × O × List Text)

-- The commands without an argument.
abbrev pub no_args :
    {O A : Type 0}
    → Text
    → Option (Config × O × List Text)
    → (Config → O → Exception ⊎ A)
    → Exception ⊎ A
no_args command none next = inl (bad_flags command)
no_args command (some (c, opts, [])) next = next c opts
no_args command (some (c, opts, a ∷ _)) next = inl (unexpected_args a)

-- The commands with one argument.
abbrev pub one_arg :
    {O A : Type 0}
    → Text
    → Option (Config × O × List Text)
    → (Config → O → Text → Exception ⊎ A)
    → Exception ⊎ A
one_arg command none next = inl (bad_flags command)
one_arg command (some (c, opts, [])) next = inl (missing_option command)
one_arg command (some (c, opts, a ∷ [])) next = next c opts a
one_arg command (some (c, opts, a ∷ b ∷ _)) next = inl (unexpected_args b)

pub record GetOpts : Type 0 where
  pub target : Text
  pub out_path : Text
  pub chunk : ℤ

pub record Get2Opts : Type 0 where
  pub target : Text
  pub parallel : ℤ
  pub shuffle : Bool

-- `duration` in nanoseconds.
pub record BenchOpts : Type 0 where
  pub parallel : ℤ
  pub chunk_size : ℤ
  pub duration : ℤ

pub record RepackOpts : Type 0 where
  pub target : Text
  pub piece_size : ℤ

unfoldable pub serve_checks : Config → Unit {0} → Exception ⊎ (Config × Unit {0})
serve_checks c opts =
    if c.host_key == []
    then inl (missing_option (bytes "--host-key"))
    else if c.user == [] && c.auth_keys == []
    then inl (missing_option (bytes "--user"))
    else if not (c.user == []) && c.pass == []
    then inl (missing_option (bytes "--pass"))
    else checked c opts

unfoldable pub bot_checks : Config → Unit {0} → Exception ⊎ (Config × Unit {0})
bot_checks c opts =
    if c.tg_token == []
    then inl (missing_option (bytes "--tg-token"))
    else if c.tg_allow_users == []
    then inl (missing_option (bytes "--tg-allow-users"))
    else inr (c, opts)

unfoldable pub get_checks : Config → GetOpts → Text → Exception ⊎ (Config × GetOpts)
get_checks c opts arg =
    let out = if opts.out_path == [] then base (trim_right arg) else opts.out_path in
    if positive opts.chunk
    then checked c (record opts { target = arg; out_path = out })
    else inl (bad_option (bytes "--chunk-size"))

unfoldable pub get2_checks : Config → Get2Opts → Text → Exception ⊎ (Config × Get2Opts)
get2_checks c opts arg =
    if positive opts.parallel
    then checked c (record opts { target = arg })
    else inl (bad_option (bytes "--parallel"))

unfoldable pub bench_checks : Config → BenchOpts → Exception ⊎ (Config × BenchOpts)
bench_checks c opts =
    if not (positive opts.parallel)
    then inl (bad_option (bytes "--parallel"))
    else if not (not_negative opts.chunk_size)
    then inl (bad_option (bytes "--chunk-size"))
    else if positive opts.duration
    then checked c opts
    else inl (bad_option (bytes "--duration"))

unfoldable pub repack_checks : Config → RepackOpts → Text → Exception ⊎ (Config × RepackOpts)
repack_checks c opts arg =
    if positive opts.piece_size
    then checked c (record opts { target = arg })
    else inl (bad_option (bytes "--piece-size"))

unfoldable pub gc_checks : Config → Unit {0} → Text → Exception ⊎ (Config × Unit {0})
gc_checks c opts arg =
    let bucket = trim_prefix arg (slash ∷ []) in
    if bucket == []
    then inl (bad_option (bytes "bucket"))
    else checked (record c { s3_bucket = bucket }) opts

module _ (getenv : Text → Text) where
  unfoldable pub parse_fetch_args : Parse (Unit {0}) → Exception ⊎ (Config × Unit {0})
  parse_fetch_args parse =
      no_args (bytes "samogon fetch") (parse (record (load_common getenv) { data_dir = [] }) tt)
        checked

  unfoldable pub parse_serve_args : Parse (Unit {0}) → Exception ⊎ (Config × Unit {0})
  parse_serve_args parse =
      let defaults = record (load_common getenv) {
        listen = bytes ":2222";
        user = [];
        pass = [];
        auth_keys = [];
        host_key = [];
      } in
      no_args (bytes "samogon serve") (parse defaults tt) serve_checks

  unfoldable pub parse_bot_args : Parse (Unit {0}) → Exception ⊎ (Config × Unit {0})
  parse_bot_args parse =
      let defaults = record (load_common getenv) {
        tg_token = getenv (bytes "TG_BOT_TOKEN");
        tg_allow_users = getenv (bytes "TG_ALLOW_USERS");
        socks5 = getenv (bytes "SAMOGON_SOCKS5");
      } in
      no_args (bytes "samogon bot") (parse defaults tt) bot_checks

  unfoldable pub parse_get_args : Parse GetOpts → Exception ⊎ (Config × GetOpts)
  parse_get_args parse =
      one_arg (bytes "samogon get")
        (parse (load_common getenv) (record { target = []; out_path = []; chunk = pos 1048576 }))
        get_checks

  unfoldable pub parse_get2_args : Parse Get2Opts → Exception ⊎ (Config × Get2Opts)
  parse_get2_args parse =
      one_arg (bytes "samogon get2")
        (parse (load_common getenv) (record { target = []; parallel = pos 64; shuffle = true }))
        get2_checks

  unfoldable pub parse_bench_args : Parse BenchOpts → Exception ⊎ (Config × BenchOpts)
  parse_bench_args parse =
      no_args (bytes "samogon bench")
        (parse (load_common getenv)
          (record { parallel = pos 32; chunk_size = pos 262144; duration = pos 30000000000 }))
        bench_checks

  unfoldable pub parse_repack_args : Parse RepackOpts → Exception ⊎ (Config × RepackOpts)
  parse_repack_args parse =
      one_arg (bytes "samogon repack")
        (parse (load_common getenv) (record { target = []; piece_size = pos 4194304 }))
        repack_checks

  unfoldable pub parse_gc_args : Parse (Unit {0}) → Exception ⊎ (Config × Unit {0})
  parse_gc_args parse = one_arg (bytes "samogon gc") (parse (load_common getenv) tt) gc_checks
