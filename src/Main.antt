-- ===== src/Main.antt =====
-- main.go: the choice of the command and the exit code.
pub mod Exit
use samogon.Base.{
  Text, bytes, ◌==◌, eq_true, ℕ, ◌≡◌, ◌≢◌, refl, sym, ap, ◌∙◌, Bool, true, false, ◌&&◌, ◌||◌,
  Bool-cases, Option-cases, List, [], ◌∷◌, if◌then◌else◌, Option, none, some, ◌⊎◌, inl, inr, arith,
  length, ◌<◌, ltb,
}
use samogon.Throw.{Exception, unknown_subcommand, Run, ok, thrown, crashed, try}

-- The commands, each the parsing of its arguments and its run.
pub record Commands (W : Type 0) : Type 0 where
  pub fetch : List Text → W → Run W (Unit {0})
  pub serve : List Text → W → Run W (Unit {0})
  pub get : List Text → W → Run W (Unit {0})
  pub get2 : List Text → W → Run W (Unit {0})
  pub bench : List Text → W → Run W (Unit {0})
  pub repack : List Text → W → Run W (Unit {0})
  pub gc : List Text → W → Run W (Unit {0})
  pub bot : List Text → W → Run W (Unit {0})

-- How the process ends: with an exit code, that of a panic which nothing recovers being 2, or replaced by
-- itself with the variable of the environment set.
pub data Ending : Type 0 where
  exited : ℕ → Ending
  replaced : Text → Text → Ending

abbrev pub max_hashers_env : Text
max_hashers_env = bytes "TORRENT_MAX_ACTIVE_PIECE_HASHERS"

abbrev pub max_hashers_want : Text
max_hashers_want = bytes "128"

abbrev pub is_help : Text → Bool
is_help sub = sub == bytes "-h" || (sub == bytes "--help" || sub == bytes "help")

module _ {W : Type 0} (commands : Commands W) where
  -- The switch.
  unfoldable pub dispatch : Text → List Text → W → Run W (Unit {0})
  dispatch sub rest w =
      if sub == bytes "fetch"
      then commands.fetch rest w
      else if sub == bytes "serve"
      then commands.serve rest w
      else if sub == bytes "get"
      then commands.get rest w
      else if sub == bytes "get2"
      then commands.get2 rest w
      else if sub == bytes "bench"
      then commands.bench rest w
      else if sub == bytes "repack"
      then commands.repack rest w
      else if sub == bytes "gc"
      then commands.gc rest w
      else if sub == bytes "bot"
      then commands.bot rest w
      else thrown (unknown_subcommand sub) w

  abbrev pub finish : Run W (Option Exception) → Ending × W
  finish (ok none w) = (exited 0, w)
  finish (ok (some e) w) = (exited 1, w)
  finish (thrown e w) = (exited 2, w)
  finish (crashed w) = (exited 2, w)

  -- `main`, for the program's arguments behind its name; `exec` says whether `ensureHashersEnv` can
  -- replace the process.
  unfoldable pub main : (Text → Text) → Bool → List Text → W → Ending × W
  main getenv exec [] w = (exited 2, w)
  main getenv exec (sub ∷ rest) w =
      if is_help sub
      then (exited 0, w)
      else if sub == bytes "fetch" && getenv max_hashers_env == []
      then if exec then (replaced max_hashers_env max_hashers_want, w) else (exited 2, w)
      else finish (try (dispatch sub rest w))
