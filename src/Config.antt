-- ===== src/Config.antt =====
-- config.go: the configuration, its validation, and the layout of the S3 keys.
pub mod Keys
pub mod Args
pub mod Accepted
use samogon.Base.{
  Text, bytes, ◌==◌, ℕ, Bool, true, false, not, List, [], ◌∷◌, ◌++◌, if◌then◌else◌, Option, none,
  some,
}
use samogon.Base.Int.{ℤ}
use samogon.Strings.{contains}
use samogon.Throw.{Exception, missing_option, bad_option}

pub record Config : Type 0 where
  pub aws_key : Text
  pub aws_secret : Text
  pub s3_endpt : Text
  pub s3_bucket : Text
  pub s3_root : Text
  pub listen : Text
  pub user : Text
  pub pass : Text
  pub auth_keys : Text
  pub host_key : Text
  pub reload_secs : ℕ
  pub lru_size : ℕ
  pub up_sem : ℕ
  pub prefetch_distance : ℕ
  pub inflight_pieces : ℕ
  pub region : Text
  pub tg_token : Text
  pub tg_allow_users : Text
  pub socks5 : Text
  pub data_dir : Text

-- `if v := os.Getenv(k); v != ""`
abbrev from_env : Text → Text → Text
from_env v default = if v == [] then default else v

-- `loadCommon`; `getenv` is os.Getenv.
unfoldable pub load_common : (Text → Text) → Config
load_common getenv = record {
  aws_key = from_env (getenv (bytes "AWS_ACCESS_KEY_ID")) [];
  aws_secret = from_env (getenv (bytes "AWS_SECRET_ACCESS_KEY")) [];
  s3_endpt = from_env (getenv (bytes "S3_ENDPOINT")) [];
  s3_bucket = from_env (getenv (bytes "S3_BUCKET")) [];
  s3_root = from_env (getenv (bytes "SAMOGON_S3_ROOT")) (bytes "torrents");
  listen = [];
  user = [];
  pass = [];
  auth_keys = [];
  host_key = [];
  reload_secs = 30;
  lru_size = 1000;
  up_sem = 128;
  prefetch_distance = 32;
  inflight_pieces = 1000;
  region = bytes "us-east-1";
  tg_token = [];
  tg_allow_users = [];
  socks5 = [];
  data_dir = [];
}

-- `validate`: the first check that fails.
unfoldable pub validate : Config → Option Exception
validate c =
    if c.aws_key == []
    then some (missing_option (bytes "AWS_ACCESS_KEY_ID"))
    else if c.aws_secret == []
    then some (missing_option (bytes "AWS_SECRET_ACCESS_KEY"))
    else if c.s3_endpt == []
    then some (missing_option (bytes "S3_ENDPOINT"))
    else if c.s3_bucket == []
    then some (missing_option (bytes "S3_BUCKET"))
    else if contains c.s3_endpt (bytes "://")
    then none
    else some (bad_option c.s3_endpt)

unfoldable pub key_torrent : Config → Text → Text
key_torrent c infohash = c.s3_root ++ (bytes "/torrents/" ++ infohash)

unfoldable pub key_piece : Config → Text → Text
key_piece c hash = c.s3_root ++ (bytes "/pieces/" ++ hash)

unfoldable pub prefix_torrents : Config → Text
prefix_torrents c = c.s3_root ++ bytes "/torrents/"

unfoldable pub prefix_pieces : Config → Text
prefix_pieces c = c.s3_root ++ bytes "/pieces/"
