-- ===== src/Tests/Servers.antt =====
-- A server's arguments, its logins, its sessions and its metadata, on small inputs.
use samogon.Base.{
  Text, Bytes, bytes, ◌==◌, text_dec, suc, ◌<◌, ◌≤◌, ◌≡◌, refl, true, false, ◌&&◌, List, [], ◌∷◌,
  map, length, Option, none, some, ◌⊎◌, inr, arith,
}
use mathlib.Core.Option.{some-injective, none-ne-some}
use mathlib.Core.Path.{subst}
use samogon.Config.{Config, load_common, validate, key_torrent}
use samogon.Config.Args.{Parse, parse_serve_args, serve_checks}
use samogon.Config.Accepted.{IsServable, parse_serve_args-IsServable}
use samogon.Meta.{new_meta, reload}
use samogon.Meta.Parsed.{Info}
use samogon.Meta.Order.{IsMeta, new_meta-IsMeta}
use samogon.Meta.Reload.{AllStored, reload-IsMeta}
use samogon.Serve.{
  ServerConfig, Attempt, public_key, admits, listed, key_loop, load_authorized_keys, load_host_key,
  build_ssh_config, serve_meta,
}
use samogon.Serve.Keys.{IsKeyFile, key_loop-IsKeyFile}
use samogon.Serve.Life.{serve_meta-IsMeta}
use samogon.Serve.Login.{IsAllowed, admits-IsAllowed, admits_some}
use samogon.Serve.Session.{
  Request, is_sftp_payload, reply_to, waiting, serving, Session, session, opened, SessionStep,
  handle, send, receive, SessionSteps, here, later, any_sftp, SessionSteps-Told, count,
  count-le-requests,
}
use samogon.Storage.Laws.{at}
use samogon.Strings.{contains, has_prefix}
use samogon.Throw.{Ensures}
use samogon.Tests.Bucket.{memory-IsLawful}
use samogon.Tests.Fixture.{config, bucket, storage}

abbrev manifest : Info
manifest = record {
  name = bytes "n";
  piece_length = 2;
  length = 3;
  total_length = 3;
  files = [];
  pieces = some (bytes "a") ∷ some (bytes "b") ∷ [];
}

abbrev load : Bytes → Option Info
load _ = some manifest

-- A known .torrent is that of the bucket, whose one byte is 7, or one of no byte.
abbrev Known : Text → Bytes → Type 0
Known ih b = bucket (key_torrent config ih) ≡ some b

reload-IsMeta_example :
    Ensures
      (λ m'. IsMeta load Known m' × ((j : Text) → at memory-IsLawful m'.store j ≡ bucket j))
      (λ _ m'. AllStored bucket m')
      (reload load config (new_meta storage))
reload-IsMeta_example =
    reload-IsMeta load Known memory-IsLawful config bucket (λ ih b e. e) (new_meta storage)
      (new_meta-IsMeta load Known storage) (λ j. refl)

serve_meta-IsMeta_example :
    Ensures
      (IsMeta load Known)
      (λ _ _. Unit {0})
      (serve_meta load config ((λ _. storage) ∷ ((λ _. storage) ∷ [])) storage)
serve_meta-IsMeta_example =
    serve_meta-IsMeta memory-IsLawful load config Known ((λ _. storage) ∷ ((λ _. storage) ∷ []))
      storage (λ ih b e. e) ((λ s ih b e. e), ((λ s ih b e. e), tt))

abbrev getenv : Text → Text
getenv _ = bytes "http://h"

abbrev served : Config
served = record (load_common getenv) {
  listen = bytes ":2222";
  user = bytes "u";
  pass = bytes "p";
  auth_keys = bytes "keys";
  host_key = bytes "host";
}

abbrev flags : Parse (Unit {0})
flags c o = some (
  record c {
    user = bytes "u";
    pass = bytes "p";
    auth_keys = bytes "keys";
    host_key = bytes "host";
  },
  o,
  [],
)

accepted : parse_serve_args getenv flags ≡ inr (served, tt)
unfolding parse_serve_args serve_checks load_common validate contains has_prefix text_dec
accepted = refl

parse_serve_args-IsServable_example : IsServable served
parse_serve_args-IsServable_example = parse_serve_args-IsServable getenv flags served tt accepted

-- A file is its name, a key one byte, and no byte is blank.
abbrev read_file : Text → Option Bytes
read_file path = some path

abbrev trim_space : Bytes → Bytes
trim_space b = b

abbrev parse_key : Bytes → Option (Bytes × Bytes)
parse_key [] = none
parse_key (k ∷ rest) = some (k ∷ [], rest)

abbrev parse_private : Bytes → Option Bytes
parse_private b = some b

shorter : (rest key next : Bytes) → parse_key rest ≡ some (key, next) → length next < length rest
shorter [] key next e = absurd (none-ne-some (key, next) e)
shorter (k ∷ rest) key next e =
    subst (λ (w : Bytes × Bytes). length w.1 < suc (length rest))
      (some-injective (k ∷ [], rest) (key, next) e) (omega arith)

key_loop-IsKeyFile_example :
    ((keys : List Bytes) × IsKeyFile trim_space parse_key (bytes "keys") keys
      × (key_loop read_file trim_space parse_key parse_private 4 (bytes "keys") [] ≡ some keys))
    ⊎ ((key_loop read_file trim_space parse_key parse_private 4 (bytes "keys") [] ≡ none)
        × ((keys : List Bytes) → ¬ IsKeyFile trim_space parse_key (bytes "keys") keys))
key_loop-IsKeyFile_example =
    key_loop-IsKeyFile read_file parse_private trim_space parse_key refl shorter 4 (bytes "keys") []
      (omega arith)

abbrev guarded : ServerConfig
guarded = record {
  password_callback = some (λ user given. user == bytes "u" && given == bytes "p");
  public_key_callback =
      some (listed ((b'k' ∷ []) ∷ ((b'e' ∷ []) ∷ ((b'y' ∷ []) ∷ ((b's' ∷ []) ∷ [])))));
  host_key = bytes "host";
}

built : build_ssh_config read_file trim_space parse_key parse_private served ≡ inr guarded
unfolding build_ssh_config load_authorized_keys load_host_key key_loop load_common text_dec
built = refl

-- The last key of the file.
admits-IsAllowed_example :
    ((admits guarded (public_key (b's' ∷ [])) ≡ true)
      × IsAllowed read_file trim_space parse_key parse_private served (public_key (b's' ∷ [])))
    ⊎ ((admits guarded (public_key (b's' ∷ [])) ≡ false)
        × ¬ IsAllowed read_file trim_space parse_key parse_private served (public_key (b's' ∷ [])))
admits-IsAllowed_example =
    admits-IsAllowed read_file trim_space parse_key parse_private getenv flags served tt guarded
      accepted built (public_key (b's' ∷ []))

admits_some_example : (a : Attempt) × (admits guarded a ≡ true)
admits_some_example =
    admits_some read_file trim_space parse_key parse_private getenv flags served tt guarded accepted
      built

abbrev shell : Request
shell = record { kind = bytes "shell"; payload = [] }

abbrev sftp : Request
sftp = record { kind = bytes "subsystem"; payload = 0 ∷ 0 ∷ 0 ∷ 4 ∷ bytes "sftp" }

abbrev requests : List Request
requests = shell ∷ (sftp ∷ [])

replies : (reply_to shell ≡ false) × (reply_to sftp ≡ true)
unfolding reply_to is_sftp_payload text_dec
replies = (refl, refl)

served_run :
    SessionSteps
      (opened requests)
      (session [] requests (false ∷ (true ∷ [])) false false false serving)
unfolding reply_to is_sftp_payload text_dec
served_run = later (later (later (later here handle) handle) send) receive

SessionSteps-Told_example :
    (requests ≡ requests)
    × ((false ∷ (true ∷ [])) ≡ map reply_to requests)
    × (any_sftp requests ≡ true)
SessionSteps-Told_example =
    SessionSteps-Told requests [] requests (false ∷ (true ∷ [])) false false false serving
      served_run

waiting_run :
    SessionSteps
      (opened requests)
      (session (sftp ∷ []) (shell ∷ []) (false ∷ []) false false false waiting)
unfolding reply_to is_sftp_payload text_dec
waiting_run = later here handle

count-le-requests_example :
    (count waiting_run ≤ 8)
    × (t : Session) × SessionStep
        (session (sftp ∷ []) (shell ∷ []) (false ∷ []) false false false waiting)
        t
count-le-requests_example =
    count-le-requests requests (sftp ∷ []) (shell ∷ []) (false ∷ []) false false false waiting_run
