-- ===== src/Tests/Commands.antt =====
-- The commands get2 and bot, and the choice of a command, on small inputs.
use mathlib.Core.List.Perm
use samogon.Base.{
  Text, Bytes, bytes, ◌==◌, text_dec, ℕ, suc, lookup, ◌≡◌, ◌↔◌, refl, true, false, List, [], ◌∷◌,
  Option, none, some, inl, inr, arith, if◌then◌else◌, replicate, ◌+◌,
}
use samogon.Base.Int.{pos}
use samogon.Bot.{
  split_comma, parse_digits, parse_int, allows, Document, Message, Effect, reply, run_command,
  env_args, ignite_args, Telegram, handle_document, handle_update, handle_updates, allow_loop,
  parse_allow_users, run_bot,
}
use samogon.Bot.Arguments.{IsFetch}
use samogon.Bot.Orders.{IsOrder, run_bot-IsOrder}
use samogon.Bench.{run_bench}
use samogon.Bench.Apart.{run_bench_lem}
use samogon.Config.{key_piece, key_torrent}
use samogon.Get2.{resolve_hashes}
use samogon.Get2.Cover.{IsCover, resolve_hashes-IsCover}
use samogon.Main.{Commands, Ending, exited, main}
use samogon.Main.Exit.{IsSuccess, main-IsSuccess}
use samogon.Meta.{find_name}
use samogon.Meta.Parsed.{Info}
use samogon.Sftp.{split_path, find_file}
use samogon.Storage.Laws.{at}
use samogon.Strings.{
  slash, clean_rooted, clean_parts, split_slash, join, trim_prefix, cut, has_prefix,
}
use samogon.Throw.{Run, ok}
use samogon.Tests.Bucket.{memory-IsLawful}
use samogon.Tests.Fixture.{config, storage, library, torrent, file}

named :
    (((split_path (slash ∷ bytes "n/d/f")).0 == []) ≡ false)
    × (((split_path (slash ∷ bytes "n/d/f")).1 == []) ≡ false)
    × (find_name library (split_path (slash ∷ bytes "n/d/f")).0 ≡ some torrent)
    × (find_file (split_path (slash ∷ bytes "n/d/f")).1 torrent.files ≡ some file)
unfolding split_path clean_rooted clean_parts split_slash join trim_prefix cut has_prefix find_file
    find_name lookup text_dec
named = (refl, refl, refl, refl)

resolve_hashes-IsCover_example :
    (hashes : List Text) × (resolve_hashes (bytes "n/d/f") library ≡ ok hashes library)
    × IsCover torrent file hashes
resolve_hashes-IsCover_example =
    resolve_hashes-IsCover library (bytes "n/d/f") torrent file named.0 named.1 named.2 named.3
      (omega arith) (omega arith) (omega arith)

abbrev load : Bytes → Option Info
load _ = some (record {
  name = bytes "n";
  piece_length = 2;
  length = 3;
  total_length = 3;
  files = [];
  pieces = some (bytes "a") ∷ some (bytes "b") ∷ [];
})

-- A Telegram whose files are their names, and a command that prints nothing.
abbrev telegram : Telegram
telegram = record {
  Response = Text;
  getenv = λ k. if k == bytes "S3_BUCKET" then bytes "b" else [];
  get_file = λ id. inr id;
  link = λ token path. path;
  http_get = λ url. inr url;
  read_all = λ r. inr r;
  run = λ name args raw. inr [];
  trim_space = λ s. s;
}

abbrev allowed : samogon.Config.Config
allowed = record config { tg_allow_users = bytes "12,7" }

abbrev document : Document
document = record { file_id = bytes "id"; file_name = bytes "--" }

abbrev message : Message
message = record { from = some (pos 7); chat = pos 1; message_id = 2; document = some document }

abbrev order : List Text
order =
    bytes "ignite"
    ∷ (bytes "--root"
        ∷ (bytes "samogon"
            ∷ (bytes "--descr"
                ∷ (bytes "samogon fetch --"
                    ∷ (bytes "--retry-error"
                        ∷ (bytes "--env"
                            ∷ (bytes "S3_BUCKET=b"
                                ∷ (bytes "--" ∷ (bytes "samogon" ∷ (bytes "fetch" ∷ []))))))))))

abbrev effects : List Effect
effects =
    run_command (bytes "gorn") order (bytes "id")
    ∷ (reply (pos 1) 2 (bytes "queued: --  guid=") ∷ [])

runs : run_bot telegram allowed (none ∷ (some message ∷ [])) ≡ inr effects
unfolding split_comma parse_digits parse_int allows env_args ignite_args handle_document
    handle_update handle_updates allow_loop parse_allow_users run_bot text_dec
runs = refl

run_bot-IsOrder_example :
    (bytes "gorn" ≡ bytes "gorn")
    × (IsFetch order × IsOrder telegram allowed (none ∷ (some message ∷ [])) (bytes "id"))
run_bot-IsOrder_example =
    run_bot-IsOrder telegram allowed (none ∷ (some message ∷ [])) effects (bytes "gorn") order
      (bytes "id") runs (inl refl)

abbrev commands : Commands ℕ
commands =
    let count : List Text → ℕ → Run ℕ (Unit {0}) = λ _ n. ok tt (suc n) in
    record {
      fetch = count;
      serve = count;
      get = count;
      get2 = count;
      bench = count;
      repack = count;
      gc = count;
      bot = count;
    }

main-IsSuccess_example :
    (◌≡◌ {A = Ending × ℕ}
      (main commands (λ _. []) true (bytes "gc" ∷ (bytes "b" ∷ [])) 0)
      (exited 0, 1))
    ↔ IsSuccess commands (λ _. []) (bytes "gc" ∷ (bytes "b" ∷ [])) 0 1
main-IsSuccess_example = main-IsSuccess commands (λ _. []) true (bytes "gc" ∷ (bytes "b" ∷ [])) 0 1

-- Numbers in ones.
abbrev ones : ℕ → Text
ones n = replicate n b'1'

run_bench_lem_example :
    let r = run_bench ones config (2 ∷ (1 ∷ [])) 3 storage in
    (r.0.ops + r.0.errs ≡ 3)
    × (at memory-IsLawful r.1 (key_piece config (bytes "a"))
        ≡ at memory-IsLawful storage (key_piece config (bytes "a")))
    × (at memory-IsLawful r.1 (key_torrent config (bytes "a"))
        ≡ at memory-IsLawful storage (key_torrent config (bytes "a")))
run_bench_lem_example =
    run_bench_lem memory-IsLawful ones config (2 ∷ (1 ∷ [])) 3 storage (bytes "a")
