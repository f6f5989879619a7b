-- ===== src/Bot.antt =====
-- bot.go: who may send torrents, and the command that a document starts.
pub mod Arguments
pub mod Orders
use samogon.Base.{
  Text, Bytes, bytes, ◌==◌, ℕ, zero, suc, ◌+◌, ◌-◌, ◌*◌, Bool, true, false, ◌&&◌, List, [], ◌∷◌,
  ◌++◌, if◌then◌else◌, Option, none, some, ◌⊎◌, inl, inr, ltb, leb, eqb,
}
use samogon.Base.Int.{ℤ, pos, negsuc}
use samogon.Config.{Config}
use samogon.Throw.{Exception, no_allowed_user, bad_user_id}

-- `strings.Split(s, ",")`
unfoldable pub split_comma : Text → List Text
split_comma [] = [] ∷ []
split_comma (c ∷ s) = elim (split_comma s) [
  | [] ↦ []
  | part ∷ parts ↦ if eqb c b',' then [] ∷ (part ∷ parts) else (c ∷ part) ∷ parts
]

-- The digits of a decimal number, behind those that gave `n`.
unfoldable pub parse_digits : ℕ → Text → Option ℕ
parse_digits n [] = some n
parse_digits n (c ∷ s) =
    let rest = parse_digits (n * 10 + (c - b'0')) s in
    if leb b'0' c && leb c b'9' then rest else none

abbrev negated : ℕ → ℤ
negated zero = pos 0
negated (suc n) = negsuc n

-- `strconv.ParseInt(s, 10, 64)`
unfoldable pub parse_int : Text → Option ℤ
parse_int [] = none
parse_int (c ∷ s) =
    let signed = eqb c b'-' in
    let digits = if eqb c b'-' then s else if eqb c b'+' then s else c ∷ s in
    if digits == [] then none else elim (parse_digits 0 digits) [
      | none ↦ none
      | some n ↦
          if signed
          then if leb n 9223372036854775808 then some (negated n) else none
          else if ltb n 9223372036854775808
          then some (pos n)
          else none
    ]

abbrev pub eq_ℤ : ℤ → ℤ → Bool
eq_ℤ (pos m) (pos n) = eqb m n
eq_ℤ (negsuc m) (negsuc n) = eqb m n
eq_ℤ (pos m) (negsuc n) = false
eq_ℤ (negsuc m) (pos n) = false

-- `allow[id]`
unfoldable pub allows : List ℤ → ℤ → Bool
allows [] id = false
allows (a ∷ l) id = let rest = allows l id in if eq_ℤ a id then true else rest

pub record Document : Type 0 where
  pub file_id : Text
  pub file_name : Text

pub record Message : Type 0 where
  pub from : Option ℤ
  pub chat : ℤ
  pub message_id : ℕ
  pub document : Option Document

-- What the bot does to the world.
pub data Effect : Type 0 where
  reply : ℤ → ℕ → Text → Effect
  run_command : Text → List Text → Bytes → Effect

-- The loop over the environment's keys: `--env K=V` for each key that is set.
unfoldable pub env_args : (Text → Text) → List Text → List Text
env_args getenv [] = []
env_args getenv (k ∷ ks) =
    let rest = env_args getenv ks in
    if getenv k == [] then rest else bytes "--env" ∷ ((k ++ (b'=' ∷ getenv k)) ∷ rest)

abbrev pub env_keys : List Text
env_keys =
    bytes "AWS_ACCESS_KEY_ID"
    ∷ (bytes "AWS_SECRET_ACCESS_KEY"
        ∷ (bytes "S3_ENDPOINT" ∷ (bytes "S3_BUCKET" ∷ (bytes "SAMOGON_S3_ROOT" ∷ []))))

-- The arguments of `gorn`.
unfoldable pub ignite_args : (Text → Text) → Document → List Text
ignite_args getenv doc =
    bytes "ignite"
    ∷ (bytes "--root"
        ∷ (bytes "samogon"
            ∷ (bytes "--descr"
                ∷ ((bytes "samogon fetch " ++ doc.file_name)
                    ∷ (bytes "--retry-error"
                        ∷ (env_args getenv env_keys
                            ++ (bytes "--" ∷ (bytes "samogon" ∷ (bytes "fetch" ∷ [])))))))))

-- The calls of the Telegram API, of net/http and of os/exec, an error being its text: the file's path,
-- the answer to a GET of its link, the body of the answer, and the output of the command.
pub record Telegram : Type 1 where
  pub Response : Type 0
  pub getenv : Text → Text
  pub get_file : Text → Text ⊎ Text
  pub link : Text → Text → Text
  pub http_get : Text → Text ⊎ Response
  pub read_all : Response → Text ⊎ Bytes
  pub run : Text → List Text → Bytes → Text ⊎ Text
  pub trim_space : Text → Text

module _ (telegram : Telegram) where
  -- `handleDocument`
  unfoldable pub handle_document : Config → Message → Document → List Effect
  handle_document cfg msg doc =
      let answer = reply msg.chat msg.message_id in
      elim (telegram.get_file doc.file_id) [
        | inl e ↦ answer (bytes "telegram getFile failed: " ++ e) ∷ []
        | inr path ↦ elim (telegram.http_get (telegram.link cfg.tg_token path)) [
          | inl e ↦ answer (bytes "download failed: " ++ e) ∷ []
          | inr response ↦ elim (telegram.read_all response) [
            | inl e ↦ answer (bytes "read failed: " ++ e) ∷ []
            | inr raw ↦
                let args = ignite_args telegram.getenv doc in
                run_command (bytes "gorn") args raw
                ∷ (elim (telegram.run (bytes "gorn") args raw) [
                  | inl e ↦ answer (bytes "ignite failed: " ++ e)
                  | inr out ↦ answer (
                      bytes "queued: "
                      ++ (doc.file_name ++ (bytes "  guid=" ++ telegram.trim_space out)))
                ]
                    ∷ [])
          ]
        ]
      ]

  -- A round of the loop of `runBot`.
  unfoldable pub handle_update : Config → List ℤ → Option Message → List Effect
  handle_update cfg allow none = []
  handle_update cfg allow (some msg) = elim msg.from [
    | none ↦ []
    | some id ↦
        if allows allow id
        then elim msg.document [
          | none ↦ reply msg.chat msg.message_id (bytes "send a .torrent file as a document") ∷ []
          | some doc ↦ handle_document cfg msg doc
        ]
        else reply msg.chat msg.message_id (bytes "not authorized") ∷ []
  ]

  unfoldable pub handle_updates : Config → List ℤ → List (Option Message) → List Effect
  handle_updates cfg allow [] = []
  handle_updates cfg allow (u ∷ us) = handle_update cfg allow u ++ handle_updates cfg allow us

  -- The loop of `parseAllowUsers`.
  unfoldable pub allow_loop : List Text → List ℤ → Exception ⊎ List ℤ
  allow_loop [] out = inr out
  allow_loop (part ∷ parts) out =
      let loop = allow_loop parts in
      let s = telegram.trim_space part in
      if s == []
      then loop out
      else elim (parse_int s) [ none ↦ inl (bad_user_id s) | some id ↦ loop (id ∷ out) ]

  unfoldable pub parse_allow_users : Text → Exception ⊎ List ℤ
  parse_allow_users csv = allow_loop (split_comma csv) []

  -- `runBot`, over the updates that arrive.
  unfoldable pub run_bot : Config → List (Option Message) → Exception ⊎ List Effect
  run_bot cfg updates = elim (parse_allow_users cfg.tg_allow_users) [
    | inl e ↦ inl e
    | inr allow ↦ elim allow [
      | [] ↦ inl no_allowed_user
      | a ∷ l ↦ inr (handle_updates cfg (a ∷ l) updates)
    ]
  ]
