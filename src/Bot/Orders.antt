-- ===== src/Bot/Orders.antt =====
-- Which commands bot.go runs, and for whom.
use mathlib.Core.Bool.{true≢false}
use mathlib.Core.Option.{some-injective, none-ne-some}
use mathlib.Core.Path.{subst}
use mathlib.Core.Sum.{inr-injective, inl-ne-inr}
use samogon.Base.{
  In, Text, Bytes, bytes, ◌==◌, ◌≡◌, ◌≢◌, refl, sym, ap, ◌∙◌, true, Bool-cases, Option-cases, List,
  [], ◌∷◌, ◌++◌, Option, none, some, ◌⊎◌, inl, inr, arith, eqb, ℕ, Sum-cases,
}
use samogon.Base.Int.{ℤ, pos, negsuc}
use samogon.Bot.{
  split_comma, parse_int, eq_ℤ, allows, Document, Message, Effect, reply, run_command, ignite_args,
  Telegram, handle_document, handle_update, handle_updates, allow_loop, parse_allow_users, run_bot,
}
use samogon.Bot.Arguments.{IsFetch, ignite_args-IsFetch}
use samogon.Config.{Config}

module _ (telegram : Telegram) (cfg : Config) where
  -- A document from a user whose number is in the list, whose body is what the command reads.
  pub record IsOrder (updates : List (Option Message)) (raw : Bytes) : Type 0 where
    pub msg : Message
    pub sent : In (some msg) updates
    pub id : ℤ
    pub sender : msg.from ≡ some id
    pub part : Text
    pub listed : In part (split_comma cfg.tg_allow_users)
    pub number : parse_int (telegram.trim_space part) ≡ some id
    pub doc : Document
    pub attached : msg.document ≡ some doc
    pub path : Text
    pub found : telegram.get_file doc.file_id ≡ inr path
    pub response : telegram.Response
    pub answered : telegram.http_get (telegram.link cfg.tg_token path) ≡ inr response
    pub body : telegram.read_all response ≡ inr raw

  eqb_lem : (m n : ℕ) → eqb m n ≡ true → m ≡ n
  eqb_lem m n e = ground arith

  eq_ℤ_lem : (a b : ℤ) → eq_ℤ a b ≡ true → a ≡ b
  eq_ℤ_lem (pos m) (pos n) e = ap pos (eqb_lem m n e)
  eq_ℤ_lem (negsuc m) (negsuc n) e = ap negsuc (eqb_lem m n e)
  eq_ℤ_lem (pos m) (negsuc n) e = absurd (true≢false (sym e))
  eq_ℤ_lem (negsuc m) (pos n) e = absurd (true≢false (sym e))

  -- Who is allowed was so before, or has a part of the list.
  allow_loop_lem :
      (parts : List Text) (out l : List ℤ) (id : ℤ)
      → allow_loop telegram parts out ≡ inr l
      → allows l id ≡ true
      → (allows out id ≡ true)
        ⊎ ((part : Text) × In part parts × (parse_int (telegram.trim_space part) ≡ some id))
  unfolding allow_loop allows
  allow_loop_lem [] out l id e a =
      inl (subst (λ (k : List ℤ). allows k id ≡ true) (sym (inr-injective out l e)) a)
  allow_loop_lem (part ∷ parts) out l id e a = elim (Bool-cases (telegram.trim_space part == [])) [
    | inl blank ↦ skip (allow_loop_lem parts out l id (rw (blank, allow_loop) at e) a)
    | inr given ↦ elim (Option-cases (parse_int (telegram.trim_space part))) [
      | inl bad ↦ absurd (inl-ne-inr (rw (given, bad, allow_loop) at e))
      | inr (n, good) ↦
          elim (allow_loop_lem parts (n ∷ out) l id (rw (given, good, allow_loop) at e) a) [
            | inr (p, there, number) ↦ inr (p, inr there, number)
            | inl now ↦ elim (Bool-cases (eq_ℤ n id)) [
              | inl same ↦ inr (part, inl refl, good ∙ ap some (eq_ℤ_lem n id same))
              | inr differs ↦ inl (rw (differs, allows) at now)
            ]
          ]
    ]
  ]
    where
      skip :
          (allows out id ≡ true)
            ⊎ ((p : Text) × In p parts × (parse_int (telegram.trim_space p) ≡ some id))
          → (allows out id ≡ true)
            ⊎ ((p : Text) × In p (part ∷ parts) × (parse_int (telegram.trim_space p) ≡ some id))
      skip (inl x) = inl x
      skip (inr (p, there, number)) = inr (p, inr there, number)

  In-append : {A : Type 0} (x : A) (xs ys : List A) → In x (xs ++ ys) → In x xs ⊎ In x ys
  In-append x [] ys i = inr i
  In-append x (y ∷ xs) ys (inl e) = inl (inl e)
  In-append x (y ∷ xs) ys (inr i) = elim (In-append x xs ys i) [
    | inl a ↦ inl (inr a)
    | inr b ↦ inr b
  ]

  abbrev Ordered : List (Option Message) → Text → List Text → Bytes → Type 0
  Ordered updates name args raw = (name ≡ bytes "gorn") × (IsFetch args × IsOrder updates raw)

  abbrev order_of : Effect → Option (Text × (List Text × Bytes))
  order_of (reply c m t) = none
  order_of (run_command name args raw) = some (name, (args, raw))

  run-ne-reply :
      (name : Text) (args : List Text) (raw : Bytes) (c : ℤ) (m : ℕ) (t : Text)
      → run_command name args raw ≢ reply c m t
  run-ne-reply name args raw c m t e = none-ne-some (name, (args, raw)) (sym (ap order_of e))

  handle_document-IsOrder :
      (name : Text) (args : List Text) (raw : Bytes) (updates : List (Option Message))
      (msg : Message) (id : ℤ) (part : Text) (doc : Document)
      → In (some msg) updates
      → msg.from ≡ some id
      → In part (split_comma cfg.tg_allow_users)
      → parse_int (telegram.trim_space part) ≡ some id
      → msg.document ≡ some doc
      → In (run_command name args raw) (handle_document telegram cfg msg doc)
      → Ordered updates name args raw
  unfolding handle_document
  handle_document-IsOrder name args raw updates msg id part doc sent sender listed number attached
        i =
      elim (Sum-cases (telegram.get_file doc.file_id)) [
        | inl (x, bad) ↦ only_reply (rw (bad, handle_document) at i)
        | inr (path, found) ↦
            elim (Sum-cases (telegram.http_get (telegram.link cfg.tg_token path))) [
              | inl (x, bad) ↦ only_reply (rw (found, bad, handle_document) at i)
              | inr (response, answered) ↦ elim (Sum-cases (telegram.read_all response)) [
                | inl (x, bad) ↦ only_reply (rw (found, answered, bad, handle_document) at i)
                | inr (body, got) ↦ elim (rw (found, answered, got, handle_document) at i) [
                  | inl e ↦
                      let same =
                        some-injective (name, (args, raw))
                          (bytes "gorn", (ignite_args telegram.getenv doc, body)) (ap order_of e) in
                      subst (λ (w : Text × (List Text × Bytes)). Ordered updates w.0 w.1.0 w.1.1)
                        (sym same)
                        (
                          refl,
                          (
                            ignite_args-IsFetch telegram doc,
                            record {
                              msg = msg;
                              sent = sent;
                              id = id;
                              sender = sender;
                              part = part;
                              listed = listed;
                              number = number;
                              doc = doc;
                              attached = attached;
                              path = path;
                              found = found;
                              response = response;
                              answered = answered;
                              body = got;
                            },
                          ),
                        )
                  | inr later ↦ absurd (
                      last_reply msg.chat msg.message_id (λ e. bytes "ignite failed: " ++ e)
                        (λ out.
                          bytes "queued: "
                          ++ (doc.file_name ++ (bytes "  guid=" ++ telegram.trim_space out)))
                        (telegram.run (bytes "gorn") (ignite_args telegram.getenv doc) body) later)
                ]
              ]
            ]
      ]
    where
      only_reply :
          {c : ℤ} {m : ℕ} {t : Text}
          → In (run_command name args raw) (reply c m t ∷ [])
          → Ordered updates name args raw
      only_reply (inl e) = absurd (run-ne-reply name args raw _ _ _ e)
      only_reply (inr bad) = absurd bad

      last_reply :
          (c : ℤ) (m : ℕ) (f g : Text → Text) (s : Text ⊎ Text)
          → ¬ In
              (run_command name args raw)
              (elim s [ inl e ↦ reply c m (f e) | inr out ↦ reply c m (g out) ] ∷ [])
      last_reply c m f g (inl e) (inl same) = run-ne-reply name args raw _ _ _ same
      last_reply c m f g (inr out) (inl same) = run-ne-reply name args raw _ _ _ same
      last_reply c m f g s (inr bad) = bad

  handle_update-IsOrder :
      (name : Text) (args : List Text) (raw : Bytes) (updates : List (Option Message))
      (allow : List ℤ) (u : Option Message)
      → parse_allow_users telegram cfg.tg_allow_users ≡ inr allow
      → In u updates
      → In (run_command name args raw) (handle_update telegram cfg allow u)
      → Ordered updates name args raw
  unfolding handle_update parse_allow_users allows
  handle_update-IsOrder name args raw updates allow none parsed sent i = absurd i
  handle_update-IsOrder name args raw updates allow (some msg) parsed sent i =
      elim (Option-cases msg.from) [
        | inl nobody ↦ absurd (rw (nobody, handle_update) at i)
        | inr (id, sender) ↦ elim (Bool-cases (allows allow id)) [
          | inr out ↦ only_reply (rw (sender, out, handle_update) at i)
          | inl in_ ↦
              elim (allow_loop_lem (split_comma cfg.tg_allow_users) [] allow id parsed in_) [
                | inl none_ ↦ absurd (true≢false (sym none_))
                | inr (part, listed, number) ↦ elim (Option-cases msg.document) [
                  | inl without ↦ only_reply (rw (sender, in_, without, handle_update) at i)
                  | inr (doc, attached) ↦
                      handle_document-IsOrder name args raw updates msg id part doc sent sender
                        listed number attached (rw (sender, in_, attached, handle_update) at i)
                ]
              ]
        ]
      ]
    where
      only_reply :
          {c : ℤ} {m : ℕ} {t : Text}
          → In (run_command name args raw) (reply c m t ∷ [])
          → Ordered updates name args raw
      only_reply (inl e) = absurd (run-ne-reply name args raw _ _ _ e)
      only_reply (inr bad) = absurd bad

  handle_updates-IsOrder :
      (name : Text) (args : List Text) (raw : Bytes) (updates rest : List (Option Message))
      (allow : List ℤ)
      → parse_allow_users telegram cfg.tg_allow_users ≡ inr allow
      → ((u : Option Message) → In u rest → In u updates)
      → In (run_command name args raw) (handle_updates telegram cfg allow rest)
      → Ordered updates name args raw
  unfolding handle_updates
  handle_updates-IsOrder name args raw updates [] allow parsed sent i = absurd i
  handle_updates-IsOrder name args raw updates (u ∷ us) allow parsed sent i =
      elim (In-append (run_command name args raw) (handle_update telegram cfg allow u)
        (handle_updates telegram cfg allow us) i) [
          | inl now ↦
              handle_update-IsOrder name args raw updates allow u parsed (sent u (inl refl)) now
          | inr later ↦
              handle_updates-IsOrder name args raw updates us allow parsed
                (λ v there. sent v (inr there)) later
        ]

  -- Every command that the bot runs, whatever the updates, is the program `gorn` with options and the one command
  -- `samogon fetch`, none of the options being "--" whatever the document's name and the environment are.
  -- It reads the body of a document that came in a message from a user whose number is in the list.
  pub run_bot-IsOrder :
      (updates : List (Option Message)) (effects : List Effect) (name : Text) (args : List Text)
      (raw : Bytes)
      → run_bot telegram cfg updates ≡ inr effects
      → In (run_command name args raw) effects
      → (name ≡ bytes "gorn") × (IsFetch args × IsOrder updates raw)
  unfolding run_bot
  run_bot-IsOrder updates effects name args raw e i =
      elim (Sum-cases (parse_allow_users telegram cfg.tg_allow_users)) [
        | inl (x, bad) ↦ absurd (inl-ne-inr (rw (bad, run_bot) at e))
        | inr ([], empty) ↦ absurd (inl-ne-inr (rw (empty, run_bot) at e))
        | inr (a ∷ l, parsed) ↦
            handle_updates-IsOrder name args raw updates updates (a ∷ l) parsed (λ u there. there)
              (subst (λ (es : List Effect). In (run_command name args raw) es)
                (sym (inr-injective _ effects (rw (parsed, run_bot) at e))) i)
      ]
