-- ===== src/Main/Exit.antt =====
-- When main.go exits with code 0.
use mathlib.Core.Bool.{true≢false}
use mathlib.Core.Path.{subst}
use samogon.Base.{
  Text, bytes, ◌==◌, ℕ, ◌≡◌, ◌≢◌, ◌↔◌, refl, sym, eq_true, eq_refl, eq_ne, text_dec, ap, ◌∙◌, Bool,
  true, false, Bool-cases, List, [], ◌∷◌, inl, inr, arith,
}
use samogon.Main.{
  Commands, Ending, exited, replaced, max_hashers_env, max_hashers_want, is_help, dispatch, finish,
  main,
}
use samogon.Throw.{Exception, Run, ok, thrown, crashed, try}

-- The three ways to ask for help.
pub data IsHelp : Text → Type 0 where
  short : IsHelp (bytes "-h")
  long : IsHelp (bytes "--help")
  word : IsHelp (bytes "help")

module _ {W : Type 0} (commands : Commands W) (getenv : Text → Text) where
  -- The command that each name stands for. A download runs only in a process with the variable set.
  pub data IsNamed : Text → (List Text → W → Run W (Unit {0})) → Type 0 where
    of_fetch : getenv max_hashers_env ≢ [] → IsNamed (bytes "fetch") commands.fetch
    of_serve : IsNamed (bytes "serve") commands.serve
    of_get : IsNamed (bytes "get") commands.get
    of_get2 : IsNamed (bytes "get2") commands.get2
    of_bench : IsNamed (bytes "bench") commands.bench
    of_repack : IsNamed (bytes "repack") commands.repack
    of_gc : IsNamed (bytes "gc") commands.gc
    of_bot : IsNamed (bytes "bot") commands.bot

  -- How a run of a program with these arguments reports success.
  pub data IsSuccess : List Text → W → W → Type 0 where
    helped : {sub : Text} {rest : List Text} {w : W} → IsHelp sub → IsSuccess (sub ∷ rest) w w
    done :
        {sub : Text} {command : List Text → W → Run W (Unit {0})} {rest : List Text} {w w' : W}
        → IsNamed sub command
        → command rest w ≡ ok tt w'
        → IsSuccess (sub ∷ rest) w w'

  exited_ne : (m n : ℕ) → m ≢ n → exited m ≢ exited n
  exited_ne m n differ e = differ (ap code e)
    where
      code : Ending → ℕ
      code (exited i) = i
      code (replaced k v) = 0

  is_help-IsHelp : (sub : Text) → is_help sub ≡ true → IsHelp sub
  is_help-IsHelp sub e = elim (Bool-cases (sub == bytes "-h")) [
    | inl a ↦ subst IsHelp (sym (eq_true sub _ a)) short
    | inr a ↦ elim (Bool-cases (sub == bytes "--help")) [
      | inl b ↦ subst IsHelp (sym (eq_true sub _ b)) long
      | inr b ↦ subst IsHelp (sym (eq_true sub _ (rw (a, b) at e))) word
    ]
  ]

  -- The switch finds the named command; of another name nothing returns.
  dispatch-IsNamed :
      (sub : Text) (rest : List Text) (w w' : W)
      → (sub ≡ bytes "fetch" → getenv max_hashers_env ≢ [])
      → dispatch commands sub rest w ≡ ok tt w'
      → IsSuccess (sub ∷ rest) w w'
  unfolding dispatch
  dispatch-IsNamed sub rest w w' env e = elim (Bool-cases (sub == bytes "fetch")) [
    | inl a ↦ named (eq_true sub _ a) (of_fetch (env (eq_true sub _ a))) (rw (a, dispatch) at e)
    | inr a ↦ elim (Bool-cases (sub == bytes "serve")) [
      | inl b ↦ named (eq_true sub _ b) of_serve (rw (a, b, dispatch) at e)
      | inr b ↦ elim (Bool-cases (sub == bytes "get")) [
        | inl c ↦ named (eq_true sub _ c) of_get (rw (a, b, c, dispatch) at e)
        | inr c ↦ elim (Bool-cases (sub == bytes "get2")) [
          | inl d ↦ named (eq_true sub _ d) of_get2 (rw (a, b, c, d, dispatch) at e)
          | inr d ↦ elim (Bool-cases (sub == bytes "bench")) [
            | inl f ↦ named (eq_true sub _ f) of_bench (rw (a, b, c, d, f, dispatch) at e)
            | inr f ↦ elim (Bool-cases (sub == bytes "repack")) [
              | inl g ↦ named (eq_true sub _ g) of_repack (rw (a, b, c, d, f, g, dispatch) at e)
              | inr g ↦ elim (Bool-cases (sub == bytes "gc")) [
                | inl h ↦ named (eq_true sub _ h) of_gc (rw (a, b, c, d, f, g, h, dispatch) at e)
                | inr h ↦ elim (Bool-cases (sub == bytes "bot")) [
                  | inl i ↦
                      named (eq_true sub _ i) of_bot (rw (a, b, c, d, f, g, h, i, dispatch) at e)
                  | inr i ↦ absurd (thrown-ne-ok (rw (a, b, c, d, f, g, h, i, dispatch) at e))
                ]
              ]
            ]
          ]
        ]
      ]
    ]
  ]
    where
      named :
          {name : Text} {command : List Text → W → Run W (Unit {0})}
          → sub ≡ name
          → IsNamed name command
          → command rest w ≡ ok tt w'
          → IsSuccess (sub ∷ rest) w w'
      named {command = command} same is run =
          done (subst (λ (x : Text). IsNamed x command) (sym same) is) run

      returned : Run W (Unit {0}) → Bool
      returned (ok a v) = true
      returned (thrown x v) = false
      returned (crashed v) = false

      thrown-ne-ok :
          {x : Exception} {v v' : W} → ◌≡◌ {A = Run W (Unit {0})} (thrown x v) (ok tt v') → ⊥
      thrown-ne-ok q = true≢false (sym (ap returned q))

  finish_lem :
      (sub : Text) (rest : List Text) (w w' : W) (r : Run W (Unit {0}))
      → (sub ≡ bytes "fetch" → getenv max_hashers_env ≢ [])
      → dispatch commands sub rest w ≡ r
      → ◌≡◌ {A = Ending × W} (finish commands (try r)) (exited 0, w')
      → IsSuccess (sub ∷ rest) w w'
  unfolding try
  finish_lem sub rest w w' (ok tt v) env run e =
      dispatch-IsNamed sub rest w w' env (run ∙ ap (ok tt) (ap (λ (x : Ending × W). x.1) e))
  finish_lem sub rest w w' (thrown x v) env run e =
      absurd (exited_ne 1 0 (λ z. omega (arith, z)) (ap (λ (x : Ending × W). x.0) e))
  finish_lem sub rest w w' (crashed v) env run e =
      absurd (exited_ne 2 0 (λ z. omega (arith, z)) (ap (λ (x : Ending × W). x.0) e))

  replaced-ne-exited : (k v : Text) (n : ℕ) → replaced k v ≢ exited n
  replaced-ne-exited k v n e = true≢false (ap is_replaced e)
    where
      is_replaced : Ending → Bool
      is_replaced (exited i) = false
      is_replaced (replaced x y) = true

  main-IsNamed :
      (exec : Bool) (args : List Text) (w w' : W)
      → ◌≡◌ {A = Ending × W} (main commands getenv exec args w) (exited 0, w')
      → IsSuccess args w w'
  unfolding main
  main-IsNamed exec [] w w' e =
      absurd (exited_ne 2 0 (λ z. omega (arith, z)) (ap (λ (x : Ending × W). x.0) e))
  main-IsNamed exec (sub ∷ rest) w w' e = elim (Bool-cases (is_help sub)) [
    | inl help ↦
        subst (IsSuccess (sub ∷ rest) w) (ap (λ (x : Ending × W). x.1) (rw (help, main) at e))
          (helped (is_help-IsHelp sub help))
    | inr other ↦ elim (Bool-cases (sub == bytes "fetch")) [
      | inr quick ↦
          finish_lem sub rest w w' (dispatch commands sub rest w)
            (λ same. absurd (true≢false (rw (same, eq_refl (bytes "fetch")) at quick))) refl
            (rw (other, quick, main) at e)
      | inl fetches ↦ elim (Bool-cases (getenv max_hashers_env == [])) [
        | inr set ↦
            finish_lem sub rest w w' (dispatch commands sub rest w)
              (λ _. λ unset.
                true≢false (sym (eq_refl []) ∙ (ap (λ (t : Text). t == []) (sym unset) ∙ set)))
              refl (rw (other, fetches, set, main) at e)
        | inl unset ↦ elim (Bool-cases exec) [
          | inl can ↦ absurd (
              replaced-ne-exited max_hashers_env max_hashers_want 0
                (ap (λ (x : Ending × W). x.0) (rw (other, fetches, unset, can, main) at e)))
          | inr cannot ↦ absurd (
              exited_ne 2 0 (λ z. omega (arith, z))
                (ap (λ (x : Ending × W). x.0) (rw (other, fetches, unset, cannot, main) at e)))
        ]
      ]
    ]
  ]

  finished :
      (w w' : W) (r : Run W (Unit {0}))
      → r ≡ ok tt w'
      → ◌≡◌ {A = Ending × W} (finish commands (try r)) (exited 0, w')
  unfolding try
  finished w w' r e = rw (e, try) refl

  IsSuccess-main :
      (exec : Bool) {args : List Text} {w w' : W}
      → IsSuccess args w w'
      → ◌≡◌ {A = Ending × W} (main commands getenv exec args w) (exited 0, w')
  unfolding main dispatch text_dec
  IsSuccess-main exec (helped short) = refl
  IsSuccess-main exec (helped long) = refl
  IsSuccess-main exec (helped word) = refl
  IsSuccess-main exec {w = w} {w' = w'} (done {rest = rest} (of_fetch set) run) =
      rw (eq_ne (getenv max_hashers_env) [] set) (finished w w' (commands.fetch rest w) run)
  IsSuccess-main exec {w = w} {w' = w'} (done {rest = rest} of_serve run) =
      finished w w' (commands.serve rest w) run
  IsSuccess-main exec {w = w} {w' = w'} (done {rest = rest} of_get run) =
      finished w w' (commands.get rest w) run
  IsSuccess-main exec {w = w} {w' = w'} (done {rest = rest} of_get2 run) =
      finished w w' (commands.get2 rest w) run
  IsSuccess-main exec {w = w} {w' = w'} (done {rest = rest} of_bench run) =
      finished w w' (commands.bench rest w) run
  IsSuccess-main exec {w = w} {w' = w'} (done {rest = rest} of_repack run) =
      finished w w' (commands.repack rest w) run
  IsSuccess-main exec {w = w} {w' = w'} (done {rest = rest} of_gc run) =
      finished w w' (commands.gc rest w) run
  IsSuccess-main exec {w = w} {w' = w'} (done {rest = rest} of_bot run) =
      finished w w' (commands.bot rest w) run

  -- The process exits with 0 if and only if its first argument asks for help, or names a command that
  -- returned, and then the state is the one that the command left. A download counts only in a process
  -- that has the variable of the hashers set.
  pub main-IsSuccess :
      (exec : Bool) (args : List Text) (w w' : W)
      → (◌≡◌ {A = Ending × W} (main commands getenv exec args w) (exited 0, w'))
        ↔ IsSuccess args w w'
  main-IsSuccess exec args w w' = (main-IsNamed exec args w w', IsSuccess-main exec)
