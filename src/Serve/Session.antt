-- ===== src/Serve/Session.antt =====
-- `handleSession` of serve.go: its two goroutines and the channel `accepted` between them.
use samogon.Base.{
  ℕ, suc, ◌+◌, ◌*◌, ◌≤◌, ◌<◌, not, Text, Bytes, bytes, ◌==◌, ◌≡◌, refl, sym, ap, ◌∙◌, Bool, true,
  false, ◌||◌, List, [], ◌∷◌, ◌++◌, map, drop, length, if◌then◌else◌, Option, none, some, ◌⊎◌, inl,
  inr, ltb, arith,
}
use mathlib.Core.Bool.{true≢false}
use mathlib.Core.List.{append_assoc}
use mathlib.Core.Path.{subst}
use samogon.Throw.{Exception, handshake}

-- `isSftpPayload`
unfoldable pub is_sftp_payload : Bytes → Bool
is_sftp_payload p = if ltb (length p) 4 then false else drop 4 p == bytes "sftp"

pub record Request : Type 0 where
  pub kind : Text
  pub payload : Bytes

-- The answer to a request.
unfoldable pub reply_to : Request → Bool
unfolding is_sftp_payload
reply_to r = if r.kind == bytes "subsystem" then is_sftp_payload r.payload else false

-- `handleConn`: the handshake's channels, by their types, each handled by `handleSession` or rejected.
unfoldable pub handle_conn : Option (List Text) → Exception ⊎ List Bool
handle_conn none = inl handshake
handle_conn (some channels) = inr (map (λ kind. kind == bytes "session") channels)

-- The goroutine that calls `handleSession`: it waits for `accepted`, serves sftp, or has returned.
pub data Main : Type 0 where
  waiting serving stopped : Main

-- The requests to come, those answered, the answers, whether the request goroutine is about to send,
-- whether a value is in `accepted`, and whether it is closed.
pub data Session : Type 0 where
  session : List Request → List Request → List Bool → Bool → Bool → Bool → Main → Session

abbrev pub opened : List Request → Session
opened requests = session requests [] [] false false false waiting

-- The steps of both goroutines. A send waits for room in `accepted`, which holds one value.
pub data SessionStep : Session → Session → Type 0 where
  handle :
      {r : Request} {left done : List Request} {replies : List Bool} {buffer : Bool} {main : Main}
      → SessionStep (session (r ∷ left) done replies false buffer false main) (
          session left
            (done ++ (r ∷ []))
            (replies ++ (reply_to r ∷ []))
            (reply_to r)
            buffer
            false
            main)
  send :
      {left done : List Request} {replies : List Bool} {closed : Bool} {main : Main}
      → SessionStep
          (session left done replies true false closed main)
          (session left done replies false true closed main)
  close :
      {done : List Request} {replies : List Bool} {buffer : Bool} {main : Main}
      → SessionStep
          (session [] done replies false buffer false main)
          (session [] done replies false buffer true main)
  receive :
      {left done : List Request} {replies : List Bool} {sending closed : Bool}
      → SessionStep
          (session left done replies sending true closed waiting)
          (session left done replies sending false closed serving)
  give_up :
      {left done : List Request} {replies : List Bool} {sending : Bool}
      → SessionStep
          (session left done replies sending false true waiting)
          (session left done replies sending false true stopped)

pub data SessionSteps : Session → Session → Type 0 where
  here : {s : Session} → SessionSteps s s
  later : {s t u : Session} → SessionSteps s t → SessionStep t u → SessionSteps s u

unfoldable pub any_sftp : List Request → Bool
any_sftp [] = false
any_sftp (r ∷ rs) = reply_to r || any_sftp rs

any_sftp-append :
    (rs : List Request) (r : Request) → any_sftp (rs ++ (r ∷ [])) ≡ any_sftp rs || reply_to r
unfolding any_sftp
any_sftp-append [] r = or_comm (reply_to r)
  where
    or_comm : (b : Bool) → b || false ≡ false || b
    or_comm true = refl
    or_comm false = refl
any_sftp-append (q ∷ rs) r = ap (◌||◌ (reply_to q)) (any_sftp-append rs r) ∙ or_assoc (reply_to q)
  where
    or_assoc : (b : Bool) → b || (any_sftp rs || reply_to r) ≡ (b || any_sftp rs) || reply_to r
    or_assoc true = refl
    or_assoc false = refl

map-append :
    (l : List Request) (r : Request)
    → map reply_to (l ++ (r ∷ [])) ≡ map reply_to l ++ (reply_to r ∷ [])
map-append [] r = refl
map-append (q ∷ l) r = ap (◌∷◌ (reply_to q)) (map-append l r)

-- What the waiting goroutine knows of the requests that were answered.
abbrev Knows : Main → Bool → Bool → Bool → Type 0
Knows waiting some_ pending closed = some_ ≡ pending
Knows serving some_ pending closed = some_ ≡ true
Knows stopped some_ pending closed = (some_ ≡ false) × (closed ≡ true)

abbrev IsClosed : Bool → List Request → Bool → Type 0
IsClosed true left sending = (left ≡ []) × (sending ≡ false)
IsClosed false left sending = Unit

abbrev Valid : List Request → Session → Type 0
Valid requests (session left done replies sending buffer closed main) =
    (done ++ left ≡ requests)
    × (replies ≡ map reply_to done)
    × Knows main (any_sftp done) (buffer || sending) closed
    × IsClosed closed left sending

SessionStep-Valid :
    (requests : List Request) {s t : Session}
    → SessionStep s t
    → Valid requests s
    → Valid requests t
SessionStep-Valid requests (handle {r} {left} {done} {replies} {buffer} {main})
      (all, answers, knows, _) =
    (
      append_assoc done (r ∷ []) left ∙ all,
      ap (λ (l : List Bool). l ++ (reply_to r ∷ [])) answers ∙ sym (map-append done r),
      more main knows,
      tt,
    )
  where
    or_false : (b : Bool) → b || false ≡ b
    or_false true = refl
    or_false false = refl

    more :
        (main : Main)
        → Knows main (any_sftp done) (buffer || false) false
        → Knows main (any_sftp (done ++ (r ∷ []))) (buffer || reply_to r) false
    more waiting e =
        any_sftp-append done r ∙ ap (λ (b : Bool). b || reply_to r) (e ∙ or_false buffer)
    more serving e = any_sftp-append done r ∙ ap (λ (b : Bool). b || reply_to r) e
    more stopped (_, bad) = absurd (true≢false (sym bad))
SessionStep-Valid requests (send {closed = true}) (_, _, _, (_, bad)) = absurd (true≢false bad)
SessionStep-Valid requests (send {closed = false} {main = waiting}) (all, answers, knows, _) =
    (all, answers, knows, tt)
SessionStep-Valid requests (send {closed = false} {main = serving}) (all, answers, knows, _) =
    (all, answers, knows, tt)
SessionStep-Valid requests (send {closed = false} {main = stopped}) (_, _, (_, bad), _) =
    absurd (true≢false (sym bad))
SessionStep-Valid requests (close {main = waiting}) (all, answers, knows, _) =
    (all, answers, knows, (refl, refl))
SessionStep-Valid requests (close {main = serving}) (all, answers, knows, _) =
    (all, answers, knows, (refl, refl))
SessionStep-Valid requests (close {main = stopped}) (all, answers, (knows, bad), _) =
    absurd (true≢false (sym bad))
SessionStep-Valid requests receive v = v
SessionStep-Valid requests give_up (all, answers, knows, (nothing, quiet)) =
    (all, answers, (knows ∙ quiet, refl), (nothing, quiet))

SessionSteps-Valid :
    (requests : List Request) {s : Session} → SessionSteps (opened requests) s → Valid requests s
unfolding any_sftp
SessionSteps-Valid requests run = go run refl
  where
    go : {o s : Session} → SessionSteps o s → o ≡ opened requests → Valid requests s
    go here e = subst (Valid requests) (sym e) (refl, refl, refl, tt)
    go (later run step) e = SessionStep-Valid requests step (go run e)

-- What a goroutine that no longer waits may have been told.
abbrev pub Told : Main → List Request → Bool → Type 0
Told waiting left some_ = Unit
Told serving left some_ = some_ ≡ true
Told stopped left some_ = (some_ ≡ false) × (left ≡ [])

-- In every interleaving of the two goroutines, the requests are answered in order, each with whether it
-- asks for sftp. A session that is served has answered such a request, and one that returned without
-- serving has answered all requests and none of them was such.
pub SessionSteps-Told :
    (requests left done : List Request) (replies : List Bool) (sending buffer closed : Bool)
    (main : Main)
    → SessionSteps (opened requests) (session left done replies sending buffer closed main)
    → (done ++ left ≡ requests) × (replies ≡ map reply_to done) × Told main left (any_sftp done)
SessionSteps-Told requests left done replies sending buffer closed waiting run =
    let (all, answers, _, _) = SessionSteps-Valid requests run in (all, answers, tt)
SessionSteps-Told requests left done replies sending buffer closed serving run =
    let (all, answers, knows, _) = SessionSteps-Valid requests run in (all, answers, knows)
SessionSteps-Told requests left done replies sending buffer closed stopped run =
    let (all, answers, (knows, shut), closing) = SessionSteps-Valid requests run in
    (all, answers, (knows, (subst (λ (c : Bool). IsClosed c left sending) shut closing).0))

-- The steps that are left at most.
abbrev weight : Bool → ℕ → ℕ
weight true n = n
weight false n = 0

abbrev measure : Session → ℕ
measure (session left done replies sending buffer closed main) =
    length left * 3
    + weight sending 2
    + weight buffer 1
    + weight (not closed) 1
    + elim main [ waiting ↦ 1 | serving ↦ 0 | stopped ↦ 0 ]

weight_le : (b : Bool) (n : ℕ) → weight b n ≤ n
weight_le true n = omega arith
weight_le false n = omega arith

SessionStep-measure : {s t : Session} → SessionStep s t → measure t < measure s
SessionStep-measure (handle {r} {left} {main = waiting}) = omega (arith, weight_le (reply_to r) 2)
SessionStep-measure (handle {r} {left} {main = serving}) = omega (arith, weight_le (reply_to r) 2)
SessionStep-measure (handle {r} {left} {main = stopped}) = omega (arith, weight_le (reply_to r) 2)
SessionStep-measure send = omega arith
SessionStep-measure close = omega arith
SessionStep-measure receive = omega arith
SessionStep-measure give_up = omega arith

-- The number of steps of a run.
unfoldable pub count : {s t : Session} → SessionSteps s t → ℕ
count here = 0
count (later run step) = suc (count run)

count-measure : {s t : Session} (run : SessionSteps s t) → count run + measure t ≤ measure s
unfolding count
count-measure here = omega arith
count-measure (later run step) = omega (arith, count-measure run, SessionStep-measure step)

can_go_on :
    (left done : List Request) (replies : List Bool) (sending buffer closed : Bool)
    → (t : Session) × SessionStep (session left done replies sending buffer closed waiting) t
can_go_on left done replies sending true closed = (_, receive)
can_go_on left done replies sending false true = (_, give_up)
can_go_on left done replies true false false = (_, send)
can_go_on [] done replies false false false = (_, close)
can_go_on (r ∷ left) done replies false false false = (_, handle)

-- The session decides: every interleaving of the two goroutines has at most three steps for each request
-- and two more, and as long as the session waits one of the two can make a step.
pub count-le-requests :
    (requests left done : List Request) (replies : List Bool) (sending buffer closed : Bool)
    (run : SessionSteps (opened requests) (session left done replies sending buffer closed waiting))
    → (count run ≤ length requests * 3 + 2)
      × (t : Session) × SessionStep (session left done replies sending buffer closed waiting) t
count-le-requests requests left done replies sending buffer closed run =
    let (t, step) = can_go_on left done replies sending buffer closed in
    (omega (arith, count-measure run), t, step)
