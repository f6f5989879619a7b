-- ===== src/Gc/Pool.antt =====
-- `pmap` of gc.go as a step relation: the sends, the workers, and the wait for them. A send on the
-- unbuffered channel is a step together with the receipt, by a worker that is in no call of `fn`.
use mathlib.Core.List.{Perm, perm_middle, append-nil}
use mathlib.Core.List.Perm
use mathlib.Core.Path.{subst}
use samogon.Base.{
  ℕ, suc, ◌+◌, ◌≤◌, ◌<◌, ◌≡◌, refl, sym, ap, ◌∙◌, ◌⊎◌, inl, inr, Bool, true, false, List, [], ◌∷◌,
  ◌++◌, length, length-append, arith,
}

-- The items still to send, those that a worker is in `fn` with, those that `fn` returned for, and
-- whether the channel is closed.
pub data Pool {ℓ} (A : Type ℓ) : Type ℓ where
  pool : List A → List A → List A → Bool → Pool A

abbrev pub fresh_pool {ℓ} : {A : Type ℓ} → List A → Pool A
fresh_pool items = pool items [] [] false

pub data PoolStep {ℓ} {A : Type ℓ} (workers : ℕ) : Pool A → Pool A → Type ℓ where
  send :
      {item : A} {items busy done : List A}
      → length busy < workers
      → PoolStep workers (pool (item ∷ items) busy done false) (pool items (item ∷ busy) done false)
  return :
      {items busy done : List A} {closed : Bool} (item : A) (before after : List A)
      → busy ≡ before ++ (item ∷ after)
      → PoolStep workers
          (pool items busy done closed)
          (pool items (before ++ after) (item ∷ done) closed)
  close_jobs :
      {busy done : List A} → PoolStep workers (pool [] busy done false) (pool [] busy done true)

-- So many steps, one after the other.
pub data PoolRun {ℓ} {A : Type ℓ} (workers : ℕ) : ℕ → Pool A → Pool A → Type ℓ where
  at_start : {p : Pool A} → PoolRun workers 0 p p
  then_step :
      {n : ℕ} {p q r : Pool A}
      → PoolRun workers n p q
      → PoolStep workers q r
      → PoolRun workers (suc n) p r

-- `wg.Wait()` returns: the channel is closed and no worker is in a call.
abbrev pub IsOver {ℓ} : {A : Type ℓ} → Pool A → Type ℓ
IsOver (pool items busy done closed) = (closed ≡ true) × (busy ≡ [])

abbrev pub returned {ℓ} : {A : Type ℓ} → Pool A → List A
returned (pool items busy done closed) = done

abbrev one_if_open : Bool → ℕ
one_if_open true = 0
one_if_open false = 1

module _ {ℓ} {A : Type ℓ} (workers : ℕ) where
  abbrev everything : Pool A → List A
  everything (pool items busy done closed) = items ++ (busy ++ done)

  -- How many steps are left: two for an item to send, one for an item in a call, one for the close.
  abbrev left : Pool A → ℕ
  left (pool items busy done closed) =
      length items + length items + length busy + one_if_open closed

  -- A closed channel has nothing to send.
  abbrev Sent : Pool A → Type ℓ
  Sent (pool items busy done closed) = closed ≡ true → items ≡ []

  step-Perm : {p q : Pool A} → PoolStep workers p q → Perm (everything q) (everything p)
  step-Perm (send {item} {items} {busy} {done} free) = perm_middle items (busy ++ done)
  step-Perm (return {items} {busy} {done} item before after at_) = Perm.append_left items (
      Perm.trans (perm_middle (before ++ after) done) (
        Perm.symm (
          subst (λ (l : List A). Perm (l ++ done) (item ∷ ((before ++ after) ++ done))) (sym at_)
            (Perm.append_right done (perm_middle before after)))))
  step-Perm close_jobs = Perm.refl _

  step-left : {p q : Pool A} → PoolStep workers p q → left p ≡ suc (left q)
  step-left (send free) = omega arith
  step-left (return item before after at_) =
      omega (arith, ap length at_, length-append before (item ∷ after), length-append before after)
  step-left close_jobs = omega arith

  step-Sent : {p q : Pool A} → PoolStep workers p q → Sent p → Sent q
  step-Sent (send free) sent = λ e. cc
  step-Sent (return item before after at_) sent = sent
  step-Sent close_jobs sent = λ e. refl

  -- What every run has kept.
  abbrev RunKept : ℕ → Pool A → Pool A → Type ℓ
  RunKept n p q = Perm (everything q) (everything p) × ((left p ≡ n + left q) × Sent q)

  run-Kept : {n : ℕ} {p q : Pool A} → PoolRun workers n p q → Sent p → RunKept n p q
  run-Kept at_start sent = (Perm.refl _, (omega arith, sent))
  run-Kept (then_step run step) sent =
      let (perm, (count, sent')) = run-Kept run sent in
      (
        Perm.trans (step-Perm step) perm,
        (omega (arith, count, step-left step), step-Sent step sent'),
      )

  open-Sent : (items : List A) → Sent (fresh_pool items)
  open-Sent items e = cc

  -- Whatever the order of the sends and the returns, when `pmap` over some items returns, `fn` has
  -- returned for each of them once, and the run had two steps for each item and one more.
  pub pmap-Perm :
      (items : List A) (n : ℕ) (p : Pool A)
      → PoolRun workers n (fresh_pool items) p
      → IsOver p
      → Perm (returned p) items × (n ≡ length items + length items + 1)
  pmap-Perm items n (pool rest busy done closed) run (shut, idle) =
      let (perm, (count, sent)) = run-Kept run (open-Sent items) in
      let same : rest ++ (busy ++ done) ≡ done =
        ap (λ (l : List A). l ++ (busy ++ done)) (sent shut)
        ∙ ap (λ (l : List A). l ++ done) idle in
      (
        subst (Perm done) (append-nil items)
            (subst (λ (l : List A). Perm l (items ++ [])) same perm),
        omega (arith, count, ap length (sent shut), ap length idle, ap one_if_open shut),
      )

  -- With at least one worker `pmap` never stands still before it is over, and it ends: a run has at
  -- most two steps for each item, and one more.
  pub pmap-ends :
      (items : List A) (n : ℕ) (p : Pool A)
      → 0 < workers
      → PoolRun workers n (fresh_pool items) p
      → (IsOver p ⊎ ((q : Pool A) × PoolStep workers p q)) × (n ≤ length items + length items + 1)
  pmap-ends items n p some_worker run =
      let (perm, (count, sent)) = run-Kept run (open-Sent items) in
      (goes_on p, omega (arith, count))
    where
      goes_on : (p : Pool A) → IsOver p ⊎ ((q : Pool A) × PoolStep workers p q)
      goes_on (pool items (item ∷ busy) done closed) =
          inr (pool items busy (item ∷ done) closed, return item [] busy refl)
      goes_on (pool (item ∷ items) [] done false) =
          inr (pool items (item ∷ []) done false, send some_worker)
      goes_on (pool [] [] done false) = inr (pool [] [] done true, close_jobs)
      goes_on (pool items [] done true) = inl (refl, refl)
