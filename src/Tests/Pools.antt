-- ===== src/Tests/Pools.antt =====
-- A run of `pmap` with two workers over two items, the second of which returns last.
use mathlib.Core.List.{Perm}
use samogon.Base.{ℕ, ◌+◌, ◌≤◌, ◌≡◌, refl, ◌⊎◌, List, [], ◌∷◌, length, true, false, arith}
use samogon.Gc.Pool.{
  Pool, pool, fresh_pool, PoolStep, send, return, close_jobs, PoolRun, at_start, then_step, IsOver,
  pmap-Perm, pmap-ends,
}

abbrev two_items : List ℕ
two_items = 7 ∷ 8 ∷ []

abbrev both_sent : Pool ℕ
both_sent = pool [] (8 ∷ 7 ∷ []) [] false

abbrev all_done : Pool ℕ
all_done = pool [] [] (8 ∷ 7 ∷ []) true

sends : PoolRun 2 2 (fresh_pool two_items) both_sent
sends = then_step (then_step at_start (send (omega arith))) (send (omega arith))

whole_run : PoolRun 2 5 (fresh_pool two_items) all_done
whole_run =
    then_step (then_step (then_step sends (return 7 (8 ∷ []) [] refl)) (return 8 [] [] refl))
      close_jobs

pmap-Perm_example : Perm (8 ∷ 7 ∷ []) two_items × (5 ≡ length two_items + length two_items + 1)
pmap-Perm_example = pmap-Perm 2 two_items 5 all_done whole_run (refl, refl)

pmap-ends_example :
    (IsOver both_sent ⊎ ((q : Pool ℕ) × PoolStep 2 both_sent q))
    × (2 ≤ length two_items + length two_items + 1)
pmap-ends_example = pmap-ends 2 two_items 2 both_sent (omega arith) sends
