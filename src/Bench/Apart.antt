-- ===== src/Bench/Apart.antt =====
-- The benchmark of bench.go leaves torrents and pieces alone.
use mathlib.Core.List.{head-eq_of_cons-eq, tail-eq_of_cons-eq}
use samogon.Base.{
  Text, Bytes, ℕ, zero, suc, ◌+◌, ◌≡◌, ◌≢◌, refl, ◌∙◌, List, [], ◌∷◌, ◌++◌, replicate, arith, inl,
  inr,
}
use samogon.Bench.{Tally, bench_key, bench_worker, bench_workers, run_bench}
use samogon.Config.{Config, key_piece, key_torrent}
use samogon.Storage.{Storage}
use samogon.Storage.Client.{S3, IsLawful}
use samogon.Storage.Laws.{at, Reply-cases}

abbrev pub sum : List ℕ → ℕ
sum [] = 0
sum (n ∷ ns) = n + sum ns

module _ {S : S3} (L : IsLawful S) (decimal : ℕ → Text) (cfg : Config) where
  -- A key that the benchmark never writes.
  abbrev Foreign : Text → Type 0
  Foreign j = (gid m : ℕ) → j ≢ bench_key decimal cfg gid m

  bench_worker_lem :
      (rounds gid m : ℕ) (payload : Bytes) (t : Tally) (st : Storage S)
      → let r = bench_worker decimal cfg rounds gid m payload t st in
        (r.0.ops + r.0.errs ≡ t.ops + t.errs + rounds)
        × ((j : Text) → Foreign j → at L r.1 j ≡ at L st j)
  unfolding bench_worker
  bench_worker_lem zero gid m payload t st = (omega arith, λ j f. refl)
  bench_worker_lem (suc rounds) gid m payload t st =
      let key = bench_key decimal cfg gid m in
      let st' : Storage S = record st { s3 = (S.put_object key payload st.s3).1 } in
      elim (Reply-cases (S.put_object key payload st.s3).0) [
        | inl (_, e) ↦
            let (n, same) =
              bench_worker_lem rounds gid (suc m) payload (record t { ops = suc t.ops }) st' in
            rw (e, bench_worker)
              (omega (arith, n), λ j f. same j f ∙ L.put-contents_ne key payload st.s3 j (f gid m))
        | inr (_, e) ↦
            let (n, same) =
              bench_worker_lem rounds gid (suc m) payload (record t { errs = suc t.errs }) st' in
            rw (e, bench_worker)
              (omega (arith, n), λ j f. same j f ∙ L.put-contents_ne key payload st.s3 j (f gid m))
      ]

  bench_workers_lem :
      (rounds : List ℕ) (gid : ℕ) (payload : Bytes) (t : Tally) (st : Storage S)
      → let r = bench_workers decimal cfg rounds gid payload t st in
        (r.0.ops + r.0.errs ≡ t.ops + t.errs + sum rounds)
        × ((j : Text) → Foreign j → at L r.1 j ≡ at L st j)
  unfolding bench_workers
  bench_workers_lem [] gid payload t st = (omega arith, λ j f. refl)
  bench_workers_lem (n ∷ ns) gid payload t st =
      let (t', st') = bench_worker decimal cfg n gid 0 payload t st in
      let (one_, same) = bench_worker_lem n gid 0 payload t st in
      let (rest, later) = bench_workers_lem ns (suc gid) payload t' st' in
      (omega (arith, one_, rest), λ j f. later j f ∙ same j f)

  -- Behind the same root, texts that differ in their second byte.
  apart :
      (root : Text) (a b c d : ℕ) (s t : Text)
      → b ≢ d
      → root ++ (a ∷ (b ∷ s)) ≢ root ++ (c ∷ (d ∷ t))
  apart [] a b c d s t differ e = differ (head-eq_of_cons-eq (tail-eq_of_cons-eq e))
  apart (x ∷ root) a b c d s t differ e = apart root a b c d s t differ (tail-eq_of_cons-eq e)

  -- The benchmark changes no piece and no torrent, and counts each of the rounds of its workers once, as
  -- an operation or as an error.
  pub run_bench_lem :
      (rounds : List ℕ) (chunk_size : ℕ) (st : Storage S) (h : Text)
      → let r = run_bench decimal cfg rounds chunk_size st in
        (r.0.ops + r.0.errs ≡ sum rounds)
        × (at L r.1 (key_piece cfg h) ≡ at L st (key_piece cfg h))
        × (at L r.1 (key_torrent cfg h) ≡ at L st (key_torrent cfg h))
  unfolding run_bench bench_key key_piece key_torrent
  run_bench_lem rounds chunk_size st h =
      let (n, same) =
        bench_workers_lem rounds 0 (replicate chunk_size b'x') (record { ops = 0; errs = 0 }) st in
      (
        omega (arith, n),
        same (key_piece cfg h)
            (λ gid m. apart cfg.s3_root b'/' b'p' b'/' b'b' _ _ (λ e. omega (arith, e))),
        same (key_torrent cfg h)
            (λ gid m. apart cfg.s3_root b'/' b't' b'/' b'b' _ _ (λ e. omega (arith, e))),
      )
