-- ===== src/Bench.antt =====
-- bench.go: the objects that the workers write, and the counters.
pub mod Apart
use samogon.Base.{Text, Bytes, bytes, ℕ, zero, suc, ◌+◌, List, [], ◌∷◌, ◌++◌, replicate}
use samogon.Config.{Config}
use samogon.Storage.{Storage}
use samogon.Storage.Client.{S3, success, failure}

-- The counters that the workers share.
pub record Tally : Type 0 where
  pub ops : ℕ
  pub errs : ℕ

-- The key of an object; `decimal` is what package fmt prints for a number.
unfoldable pub bench_key : (ℕ → Text) → Config → ℕ → ℕ → Text
bench_key decimal cfg gid m =
    cfg.s3_root ++ (bytes "/bench/" ++ (decimal gid ++ (bytes "." ++ decimal m)))

module _ {S : S3} (decimal : ℕ → Text) (cfg : Config) where
  -- `benchWorker` from its `m`th object on, with the rounds that it makes before the deadline.
  unfoldable pub bench_worker : ℕ → ℕ → ℕ → Bytes → Tally → Storage S → Tally × Storage S
  bench_worker zero gid m payload t st = (t, st)
  bench_worker (suc rounds) gid m payload t st =
      let (r, s') = S.put_object (bench_key decimal cfg gid m) payload st.s3 in
      let t' : Tally = elim r [
        | success _ ↦ record t { ops = suc t.ops }
        | failure _ ↦ record t { errs = suc t.errs }
      ] in
      bench_worker rounds gid (suc m) payload t' (record st { s3 = s' })

  -- The workers of `runBench`, the first being `gid`, each with its rounds.
  unfoldable pub bench_workers : List ℕ → ℕ → Bytes → Tally → Storage S → Tally × Storage S
  bench_workers [] gid payload t st = (t, st)
  bench_workers (rounds ∷ more) gid payload t st =
      let (t', st') = bench_worker rounds gid 0 payload t st in
      bench_workers more (suc gid) payload t' st'

  -- `runBench`, with objects of `chunk_size` bytes.
  unfoldable pub run_bench : List ℕ → ℕ → Storage S → Tally × Storage S
  run_bench rounds chunk_size st =
      bench_workers rounds 0 (replicate chunk_size b'x') (record { ops = 0; errs = 0 }) st
