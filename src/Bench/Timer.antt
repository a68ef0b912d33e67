-- ===== src/Bench/Timer.antt =====
-- The timer of bench/lib/bench.c.
use jpipe.Common.{
  ℕ, ◌+◌, ◌*◌, ◌^◌, ◌≤◌, ◌<◌, ◌≡◌, refl, Bytes, inl, inr, arith, ltb, ltb→lt, Bool-cases,
}
use jpipe.Bench.{Timespec, BenchRun, elapsed_ns, bench_start, bench_stop}

abbrev pub nanoseconds : Timespec → ℕ
nanoseconds t = t.tv_sec * 1000000000 + t.tv_nsec

-- Two times in order, less than 2^64 nanoseconds from one another, are told apart by their difference.
elapsed_ns-nanoseconds :
    (start end : Timespec)
    → start.tv_nsec < 1000000000
    → end.tv_nsec < 1000000000
    → nanoseconds start ≤ nanoseconds end
    → nanoseconds end < nanoseconds start + 2 ^ 64
    → nanoseconds start + elapsed_ns start end ≡ nanoseconds end
unfolding elapsed_ns
elapsed_ns-nanoseconds start end a b ordered near =
    elim (Bool-cases (ltb end.tv_nsec start.tv_nsec)) [
      | inl borrow ↦ rw borrow (omega (arith, ltb→lt _ _ borrow))
      | inr plain ↦ rw plain (ground arith)
    ]

-- A run that is started and stopped at two such times has the time between them as its total, whatever the
-- record held before, and keeps its name and its iterations.
bench_stop-bench_start :
    (name : Bytes) (iterations : ℕ) (start end : Timespec) (bench : BenchRun)
    → start.tv_nsec < 1000000000
    → end.tv_nsec < 1000000000
    → nanoseconds start ≤ nanoseconds end
    → nanoseconds end < nanoseconds start + 2 ^ 64
    → let run = bench_stop end (bench_start name iterations start bench) in
      (nanoseconds start + run.total_ns ≡ nanoseconds end)
      × (run.name ≡ name)
      × (run.iterations ≡ iterations)
bench_stop-bench_start name iterations start end bench a b ordered near =
    (elapsed_ns-nanoseconds start end a b ordered near, refl, refl)
