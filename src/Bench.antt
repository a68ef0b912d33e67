-- ===== src/Bench.antt =====
-- bench/lib/bench.c: the timer, and the file of records that the benchmarks run on.
pub mod Split
pub mod Timer
pub mod Encode
pub mod Queue
mod Tests
use jpipe.Common.{
  ℕ, zero, suc, ◌+◌, ◌*◌, ◌-◌, ◌%◌, ◌^◌, Bool, List, [], ◌∷◌, ◌++◌, Option, none, some, ◌==◌, ltb,
  if◌then◌else◌, length, take, drop, Bytes, add_size,
}
use jpipe.Writer.{memchr}

-- `struct timespec`.
pub record Timespec : Type 0 where
  pub tv_sec : ℕ
  pub tv_nsec : ℕ

-- The sum of `jp_bench_stop` on the two times: a borrow where the nanoseconds would be negative. The product and
-- the sum are of `uint64_t`, and `seconds` is converted to it.
unfoldable pub elapsed_ns : Timespec → Timespec → ℕ
elapsed_ns start end =
    if ltb end.tv_nsec start.tv_nsec
    then ((end.tv_sec + 2 ^ 64 - start.tv_sec - 1) * 1000000000
        + (end.tv_nsec + 1000000000 - start.tv_nsec))
      % 2 ^ 64
    else ((end.tv_sec + 2 ^ 64 - start.tv_sec) * 1000000000 + (end.tv_nsec - start.tv_nsec))
      % 2 ^ 64

-- `jp_bench_t`.
pub record BenchRun : Type 0 where
  pub start : Timespec
  pub end : Timespec
  pub total_ns : ℕ
  pub iterations : ℕ
  pub name : Bytes

-- `jp_bench_start` and `jp_bench_stop`, with the time that `clock_gettime` gives.
abbrev pub bench_start : Bytes → ℕ → Timespec → BenchRun → BenchRun
bench_start name iterations now bench = record bench {
  name = name;
  iterations = iterations;
  total_ns = 0;
  start = now;
}

abbrev pub bench_stop : Timespec → BenchRun → BenchRun
bench_stop now bench = record bench { end = now; total_ns = elapsed_ns bench.start now }

-- The byte behind each record.
abbrev pub separator : ℕ
separator = 0x1E

-- The loop that counts the separators.
unfoldable pub capacity_of : Bytes → ℕ
capacity_of [] = 0
capacity_of (c ∷ p) = let rest = capacity_of p in if c == separator then suc rest else rest

-- `chunks` as the ranges that `buffer` and `length` give; `chunk_size` is their number.
pub record BenchData : Type 0 where
  pub chunks : List Bytes
  pub chunk_size : ℕ
  pub max_chunk_size : ℕ

abbrev pub store : Bytes → BenchData → BenchData
store chunk d = record {
  chunks = d.chunks ++ chunk ∷ [];
  chunk_size = add_size d.chunk_size 1;
  max_chunk_size = if ltb d.max_chunk_size (length chunk) then length chunk else d.max_chunk_size;
}

-- The loop that stores the records, on the slots that are left in `chunks`; `current` is the rest of
-- the data.
unfoldable pub chunk_loop : ℕ → Bytes → BenchData → BenchData
chunk_loop zero current d = d
chunk_loop (suc left) [] d = d
chunk_loop (suc left) (c ∷ cs) d = elim (memchr (c ∷ cs) separator) [
  | none ↦ d
  | some i ↦ chunk_loop left (drop (suc i) (c ∷ cs)) (store (take i (c ∷ cs)) d)
]

abbrev pub no_chunks : BenchData
no_chunks = record { chunks = []; chunk_size = 0; max_chunk_size = 0 }

-- `jp_bench_data_prepare`, on the bytes of the file.
unfoldable pub bench_data_prepare : Bytes → BenchData
bench_data_prepare data_ = chunk_loop (capacity_of data_) data_ no_chunks
