-- ===== src/Bench/Split.antt =====
-- The records that jp_bench_data_prepare finds are those of the data.
use mathlib.Core.Option
use jpipe.Common.{
  ℕ, zero, suc, ◌+◌, ◌^◌, ◌≤◌, ◌<◌, ◌≡◌, refl, sym, ap, subst, ◌∙◌, inl, inr, false, List, [], ◌∷◌,
  ◌++◌, append_assoc, append-nil, Option, none, some, arith, ◌==◌, if◌then◌else◌, Bool-cases,
  length, take, drop, Bytes, All,
}
use jpipe.Writer.{memchr}
use jpipe.Bench.{
  separator, capacity_of, BenchData, store, chunk_loop, no_chunks, bench_data_prepare,
}

-- The parts of a text that a separator ends, behind a part of one.
unfoldable pub records : Bytes → Bytes → List Bytes
records part [] = []
records part (c ∷ s) = if c == separator then part ∷ records [] s else records (part ++ c ∷ []) s

-- The first separator splits a record off.
abbrev pub Splits : Bytes → Bytes → Option ℕ → Type 0
Splits part s none = (records part s ≡ []) × (capacity_of s ≡ 0)
Splits part s (some i) =
    (records part s ≡ (part ++ take i s) ∷ records [] (drop (suc i) s))
    × (capacity_of s ≡ suc (capacity_of (drop (suc i) s)))

memchr-Splits : (part s : Bytes) → Splits part s (memchr s separator)
unfolding memchr records capacity_of
memchr-Splits part [] = (refl, refl)
memchr-Splits part (c ∷ s) = elim (Bool-cases (c == separator)) [
  | inl here ↦ rw here (rw here (ap (λ p. p ∷ records [] s) (sym (append-nil part))), rw here refl)
  | inr other ↦ rw other (passed other (memchr s separator) (memchr-Splits (part ++ c ∷ []) s))
]
  where
    passed :
        (c == separator) ≡ false
        → (o : Option ℕ) → Splits (part ++ c ∷ []) s o
        → Splits part (c ∷ s) (Option.map suc o)
    passed other none h = rw other (h.0, h.1)
    passed other (some i) h = rw other (
      h.0 ∙ ap (λ p. p ∷ records [] (drop (suc i) s)) (append_assoc part (c ∷ []) (take i s)),
      h.1,
    )

-- `store` for some chunks.
abbrev pub stored : List Bytes → BenchData → BenchData
stored [] d = d
stored (chunk ∷ chunks) d = stored chunks (store chunk d)

chunk_loop-stored :
    (left : ℕ) (current : Bytes) (d : BenchData)
    → left ≡ capacity_of current
    → chunk_loop left current d ≡ stored (records [] current) d
unfolding chunk_loop
chunk_loop-stored zero current d e = full (memchr current separator) (memchr-Splits [] current)
  where
    full : (o : Option ℕ) → Splits [] current o → d ≡ stored (records [] current) d
    full none h = ap (λ chunks. stored chunks d) (sym h.0)
    full (some i) h = absurd (omega (arith, e, h.1))
chunk_loop-stored (suc left) [] d e = unfold records in refl
chunk_loop-stored (suc left) (c ∷ cs) d e =
    found (chunk_loop-stored left) (memchr (c ∷ cs) separator) (memchr-Splits [] (c ∷ cs))
  where
    found :
        ((rest : Bytes) (d' : BenchData)
          → left ≡ capacity_of rest
          → chunk_loop left rest d' ≡ stored (records [] rest) d')
        → (o : Option ℕ) → Splits [] (c ∷ cs) o
        → (elim o as (λ _. BenchData) [
          | none ↦ d
          | some i ↦ chunk_loop left (drop (suc i) (c ∷ cs)) (store (take i (c ∷ cs)) d)
        ])
          ≡ stored (records [] (c ∷ cs)) d
    found later none h = ap (λ chunks. stored chunks d) (sym h.0)
    found later (some i) h =
        later (drop (suc i) (c ∷ cs)) (store (take i (c ∷ cs)) d) (omega (arith, e, h.1))
        ∙ ap (λ chunks. stored chunks d) (sym h.0)

stored-chunks :
    (chunks : List Bytes) (d : BenchData) → (stored chunks d).chunks ≡ d.chunks ++ chunks
stored-chunks [] d = sym (append-nil d.chunks)
stored-chunks (chunk ∷ chunks) d =
    stored-chunks chunks (store chunk d) ∙ append_assoc d.chunks (chunk ∷ []) chunks

stored-chunk_size :
    (chunks : List Bytes) (d : BenchData)
    → d.chunk_size + length chunks < 2 ^ 64
    → (stored chunks d).chunk_size ≡ d.chunk_size + length chunks
stored-chunk_size [] d h = omega arith
stored-chunk_size (chunk ∷ chunks) d h =
    let later = stored-chunk_size chunks (store chunk d) (omega arith) in omega (arith, later)

stored-max :
    (chunks : List Bytes) (d : BenchData)
    → (d.max_chunk_size ≤ (stored chunks d).max_chunk_size)
      × All (λ chunk. length chunk ≤ (stored chunks d).max_chunk_size) chunks
stored-max [] d = (omega arith, tt)
stored-max (chunk ∷ chunks) d =
    let later = stored-max chunks (store chunk d) in
    (ground (arith, later.0), (ground (arith, later.0), later.1))

pub length-records : (part s : Bytes) → length (records part s) ≡ capacity_of s
unfolding records capacity_of
length-records part [] = refl
length-records part (c ∷ s) = ground (arith, length-records [] s, length-records (part ++ c ∷ []) s)

length-records_le : (part s : Bytes) → length (records part s) ≤ length s
unfolding records
length-records_le part [] = omega arith
length-records_le part (c ∷ s) =
    ground (arith, length-records_le [] s, length-records_le (part ++ c ∷ []) s)

-- For a file of less than 2^64 bytes, jp_bench_data_prepare stores exactly the records that the
-- byte 0x1E ends, in order; their number is the one that its first loop has counted, for which the
-- array is allocated, and none is longer than max_chunk_size.
pub bench_data_prepare-records :
    (data_ : Bytes)
    → length data_ < 2 ^ 64
    → ((bench_data_prepare data_).chunks ≡ records [] data_)
      × ((bench_data_prepare data_).chunk_size ≡ capacity_of data_)
      × All (λ chunk. length chunk ≤ (bench_data_prepare data_).max_chunk_size) (records [] data_)
unfolding bench_data_prepare
bench_data_prepare-records data_ small =
    let all = chunk_loop-stored (capacity_of data_) data_ no_chunks refl in
    let few = length-records_le [] data_ in
    (
      ap (λ d. d.chunks) all ∙ stored-chunks (records [] data_) no_chunks,
      ap (λ d. d.chunk_size) all
          ∙ omega (
            arith,
            stored-chunk_size (records [] data_) no_chunks (omega (arith, few)),
            length-records [] data_,
          ),
      subst (λ d. All (λ chunk. length chunk ≤ d.max_chunk_size) (records [] data_)) (sym all)
          (stored-max (records [] data_) no_chunks).1,
    )
