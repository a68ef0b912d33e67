-- ===== src/Bench/Encode.antt =====
-- bench/json.c: the benchmark of the value encoder on the records of a file.
use jpipe.Common.{
  ℕ, zero, suc, ◌*◌, ◌%◌, ◌^◌, ◌≤◌, ◌<◌, ◌≡◌, sym, ap, subst, ◌∙◌, inl, inr, false, Bool-cases,
  if◌then◌else◌, List, [], ◌∷◌, ◌++◌, Option, none, some, arith, ◌==◌, length, get_or, Bytes, All,
  All-append, IsByte,
}
use mathlib.Core.Option
use native.Mathlib.Nat.{mod-lt}
use jpipe.Bench.{separator, BenchData, capacity_of, bench_data_prepare}
use jpipe.Bench.Split.{records, bench_data_prepare-records, length-records}
use jpipe.Json.Escape.{Output, json_value_encoder}
use jpipe.Json.Escape.Bounds.{IsBufferSize}
use jpipe.Json.Escape.Decode.{unescape}
use jpipe.Json.Escape.RoundTrip.{unescape-json_value_encoder}

-- `dest_buffer_length`.
abbrev pub dest_buffer_length : BenchData → ℕ
dest_buffer_length d = d.max_chunk_size * 6 % 2 ^ 64

-- `bench_data->chunks[i % bench_data->chunk_size]`.
abbrev pub chunk_of : BenchData → ℕ → Bytes
chunk_of d i = get_or d.chunks (i % d.chunk_size) []

-- `dest_buffer`, by its size: `jp_mem_malloc` of src/memory.c rules out a size of 0, which is `none`.
unfoldable pub dest_buffer : BenchData → Option ℕ
dest_buffer d = if dest_buffer_length d == 0 then none else some (dest_buffer_length d)

-- A round of `bench_json_value_encoder` on the buffer that is allocated in front of the rounds.
unfoldable pub encode_round : BenchData → ℕ → Option Output
encode_round d i = Option.map (json_value_encoder (chunk_of d i)) (dest_buffer d)

get_or-All :
    (P : Bytes → Type 0) (xs : List Bytes) (n : ℕ) → All P xs → n < length xs → P (get_or xs n [])
get_or-All P [] n h less = absurd (omega arith)
get_or-All P (x ∷ xs) zero h less = h.0
get_or-All P (x ∷ xs) (suc n) h less = get_or-All P xs n h.1 (omega arith)

records-IsByte :
    (part s : Bytes)
    → All IsByte part
    → All IsByte s
    → All (λ chunk. All IsByte chunk) (records part s)
unfolding records
records-IsByte part [] h k = tt
records-IsByte part (c ∷ s) h k = elim (Bool-cases (c == separator)) [
  | inl here ↦ rw here (h, records-IsByte [] s tt k.1)
  | inr other ↦
      rw other (records-IsByte (part ++ c ∷ []) s (All-append IsByte part (c ∷ []) h (k.0, tt)) k.1)
]

-- For a file of less than 2^64 bytes with a byte 0x1E and a record that is not empty, six times
-- whose longest record is a size that an object can have, round i of the encoder benchmark has a
-- buffer and encodes the whole of record i modulo n, of the n records that the bytes 0x1E end: a
-- reader of JSON strings reads that record back.
pub encode_round-unescape :
    (data_ : Bytes) (i : ℕ)
    → length data_ < 2 ^ 64
    → All IsByte data_
    → 0 < capacity_of data_
    → 0 < (bench_data_prepare data_).max_chunk_size
    → IsBufferSize ((bench_data_prepare data_).max_chunk_size * 6)
    → (o : Output) × (encode_round (bench_data_prepare data_) i ≡ some o)
      × (unescape o.dst ≡ some (get_or (records [] data_) (i % capacity_of data_) []))
unfolding encode_round dest_buffer
encode_round-unescape data_ i small bytes some_record not_empty size =
    let d = bench_data_prepare data_ in
    let found = bench_data_prepare-records data_ small in
    let inside : i % d.chunk_size < length d.chunks = omega (
      arith,
      mod-lt i (subst (λ n. 0 < n) (sym found.1) some_record),
      ap length found.0,
      found.1,
      length-records [] data_,
    ) in
    let is_bytes =
      get_or-All (λ chunk. All IsByte chunk) d.chunks (i % d.chunk_size)
        (subst (All (λ chunk. All IsByte chunk)) (sym found.0) (records-IsByte [] data_ tt bytes))
        inside in
    let is_short =
      get_or-All (λ chunk. length chunk ≤ d.max_chunk_size) d.chunks (i % d.chunk_size)
        (subst (All (λ chunk. length chunk ≤ d.max_chunk_size)) (sym found.0) found.2) inside in
    let allocated : (dest_buffer_length d == 0) ≡ false = ground (arith, not_empty, size) in
    (
      json_value_encoder (chunk_of d i) (dest_buffer_length d),
      rw allocated,
      unescape-json_value_encoder (chunk_of d i) (dest_buffer_length d) is_bytes (omega arith)
            (omega arith)
          ∙ ap some (
              ap (λ chunks. get_or chunks (i % d.chunk_size) []) found.0
              ∙ ap (λ n. get_or (records [] data_) (i % n) []) found.1),
    )
