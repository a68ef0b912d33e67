-- ===== src/Bench/Tests.antt =====
-- A file of two records and a part of a third, two times, and the theorem at them.
use jpipe.Common.{◌%◌, ◌<◌, ◌≡◌, refl, ap, [], ◌∷◌, ◌++◌, some, arith, Bytes, codes, get_or, none}
use jpipe.Writer.{memchr}
use jpipe.Bench.{elapsed_ns, separator, capacity_of, chunk_loop, bench_data_prepare}
use jpipe.Bench.Split.{records}
use jpipe.Json.Escape.{Output}
use jpipe.Bench.Encode.{dest_buffer, encode_round, encode_round-unescape}
use jpipe.Json.Escape.Decode.{unescape}

abbrev file : Bytes
file = codes "one" ++ separator ∷ codes "three" ++ separator ∷ codes "fo"

two_records :
    bench_data_prepare file
    ≡ record { chunks = codes "one" ∷ codes "three" ∷ []; chunk_size = 2; max_chunk_size = 5 }
unfolding bench_data_prepare chunk_loop capacity_of memchr
two_records = refl

borrowed :
    elapsed_ns
      (record { tv_sec = 3; tv_nsec = 900000000 })
      (record { tv_sec = 5; tv_nsec = 100000000 })
    ≡ 1200000000
unfolding elapsed_ns
borrowed = refl

some_records : 0 < capacity_of file
unfolding capacity_of
some_records = omega arith

longest : (bench_data_prepare file).max_chunk_size ≡ 5
longest = ap (λ d. d.max_chunk_size) two_records

-- The second round.
encode_round-unescape_example :
    (o : Output) × (encode_round (bench_data_prepare file) 1 ≡ some o)
    × (unescape o.dst ≡ some (get_or (records [] file) (1 % capacity_of file) []))
encode_round-unescape_example =
    encode_round-unescape file 1 (omega arith) (omega arith) some_records (omega (arith, longest))
      (omega (arith, longest))

-- A file with empty records only: there is no size for a buffer.
no_buffer : encode_round (bench_data_prepare (separator ∷ [])) 0 ≡ none
unfolding encode_round dest_buffer bench_data_prepare chunk_loop capacity_of memchr
no_buffer = refl
