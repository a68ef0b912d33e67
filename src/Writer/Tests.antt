-- ===== src/Writer/Tests.antt =====
-- The writer on small inputs, with a sink that keeps the lines, and the theorems at them.
use jpipe.Common.{
  map, ◌++◌, joined, ◌≡◌, refl, List, [], ◌∷◌, ◌++◌, some, arith, Bytes, codes, ltb, if◌then◌else◌,
  length,
}
use jpipe.Errno.{Errno}
use jpipe.Field.{FieldSet}
use jpipe.Json.Prefix.Quotes.{record_text}
use jpipe.Writer.Output.{Target, json_sink, new_target}
use jpipe.Writer.Output.Records.{writer_produce-records}
use jpipe.Writer.{
  Sink, memchr, round, round_overflow, round_copied, round_fresh, block_loop, produce_loop,
  writer_produce,
}
use jpipe.Writer.Lines.{send}
use jpipe.Writer.Produce.{returned, Written, writer_produce-Written}
use jpipe.Writer.Text.{cut_text, lines_of}
use jpipe.Writer.Flush.{writer_produce-full_line}
use jpipe.Writer.Stream.{writer_produce-lines_of}

-- Lines of five bytes fail.
abbrev log_line : Bytes → List Bytes → Errno × List Bytes
log_line line log =
    if ltb (length line) 5 then (Errno.ok, log ++ line ∷ []) else (Errno.ewrite_failed, log)

abbrev log : Sink (List Bytes)
log = record { write = log_line }

abbrev blocks : List Bytes
blocks = codes "one\nt" ∷ codes "wo\n\nth" ∷ []

split_lines : writer_produce log 16 blocks [] ≡ some (Errno.ok, codes "one" ∷ codes "two" ∷ [] ∷ [])
unfolding writer_produce produce_loop block_loop round round_overflow round_copied round_fresh
    memchr
split_lines = refl

failed_write :
    writer_produce log 16 (codes "one\nlong line\ntwo\n" ∷ []) []
    ≡ some (Errno.ewrite_failed, codes "one" ∷ [])
unfolding writer_produce produce_loop block_loop round round_overflow round_copied round_fresh
    memchr
failed_write = refl

writer_produce-Written_example : Written log 16 blocks []
writer_produce-Written_example =
    writer_produce-Written log 16 blocks [] (omega arith) (omega arith) (omega arith)

writer_produce-lines_of_example :
    writer_produce log 16 blocks [] ≡ some (returned (send log (lines_of (joined blocks)) []))
unfolding joined cut_text
writer_produce-lines_of_example =
    writer_produce-lines_of log 16 blocks [] (omega arith) (omega arith) (omega arith)

abbrev no_fields : FieldSet
no_fields = record { len = 0; cap = 32; fields = [] }

writer_produce-records_example :
    (t : Target) × (writer_produce (json_sink 16) 16 blocks (new_target no_fields [] [])
      ≡ some (Errno.ok, t))
    × (t.output
        ≡ [] ++ joined (map (λ line. record_text no_fields line 96) (lines_of (joined blocks))))
unfolding joined cut_text
writer_produce-records_example =
    writer_produce-records no_fields 16 blocks [] (omega arith) (omega arith) (omega arith)
      (omega arith)

writer_produce-full_line_example :
    (writer_produce log 4 (codes "ab" ∷ codes "cd" ∷ codes "\n" ∷ []) []
      ≡ some (returned (send log (codes "abcd" ∷ [] ∷ []) [])))
    × (lines_of (joined (codes "ab" ∷ codes "cd" ∷ codes "\n" ∷ [])) ≡ codes "abcd" ∷ [])
writer_produce-full_line_example =
    writer_produce-full_line log 4 (codes "ab") (codes "cd") [] (omega arith)
      (ground arith, (ground arith, tt)) (ground arith, (ground arith, tt)) (omega arith)
      (omega arith) refl
