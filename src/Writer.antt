-- ===== src/Writer.antt =====
-- `jp_writer_produce` of src/writer.c: the blocks of the queue are cut into lines, and each line is
-- written as a record. `Sink` is what a record is written to.
pub mod Split
pub mod Lines
pub mod Newlines
pub mod Produce
pub mod Text
pub mod Stream
pub mod Flush
pub mod Output
mod Tests
use mathlib.Core.Option
use jpipe.Common.{
  ℕ, zero, suc, ◌+◌, ◌-◌, ◌%◌, ◌^◌, Bool, true, false, ◌&&◌, ◌||◌, List, [], ◌∷◌, ◌++◌, Option,
  none, some, ◌==◌, ltb, if◌then◌else◌, length, take, drop, min, Bytes, add_size,
}
use jpipe.Errno.{Errno, is_ok}

-- `memchr`, as an index.
unfoldable pub memchr : Bytes → ℕ → Option ℕ
memchr [] c = none
memchr (b ∷ bs) c = if b == c then some 0 else Option.map suc (memchr bs c)

-- Where the inner loop stands: the bytes from `start_ptr` to `end_ptr`, and the first
-- `overflow.length` bytes of `overflow.data`.
pub record Cursor : Type 0 where
  pub start : Bytes
  pub overflow : Bytes

-- One round of the inner loop: the value that it writes as a record, if it writes one, and the
-- cursor behind it.
abbrev pub Round : Type 0
Round = Option Bytes × Cursor

-- `delimiter - start_ptr`, or the rest of the block.
abbrev pub remaining_len : Option ℕ → Bytes → ℕ
remaining_len none start = length start
remaining_len (some i) start = i

abbrev pub is_some : Option ℕ → Bool
is_some none = false
is_some (some i) = true

abbrev pub at_delimiter : Option ℕ → ℕ → Bool
at_delimiter none k = false
at_delimiter (some i) k = k == i

-- `MIN(remaining_len, ctx.chunk_size - overflow.length)`; the subtraction is of `size_t`.
abbrev pub copy_len : ℕ → Option ℕ → Cursor → ℕ
copy_len chunk_size delimiter c =
    min (remaining_len delimiter c.start) ((chunk_size + 2 ^ 64 - length c.overflow) % 2 ^ 64)

-- The branch for `overflow.length > 0`, with `n` for `copy_len`.
pub round_copied : ℕ → Option ℕ → ℕ → Cursor → Round
round_copied chunk_size delimiter n c =
    let overflow = c.overflow ++ take n c.start in
    let rest = drop n c.start in
    if is_some delimiter || length overflow == chunk_size
    then (
      some overflow,
      record { start = if at_delimiter delimiter n then drop 1 rest else rest; overflow = [] },
    )
    else (none, record { start = rest; overflow = overflow })

pub round_overflow : ℕ → Option ℕ → Cursor → Round
round_overflow chunk_size delimiter c =
    round_copied chunk_size delimiter (copy_len chunk_size delimiter c) c

-- The branches behind it.
pub round_fresh : Option ℕ → Cursor → Round
round_fresh none c = (none, record { start = []; overflow = c.start })
round_fresh (some i) c =
    (some (take i c.start), record { start = drop (suc i) c.start; overflow = c.overflow })

pub round : ℕ → Cursor → Round
round chunk_size c =
    let delimiter = memchr c.start b'\n' in
    if ltb 0 (length c.overflow)
    then round_overflow chunk_size delimiter c
    else round_fresh delimiter c

-- How a record is written: the encoder and `jp_file_writev` on the writer's own state.
pub record Sink (W : Type 0) : Type 0 where
  pub write : Bytes → W → Errno × W

-- How the inner loop ends: at the end of the block, or at a failed write.
pub data Outcome (W : Type 0) : Type 0 where
  went_on : (overflow : Bytes) → W → Outcome W
  failed : Errno → W → Outcome W

-- `JP_QUEUE_IS_GRACEFUL_ERR`, and the reset of `err` behind `clean_up`.
abbrev pub final_err : Errno → Errno
final_err Errno.eshutting_down = Errno.ok
final_err Errno.emsg_should_drop = Errno.ok
final_err e = e

module _ {W : Type 0} (sink : Sink W) (chunk_size : ℕ) where
  -- The write of one round, and how the loop goes on: a failed write leaves by `goto clean_up`.
  abbrev pub after_round : (Cursor → W → Option (Outcome W)) → Round → W → Option (Outcome W)
  after_round next (none, c) w = next c w
  after_round next (some line, c) w =
      let (err, w') = sink.write line w in
      let rest = next c w' in if is_ok err then rest else some (failed err w')

  -- The inner loop; `none` is that the fuel ran out.
  pub block_loop : ℕ → Cursor → W → Option (Outcome W)
  block_loop zero c w = none
  block_loop (suc fuel) c w = elim c.start [
    | [] ↦ some (went_on c.overflow w)
    | b ∷ bs ↦ after_round (block_loop fuel) (round chunk_size c) w
  ]

  -- The rounds that a block of `n` bytes takes, and one more.
  abbrev pub block_fuel : ℕ → ℕ
  block_fuel n = n + n + 2

  -- What the outer loop does with the end of the inner one.
  abbrev pub after_block :
      (Bytes → W → Option (Errno × W)) → Option (Outcome W) → Option (Errno × W)
  after_block next none = none
  after_block next (some (failed err w)) = some (final_err err, w)
  after_block next (some (went_on overflow w)) = next overflow w

  -- The outer loop, on the blocks that `jp_queue_pop_uncommitted` returns until it reports the
  -- shutdown. What the overflow holds then is freed with it.
  pub produce_loop : List Bytes → Bytes → W → Option (Errno × W)
  produce_loop [] overflow w = some (final_err Errno.eshutting_down, w)
  produce_loop (block ∷ blocks) overflow w =
      after_block (produce_loop blocks)
        (block_loop (block_fuel (length block)) (record { start = block; overflow = overflow }) w)

  -- `jp_writer_produce`, from the first call of the queue on.
  pub writer_produce : List Bytes → W → Option (Errno × W)
  writer_produce blocks w = produce_loop blocks [] w
