-- ===== src/Reader.antt =====
-- `jp_reader_consume` of src/reader.c: the input is read into the blocks of the queue.
pub mod Round
pub mod Stream
pub mod Whole
pub mod Blocking
mod Tests
use jpipe.Common.{
  ℕ, ◌+◌, ◌-◌, ◌%◌, ◌^◌, Bool, true, false, List, [], ◌∷◌, ◌++◌, Option, none, some, ◌==◌, ltb,
  if◌then◌else◌, length, Bytes,
}
use jpipe.Errno.{Errno, is_ok}
use jpipe.Writer.{final_err}

-- What one call of `read` comes to: some bytes, the end of the input, or an error, which is `EINTR`,
-- `EAGAIN` or another.
pub data ReadResult : Type 0 where
  got : Bytes → ReadResult
  end_of_input interrupted again failed : ReadResult

-- What a round of the inner loop may call: `jp_queue_push_uncommitted` with its result, and `read`
-- as a function of the room that it is given.
pub record Turn : Type 0 where
  pub push : Errno
  pub read : ℕ → ReadResult

-- `block` holds the first `block->length` bytes of the block; `committed` are the blocks given to
-- `jp_queue_push_commit`. `received` and `discarded` are the bytes that `read` has put into blocks
-- and into `buffer`.
pub record Reader : Type 0 where
  pub block : Option Bytes
  pub queue_err : Errno
  pub committed : List Bytes
  pub received : Bytes
  pub discarded : Bytes

-- How a round ends: the inner loop goes on, it is left by `break`, the function goes to `clean_up`,
-- or it uses `block` while it is NULL.
pub data Next : Type 0 where
  reading drained : Reader → Next
  clean_up : Errno → Reader → Next
  crashed : Next

-- The first test of a round.
abbrev pub take_block : Errno → Reader → Reader
take_block push r = elim r.block [
  | none ↦ record r { queue_err = push; block = if is_ok push then some [] else none }
  | some block ↦ r
]

abbrev pub commit : Bytes → Reader → Reader
commit block r = record r { committed = r.committed ++ block ∷ [] }

-- `if (queue_err == 0 && block->length > 0)`, where `queue_err` is 0.
abbrev pub commit_some : Bytes → Reader → Reader
commit_some block r = if ltb 0 (length block) then commit block r else r

-- The rest of a round with `queue_err == JP_EMSG_SHOULD_DROP`.
abbrev pub discard : ReadResult → Reader → Next
discard (got bytes) r = reading (record r { discarded = r.discarded ++ bytes })
discard end_of_input r = clean_up Errno.ok r
discard interrupted r = reading r
discard again r = drained r
discard failed r = clean_up Errno.eread_failed r

-- Bytes read to the end of a block, which is committed when it is full.
abbrev pub extend : ℕ → Bytes → Bytes → Reader → Next
extend chunk_size block bytes r =
    let longer = block ++ bytes in
    let r' = record r { received = r.received ++ bytes } in
    if length longer == chunk_size
    then reading (commit longer (record r' { block = none }))
    else reading (record r' { block = some longer })

-- The rest of a round with a block.
abbrev pub fill : ℕ → Bytes → ReadResult → Reader → Next
fill chunk_size block (got bytes) r = extend chunk_size block bytes r
fill chunk_size block end_of_input r =
    clean_up Errno.ok (commit_some block (record r { block = none }))
fill chunk_size block interrupted r = reading r
fill chunk_size block again r =
    if ltb 0 (length block) then drained (commit block (record r { block = none })) else drained r
fill chunk_size block failed r = clean_up Errno.eread_failed r

-- A round behind the first test: a shutdown can only come from the call in that test.
unfoldable pub read_turn : ℕ → (ℕ → ReadResult) → Reader → Next
read_turn chunk_size read r = elim r.block [
  | none ↦ elim r.queue_err [
    | Errno.eshutting_down ↦ clean_up Errno.ok r
    | Errno.emsg_should_drop ↦ discard (read chunk_size) r
    | _ ↦ crashed
  ]
  | some block ↦ elim r.queue_err [
    | Errno.emsg_should_drop ↦ discard (read chunk_size) r
    | _ ↦ fill chunk_size block (read (chunk_size - length block)) r
  ]
]

abbrev pub round : ℕ → Turn → Reader → Next
round chunk_size turn r = read_turn chunk_size turn.read (take_block turn.push r)

abbrev pub after_turn : (Reader → Next) → Next → Next
after_turn next (reading r) = next r
after_turn next n = n

-- The inner loop, on what its calls come to; `reading` is that it goes on behind them.
unfoldable pub read_loop : ℕ → List Turn → Reader → Next
read_loop chunk_size [] r = reading r
read_loop chunk_size (turn ∷ turns) r =
    after_turn (read_loop chunk_size turns) (round chunk_size turn r)

-- A round of the outer loop: what `jp_poller_wait` returns, and the rounds of the inner loop.
pub record Wake : Type 0 where
  pub waited : Errno
  pub turns : List Turn

abbrev pub after_wake : (Reader → Next) → Next → Next
after_wake next (drained r) = next r
after_wake next n = n

-- The tests behind `jp_poller_wait`, with the loop behind this round.
abbrev pub wake_up : ℕ → (Reader → Next) → Wake → Reader → Next
wake_up chunk_size next wake r = elim wake.waited [
  | Errno.eread_failed ↦ clean_up Errno.eread_failed r
  | Errno.etryagain ↦ next r
  | _ ↦ after_wake next (read_loop chunk_size wake.turns r)
]

-- The outer loop; `drained` is that it goes on with a call of `jp_poller_wait`.
unfoldable pub consume_loop : ℕ → List Wake → Reader → Next
consume_loop chunk_size [] r = drained r
consume_loop chunk_size (wake ∷ wakes) r = wake_up chunk_size (consume_loop chunk_size wakes) wake r

abbrev pub new_reader : Reader
new_reader = record {
  block = none;
  queue_err = Errno.ok;
  committed = [];
  received = [];
  discarded = [];
}

-- `jp_reader_consume`, with what `jp_poller_create` and `jp_poller_poll` return, up to `clean_up`.
unfoldable pub reader_consume : ℕ → Errno → Errno → List Wake → Next
reader_consume chunk_size create_err poll_err wakes =
    if is_ok create_err
    then if is_ok poll_err
      then consume_loop chunk_size wakes new_reader
      else clean_up poll_err new_reader
    else clean_up create_err new_reader

-- `clean_up`: what the function returns, if it does.
abbrev pub returned : Next → Option Errno
returned (clean_up err r) = some (final_err err)
returned n = none
