-- ===== src/Reader/Blocking.antt =====
-- The reader on an input where `read` waits for bytes: the back end of src/poller/epoll.c leaves the input as
-- it is, so a `read` that finds nothing does not return with EAGAIN.
use jpipe.Common.{
  ℕ, ◌+◌, ◌*◌, ◌/◌, ◌<◌, ◌≡◌, sym, ap, ap₂, ◌∙◌, inl, inr, List, [], ◌∷◌, arith, Bool-cases, length,
  length-append, Option, none, some, Bytes, All, joined,
}
use native.Mathlib.Nat.{add-mul-div_right, div-eq_of_lt, zero-mul, suc-mul}
use jpipe.Errno.{Errno, is_ok}
use jpipe.Reader.{
  Turn, Reader, Next, reading, drained, clean_up, crashed, round, after_turn, read_loop, Wake,
  after_wake, wake_up, consume_loop, new_reader, reader_consume,
}
use jpipe.Reader.Round.{IsWake, IsHeld, Inv, Delivered, held}
use jpipe.Reader.Stream.{reader_consume-Delivered}
use jpipe.Reader.Whole.{IsBlocking, BlocksIn, IsWhole, Ended, Whole, ended_here, round-Whole}

module _ (chunk_size : ℕ) where
  after_turn-Whole :
      (next : Reader → Next) (n : Next)
      → ((r : Reader) → All (IsWhole chunk_size) r.committed → Whole chunk_size (next r))
      → Whole chunk_size n
      → Whole chunk_size (after_turn next n)
  after_turn-Whole next (reading r) h w = h r w
  after_turn-Whole next (drained r) h w = w
  after_turn-Whole next (clean_up err r) h w = w
  after_turn-Whole next crashed h w = w

  read_loop-Whole :
      (turns : List Turn) (r : Reader)
      → All (λ turn. (n : ℕ) → IsBlocking (turn.read n)) turns
      → All (IsWhole chunk_size) r.committed
      → Whole chunk_size (read_loop chunk_size turns r)
  unfolding read_loop
  read_loop-Whole [] r b h = h
  read_loop-Whole (turn ∷ turns) r b h =
      after_turn-Whole (read_loop chunk_size turns) (round chunk_size turn r)
        (λ s w. read_loop-Whole turns s b.1 w) (round-Whole chunk_size turn r b.0 h)

  after_wake-Whole :
      (next : Reader → Next) (n : Next)
      → ((r : Reader) → All (IsWhole chunk_size) r.committed → Whole chunk_size (next r))
      → Whole chunk_size n
      → Whole chunk_size (after_wake next n)
  after_wake-Whole next (reading r) h w = w
  after_wake-Whole next (drained r) h w = h r w
  after_wake-Whole next (clean_up err r) h w = w
  after_wake-Whole next crashed h w = w

  wake_up-Whole :
      (next : Reader → Next) (waited : Errno) (turns : List Turn) (r : Reader)
      → ((s : Reader) → All (IsWhole chunk_size) s.committed → Whole chunk_size (next s))
      → BlocksIn (record { waited = waited; turns = turns })
      → All (IsWhole chunk_size) r.committed
      → Whole chunk_size (wake_up chunk_size next (record { waited = waited; turns = turns }) r)
  wake_up-Whole next Errno.eread_failed turns r h b w = ended_here chunk_size r.committed w
  wake_up-Whole next Errno.etryagain turns r h b w = h r w
  wake_up-Whole next _ turns r h b w =
      after_wake-Whole next (read_loop chunk_size turns r) h (read_loop-Whole turns r b w)

  consume_loop-Whole :
      (wakes : List Wake) (r : Reader)
      → All BlocksIn wakes
      → All (IsWhole chunk_size) r.committed
      → Whole chunk_size (consume_loop chunk_size wakes r)
  unfolding consume_loop
  consume_loop-Whole [] r b h = h
  consume_loop-Whole (wake ∷ wakes) r b h =
      wake_up-Whole (consume_loop chunk_size wakes) wake.waited wake.turns r
        (λ s w. consume_loop-Whole wakes s b.1 w) b.0 h

  reader_consume-Whole :
      (create_err poll_err : Errno) (wakes : List Wake)
      → All BlocksIn wakes
      → Whole chunk_size (reader_consume chunk_size create_err poll_err wakes)
  unfolding reader_consume
  reader_consume-Whole create_err poll_err wakes b = elim (Bool-cases (is_ok create_err)) [
    | inl created ↦ rw created (elim (Bool-cases (is_ok poll_err)) [
      | inl polled ↦ rw polled (consume_loop-Whole wakes new_reader b tt)
      | inr refused ↦ rw refused (ended_here chunk_size [] tt)
    ])
    | inr refused ↦ rw refused (ended_here chunk_size [] tt)
  ]

  length-joined :
      (blocks : List Bytes)
      → All (IsWhole chunk_size) blocks
      → length (joined blocks) ≡ length blocks * chunk_size
  unfolding joined
  length-joined [] h = sym (zero-mul chunk_size)
  length-joined (block ∷ blocks) h =
      length-append block (joined blocks)
      ∙ ap₂ (λ m n. m + n) h.0 (length-joined blocks h.1)
      ∙ sym (suc-mul (length blocks) chunk_size ∙ omega arith)

  -- What has gone on while the reader goes on: as many blocks as can be filled. Behind its end there
  -- is one block at most that is not whole, the last.
  abbrev pub Delays : Next → Type 0
  Delays (reading r) = length r.committed ≡ length r.received / chunk_size
  Delays (drained r) = length r.committed ≡ length r.received / chunk_size
  Delays (clean_up err r) = Ended chunk_size r.committed
  Delays crashed = ⊥

  held_short :
      (block : Option Bytes) (err : Errno)
      → 0 < chunk_size
      → IsHeld chunk_size block err
      → length (held block) < chunk_size
  held_short none err pos room = pos
  held_short (some block) err pos room = room.0

  whole_count :
      (r : Reader)
      → 0 < chunk_size
      → Inv chunk_size r
      → All (IsWhole chunk_size) r.committed
      → length r.committed ≡ length r.received / chunk_size
  whole_count r pos v h =
      let some_bytes = length (held r.block) in
      let n = length r.committed in
      let all : length r.received ≡ some_bytes + n * chunk_size =
        ap length v.text
        ∙ length-append (joined r.committed) (held r.block)
        ∙ omega (arith, length-joined r.committed h) in
      sym (
        ap (λ m. m / chunk_size) all
        ∙ add-mul-div_right some_bytes n pos
        ∙ ap (λ m. m + n) (div-eq_of_lt (held_short r.block r.queue_err pos v.room))
        ∙ omega arith)

  delays : (n : Next) → 0 < chunk_size → Delivered chunk_size n → Whole chunk_size n → Delays n
  delays (reading r) pos d w = whole_count r pos d w
  delays (drained r) pos d w = whole_count r pos d w
  delays (clean_up err r) pos d w = w
  delays crashed pos d w = d

  -- Where read never returns with EAGAIN, as on an input that waits, and the poller, the queue and
  -- read keep their contracts otherwise, jp_reader_consume has committed length / chunk_size
  -- blocks of the bytes it has received as long as it goes on; when it has ended all blocks but
  -- the last are of chunk_size bytes.
  pub reader_consume-Delays :
      (create_err poll_err : Errno) (wakes : List Wake)
      → 0 < chunk_size
      → All IsWake wakes
      → All BlocksIn wakes
      → Delays (reader_consume chunk_size create_err poll_err wakes)
  reader_consume-Delays create_err poll_err wakes pos t b =
      delays (reader_consume chunk_size create_err poll_err wakes) pos
        (reader_consume-Delivered chunk_size pos create_err poll_err wakes t)
        (reader_consume-Whole create_err poll_err wakes b)
