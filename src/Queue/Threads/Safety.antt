-- ===== src/Queue/Threads/Safety.antt =====
-- What holds in every reachable state of the two threads.
use jpipe.Common.{
  append-nil, none, true, false, ◌≤◌, ℕ, ◌+◌, ◌^◌, ◌<◌, ◌≡◌, ◌≢◌, sym, ap, ◌∙◌, List, ◌∷◌, ◌++◌,
  some, arith, lt→ltb, subst, length,
}
use native.Mathlib.Nat.{mod-lt}
use jpipe.Errno.{Errno}
use jpipe.Queue.{
  push_uncommitted, pop_uncommitted, Policy, Block, Queue, returned, waiting, push_sees_active,
  push_sees_room, pop_sees_block, pop_commit, queue_create,
}
use jpipe.Queue.Pending.{block_at, pending, round-ne}
use jpipe.Queue.Inv.{
  push_uncommitted-PushAttempt, pop_uncommitted-PopAttempt, contents, PushAttempt, PopAttempt,
  pop_commit_lem, queue_create-IsQueue,
}
use jpipe.Queue.Threads.{Side, IsAsleep, Producer, Consumer, System, Reach, start, later}
use jpipe.Queue.Threads.Invariant.{ProducerOwns, ConsumerOwns, Inv, Step-Inv}

-- What a thread that waits has to wait for.
abbrev pub Waits : Side → System → Type 0
Waits Side.reader s =
    (s.queue.active ≡ true) × (s.queue.capacity ≤ s.queue.length) × (s.consumer ≢ Consumer.asleep)
Waits Side.writer s =
    (s.queue.active ≡ true) × (s.queue.length ≡ 0) × (s.producer ≢ Producer.asleep)

module _ (capacity chunk_size lock not_empty not_full : ℕ) (policy : Policy) {q : Queue}
    {err : Errno} (some_room : 0 < capacity) (small : capacity + 1 < 2 ^ 64)
    (created : queue_create capacity chunk_size policy lock not_empty not_full
      ≡ (some q, err)) where
  pub Reach-Inv : {s : System} → Reach q s → Inv s
  Reach-Inv start =
      let new =
        queue_create-IsQueue capacity chunk_size policy lock not_empty not_full some_room small
          created in
      record { queue = new.0; producer = tt; consumer = tt; history = sym new.2 }
  Reach-Inv (later r st) = Step-Inv st (Reach-Inv r)

  -- In every interleaving of the reader, the writer and calls of jp_queue_finalize on a queue that
  -- jp_queue_create returned for a capacity from 1 to 2^64 - 2, the block that the reader may
  -- write and the block that the writer may read are different blocks of the array.
  pub no_shared_block :
      {s : System} {i j : ℕ}
      → Reach q s
      → s.producer ≡ Producer.holds i
      → s.consumer ≡ Consumer.holds j
      → (i ≢ j) × (i < length s.queue.blocks) × (j < length s.queue.blocks)
  no_shared_block {s} {i} {j} r p c =
      let v = Reach-Inv r in
      let mine = subst (ProducerOwns s.queue) p v.producer in
      let yours = subst (ConsumerOwns s.queue) c v.consumer in
      let at = mine.0 ∙ v.queue.tail_at in
      (
        (λ e.
            round-ne s.queue.capacity s.queue.head s.queue.length v.queue.head_in yours.1 mine.1
              (sym at ∙ e ∙ yours.0)),
        omega (arith, at, mod-lt (s.queue.head + s.queue.length) v.queue.some_room, v.queue.slots),
        omega (arith, yours.0, v.queue.head_in, v.queue.slots),
      )

  -- In every interleaving of the reader, the writer and calls of jp_queue_finalize on a queue that
  -- jp_queue_create returned for a capacity from 1 to 2^64 - 2, the blocks the reader has
  -- committed are those the writer has taken, followed by the contents of the queue, in order and
  -- with the bytes they held at the commit.
  pub taken_in_order : {s : System} → Reach q s → s.pushed ≡ s.taken ++ contents s.queue
  taken_in_order r = (Reach-Inv r).history

  -- In every interleaving of the two threads on a queue that jp_queue_create returned for a
  -- capacity from 1 to 2^64 - 2, the block that the writer holds is the next of the committed
  -- blocks, with the bytes it held when it was committed.
  pub held_block_intact :
      {s : System} {j : ℕ}
      → Reach q s
      → s.consumer ≡ Consumer.holds j
      → (rest : List Block) × (s.pushed ≡ s.taken ++ block_at s.queue.blocks j ∷ rest)
  held_block_intact {s} {j} r c =
      let v = Reach-Inv r in
      let own = subst (ConsumerOwns s.queue) c v.consumer in
      let popped = pop_commit_lem s.queue v.queue own.1 in
      (
        contents (pop_commit s.queue),
        v.history
            ∙ ap (◌++◌ s.taken) popped.1
            ∙ ap (λ h. s.taken ++ block_at s.queue.blocks h ∷ contents (pop_commit s.queue))
                (sym own.0),
      )

  -- In every interleaving of the two threads on a queue that jp_queue_create returned for a
  -- capacity from 1 to 2^64 - 2, where a call of the reader waits for room, the next call of the
  -- writer returns the oldest block with no wait.
  pub pop_while_push_waits :
      {s : System}
      → Reach q s
      → push_uncommitted s.queue ≡ waiting
      → pop_uncommitted s.queue ≡ returned Errno.ok (some s.queue.head)
  unfolding pop_uncommitted pop_sees_block
  pop_while_push_waits {s} r e =
      let v = (Reach-Inv r).queue in
      let full = subst (PushAttempt s.queue) e (push_uncommitted-PushAttempt s.queue) in
      rw (lt→ltb 0 s.queue.length (omega (arith, full, v.some_room)))

  -- In every interleaving of the two threads on a queue that jp_queue_create returned for a
  -- capacity from 1 to 2^64 - 2, where a call of the writer waits for a block, the next call of
  -- the reader returns the block at the tail with no wait.
  pub push_while_pop_waits :
      {s : System}
      → Reach q s
      → pop_uncommitted s.queue ≡ waiting
      → push_uncommitted s.queue ≡ returned Errno.ok (some s.queue.tail)
  unfolding push_uncommitted push_sees_active push_sees_room
  push_while_pop_waits {s} r e =
      let v = (Reach-Inv r).queue in
      let none_left = subst (PopAttempt s.queue) e (pop_uncommitted-PopAttempt s.queue) in
      rw (
        none_left.0,
        lt→ltb s.queue.length s.queue.capacity (omega (arith, none_left.1, v.some_room)),
      )

  sleeping_reader : {s : System} → Reach q s → s.producer ≡ Producer.asleep → Waits Side.reader s
  sleeping_reader {s} r e =
      let v = Reach-Inv r in
      let mine = subst (ProducerOwns s.queue) e v.producer in
      (
        mine.0,
        mine.1,
        λ c.
            let yours = subst (ConsumerOwns s.queue) c v.consumer in
            omega (arith, mine.1, yours.1, v.queue.some_room),
      )

  -- In every interleaving of the two threads and calls of jp_queue_finalize on a queue that
  -- jp_queue_create returned for a capacity from 1 to 2^64 - 2, where a thread leaves a wait only
  -- by a signal, a broadcast or by itself, the queue is active while a thread is asleep and the
  -- other thread is not asleep; it is full where that is the reader and empty where it is the
  -- writer: no wake-up is lost and the two threads never wait for one another.
  pub sleeping_threads : (side : Side) {s : System} → Reach q s → IsAsleep side s → Waits side s
  sleeping_threads Side.reader r e = sleeping_reader r e
  sleeping_threads Side.writer {s} r e =
      let yours = subst (ConsumerOwns s.queue) e (Reach-Inv r).consumer in
      (yours.0, yours.1, λ p. (sleeping_reader r p).2 e)

  -- In every interleaving of the two threads and calls of jp_queue_finalize on a queue that
  -- jp_queue_create returned for a capacity from 1 to 2^64 - 2, where jp_queue_pop_uncommitted
  -- reports JP_ESHUTTING_DOWN the queue is finalized and the writer has taken every block that was
  -- committed so far.
  pub drained_at_shutdown :
      {s : System}
      → Reach q s
      → pop_uncommitted s.queue ≡ returned Errno.eshutting_down none
      → (s.queue.active ≡ false) × (s.pushed ≡ s.taken)
  drained_at_shutdown {s} r e =
      let ended = subst (PopAttempt s.queue) e (pop_uncommitted-PopAttempt s.queue) in
      (
        ended.0,
        taken_in_order r
            ∙ ap (λ n. s.taken ++ pending s.queue.blocks s.queue.capacity s.queue.head n) ended.1
            ∙ append-nil s.taken,
      )
