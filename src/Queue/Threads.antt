-- ===== src/Queue/Threads.antt =====
-- The reader and the writer at the queue, with `jp_queue_finalize` called by anybody at any time: all
-- interleavings of the stretches that src/queue.c runs without a break.
pub mod Invariant
pub mod Safety
use jpipe.Common.{
  ℕ, ◌≤◌, ◌<◌, ◌≡◌, Bool, true, false, List, [], ◌∷◌, ◌++◌, Option, none, some, set, Bytes, length,
}
use jpipe.Errno.{Errno}
use jpipe.Queue.{
  Block, Queue, Attempt, returned, waiting, push_sees_active, push_sees_room, push_locked,
  push_commit, pop_sees_block, pop_locked, pop_commit, finalize,
}
use jpipe.Queue.Pending.{block_at}

-- The reader: between calls, behind the first test of `jp_queue_push_uncommitted`, at the lock, asleep
-- in the wait for `not_full`, or with a block that it may write.
pub data Producer : Type 0 where
  idle checked at_lock asleep : Producer
  holds : (i : ℕ) → Producer

-- The writer, likewise, asleep in the wait for `not_empty` or with a block that it may read.
pub data Consumer : Type 0 where
  idle at_lock asleep : Consumer
  holds : (i : ℕ) → Consumer

-- `pushed` and `taken` are the blocks that have been committed by either side, with what they held.
pub record System : Type 0 where
  pub queue : Queue
  pub producer : Producer
  pub consumer : Consumer
  pub pushed : List Block
  pub taken : List Block

-- The two threads.
pub data Side : Type 0 where
  reader writer : Side

-- The thread is in one of the two waits.
abbrev pub IsAsleep : Side → System → Type 0
IsAsleep Side.reader s = s.producer ≡ Producer.asleep
IsAsleep Side.writer s = s.consumer ≡ Consumer.asleep

-- Where a call that got this far leaves the reader.
abbrev pub producer_after : Attempt → Producer
producer_after waiting = Producer.asleep
producer_after (returned e none) = Producer.idle
producer_after (returned e (some i)) = Producer.holds i

abbrev pub consumer_after : Attempt → Consumer
consumer_after waiting = Consumer.asleep
consumer_after (returned e none) = Consumer.idle
consumer_after (returned e (some i)) = Consumer.holds i

-- A signal or a broadcast: a thread in the wait for the condition goes on at the lock.
abbrev pub woken_producer : Producer → Producer
woken_producer Producer.asleep = Producer.at_lock
woken_producer p = p

abbrev pub woken_consumer : Consumer → Consumer
woken_consumer Consumer.asleep = Consumer.at_lock
woken_consumer c = c

pub data Step (s : System) : System → Type 0 where
  -- `jp_queue_push_uncommitted`
  push_inactive :
      s.producer ≡ Producer.idle
      → push_sees_active s.queue ≡ false
      → Step s (record s { producer = Producer.idle })
  push_active :
      s.producer ≡ Producer.idle
      → push_sees_active s.queue ≡ true
      → Step s (record s { producer = Producer.checked })
  push_room :
      s.producer ≡ Producer.checked
      → push_sees_room s.queue ≡ true
      → Step s (record s { producer = Producer.holds s.queue.tail })
  push_full :
      s.producer ≡ Producer.checked
      → push_sees_room s.queue ≡ false
      → Step s (record s { producer = Producer.at_lock })
  push_section :
      s.producer ≡ Producer.at_lock
      → Step s (record s { producer = producer_after (push_locked s.queue) })
  -- a wait may also end with no signal
  push_woken : s.producer ≡ Producer.asleep → Step s (record s { producer = Producer.at_lock })
  -- the reader writes to the block that it holds
  write :
      (i : ℕ) (b : Block)
      → s.producer ≡ Producer.holds i
      → Step s (record s { queue = record s.queue { blocks = set s.queue.blocks i b } })
  -- `jp_queue_push_commit`
  commit_push :
      (i : ℕ)
      → s.producer ≡ Producer.holds i
      → Step s (record s {
        queue = push_commit s.queue;
        producer = Producer.idle;
        consumer = woken_consumer s.consumer;
        pushed = s.pushed ++ block_at s.queue.blocks i ∷ [];
      })
  -- `jp_queue_pop_uncommitted`
  pop_some :
      s.consumer ≡ Consumer.idle
      → pop_sees_block s.queue ≡ true
      → Step s (record s { consumer = Consumer.holds s.queue.head })
  pop_none :
      s.consumer ≡ Consumer.idle
      → pop_sees_block s.queue ≡ false
      → Step s (record s { consumer = Consumer.at_lock })
  pop_section :
      s.consumer ≡ Consumer.at_lock
      → Step s (record s { consumer = consumer_after (pop_locked s.queue) })
  pop_woken : s.consumer ≡ Consumer.asleep → Step s (record s { consumer = Consumer.at_lock })
  -- `jp_queue_pop_commit`
  commit_pop :
      (i : ℕ)
      → s.consumer ≡ Consumer.holds i
      → Step s (record s {
        queue = pop_commit s.queue;
        producer = woken_producer s.producer;
        consumer = Consumer.idle;
        taken = s.taken ++ block_at s.queue.blocks i ∷ [];
      })
  -- the critical section of `jp_queue_finalize`, by a signal or at the end of either thread; a call
  -- that finds the queue finalized does nothing and is no step
  finalized : Step s (record s {
    queue = finalize s.queue;
    producer = woken_producer s.producer;
    consumer = woken_consumer s.consumer;
  })

-- The threads start on a queue that `jp_queue_create` has returned.
abbrev pub init : Queue → System
init q = record {
  queue = q;
  producer = Producer.idle;
  consumer = Consumer.idle;
  pushed = [];
  taken = [];
}

pub data Reach (q : Queue) : System → Type 0 where
  start : Reach q (init q)
  later : {s t : System} → Reach q s → Step s t → Reach q t
