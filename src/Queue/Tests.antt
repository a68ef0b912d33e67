-- ===== src/Queue/Tests.antt =====
-- A run of the two threads round a queue of two blocks, and the theorems at its states.
use jpipe.Common.{
  false, none, ℕ, ◌+◌, ◌*◌, ◌<◌, ◌≤◌, ◌≡◌, ◌≢◌, refl, true, List, [], ◌∷◌, ◌++◌, some, arith, codes,
}
use jpipe.Errno.{Errno}
use jpipe.Queue.{
  finalize, Policy, Block, Queue, empty_block, queue_create, push_sees_active, push_sees_room,
  push_locked, push_commit, pop_sees_block, pop_locked, pop_uncommitted, returned,
}
use jpipe.Queue.Inv.{IsQueue, contents, queue_create-IsQueue}
use jpipe.Queue.Fifo.{Runs}
use jpipe.Queue.Refine.{fifo_of, trace, trace-Runs}
use jpipe.Queue.Layout.{data_offset, total_size, data_offset_bounds}
use jpipe.Queue.Pending.{block_at}
use jpipe.Queue.Threads.{
  Side, Producer, Consumer, System, init, Reach, start, later, push_active, push_room, push_full,
  push_section, write, commit_push, pop_some, finalized,
}
use jpipe.Queue.Threads.Safety.{
  sleeping_threads, Waits, drained_at_shutdown, no_shared_block, taken_in_order, held_block_intact,
}

abbrev two_slots : Queue
two_slots = record {
  head = 0;
  tail = 0;
  capacity = 2;
  chunk_size = 1024;
  active = true;
  length = 0;
  policy = Policy.wait;
  blocks = empty_block ∷ empty_block ∷ [];
}

created : queue_create 2 1024 Policy.wait 0 0 0 ≡ (some two_slots, Errno.ok)
unfolding queue_create
created = refl

abbrev line : Block
line = record { bytes = codes "one\n"; length = 4 }

abbrev checked : System
checked = record (init two_slots) { producer = Producer.checked }

abbrev holding : System
holding = record checked { producer = Producer.holds 0 }

abbrev written : System
written = record holding { queue = record two_slots { blocks = line ∷ empty_block ∷ [] } }

abbrev committed : System
committed = record written {
  queue = record two_slots { blocks = line ∷ empty_block ∷ []; tail = 1; length = 1 };
  producer = Producer.idle;
  pushed = line ∷ [];
}

-- The reader has the second block while the writer has the first.
abbrev overlapped : System
overlapped = record committed { producer = Producer.holds 1; consumer = Consumer.holds 0 }

reached_committed : Reach two_slots committed
unfolding push_sees_active push_sees_room push_commit
reached_committed =
    later
      (later (later (later start (push_active refl refl)) (push_room refl refl))
        (write 0 line refl))
      (commit_push 0 refl)

reached : Reach two_slots overlapped
unfolding push_sees_active push_sees_room pop_sees_block
reached =
    later (later (later reached_committed (push_active refl refl)) (push_room refl refl))
      (pop_some refl refl)

no_shared_block_example : (◌≢◌ {A = ℕ} 1 0) × (1 < 2) × (0 < 2)
no_shared_block_example =
    no_shared_block 2 1024 0 0 0 Policy.wait (omega arith) (omega arith) created reached refl refl

taken_in_order_example : overlapped.pushed ≡ overlapped.taken ++ contents overlapped.queue
taken_in_order_example =
    taken_in_order 2 1024 0 0 0 Policy.wait (omega arith) (omega arith) created reached

held_block_intact_example :
    (rest : List Block) × (overlapped.pushed
      ≡ overlapped.taken ++ block_at overlapped.queue.blocks 0 ∷ rest)
held_block_intact_example =
    held_block_intact 2 1024 0 0 0 Policy.wait (omega arith) (omega arith) created reached refl

-- Both slots are full and the reader waits.
abbrev full : System
full = record {
  queue = record two_slots { blocks = line ∷ line ∷ []; tail = 0; length = 2 };
  producer = Producer.idle;
  consumer = Consumer.idle;
  pushed = line ∷ line ∷ [];
  taken = [];
}

reached_full : Reach two_slots full
unfolding push_sees_active push_sees_room push_commit
reached_full =
    later
      (later (later (later reached_committed (push_active refl refl)) (push_room refl refl))
        (write 1 line refl))
      (commit_push 1 refl)

data_offset_bounds_example :
    (640 + 2 * 16 ≤ data_offset 640 16 2 1024 1)
    × (data_offset 640 16 2 1024 1 + 1024 ≤ total_size 640 16 2 1024)
    × (data_offset 640 16 2 1024 0 + 1024 ≤ data_offset 640 16 2 1024 1)
data_offset_bounds_example =
    data_offset_bounds 640 16 2 1024 1 0 (omega arith) (omega arith) (omega arith) (omega arith)
      (omega arith) (omega arith)

queue_create-IsQueue_example :
    IsQueue two_slots × (two_slots.active ≡ true) × (contents two_slots ≡ [])
queue_create-IsQueue_example =
    queue_create-IsQueue 2 1024 Policy.wait 0 0 0 (omega arith) (omega arith) created

-- The reader finds the queue full once more, and goes to sleep.
abbrev sleepy : System
sleepy = record full { producer = Producer.asleep }

reached_sleepy : Reach two_slots sleepy
unfolding push_sees_active push_sees_room push_locked
reached_sleepy =
    later (later (later reached_full (push_active refl refl)) (push_full refl refl))
      (push_section refl)

sleeping_threads_example : Waits Side.reader sleepy
sleeping_threads_example =
    sleeping_threads 2 1024 0 0 0 Policy.wait (omega arith) (omega arith) created Side.reader
      reached_sleepy refl

-- The queue is finalized at the start.
abbrev stopped : System
stopped = record (init two_slots) { queue = record two_slots { active = false } }

reached_stopped : Reach two_slots stopped
unfolding finalize
reached_stopped = later start finalized

stopped_ends : pop_uncommitted stopped.queue ≡ returned Errno.eshutting_down none
unfolding pop_uncommitted pop_sees_block pop_locked
stopped_ends = refl

drained_at_shutdown_example : (stopped.queue.active ≡ false) × (stopped.pushed ≡ stopped.taken)
drained_at_shutdown_example =
    drained_at_shutdown 2 1024 0 0 0 Policy.wait (omega arith) (omega arith) created reached_stopped
      stopped_ends

trace-Runs_example : Runs 2 (trace reached_sleepy) (fifo_of sleepy.queue)
trace-Runs_example =
    trace-Runs 2 1024 0 0 0 Policy.wait (omega arith) (omega arith) created reached_sleepy
