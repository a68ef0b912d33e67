-- ===== src/Worker/Cancel/Tests.antt =====
-- The writer is canceled while it waits for the first block, and the theorem at it.
use jpipe.Common.{◌≡◌, refl, true, [], ◌∷◌, some, arith}
use jpipe.Errno.{Errno}
use jpipe.Queue.{
  Policy, Queue, empty_block, queue_create, pop_sees_block, pop_locked, push_sees_active,
}
use jpipe.Queue.Threads.{Side, Producer, Consumer, init, pop_none, pop_section, push_active}
use jpipe.Worker.Cancel.{Process, Move, Moves, now, next, stretch, process_of}
use jpipe.Worker.Cancel.Hang.{Hangs, canceled, canceled-Hangs}

abbrev one_slot : Queue
one_slot = record {
  head = 0;
  tail = 0;
  capacity = 1;
  chunk_size = 1024;
  active = true;
  length = 0;
  policy = Policy.wait;
  blocks = empty_block ∷ [];
}

created : queue_create 1 1024 Policy.wait 0 0 0 ≡ (some one_slot, Errno.ok)
unfolding queue_create
created = refl

abbrev waiting_writer : Process
waiting_writer = record (process_of one_slot) {
  system = record (init one_slot) { consumer = Consumer.asleep };
}

waits : Moves (process_of one_slot) waiting_writer
unfolding pop_sees_block pop_locked
waits =
    next (next now (stretch (pop_none refl refl) refl tt)) (stretch (pop_section refl) refl refl)

-- The reader goes on for a while.
abbrev much_later : Process
much_later = record (canceled Side.writer waiting_writer) {
  system = record (init one_slot) { producer = Producer.checked; consumer = Consumer.asleep };
}

goes_on : Moves (canceled Side.writer waiting_writer) much_later
unfolding push_sees_active
goes_on = next now (stretch (push_active refl refl) refl tt)

canceled-Hangs_example :
    Move waiting_writer (canceled Side.writer waiting_writer) × Hangs Side.writer much_later
canceled-Hangs_example =
    canceled-Hangs 1 1024 0 0 0 Policy.wait (omega arith) (omega arith) created Side.writer waits
      refl refl refl goes_on
