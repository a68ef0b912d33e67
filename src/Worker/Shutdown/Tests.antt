-- ===== src/Worker/Shutdown/Tests.antt =====
-- A writer that waits while the reader ends, and the theorem at it.
use jpipe.Common.{◌≡◌, refl, true, false, [], ◌∷◌, none, some, arith}
use jpipe.Errno.{Errno}
use jpipe.Errno.Context.{initial_ctx}
use jpipe.Errno.Print.{Messages}
use jpipe.Queue.{Policy, Queue, empty_block, queue_create, finalize, pop_sees_block, pop_locked}
use jpipe.Queue.Threads.{Consumer, System, init, Reach, start, later, pop_none, pop_section}
use jpipe.Reader.{end_of_input, reader_consume, consume_loop, read_loop, read_turn}
use jpipe.Worker.Threads.{consumer_thread, thread_cleanup, watcher_thread}
use jpipe.Worker.Shutdown.{Later, now, next, Shutdown, cleaned, thread_cleanup-Shutdown}

abbrev one_slot : Queue
one_slot = record {
  head = 0;
  tail = 0;
  capacity = 1;
  chunk_size = 1024;
  active = true;
  length = 0;
  policy = Policy.wait;
  blocks = empty_block ∷ [];
}

created : queue_create 1 1024 Policy.wait 0 0 0 ≡ (some one_slot, Errno.ok)
unfolding queue_create
created = refl

abbrev waiting_writer : System
waiting_writer = record (init one_slot) { consumer = Consumer.asleep }

reached : Reach one_slot waiting_writer
unfolding pop_sees_block pop_locked
reached = later (later start (pop_none refl refl)) (pop_section refl)

abbrev messages : Messages
messages = record { strerror = (λ code. []); mach_error_string = none }

-- The input ends at once.
reader_ends :
    consumer_thread messages true 1024 Errno.ok Errno.ok
      (record {
        waited = Errno.ok;
        turns = record { push = Errno.ok; read = λ n. end_of_input } ∷ [];
      }
        ∷ [])
      one_slot
      initial_ctx
    ≡ some (Errno.ok, thread_cleanup messages true one_slot initial_ctx)
unfolding consumer_thread reader_consume consume_loop read_loop read_turn
reader_ends = refl

signal : (watcher_thread 0 one_slot).active ≡ false
unfolding watcher_thread finalize
signal = refl

-- The writer is woken and sees the shutdown.
abbrev stopped : System
stopped = record (cleaned messages true initial_ctx waiting_writer) { consumer = Consumer.idle }

writer_stops : Later (cleaned messages true initial_ctx waiting_writer) stopped
unfolding thread_cleanup finalize pop_locked
writer_stops = next now (pop_section refl)

thread_cleanup-Shutdown_example : Shutdown stopped
thread_cleanup-Shutdown_example =
    thread_cleanup-Shutdown 1 1024 0 0 0 Policy.wait messages true initial_ctx (omega arith)
      (omega arith) created reached writer_stops
