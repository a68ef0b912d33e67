-- ===== src/Worker/Threads.antt =====
-- The bodies of the three threads of src/worker.c, and what their end does to the queue.
use jpipe.Common.{ℕ, Bool, Option, none, some, ◌==◌, if◌then◌else◌, codes, List, Bytes}
use jpipe.Errno.{Errno}
use jpipe.Errno.Context.{Source, Ctx, ctx_set}
use jpipe.Errno.Print.{Messages, Row, ctx_print}
use mathlib.Core.Option
use jpipe.Field.{FieldSet}
use jpipe.Pipeline.{producer_thread}
use jpipe.Queue.{Block, Queue, finalize}
use jpipe.Reader
use jpipe.Reader.{Wake, reader_consume}

-- What a thread leaves at its end: the queue, its own error context, and the row that it prints.
pub record Ended : Type 0 where
  pub queue : Queue
  pub ctx : Ctx
  pub printed : Option Row

-- `JP_ERRNO_RESET`.
abbrev pub errno_reset : Ctx → Ctx
errno_reset ctx = (ctx_set Errno.ok Source.none 0 (codes "worker.c") 319 ctx).1

-- `thread_cleanup`, which runs at `pthread_exit` and where the thread is canceled.
unfoldable pub thread_cleanup : Messages → Bool → Queue → Ctx → Ended
thread_cleanup messages no_color queue ctx = record {
  queue = finalize queue;
  ctx = errno_reset ctx;
  printed = ctx_print messages no_color ctx;
}

-- A thread that has a result exits with it.
abbrev pub exit_with : Messages → Bool → Queue → Ctx → Option Errno → Option (Errno × Ended)
exit_with messages no_color queue ctx none = none
exit_with messages no_color queue ctx (some err) =
    some (err, thread_cleanup messages no_color queue ctx)

-- `consumer_thread_init`, with the queue and the error context that `jp_reader_consume` leaves.
unfoldable pub consumer_thread :
    Messages → Bool → ℕ → Errno → Errno → List Wake → Queue → Ctx → Option (Errno × Ended)
consumer_thread messages no_color chunk_size create_err poll_err wakes queue ctx =
    exit_with messages no_color queue ctx
      (Reader.returned (reader_consume chunk_size create_err poll_err wakes))

-- `producer_thread_init`, with the blocks that the writer gets of the queue.
unfoldable pub producer_thread_init :
    Messages → Bool → FieldSet → ℕ → List Block → Bytes → Queue → Ctx → Option (Errno × Ended)
producer_thread_init messages no_color fields chunk_size blocks output queue ctx =
    exit_with messages no_color queue ctx
      (Option.map (λ r. r.0) (producer_thread fields chunk_size blocks output))

-- `watcher_thread_init`, with what `sigwait` returns.
unfoldable pub watcher_thread : ℕ → Queue → Queue
watcher_thread sigwait queue = if sigwait == 0 then finalize queue else queue

-- `cancel_worker_thread`, with what `pthread_cancel` returns.
abbrev pub cancel_worker_thread : ℕ → Ctx → Ctx
cancel_worker_thread err ctx =
    if err == 0 then ctx else (ctx_set Errno.esys_err Source.posix err (codes "worker.c") 389 ctx).1
