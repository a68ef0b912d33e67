-- ===== src/Worker/Cancel.antt =====
-- `pthread_cancel` on the reader and the writer, as `cancel_worker_thread` of src/worker.c calls it: the
-- two threads at the queue, with the owner of `queue->lock` written out. A thread that is canceled in
-- `pthread_cond_wait` takes the mutex again before its clean-up handlers run.
pub mod Hang
mod Tests
use jpipe.Common.{ℕ, ◌≡◌, ◌≢◌, Bool, true, false, Option, none, some}
use jpipe.Queue.{Queue, finalize}
use jpipe.Queue.Threads.{
  Side, IsAsleep, System, Step, init, woken_producer, woken_consumer, push_inactive, push_active,
  push_room, push_full, push_section, push_woken, write, commit_push, pop_some, pop_none,
  pop_section, pop_woken, commit_pop, finalized,
}

-- A thread runs, is in `thread_cleanup`, or has ended.
pub data Phase : Type 0 where
  running cleaning ended : Phase

-- `lock` is the thread that keeps `queue->lock` between the stretches of src/queue.c.
pub record Process : Type 0 where
  pub system : System
  pub lock : Option Side
  pub phase : Side → Phase

abbrev pub set_phase : (Side → Phase) → Side → Phase → Side → Phase
set_phase phase Side.reader new Side.reader = new
set_phase phase Side.reader new Side.writer = phase Side.writer
set_phase phase Side.writer new Side.reader = phase Side.reader
set_phase phase Side.writer new Side.writer = new

-- Whether a stretch is a critical section.
abbrev pub needs_lock : {s t : System} → Step s t → Bool
needs_lock (push_section e) = true
needs_lock (commit_push i e) = true
needs_lock (pop_section e) = true
needs_lock (commit_pop i e) = true
needs_lock finalized = true
needs_lock (push_inactive e f) = false
needs_lock (push_active e f) = false
needs_lock (push_room e f) = false
needs_lock (push_full e f) = false
needs_lock (push_woken e) = false
needs_lock (write i b e) = false
needs_lock (pop_some e f) = false
needs_lock (pop_none e f) = false
needs_lock (pop_woken e) = false

-- The thread that runs it, where that is the reader or the writer; `jp_queue_finalize` is called by
-- others too.
abbrev pub runs_on : {s t : System} → Step s t → Option Side
runs_on (push_inactive e f) = some Side.reader
runs_on (push_active e f) = some Side.reader
runs_on (push_room e f) = some Side.reader
runs_on (push_full e f) = some Side.reader
runs_on (push_section e) = some Side.reader
runs_on (push_woken e) = some Side.reader
runs_on (write i b e) = some Side.reader
runs_on (commit_push i e) = some Side.reader
runs_on (pop_some e f) = some Side.writer
runs_on (pop_none e f) = some Side.writer
runs_on (pop_section e) = some Side.writer
runs_on (pop_woken e) = some Side.writer
runs_on (commit_pop i e) = some Side.writer
runs_on finalized = none

abbrev pub IsRunning : Process → Option Side → Type 0
IsRunning p none = Unit
IsRunning p (some side) = p.phase side ≡ Phase.running

abbrev pub IsFree : Process → Bool → Type 0
IsFree p false = Unit
IsFree p true = p.lock ≡ none

-- `jp_queue_finalize` with its broadcasts.
abbrev pub finalized_system : System → System
finalized_system s = record s {
  queue = finalize s.queue;
  producer = woken_producer s.producer;
  consumer = woken_consumer s.consumer;
}

pub data Move (p : Process) : Process → Type 0 where
  -- a stretch of src/queue.c
  stretch :
      {t : System} (st : Step p.system t)
      → IsRunning p (runs_on st)
      → IsFree p (needs_lock st)
      → Move p (record p { system = t })
  -- a thread is canceled in a wait
  cancel_wait :
      (side : Side)
      → p.phase side ≡ Phase.running
      → IsAsleep side p.system
      → p.lock ≡ none
      → Move p (record p { lock = some side; phase = set_phase p.phase side Phase.cleaning })
  -- a thread is canceled in a call of the operating system, or ends
  cancel_call :
      (side : Side)
      → p.phase side ≡ Phase.running
      → ¬ IsAsleep side p.system
      → Move p (record p { phase = set_phase p.phase side Phase.cleaning })
  -- `thread_cleanup`, where `jp_queue_finalize` finds the queue finalized
  clean_finalized :
      (side : Side)
      → p.phase side ≡ Phase.cleaning
      → p.system.queue.active ≡ false
      → Move p (record p { phase = set_phase p.phase side Phase.ended })
  -- `thread_cleanup`, where it takes the lock
  clean :
      (side : Side)
      → p.phase side ≡ Phase.cleaning
      → p.system.queue.active ≡ true
      → p.lock ≡ none
      → Move p (record p {
        system = finalized_system p.system;
        phase = set_phase p.phase side Phase.ended;
      })

-- Both threads run, and nobody has the lock.
abbrev pub process_of : Queue → Process
process_of q = record { system = init q; lock = none; phase = λ side. Phase.running }

pub data Moves (p : Process) : Process → Type 0 where
  now : Moves p p
  next : {t u : Process} → Moves p t → Move t u → Moves p u
