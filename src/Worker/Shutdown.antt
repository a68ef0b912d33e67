-- ===== src/Worker/Shutdown.antt =====
-- Once a thread has ended or a signal has come, no thread waits for the queue any more.
mod Tests
use jpipe.Common.{
  ℕ, ◌+◌, ◌^◌, ◌<◌, ◌≡◌, ◌≢◌, refl, sym, ap, ◌∙◌, Bool, true, false, Option, none, some, arith,
}
use jpipe.Errno.{Errno}
use jpipe.Errno.Context.{Ctx}
use jpipe.Errno.Print.{Messages}
use jpipe.Queue.{
  Policy, Queue, queue_create, finalize, push_commit, pop_commit, push_sees_active,
  push_uncommitted, returned,
}
use jpipe.Queue.Inv.{contents}
use jpipe.Queue.Threads.{
  Side, Producer, Consumer, System, Step, Reach, start, later, woken_producer, woken_consumer,
  push_inactive, push_active, push_room, push_full, push_section, push_woken, write, commit_push,
  pop_some, pop_none, pop_section, pop_woken, commit_pop, finalized,
}
use jpipe.Queue.Threads.Safety.{sleeping_threads}
use jpipe.Worker.Threads.{Ended, thread_cleanup}

-- The states that a state can come to.
pub data Later (s : System) : System → Type 0 where
  now : Later s s
  next : {t u : System} → Later s t → Step t u → Later s u

-- The state behind `thread_cleanup`, which wakes whoever is asleep.
abbrev pub cleaned : Messages → Bool → Ctx → System → System
cleaned messages no_color ctx s = record s {
  queue = (thread_cleanup messages no_color s.queue ctx).queue;
  producer = woken_producer s.producer;
  consumer = woken_consumer s.consumer;
}

-- No call of the reader gets a block, and nobody sleeps.
pub record Shutdown (s : System) : Type 0 where
  pub inactive : s.queue.active ≡ false
  pub refused : push_uncommitted s.queue ≡ returned Errno.eshutting_down none
  pub reader_awake : s.producer ≢ Producer.asleep
  pub writer_awake : s.consumer ≢ Consumer.asleep

finalize-inactive : (q : Queue) → (finalize q).active ≡ false
unfolding finalize
finalize-inactive q = ground arith

Step-inactive : {s t : System} → Step s t → s.queue.active ≡ false → t.queue.active ≡ false
unfolding push_commit pop_commit
Step-inactive (push_inactive e f) h = h
Step-inactive (push_active e f) h = h
Step-inactive (push_room e f) h = h
Step-inactive (push_full e f) h = h
Step-inactive (push_section e) h = h
Step-inactive (push_woken e) h = h
Step-inactive (write i b e) h = h
Step-inactive (commit_push i e) h = h
Step-inactive (pop_some e f) h = h
Step-inactive (pop_none e f) h = h
Step-inactive (pop_section e) h = h
Step-inactive (pop_woken e) h = h
Step-inactive (commit_pop i e) h = h
Step-inactive {s} finalized h = finalize-inactive s.queue

Later-Reach : {q : Queue} {s t : System} → Reach q s → Later s t → Reach q t
Later-Reach r now = r
Later-Reach r (next l st) = later (Later-Reach r l) st

Later-inactive : {s t : System} → Later s t → s.queue.active ≡ false → t.queue.active ≡ false
Later-inactive now h = h
Later-inactive (next l st) h = Step-inactive st (Later-inactive l h)

refuses : (q : Queue) → q.active ≡ false → push_uncommitted q ≡ returned Errno.eshutting_down none
unfolding push_uncommitted push_sees_active
refuses q h = rw h refl

-- On a queue that jp_queue_create returned for a capacity from 1 to 2^64 - 2, when the reader or
-- the writer has ended and thread_cleanup has run in any state of an interleaving, then in every
-- later state the queue is finalized, jp_queue_push_uncommitted returns JP_ESHUTTING_DOWN and
-- neither thread is asleep.
pub thread_cleanup-Shutdown :
    (capacity chunk_size lock not_empty not_full : ℕ) (policy : Policy) {q : Queue} {err : Errno}
    {s t : System} (messages : Messages) (no_color : Bool) (ctx : Ctx)
    → 0 < capacity
    → capacity + 1 < 2 ^ 64
    → queue_create capacity chunk_size policy lock not_empty not_full ≡ (some q, err)
    → Reach q s
    → Later (cleaned messages no_color ctx s) t
    → Shutdown t
unfolding thread_cleanup
thread_cleanup-Shutdown capacity chunk_size lock not_empty not_full policy {s = s} {t = t} messages
      no_color ctx some_room small created r l =
    let inactive : t.queue.active ≡ false = Later-inactive l (finalize-inactive s.queue) in
    let run = Later-Reach (later r finalized) l in
    record {
      inactive = inactive;
      refused = refuses t.queue inactive;
      reader_awake = λ e.
          let asleep =
            sleeping_threads capacity chunk_size lock not_empty not_full policy some_room small
              created Side.reader run e in
          cc (inactive, asleep.0);
      writer_awake = λ e.
          let asleep =
            sleeping_threads capacity chunk_size lock not_empty not_full policy some_room small
              created Side.writer run e in
          cc (inactive, asleep.0);
    }
