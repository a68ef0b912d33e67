-- ===== src/Worker/Cancel/Hang.antt =====
-- A thread that is canceled while it waits for the queue never ends.
use jpipe.Common.{ℕ, ◌+◌, ◌^◌, ◌<◌, ◌≡◌, refl, Bool, true, false, none, some}
use jpipe.Errno.{Errno}
use jpipe.Queue.{Policy, Queue, queue_create}
use jpipe.Queue.Threads.{
  Side, IsAsleep, System, Step, Reach, start, later, push_inactive, push_active, push_room,
  push_full, push_section, push_woken, write, commit_push, pop_some, pop_none, pop_section,
  pop_woken, commit_pop, finalized,
}
use jpipe.Queue.Threads.Safety.{Waits, sleeping_threads}
use jpipe.Worker.Cancel.{
  Phase, Process, set_phase, needs_lock, IsFree, Move, stretch, cancel_wait, cancel_call,
  clean_finalized, clean, process_of, Moves, now, next,
}

-- The thread is in its clean-up and has the lock that the clean-up needs.
pub record Hangs (side : Side) (p : Process) : Type 0 where
  pub cleaning : p.phase side ≡ Phase.cleaning
  pub owner : p.lock ≡ some side
  pub active : p.system.queue.active ≡ true

not_free : {side : Side} (p : Process) → p.lock ≡ some side → ¬ (p.lock ≡ none)
not_free p e f = absurd (cc)

-- Outside the critical section of `jp_queue_finalize` the queue stays active.
Step-active :
    {s t : System} (st : Step s t)
    → needs_lock st ≡ false
    → s.queue.active ≡ true
    → t.queue.active ≡ true
Step-active (push_inactive e f) n h = h
Step-active (push_active e f) n h = h
Step-active (push_room e f) n h = h
Step-active (push_full e f) n h = h
Step-active (push_woken e) n h = h
Step-active (write i b e) n h = h
Step-active (pop_some e f) n h = h
Step-active (pop_none e f) n h = h
Step-active (pop_woken e) n h = h
Step-active (push_section e) n h = h
Step-active (commit_push i e) n h = absurd (cc)
Step-active (pop_section e) n h = h
Step-active (commit_pop i e) n h = absurd (cc)
Step-active finalized n h = absurd (cc)

still_cleaning :
    (phase : Side → Phase) (side other : Side)
    → phase side ≡ Phase.cleaning
    → set_phase phase other Phase.cleaning side ≡ Phase.cleaning
still_cleaning phase Side.reader Side.reader h = refl
still_cleaning phase Side.reader Side.writer h = h
still_cleaning phase Side.writer Side.reader h = h
still_cleaning phase Side.writer Side.writer h = refl

no_section : {side : Side} (p : Process) (b : Bool) → IsFree p b → p.lock ≡ some side → b ≡ false
no_section p false free e = refl
no_section p true free e = absurd (not_free p e free)

Move-Hangs : {side : Side} {p p' : Process} → Move p p' → Hangs side p → Hangs side p'
Move-Hangs {side} {p} (stretch st r free) h = record {
  cleaning = h.cleaning;
  owner = h.owner;
  active = Step-active st (no_section p (needs_lock st) free h.owner) h.active;
}
Move-Hangs {side} {p} (cancel_wait other r asleep free) h = absurd (not_free p h.owner free)
Move-Hangs {side} {p} (cancel_call other r awake) h = record {
  cleaning = still_cleaning p.phase side other h.cleaning;
  owner = h.owner;
  active = h.active;
}
Move-Hangs (clean_finalized other c done) h = absurd (cc)
Move-Hangs {side} {p} (clean other c active free) h = absurd (not_free p h.owner free)

Moves-Hangs : {side : Side} {p p' : Process} → Moves p p' → Hangs side p → Hangs side p'
Moves-Hangs now h = h
Moves-Hangs (next ms m) h = Move-Hangs m (Moves-Hangs ms h)

-- What the threads do at the queue is one of their interleavings.
Move-Reach : {q : Queue} {p p' : Process} → Move p p' → Reach q p.system → Reach q p'.system
Move-Reach (stretch st r free) reach = later reach st
Move-Reach (cancel_wait other r asleep free) reach = reach
Move-Reach (cancel_call other r awake) reach = reach
Move-Reach (clean_finalized other c done) reach = reach
Move-Reach (clean other c active free) reach = later reach finalized

pub Moves-Reach : {q : Queue} {p : Process} → Moves (process_of q) p → Reach q p.system
Moves-Reach now = start
Moves-Reach (next ms m) = Move-Reach m (Moves-Reach ms)

-- The state behind the cancellation.
abbrev pub canceled : Side → Process → Process
canceled side p = record p { lock = some side; phase = set_phase p.phase side Phase.cleaning }

set_phase_same :
    (phase : Side → Phase) (side : Side) (new : Phase) → set_phase phase side new side ≡ new
set_phase_same phase Side.reader new = refl
set_phase_same phase Side.writer new = refl

Waits-active : (side : Side) (s : System) → Waits side s → s.queue.active ≡ true
Waits-active Side.reader s w = w.0
Waits-active Side.writer s w = w.0

module _ (capacity chunk_size lock not_empty not_full : ℕ) (policy : Policy) {q : Queue}
    {err : Errno} (some_room : 0 < capacity) (small : capacity + 1 < 2 ^ 64)
    (created : queue_create capacity chunk_size policy lock not_empty not_full
      ≡ (some q, err)) where
  -- On a queue that jp_queue_create returned for a capacity from 1 to 2^64 - 2, a thread that runs
  -- and is asleep in a wait while nobody has the lock may be canceled there; in every later state
  -- it is in thread_cleanup and has not ended, it has the lock of the queue, and the queue is
  -- still active.
  pub canceled-Hangs :
      (side : Side) {p p' : Process}
      → Moves (process_of q) p
      → p.phase side ≡ Phase.running
      → IsAsleep side p.system
      → p.lock ≡ none
      → Moves (canceled side p) p'
      → Move p (canceled side p) × Hangs side p'
  canceled-Hangs side {p} run running asleep free ms = (
    cancel_wait side running asleep free,
    Moves-Hangs ms (record {
      cleaning = set_phase_same p.phase side Phase.cleaning;
      owner = refl;
      active = Waits-active side p.system (
          sleeping_threads capacity chunk_size lock not_empty not_full policy some_room small
            created side (Moves-Reach run) asleep);
    }),
  )
