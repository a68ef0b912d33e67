-- ===== src/Queue/Refine.antt =====
-- The two threads at the queue implement the bounded list: whatever they do, the blocks that go in and
-- out, the calls that are refused and the closing are a run of that list.
use jpipe.Common.{
  ℕ, zero, suc, ◌+◌, ◌^◌, ◌<◌, ◌≡◌, refl, sym, ap, ◌∙◌, ◌%◌, subst, not, List, [], ◌∷◌, ◌++◌,
  Option, none, some, arith, length,
}
use jpipe.Errno.{Errno}
use jpipe.Queue.{
  Policy, Block, Queue, Attempt, returned, waiting, queue_create, push_sees_active, push_locked,
  push_commit, pop_locked, pop_commit,
}
use jpipe.Queue.Pending.{block_at, pending, pending-set}
use jpipe.Queue.Inv.{
  IsQueue, contents, PushAttempt, PopAttempt, push_locked-PushAttempt, pop_locked-PopAttempt,
  push_commit_lem, pop_commit_lem, finalize_lem, queue_create-IsQueue,
}
use jpipe.Queue.Fifo.{
  Fifo, Event, enqueued, dequeued, push_refused, pop_refused, closing, Allows, new_fifo, Runs,
  none_yet, and_then,
}
use jpipe.Queue.Threads.{
  System, Step, push_inactive, push_active, push_room, push_full, push_section, push_woken, write,
  commit_push, pop_some, pop_none, pop_section, pop_woken, commit_pop, finalized, Reach, start,
  later,
}
use jpipe.Queue.Threads.Invariant.{ProducerOwns, ConsumerOwns, Inv}
use jpipe.Queue.Threads.Safety.{Reach-Inv}

-- The list that a queue stands for.
abbrev pub fifo_of : Queue → Fifo
fifo_of q = record { items = contents q; closed = not q.active }

-- A call that returns no block.
abbrev pub refusal : (Errno → Event) → Attempt → Option Event
refusal event (returned e none) = some (event e)
refusal event _ = none

-- What a step shows of itself.
pub event_of : {s t : System} → Step s t → Option Event
event_of (push_inactive e h) = some (push_refused Errno.eshutting_down)
event_of {s} (push_section e) = refusal push_refused (push_locked s.queue)
event_of {s} (commit_push i e) = some (enqueued (block_at s.queue.blocks i))
event_of {s} (pop_section e) = refusal pop_refused (pop_locked s.queue)
event_of {s} (commit_pop i e) = some (dequeued (block_at s.queue.blocks i))
event_of finalized = some closing
event_of _ = none

abbrev seen : Option Event → List Event → List Event
seen none events = events
seen (some event) events = event ∷ events

-- The events of a run, latest first.
pub trace : {q : Queue} {s : System} → Reach q s → List Event
trace start = []
trace (later r st) = seen (event_of st) (trace r)

abbrev Shown : ℕ → Fifo → Option Event → Fifo → Type 0
Shown capacity f none f' = f' ≡ f
Shown capacity f (some event) f' = Allows capacity f event f'

length-pending : (blocks : List Block) (capacity h n : ℕ) → length (pending blocks capacity h n) ≡ n
length-pending blocks capacity h zero = refl
length-pending blocks capacity h (suc n) =
    ap suc (length-pending blocks capacity ((h + 1) % capacity) n)

length-contents : (q : Queue) → length (contents q) ≡ q.length
length-contents q = length-pending q.blocks q.capacity q.head q.length

empty-contents : (q : Queue) → q.length ≡ 0 → contents q ≡ []
empty-contents q e = ap (pending q.blocks q.capacity q.head) e

push-Shown :
    (q : Queue) (a : Attempt)
    → IsQueue q
    → PushAttempt q a
    → Shown q.capacity (fifo_of q) (refusal push_refused a) (fifo_of q)
push-Shown q waiting v h = refl
push-Shown q (returned Errno.ok (some i)) v h = refl
push-Shown q (returned Errno.eshutting_down none) v h = (ap not h, refl)
push-Shown q (returned Errno.emsg_should_drop none) v h =
    (ap not h.0, omega (arith, length-contents q, h.1, v.within), refl)
push-Shown q (returned _ _) v h = absurd h

pop-Shown :
    (q : Queue) (a : Attempt)
    → PopAttempt q a
    → Shown q.capacity (fifo_of q) (refusal pop_refused a) (fifo_of q)
pop-Shown q waiting h = refl
pop-Shown q (returned Errno.ok (some i)) h = refl
pop-Shown q (returned Errno.eshutting_down none) h = (ap not h.0, empty-contents q h.1, refl)
pop-Shown q (returned _ _) h = absurd h

Step-Shown :
    {s t : System} (st : Step s t)
    → Inv s
    → Shown s.queue.capacity (fifo_of s.queue) (event_of st) (fifo_of t.queue)
unfolding event_of push_sees_active
Step-Shown (push_inactive e h) v = (ap not h, refl)
Step-Shown (push_active e h) v = refl
Step-Shown (push_room e h) v = refl
Step-Shown (push_full e h) v = refl
Step-Shown {s} (push_section e) v =
    push-Shown s.queue (push_locked s.queue) v.queue (push_locked-PushAttempt s.queue)
Step-Shown (push_woken e) v = refl
Step-Shown {s} (write i b e) v =
    let own = subst (ProducerOwns s.queue) e v.producer in
    ap (λ items. record { items = items; closed = not s.queue.active })
      (pending-set s.queue.blocks s.queue.capacity s.queue.head s.queue.length i b v.queue.head_in
        own.1 (own.0 ∙ v.queue.tail_at))
Step-Shown {s} (commit_push i e) v =
    let own = subst (ProducerOwns s.queue) e v.producer in
    (
      omega (arith, length-contents s.queue, own.1),
      (push_commit_lem s.queue v.queue own.1).1
          ∙ ap (λ j. contents s.queue ++ block_at s.queue.blocks j ∷ []) (sym own.0),
      unfold push_commit in refl,
    )
Step-Shown (pop_some e h) v = refl
Step-Shown (pop_none e h) v = refl
Step-Shown {s} (pop_section e) v =
    pop-Shown s.queue (pop_locked s.queue) (pop_locked-PopAttempt s.queue)
Step-Shown (pop_woken e) v = refl
Step-Shown {s} (commit_pop i e) v =
    let own = subst (ConsumerOwns s.queue) e v.consumer in
    (
      (pop_commit_lem s.queue v.queue own.1).1
          ∙ ap (λ j. block_at s.queue.blocks j ∷ contents (pop_commit s.queue)) (sym own.0),
      unfold pop_commit in refl,
    )
Step-Shown {s} finalized v = rw (finalize_lem s.queue) (refl, refl)

Step-capacity : {s t : System} → Step s t → t.queue.capacity ≡ s.queue.capacity
Step-capacity (commit_push i e) = unfold push_commit in refl
Step-capacity (commit_pop i e) = unfold pop_commit in refl
Step-capacity {s} finalized = ap (λ q. q.capacity) (finalize_lem s.queue)
Step-capacity _ = refl

Shown-Runs :
    (capacity : ℕ) (events : List Event) (f : Fifo) (event : Option Event) (f' : Fifo)
    → Runs capacity events f
    → Shown capacity f event f'
    → Runs capacity (seen event events) f'
Shown-Runs capacity events f none f' runs h = subst (Runs capacity events) (sym h) runs
Shown-Runs capacity events f (some event) f' runs h = and_then event f' runs h

module _ (capacity chunk_size lock not_empty not_full : ℕ) (policy : Policy) {q : Queue}
    {err : Errno} (some_room : 0 < capacity) (small : capacity + 1 < 2 ^ 64)
    (created : queue_create capacity chunk_size policy lock not_empty not_full
      ≡ (some q, err)) where
  queue_capacity : q.capacity ≡ capacity
  queue_capacity = unfold queue_create in ground (arith, created)

  Reach-capacity : {s : System} → Reach q s → s.queue.capacity ≡ capacity
  Reach-capacity start = queue_capacity
  Reach-capacity (later r st) = Step-capacity st ∙ Reach-capacity r

  start-fifo : fifo_of q ≡ new_fifo
  start-fifo =
      let new =
        queue_create-IsQueue capacity chunk_size policy lock not_empty not_full some_room small
          created in
      rw (new.2, new.1) refl

  -- In every interleaving of the two threads and calls of jp_queue_finalize on a queue that
  -- jp_queue_create returned for a capacity from 1 to 2^64 - 2, the blocks that are committed and
  -- taken, the calls that return no block and the closings are a run of a bounded first-in-first-
  -- out list that can be closed, and the queue stands for the list that the run ends in.
  pub trace-Runs : {s : System} (r : Reach q s) → Runs capacity (trace r) (fifo_of s.queue)
  unfolding trace
  trace-Runs start = rw start-fifo none_yet
  trace-Runs (later {s} {t} r st) =
      let v =
        Reach-Inv capacity chunk_size lock not_empty not_full policy some_room small created r in
      Shown-Runs capacity (trace r) (fifo_of s.queue) (event_of st) (fifo_of t.queue) (trace-Runs r)
        (subst (λ n. Shown n (fifo_of s.queue) (event_of st) (fifo_of t.queue)) (Reach-capacity r)
          (Step-Shown st v))
