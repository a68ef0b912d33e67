-- ===== src/Bench/Queue/Steady.antt =====
-- What holds at every moment of the queue benchmark.
use jpipe.Common.{
  ℕ, ◌<◌, ◌≤◌, ◌≡◌, refl, Bool, true, false, List, [], ◌∷◌, map, take, Bytes, none, some, replicate,
}
use jpipe.Errno.{Errno}
use jpipe.Queue.{
  Policy, Block, Queue, Attempt, returned, waiting, push_sees_active, push_locked, pop_locked,
}
use jpipe.Queue.Pending.{block_at}
use jpipe.Queue.Inv.{PushAttempt, PopAttempt, push_locked-PushAttempt, pop_locked-PopAttempt}
use jpipe.Queue.Threads.{
  Producer, System, Step, Reach, producer_after, consumer_after, push_inactive, push_active,
  push_room, push_full, push_section, push_woken, write, commit_push, pop_some, pop_none,
  pop_section, pop_woken, commit_pop, finalized,
}
use jpipe.Bench.Queue.{At, Bench, IsPush, IsPop, after_push, after_pop}

-- What counts of each block.
abbrev pub texts : List Block → List Bytes
texts blocks = map (λ b. take b.length b.bytes) blocks

abbrev pub one_byte : Bytes
one_byte = 65 ∷ []

-- In the loop: in a call that has not got a block yet there are iterations left.
abbrev pub IsTrying : ℕ → ℕ → Producer → Type 0
IsTrying iterations i Producer.idle = i ≤ iterations
IsTrying iterations i Producer.checked = i < iterations
IsTrying iterations i Producer.at_lock = i < iterations
IsTrying iterations i Producer.asleep = i < iterations
IsTrying iterations i (Producer.holds j) = ⊥

-- Where `data_writer` is, and how it stands with the queue then.
abbrev pub WriterIs : ℕ → At → ℕ → System → Type 0
WriterIs iterations At.pushing i s = (s.queue.active ≡ true) × IsTrying iterations i s.producer
WriterIs iterations At.filling i s =
    (s.queue.active ≡ true) × (i < iterations) × ((j : ℕ) × (s.producer ≡ Producer.holds j))
WriterIs iterations At.committing i s =
    (s.queue.active ≡ true)
    × (i < iterations)
    × ((j : ℕ) × (s.producer ≡ Producer.holds j)
        × (texts (block_at s.queue.blocks j ∷ []) ≡ one_byte ∷ []))
WriterIs iterations At.finalizing i s =
    (s.queue.active ≡ true) × (i ≡ iterations) × (s.producer ≡ Producer.idle)
WriterIs iterations At.ended i s =
    (s.queue.active ≡ false) × (i ≡ iterations) × (s.producer ≡ Producer.idle)

-- Whether `data_reader` has left its loop.
abbrev pub ReaderIs : Bool → System → Type 0
ReaderIs true s = Unit
ReaderIs false s = (s.queue.active ≡ false) × (s.pushed ≡ s.taken)

pub record IsSteady (iterations : ℕ) (q : Queue) (b : Bench) : Type 0 where
  pub reach : Reach q b.system
  pub policy : b.system.queue.policy ≡ Policy.wait
  pub writer : WriterIs iterations b.at b.i b.system
  pub reader : ReaderIs b.reading b.system
  pub pushed : texts b.system.pushed ≡ replicate b.i one_byte

-- What a stretch of `jp_queue_pop_uncommitted` leaves alone.
pub record SameButConsumer (s t : System) : Type 0 where
  pub queue : t.queue ≡ s.queue
  pub producer : t.producer ≡ s.producer
  pub pushed : t.pushed ≡ s.pushed
  pub taken : t.taken ≡ s.taken

pub IsPop-same : {s t : System} (st : Step s t) → IsPop st → SameButConsumer s t
IsPop-same (pop_some e f) p = record { queue = refl; producer = refl; pushed = refl; taken = refl }
IsPop-same (pop_none e f) p = record { queue = refl; producer = refl; pushed = refl; taken = refl }
IsPop-same (pop_section e) p = record { queue = refl; producer = refl; pushed = refl; taken = refl }
IsPop-same (pop_woken e) p = record { queue = refl; producer = refl; pushed = refl; taken = refl }
IsPop-same (push_inactive e f) p = absurd p
IsPop-same (push_active e f) p = absurd p
IsPop-same (push_room e f) p = absurd p
IsPop-same (push_full e f) p = absurd p
IsPop-same (push_section e) p = absurd p
IsPop-same (push_woken e) p = absurd p
IsPop-same (write i b e) p = absurd p
IsPop-same (commit_push i e) p = absurd p
IsPop-same (commit_pop i e) p = absurd p
IsPop-same finalized p = absurd p

-- A call of `data_reader` returns without a block where the queue is finalized and empty.
attempt_ends :
    (q : Queue) (a : Attempt)
    → PopAttempt q a
    → after_pop (consumer_after a) ≡ false
    → (q.active ≡ false) × (q.length ≡ 0)
attempt_ends q waiting h e = absurd (cc)
attempt_ends q (returned Errno.eshutting_down none) h e = h
attempt_ends q (returned Errno.ok (some i)) h e = absurd (cc)
attempt_ends q (returned _ (some i)) h e = absurd (cc)
attempt_ends q (returned _ none) h e = absurd h

pub IsPop-ends :
    {s t : System} (st : Step s t)
    → IsPop st
    → after_pop t.consumer ≡ false
    → (s.queue.active ≡ false) × (s.queue.length ≡ 0)
IsPop-ends {s} (pop_section e) p f =
    attempt_ends s.queue (pop_locked s.queue) (pop_locked-PopAttempt s.queue) f
IsPop-ends (pop_some e g) p f = absurd (cc)
IsPop-ends (pop_none e g) p f = absurd (cc)
IsPop-ends (pop_woken e) p f = absurd (cc)
IsPop-ends (push_inactive e g) p f = absurd p
IsPop-ends (push_active e g) p f = absurd p
IsPop-ends (push_room e g) p f = absurd p
IsPop-ends (push_full e g) p f = absurd p
IsPop-ends (push_section e) p f = absurd p
IsPop-ends (push_woken e) p f = absurd p
IsPop-ends (write i b e) p f = absurd p
IsPop-ends (commit_push i e) p f = absurd p
IsPop-ends (commit_pop i e) p f = absurd p
IsPop-ends finalized p f = absurd p

-- A call of `data_writer` on an active queue whose policy is to wait never returns without a block.
abbrev pub KeepsPushing : ℕ → ℕ → System → System → Type 0
KeepsPushing iterations i s t =
    (t.queue ≡ s.queue)
    × (t.pushed ≡ s.pushed)
    × (t.taken ≡ s.taken)
    × WriterIs iterations (after_push t.producer) i t

attempt_pushes :
    (iterations i : ℕ) (s : System) (a : Attempt)
    → PushAttempt s.queue a
    → s.queue.active ≡ true
    → s.queue.policy ≡ Policy.wait
    → i < iterations
    → WriterIs iterations
        (after_push (producer_after a))
        i
        (record s { producer = producer_after a })
attempt_pushes iterations i s waiting h active policy less = (active, less)
attempt_pushes iterations i s (returned e (some j)) h active policy less = (active, less, (j, refl))
attempt_pushes iterations i s (returned Errno.eshutting_down none) h active policy less =
    absurd (cc)
attempt_pushes iterations i s (returned Errno.emsg_should_drop none) h active policy less =
    absurd (cc)
attempt_pushes iterations i s (returned _ none) h active policy less = absurd h

pub IsPush-keeps :
    {s t : System} (iterations i : ℕ) (st : Step s t)
    → IsPush st
    → s.queue.active ≡ true
    → s.queue.policy ≡ Policy.wait
    → i < iterations
    → KeepsPushing iterations i s t
unfolding push_sees_active
IsPush-keeps iterations i (push_inactive e f) p active policy less = absurd (cc)
IsPush-keeps iterations i (push_active e f) p active policy less =
    (refl, refl, refl, (active, less))
IsPush-keeps {s} iterations i (push_room e f) p active policy less =
    (refl, refl, refl, (active, less, (s.queue.tail, refl)))
IsPush-keeps iterations i (push_full e f) p active policy less = (refl, refl, refl, (active, less))
IsPush-keeps iterations i (push_woken e) p active policy less = (refl, refl, refl, (active, less))
IsPush-keeps {s} iterations i (push_section e) p active policy less = (
  refl,
  refl,
  refl,
  attempt_pushes iterations i s (push_locked s.queue) (push_locked-PushAttempt s.queue) active
      policy less,
)
IsPush-keeps iterations i (write j b e) p active policy less = absurd p
IsPush-keeps iterations i (commit_push j e) p active policy less = absurd p
IsPush-keeps iterations i (pop_some e f) p active policy less = absurd p
IsPush-keeps iterations i (pop_none e f) p active policy less = absurd p
IsPush-keeps iterations i (pop_section e) p active policy less = absurd p
IsPush-keeps iterations i (pop_woken e) p active policy less = absurd p
IsPush-keeps iterations i (commit_pop j e) p active policy less = absurd p
IsPush-keeps iterations i finalized p active policy less = absurd p
