-- ===== src/Queue/Threads/Invariant.antt =====
-- What holds in every state of the two threads, and that each step keeps it.
use jpipe.Common.{
  ℕ, ◌<◌, ◌≡◌, refl, sym, ap, ap₂, ◌∙◌, true, false, ◌≤◌, [], ◌∷◌, ◌++◌, append_assoc, none, some,
  arith, ltb→lt, subst, set, length-set,
}
use jpipe.Errno.{Errno}
use jpipe.Queue.{
  Block, Queue, Attempt, returned, waiting, push_sees_room, push_commit, pop_sees_block, pop_commit,
}
use jpipe.Queue.Pending.{block_at, pending-set}
use jpipe.Queue.Inv.{
  IsQueue, contents, PushAttempt, PopAttempt, push_locked-PushAttempt, pop_locked-PopAttempt,
  push_commit_lem, pop_commit_lem, finalize_lem, finalize-IsQueue,
}
use jpipe.Queue.Threads.{
  Producer, Consumer, System, producer_after, consumer_after, Step, push_inactive, push_active,
  push_room, push_full, push_section, push_woken, pop_woken, woken_producer, woken_consumer, write,
  commit_push, pop_some, pop_none, pop_section, commit_pop, finalized,
}

-- A reader with a block has the one behind the last, and there is room for it. A reader that is asleep
-- would be so again: the queue is active and full.
abbrev pub ProducerOwns : Queue → Producer → Type 0
ProducerOwns q Producer.idle = Unit
ProducerOwns q Producer.checked = Unit
ProducerOwns q Producer.at_lock = Unit
ProducerOwns q Producer.asleep = (q.active ≡ true) × (q.capacity ≤ q.length)
ProducerOwns q (Producer.holds i) = (i ≡ q.tail) × (q.length < q.capacity)

-- A writer with a block has the oldest. Where one is asleep the queue is active and empty.
abbrev pub ConsumerOwns : Queue → Consumer → Type 0
ConsumerOwns q Consumer.idle = Unit
ConsumerOwns q Consumer.at_lock = Unit
ConsumerOwns q Consumer.asleep = (q.active ≡ true) × (q.length ≡ 0)
ConsumerOwns q (Consumer.holds i) = (i ≡ q.head) × (0 < q.length)

pub record Inv (s : System) : Type 0 where
  pub queue : IsQueue s.queue
  pub producer : ProducerOwns s.queue s.producer
  pub consumer : ConsumerOwns s.queue s.consumer
  pub history : s.pushed ≡ s.taken ++ contents s.queue

attempt-ProducerOwns :
    (q : Queue) (a : Attempt) → PushAttempt q a → ProducerOwns q (producer_after a)
attempt-ProducerOwns q waiting h = (h.0, h.1)
attempt-ProducerOwns q (returned Errno.ok (some i)) h = (h.2, h.1)
attempt-ProducerOwns q (returned e none) h = tt
attempt-ProducerOwns q (returned e (some i)) h = absurd h

attempt-ConsumerOwns :
    (q : Queue) (a : Attempt) → PopAttempt q a → ConsumerOwns q (consumer_after a)
attempt-ConsumerOwns q waiting h = h
attempt-ConsumerOwns q (returned Errno.ok (some i)) h = (h.1, h.0)
attempt-ConsumerOwns q (returned e none) h = tt
attempt-ConsumerOwns q (returned e (some i)) h = absurd h

-- What one side owns stays its own when the other side commits, and a sleeper is woken.
pop_commit-ProducerOwns :
    (q : Queue) (p : Producer)
    → IsQueue q
    → 0 < q.length
    → ProducerOwns q p
    → ProducerOwns (pop_commit q) (woken_producer p)
unfolding pop_commit
pop_commit-ProducerOwns q (Producer.holds i) v h own = (own.0, omega (arith, v.within, v.small))
pop_commit-ProducerOwns q _ v h own = tt

push_commit-ConsumerOwns :
    (q : Queue) (c : Consumer)
    → IsQueue q
    → q.length < q.capacity
    → ConsumerOwns q c
    → ConsumerOwns (push_commit q) (woken_consumer c)
unfolding push_commit
push_commit-ConsumerOwns q (Consumer.holds i) v h own = (own.0, omega (arith, v.within, v.small))
push_commit-ConsumerOwns q _ v h own = tt

write-IsQueue :
    (q : Queue) (i : ℕ) (b : Block) → IsQueue q → IsQueue (record q { blocks = set q.blocks i b })
write-IsQueue q i b v = record {
  some_room = v.some_room;
  small = v.small;
  head_in = v.head_in;
  within = v.within;
  tail_at = v.tail_at;
  slots = length-set q.blocks i b ∙ v.slots;
}

inactive-ProducerOwns :
    (q : Queue) (p : Producer)
    → ProducerOwns q p
    → ProducerOwns (record q { active = false }) (woken_producer p)
inactive-ProducerOwns q (Producer.holds i) own = own
inactive-ProducerOwns q _ own = tt

inactive-ConsumerOwns :
    (q : Queue) (c : Consumer)
    → ConsumerOwns q c
    → ConsumerOwns (record q { active = false }) (woken_consumer c)
inactive-ConsumerOwns q (Consumer.holds i) own = own
inactive-ConsumerOwns q _ own = tt

pub Step-Inv : {s t : System} → Step s t → Inv s → Inv t
Step-Inv (push_inactive e h) v = record {
  queue = v.queue;
  producer = tt;
  consumer = v.consumer;
  history = v.history;
}
Step-Inv (push_active e h) v = record {
  queue = v.queue;
  producer = tt;
  consumer = v.consumer;
  history = v.history;
}
Step-Inv {s} (push_room e h) v = record {
  queue = v.queue;
  producer = (refl, unfold push_sees_room in ltb→lt s.queue.length s.queue.capacity h);
  consumer = v.consumer;
  history = v.history;
}
Step-Inv (push_full e h) v = record {
  queue = v.queue;
  producer = tt;
  consumer = v.consumer;
  history = v.history;
}
Step-Inv {s} (push_section e) v = record {
  queue = v.queue;
  producer = attempt-ProducerOwns s.queue _ (push_locked-PushAttempt s.queue);
  consumer = v.consumer;
  history = v.history;
}
Step-Inv (push_woken e) v = record {
  queue = v.queue;
  producer = tt;
  consumer = v.consumer;
  history = v.history;
}
Step-Inv {s} (write i b e) v =
    let own = subst (ProducerOwns s.queue) e v.producer in
    record {
      queue = write-IsQueue s.queue i b v.queue;
      producer = v.producer;
      consumer = v.consumer;
      history =
          v.history
          ∙ ap (◌++◌ s.taken) (
              sym (
                pending-set s.queue.blocks s.queue.capacity s.queue.head s.queue.length i b
                  v.queue.head_in own.1 (own.0 ∙ v.queue.tail_at)));
    }
Step-Inv {s} (commit_push i e) v =
    let own = subst (ProducerOwns s.queue) e v.producer in
    let pushed = push_commit_lem s.queue v.queue own.1 in
    record {
      queue = pushed.0;
      producer = tt;
      consumer = push_commit-ConsumerOwns s.queue s.consumer v.queue own.1 v.consumer;
      history =
          ap₂ (λ h j. h ++ block_at s.queue.blocks j ∷ []) v.history own.0
          ∙ append_assoc s.taken (contents s.queue) (block_at s.queue.blocks s.queue.tail ∷ [])
          ∙ ap (◌++◌ s.taken) (sym pushed.1);
    }
Step-Inv {s} (pop_some e h) v = record {
  queue = v.queue;
  producer = v.producer;
  consumer = (refl, unfold pop_sees_block in ltb→lt 0 s.queue.length h);
  history = v.history;
}
Step-Inv (pop_none e h) v = record {
  queue = v.queue;
  producer = v.producer;
  consumer = tt;
  history = v.history;
}
Step-Inv {s} (pop_section e) v = record {
  queue = v.queue;
  producer = v.producer;
  consumer = attempt-ConsumerOwns s.queue _ (pop_locked-PopAttempt s.queue);
  history = v.history;
}
Step-Inv (pop_woken e) v = record {
  queue = v.queue;
  producer = v.producer;
  consumer = tt;
  history = v.history;
}
Step-Inv {s} (commit_pop i e) v =
    let own = subst (ConsumerOwns s.queue) e v.consumer in
    let popped = pop_commit_lem s.queue v.queue own.1 in
    record {
      queue = popped.0;
      producer = pop_commit-ProducerOwns s.queue s.producer v.queue own.1 v.producer;
      consumer = tt;
      history =
          v.history
          ∙ ap (◌++◌ s.taken) popped.1
          ∙ sym (
              append_assoc s.taken (block_at s.queue.blocks s.queue.head ∷ [])
                (contents (pop_commit s.queue)))
          ∙ ap (λ j. (s.taken ++ block_at s.queue.blocks j ∷ []) ++ contents (pop_commit s.queue))
              (sym own.0);
    }
Step-Inv {s} finalized v = rw (finalize_lem s.queue) (record {
  queue = rw (finalize_lem s.queue) at (finalize-IsQueue s.queue v.queue);
  producer = inactive-ProducerOwns s.queue s.producer v.producer;
  consumer = inactive-ConsumerOwns s.queue s.consumer v.consumer;
  history = v.history;
})
