-- ===== src/Bench/Queue/Invariant.antt =====
-- Every turn of the queue benchmark keeps what holds at its start.
use jpipe.Common.{
  ℕ, zero, suc, ap₂, get_or-set_self, ◌+◌, ◌<◌, ◌≤◌, ◌≡◌, refl, sym, ap, subst, ◌∙◌, Bool, true,
  false, [], ◌∷◌, ◌++◌, arith, take, Bytes, some, replicate, length, ◌^◌, append-nil,
}
use mathlib.Core.List.{map-append}
use jpipe.Errno.{Errno}
use jpipe.Queue.{empty_block, Policy, Queue, queue_create, push_commit, pop_commit}
use jpipe.Queue.Pending.{block_at, pending}
use jpipe.Queue.Inv.{finalize_lem, queue_create-IsQueue}
use jpipe.Queue.Threads.{
  Producer, System, Reach, start, later, woken_producer, write, commit_push, commit_pop, finalized,
}
use jpipe.Queue.Threads.Safety.{Reach-Inv, taken_in_order}
use jpipe.Queue.Threads.Invariant.{ProducerOwns}
use native.Mathlib.Nat.{mod-lt}
use jpipe.Bench.Queue.{
  At, Bench, after_pop, letter, fill_block, pushed_block, popped_block, finalized_queue, Turn, push,
  leave, fill, commit, finish, pop, release, Turns, begin, turn,
}
use jpipe.Bench.Queue.Steady.{
  texts, one_byte, IsTrying, WriterIs, ReaderIs, IsSteady, IsPop-same, IsPop-ends, IsPush-keeps,
}

-- The reader is in its loop while the queue is active.
in_loop :
    (reading : Bool) (s t : System)
    → ReaderIs reading s
    → s.queue.active ≡ true
    → ReaderIs reading t
in_loop true s t h active = tt
in_loop false s t h active = absurd (cc (h.0, active))

replicate-snoc : (n : ℕ) (x : Bytes) → replicate n x ++ x ∷ [] ≡ replicate (suc n) x
replicate-snoc zero x = refl
replicate-snoc (suc n) x = ap (λ xs. x ∷ xs) (replicate-snoc n x)

all_done : {i iterations : ℕ} → i ≤ iterations → iterations ≤ i → i ≡ iterations
all_done below done = omega (arith, below, done)

module _ (capacity chunk_size lock not_empty not_full iterations : ℕ) {q : Queue} {err : Errno}
    (some_room : 0 < capacity) (small : capacity + 1 < 2 ^ 64)
    (created : queue_create capacity chunk_size Policy.wait lock not_empty not_full
      ≡ (some q, err)) where
  -- The block that `data_writer` holds is one of the array.
  slot_of :
      {s : System} {j : ℕ} → Reach q s → s.producer ≡ Producer.holds j → j < length s.queue.blocks
  slot_of {s} {j} r e =
      let v =
        Reach-Inv capacity chunk_size lock not_empty not_full Policy.wait some_room small created
          r in
      let mine = subst (ProducerOwns s.queue) e v.producer in
      omega (
        arith,
        mine.0,
        v.queue.tail_at,
        mod-lt (s.queue.head + s.queue.length) v.queue.some_room,
        v.queue.slots,
      )

  WriterIs-same :
      (a : At) (i : ℕ) (s t : System)
      → t.queue ≡ s.queue
      → t.producer ≡ s.producer
      → WriterIs iterations a i s
      → WriterIs iterations a i t
  WriterIs-same At.pushing i s t same by w = rw (same, by) w
  WriterIs-same At.filling i s t same by w = rw (same, by) w
  WriterIs-same At.committing i s t same by w = rw (same, by) w
  WriterIs-same At.finalizing i s t same by w = rw (same, by) w
  WriterIs-same At.ended i s t same by w = rw (same, by) w

  woken_producer-IsTrying :
      (i : ℕ) (p : Producer) → IsTrying iterations i p → IsTrying iterations i (woken_producer p)
  woken_producer-IsTrying i Producer.idle h = h
  woken_producer-IsTrying i Producer.checked h = h
  woken_producer-IsTrying i Producer.at_lock h = h
  woken_producer-IsTrying i Producer.asleep h = h
  woken_producer-IsTrying i (Producer.holds j) h = h

  -- What `data_reader` gives back is nothing that `data_writer` has.
  WriterIs-popped :
      (a : At) (i j : ℕ) (s : System)
      → WriterIs iterations a i s
      → WriterIs iterations a i (popped_block j s)
  unfolding pop_commit
  WriterIs-popped At.pushing i j s w = (w.0, woken_producer-IsTrying i s.producer w.1)
  WriterIs-popped At.filling i j s w = (w.0, w.1, (w.2.0, ap woken_producer w.2.1))
  WriterIs-popped At.committing i j s w = (w.0, w.1, (w.2.0, ap woken_producer w.2.1, w.2.2))
  WriterIs-popped At.finalizing i j s w = (w.0, w.1, ap woken_producer w.2)
  WriterIs-popped At.ended i j s w = (w.0, w.1, ap woken_producer w.2)

  created_policy : q.policy ≡ Policy.wait
  unfolding queue_create
  created_policy = ground (arith, created)

  Turn-IsSteady :
      {b c : Bench} → Turn iterations b c → IsSteady iterations q b → IsSteady iterations q c
  Turn-IsSteady {b} (push {t = t} st p at less) v =
      let w = subst (λ a. WriterIs iterations a b.i b.system) at v.writer in
      let k = IsPush-keeps iterations b.i st p w.0 v.policy less in
      record {
        reach = later v.reach st;
        policy = ap (λ r. r.policy) k.0 ∙ v.policy;
        writer = k.3;
        reader = in_loop b.reading b.system t v.reader w.0;
        pushed = ap texts k.1 ∙ v.pushed;
      }
  Turn-IsSteady {b} (leave at idle done) v =
      let w = subst (λ a. WriterIs iterations a b.i b.system) at v.writer in
      record {
        reach = v.reach;
        policy = v.policy;
        writer = (w.0, all_done (subst (IsTrying iterations b.i) idle w.1) done, idle);
        reader = v.reader;
        pushed = v.pushed;
      }
  Turn-IsSteady {b} (fill j at holds) v =
      let w = subst (λ a. WriterIs iterations a b.i b.system) at v.writer in
      let block = letter (block_at b.system.queue.blocks j) in
      record {
        reach = later v.reach (write j block holds);
        policy = v.policy;
        writer = (
          w.0,
          w.1,
          (
            j,
            holds,
            ap (λ c. texts (c ∷ []))
                (get_or-set_self b.system.queue.blocks j block empty_block (slot_of v.reach holds)),
          ),
        );
        reader = in_loop b.reading b.system (fill_block j b.system) v.reader w.0;
        pushed = v.pushed;
      }
  Turn-IsSteady {b} (commit j at holds) v =
      let w = subst (λ a. WriterIs iterations a b.i b.system) at v.writer in
      let block = block_at b.system.queue.blocks j in
      let same : w.2.0 ≡ j = cc (holds, w.2.1) in
      let text =
        subst (λ k. texts (block_at b.system.queue.blocks k ∷ []) ≡ one_byte ∷ []) same w.2.2 in
      record {
        reach = later v.reach (commit_push j holds);
        policy = unfold push_commit in v.policy;
        writer = (unfold push_commit in w.0, omega (arith, w.1));
        reader = in_loop b.reading b.system (pushed_block j b.system) v.reader w.0;
        pushed =
            map-append (λ c. take c.length c.bytes) b.system.pushed (block ∷ [])
            ∙ ap₂ (◌++◌) v.pushed text
            ∙ replicate-snoc b.i one_byte;
      }
  Turn-IsSteady {b} (finish at) v =
      let w = subst (λ a. WriterIs iterations a b.i b.system) at v.writer in
      record {
        reach = later v.reach finalized;
        policy = ap (λ r. r.policy) (finalize_lem b.system.queue) ∙ v.policy;
        writer = (ap (λ r. r.active) (finalize_lem b.system.queue), w.1, ap woken_producer w.2);
        reader = in_loop b.reading b.system (finalized_queue b.system) v.reader w.0;
        pushed = v.pushed;
      }
  Turn-IsSteady {b} (pop {t = t} st p reading) v =
      let k = IsPop-same st p in
      record {
        reach = later v.reach st;
        policy = ap (λ r. r.policy) k.queue ∙ v.policy;
        writer = WriterIs-same b.at b.i b.system t k.queue k.producer v.writer;
        reader = stops (after_pop t.consumer) refl;
        pushed = ap texts k.pushed ∙ v.pushed;
      }
    where
      stops : (r : Bool) → after_pop t.consumer ≡ r → ReaderIs r t
      stops true e = tt
      stops false e =
          let k = IsPop-same st p in
          let ended = IsPop-ends st p e in
          (
            ap (λ r. r.active) k.queue ∙ ended.0,
            k.pushed
                ∙ taken_in_order capacity chunk_size lock not_empty not_full Policy.wait some_room
                    small created v.reach
                ∙ ap
                    (λ n.
                      b.system.taken
                      ++ pending b.system.queue.blocks b.system.queue.capacity b.system.queue.head
                          n)
                    ended.1
                ∙ append-nil b.system.taken
                ∙ sym k.taken,
          )
  Turn-IsSteady {b} (release j reading holds) v = record {
    reach = later v.reach (commit_pop j holds);
    policy = unfold pop_commit in v.policy;
    writer = WriterIs-popped b.at b.i j b.system v.writer;
    reader = subst (λ r. ReaderIs r (popped_block j b.system)) (sym reading) tt;
    pushed = v.pushed;
  }

  pub Turns-IsSteady : {b : Bench} → Turns iterations q b → IsSteady iterations q b
  Turns-IsSteady begin = record {
    reach = start;
    policy = created_policy;
    writer = (
      (queue_create-IsQueue capacity chunk_size Policy.wait lock not_empty not_full some_room small
          created).1,
      omega arith,
    );
    reader = tt;
    pushed = refl;
  }
  Turns-IsSteady (turn ts t) = Turn-IsSteady t (Turns-IsSteady ts)
