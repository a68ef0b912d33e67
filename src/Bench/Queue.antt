-- ===== src/Bench/Queue.antt =====
-- bench/queue.c: a thread that commits blocks of one byte and one that takes them, at a queue whose policy
-- is to wait. `data_writer` is the side that src/queue.c is filled by, which Queue.Threads calls the
-- reader; `data_reader` is its writer. The times that the benchmark takes are left out.
pub mod Steady
pub mod Invariant
pub mod Transfer
mod Tests
use jpipe.Common.{
  ℕ, suc, ◌+◌, ◌<◌, ◌≤◌, ◌≡◌, Bool, true, false, List, [], ◌∷◌, ◌++◌, map, set, take, drop, Bytes,
}
use jpipe.Queue.{Block, Queue, push_commit, pop_commit, finalize}
use jpipe.Queue.Pending.{block_at}
use jpipe.Queue.Threads.{
  Producer, Consumer, System, Step, init, woken_producer, woken_consumer, push_inactive,
  push_active, push_room, push_full, push_section, push_woken, write, commit_push, pop_some,
  pop_none, pop_section, pop_woken, commit_pop, finalized,
}

-- Where `data_writer` is.
pub data At : Type 0 where
  pushing filling committing finalizing ended : At

-- `i` is the counter of `data_writer`, which never passes `iterations` and so does not wrap; `reading` is
-- whether `data_reader` is in its loop.
pub record Bench : Type 0 where
  pub system : System
  pub i : ℕ
  pub at : At
  pub reading : Bool

-- The stretches of the two calls that may fail.
abbrev pub IsPush : {s t : System} → Step s t → Type 0
IsPush (push_inactive e f) = Unit
IsPush (push_active e f) = Unit
IsPush (push_room e f) = Unit
IsPush (push_full e f) = Unit
IsPush (push_section e) = Unit
IsPush (push_woken e) = Unit
IsPush (write i b e) = ⊥
IsPush (commit_push i e) = ⊥
IsPush (pop_some e f) = ⊥
IsPush (pop_none e f) = ⊥
IsPush (pop_section e) = ⊥
IsPush (pop_woken e) = ⊥
IsPush (commit_pop i e) = ⊥
IsPush finalized = ⊥

abbrev pub IsPop : {s t : System} → Step s t → Type 0
IsPop (push_inactive e f) = ⊥
IsPop (push_active e f) = ⊥
IsPop (push_room e f) = ⊥
IsPop (push_full e f) = ⊥
IsPop (push_section e) = ⊥
IsPop (push_woken e) = ⊥
IsPop (write i b e) = ⊥
IsPop (commit_push i e) = ⊥
IsPop (pop_some e f) = Unit
IsPop (pop_none e f) = Unit
IsPop (pop_section e) = Unit
IsPop (pop_woken e) = Unit
IsPop (commit_pop i e) = ⊥
IsPop finalized = ⊥

-- `if (err || block == NULL) break;` behind a stretch: a call that has returned without a block leaves
-- the loop.
abbrev pub after_push : Producer → At
after_push Producer.idle = At.finalizing
after_push Producer.checked = At.pushing
after_push Producer.at_lock = At.pushing
after_push Producer.asleep = At.pushing
after_push (Producer.holds i) = At.filling

-- `if (err) break;`, likewise.
abbrev pub after_pop : Consumer → Bool
after_pop Consumer.idle = false
after_pop Consumer.at_lock = true
after_pop Consumer.asleep = true
after_pop (Consumer.holds i) = true

-- `block->data[0] = 65; block->length = 1;`.
abbrev pub letter : Block → Block
letter b = record { bytes = 65 ∷ drop 1 b.bytes; length = 1 }

abbrev pub fill_block : ℕ → System → System
fill_block j s = record s {
  queue = record s.queue { blocks = set s.queue.blocks j (letter (block_at s.queue.blocks j)) };
}

-- `jp_queue_push_commit`, `jp_queue_pop_commit` and `jp_queue_finalize`, as Queue.Threads has them.
abbrev pub pushed_block : ℕ → System → System
pushed_block j s = record s {
  queue = push_commit s.queue;
  producer = Producer.idle;
  consumer = woken_consumer s.consumer;
  pushed = s.pushed ++ block_at s.queue.blocks j ∷ [];
}

abbrev pub popped_block : ℕ → System → System
popped_block j s = record s {
  queue = pop_commit s.queue;
  producer = woken_producer s.producer;
  consumer = Consumer.idle;
  taken = s.taken ++ block_at s.queue.blocks j ∷ [];
}

abbrev pub finalized_queue : System → System
finalized_queue s = record s {
  queue = finalize s.queue;
  producer = woken_producer s.producer;
  consumer = woken_consumer s.consumer;
}

-- The two threads start.
abbrev pub bench_of : Queue → Bench
bench_of q = record { system = init q; i = 0; at = At.pushing; reading = true }

module _ (iterations : ℕ) where
  pub data Turn (b : Bench) : Bench → Type 0 where
    -- `data_writer`
    push :
        {t : System} (st : Step b.system t)
        → IsPush st
        → b.at ≡ At.pushing
        → b.i < iterations
        → Turn b (record b { system = t; at = after_push t.producer })
    leave :
        b.at ≡ At.pushing
        → b.system.producer ≡ Producer.idle
        → iterations ≤ b.i
        → Turn b (record b { at = At.finalizing })
    fill :
        (j : ℕ)
        → b.at ≡ At.filling
        → b.system.producer ≡ Producer.holds j
        → Turn b (record b { system = fill_block j b.system; at = At.committing })
    commit :
        (j : ℕ)
        → b.at ≡ At.committing
        → b.system.producer ≡ Producer.holds j
        → Turn b (record b { system = pushed_block j b.system; i = suc b.i; at = At.pushing })
    finish :
        b.at ≡ At.finalizing
        → Turn b (record b { system = finalized_queue b.system; at = At.ended })
    -- `data_reader`
    pop :
        {t : System} (st : Step b.system t)
        → IsPop st
        → b.reading ≡ true
        → Turn b (record b { system = t; reading = after_pop t.consumer })
    release :
        (j : ℕ)
        → b.reading ≡ true
        → b.system.consumer ≡ Consumer.holds j
        → Turn b (record b { system = popped_block j b.system })

  pub data Turns (q : Queue) : Bench → Type 0 where
    begin : Turns q (bench_of q)
    turn : {b c : Bench} → Turns q b → Turn b c → Turns q c
