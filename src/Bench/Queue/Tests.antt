-- ===== src/Bench/Queue/Tests.antt =====
-- A whole run of the queue benchmark with one iteration, and the theorem at it.
use jpipe.Common.{◌≡◌, ◌⊎◌, refl, true, false, [], ◌∷◌, some, arith}
use jpipe.Errno.{Errno}
use jpipe.Queue.{
  Policy, Queue, Block, empty_block, queue_create, push_sees_active, push_sees_room, pop_sees_block,
  pop_locked, push_commit, pop_commit, finalize,
}
use jpipe.Queue.Threads.{
  Producer, Consumer, push_active, push_room, pop_some, pop_none, pop_section,
}
use jpipe.Bench.Queue.{
  At, Bench, push, leave, fill, commit, finish, pop, release, Turns, begin, turn,
}
use jpipe.Bench.Queue.Transfer.{HasMoved, CanMove, queue_bench-HasMoved}

abbrev one_slot : Queue
one_slot = record {
  head = 0;
  tail = 0;
  capacity = 1;
  chunk_size = 1024;
  active = true;
  length = 0;
  policy = Policy.wait;
  blocks = empty_block ∷ [];
}

created : queue_create 1 1024 Policy.wait 0 0 0 ≡ (some one_slot, Errno.ok)
unfolding queue_create
created = refl

abbrev one_letter : Block
one_letter = record { bytes = 65 ∷ []; length = 1 }

-- Both threads have ended.
abbrev ended : Bench
ended = record {
  system = record {
    queue = record one_slot { active = false; blocks = one_letter ∷ [] };
    producer = Producer.idle;
    consumer = Consumer.idle;
    pushed = one_letter ∷ [];
    taken = one_letter ∷ [];
  };
  i = 1;
  at = At.ended;
  reading = false;
}

-- The block is taken before the queue is finalized.
whole_run : Turns 1 one_slot ended
unfolding push_sees_active push_sees_room push_commit pop_sees_block pop_locked pop_commit finalize
whole_run =
    let held =
      turn (turn begin (push (push_active refl refl) tt refl (omega arith)))
        (push (push_room refl refl) tt refl (omega arith)) in
    let pushed = turn (turn held (fill 0 refl refl)) (commit 0 refl refl) in
    let taken = turn (turn pushed (pop (pop_some refl refl) tt refl)) (release 0 refl refl) in
    let finished = turn (turn taken (leave refl refl (omega arith))) (finish refl) in
    turn (turn finished (pop (pop_none refl refl) tt refl)) (pop (pop_section refl) tt refl)

queue_bench-HasMoved_example : HasMoved 1 ended ⊎ CanMove 1 ended
queue_bench-HasMoved_example =
    queue_bench-HasMoved 1 1024 0 0 0 1 (omega arith) (omega arith) created whole_run
