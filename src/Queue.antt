-- ===== src/Queue.antt =====
-- src/queue.c: the ring of blocks between the reader and the writer. Each function here is one
-- stretch of the source that no other thread can split: a test outside the lock, or a critical
-- section. Threads puts them together.
pub mod Layout
pub mod Pending
pub mod Inv
pub mod Fifo
pub mod Threads
pub mod Refine
pub mod Objects
mod Tests
use jpipe.Common.{
  ℕ, ◌+◌, ◌-◌, ◌*◌, ◌%◌, ◌^◌, Bool, true, false, not, ◌&&◌, List, [], ◌∷◌, Option, none, some, ◌==◌,
  leb, ltb, if◌then◌else◌, replicate, Bytes, add_size,
}
use jpipe.Errno.{Errno}

-- `jp_queue_policy_t`.
pub data Policy : Type 0 where
  wait drop : Policy

-- `jp_block_t`: `data` is what the block's range of the area holds, of which `length` bytes count.
pub record Block : Type 0 where
  pub bytes : Bytes
  pub length : ℕ

-- `jp_queue_t`, without the mutex and the condition variables.
pub record Queue : Type 0 where
  pub head : ℕ
  pub tail : ℕ
  pub capacity : ℕ
  pub chunk_size : ℕ
  pub active : Bool
  pub length : ℕ
  pub policy : Policy
  pub blocks : List Block

-- What an attempt to get a block comes to: the function returns, with the index of the block that
-- goes through `*block`, or the thread waits for a condition.
pub data Attempt : Type 0 where
  returned : Errno → Option ℕ → Attempt
  waiting : Attempt

abbrev pub empty_block : Block
empty_block = record { bytes = []; length = 0 }

-- `jp_queue_create`. The statuses are those of `pthread_mutex_init` and of the two calls of
-- `pthread_cond_init`; `jp_mem_malloc` does not fail, and the bytes of the area are not set.
unfoldable pub queue_create :
    (capacity chunk_size : ℕ) → Policy → (lock not_empty not_full : ℕ) → Option Queue × Errno
queue_create capacity chunk_size policy lock not_empty not_full =
    if not (lock == 0)
    then (none, Errno.esys_err)
    else if not (not_empty == 0)
    then (none, Errno.esys_err)
    else if not (not_full == 0)
    then (none, Errno.esys_err)
    else (
      some (record {
        head = 0;
        tail = 0;
        capacity = capacity;
        chunk_size = chunk_size;
        active = true;
        length = 0;
        policy = policy;
        blocks = replicate capacity empty_block;
      }),
      Errno.ok,
    )

abbrev pub is_wait : Policy → Bool
is_wait Policy.wait = true
is_wait Policy.drop = false

-- The first test of `jp_queue_push_uncommitted`: false is a return of JP_ESHUTTING_DOWN.
unfoldable pub push_sees_active : Queue → Bool
push_sees_active q = q.active

-- Its second test, which returns a block without the lock.
unfoldable pub push_sees_room : Queue → Bool
push_sees_room q = ltb q.length q.capacity

-- Its critical section, from the lock or from a wake-up to the next wait or to the end.
unfoldable pub push_locked : Queue → Attempt
push_locked q =
    if is_wait q.policy && q.active && leb q.capacity q.length
    then waiting
    else if not q.active
    then returned Errno.eshutting_down none
    else if not (is_wait q.policy) && leb q.capacity q.length
    then returned Errno.emsg_should_drop none
    else returned Errno.ok (some q.tail)

-- `jp_queue_push_uncommitted`, where no other thread comes between.
unfoldable pub push_uncommitted : Queue → Attempt
push_uncommitted q =
    if not (push_sees_active q)
    then returned Errno.eshutting_down none
    else if push_sees_room q
    then returned Errno.ok (some q.tail)
    else push_locked q

unfoldable pub push_commit : Queue → Queue
push_commit q = record q { tail = add_size q.tail 1 % q.capacity; length = add_size q.length 1 }

-- The first test of `jp_queue_pop_uncommitted`.
unfoldable pub pop_sees_block : Queue → Bool
pop_sees_block q = ltb 0 q.length

-- Its critical section.
unfoldable pub pop_locked : Queue → Attempt
pop_locked q =
    if q.length == 0 && q.active
    then waiting
    else if q.length == 0 && not q.active
    then returned Errno.eshutting_down none
    else returned Errno.ok (some q.head)

-- `jp_queue_pop_uncommitted`, where no other thread comes between.
unfoldable pub pop_uncommitted : Queue → Attempt
pop_uncommitted q = if pop_sees_block q then returned Errno.ok (some q.head) else pop_locked q

-- `atomic_fetch_sub` wraps.
unfoldable pub pop_commit : Queue → Queue
pop_commit q = record q {
  head = add_size q.head 1 % q.capacity;
  length = (q.length + 2 ^ 64 - 1) % 2 ^ 64;
}

-- `jp_queue_finalize`.
unfoldable pub finalize : Queue → Queue
finalize q = if not q.active then q else record q { active = false }
