-- ===== src/Queue/Inv.antt =====
-- The representation invariant of the queue, and what each operation does to the queue of committed
-- blocks that it stands for.
use native.Mathlib.Nat.{mod-lt, mod-add-mod, mod-eq_of_lt}
use jpipe.Common.{
  ℕ, suc, ◌+◌, ◌-◌, ◌%◌, ◌^◌, ◌<◌, ◌≤◌, ◌≡◌, refl, sym, ap, ◌∙◌, inl, inr, true, false, List, [],
  ◌∷◌, ◌++◌, none, some, arith, Bool-cases, length, length-replicate, add_size,
}
use jpipe.Errno.{Errno}
use jpipe.Queue.{
  empty_block, Policy, Block, Queue, Attempt, returned, waiting, queue_create, is_wait,
  push_sees_active, push_sees_room, push_locked, push_uncommitted, push_commit, pop_sees_block,
  pop_locked, pop_uncommitted, pop_commit, finalize,
}
use jpipe.Queue.Pending.{block_at, pending, pending-suc, mod-next}

pub record IsQueue (q : Queue) : Type 0 where
  pub some_room : 0 < q.capacity
  pub small : q.capacity + 1 < 2 ^ 64
  pub head_in : q.head < q.capacity
  pub within : q.length ≤ q.capacity
  pub tail_at : q.tail ≡ (q.head + q.length) % q.capacity
  pub slots : length q.blocks ≡ q.capacity

-- The blocks that are committed and not yet taken, oldest first.
abbrev pub contents : Queue → List Block
contents q = pending q.blocks q.capacity q.head q.length

-- A queue that `jp_queue_create` returns is valid, active and empty.
pub queue_create-IsQueue :
    (capacity chunk_size : ℕ) (policy : Policy) (lock not_empty not_full : ℕ) {q : Queue}
    {e : Errno}
    → 0 < capacity
    → capacity + 1 < 2 ^ 64
    → queue_create capacity chunk_size policy lock not_empty not_full ≡ (some q, e)
    → IsQueue q × (q.active ≡ true) × (contents q ≡ [])
unfolding queue_create
queue_create-IsQueue capacity chunk_size policy lock not_empty not_full h k e =
    ground (arith, mod-eq_of_lt {n = 0} {m = capacity} h, length-replicate capacity empty_block)

-- What an attempt to get a free block says of the queue.
abbrev pub PushAttempt : Queue → Attempt → Type 0
PushAttempt q waiting = (q.active ≡ true) × (q.capacity ≤ q.length) × (q.policy ≡ Policy.wait)
PushAttempt q (returned Errno.ok (some i)) =
    (q.active ≡ true) × (q.length < q.capacity) × (i ≡ q.tail)
PushAttempt q (returned Errno.eshutting_down none) = q.active ≡ false
PushAttempt q (returned Errno.emsg_should_drop none) =
    (q.active ≡ true) × (q.capacity ≤ q.length) × (q.policy ≡ Policy.drop)
PushAttempt q (returned _ _) = ⊥

-- What an attempt to get a committed block says of the queue.
abbrev pub PopAttempt : Queue → Attempt → Type 0
PopAttempt q waiting = (q.active ≡ true) × (q.length ≡ 0)
PopAttempt q (returned Errno.ok (some i)) = (0 < q.length) × (i ≡ q.head)
PopAttempt q (returned Errno.eshutting_down none) = (q.active ≡ false) × (q.length ≡ 0)
PopAttempt q (returned _ _) = ⊥

policy_drop : (p : Policy) → is_wait p ≡ false → p ≡ Policy.drop
policy_drop Policy.wait h = absurd (cc)
policy_drop Policy.drop h = refl

policy_wait : (p : Policy) → is_wait p ≡ true → p ≡ Policy.wait
policy_wait Policy.wait h = refl
policy_wait Policy.drop h = absurd (cc)

pub push_locked-PushAttempt : (q : Queue) → PushAttempt q (push_locked q)
unfolding push_locked
push_locked-PushAttempt q = ground (arith, policy_wait q.policy, policy_drop q.policy)

pub push_uncommitted-PushAttempt : (q : Queue) → PushAttempt q (push_uncommitted q)
unfolding push_uncommitted push_sees_active push_sees_room
push_uncommitted-PushAttempt q = ground (arith, push_locked-PushAttempt q)

pub pop_locked-PopAttempt : (q : Queue) → PopAttempt q (pop_locked q)
unfolding pop_locked
pop_locked-PopAttempt q = ground arith

pub pop_uncommitted-PopAttempt : (q : Queue) → PopAttempt q (pop_uncommitted q)
unfolding pop_uncommitted pop_sees_block
pop_uncommitted-PopAttempt q = ground (arith, pop_locked-PopAttempt q)

-- On a well-formed queue with room jp_queue_push_commit keeps the queue well formed and appends
-- the block at the tail to the contents.
pub push_commit_lem :
    (q : Queue)
    → IsQueue q
    → q.length < q.capacity
    → IsQueue (push_commit q)
      × (contents (push_commit q) ≡ contents q ++ block_at q.blocks q.tail ∷ [])
unfolding push_commit
push_commit_lem q v room =
    let length_is : add_size q.length 1 ≡ suc q.length = omega arith in
    let tail_is : add_size q.tail 1 % q.capacity ≡ (q.head + suc q.length) % q.capacity =
      next_tail in
    (
      record {
        some_room = v.some_room;
        small = v.small;
        head_in = v.head_in;
        within = omega arith;
        tail_at = tail_is ∙ ap (λ k. (q.head + k) % q.capacity) (sym length_is);
        slots = v.slots;
      },
      ap (pending q.blocks q.capacity q.head) length_is
          ∙ pending-suc q.blocks q.capacity q.head q.length v.head_in
          ∙ ap (λ i. contents q ++ block_at q.blocks i ∷ []) (sym v.tail_at),
    )
  where
    no_wrap : add_size q.tail 1 ≡ q.tail + 1
    no_wrap = omega (arith, v, mod-lt (q.head + q.length) v.some_room)

    next_tail : add_size q.tail 1 % q.capacity ≡ (q.head + suc q.length) % q.capacity
    next_tail =
        ap (λ k. k % q.capacity) no_wrap
        ∙ ap (λ k. (k + 1) % q.capacity) v.tail_at
        ∙ mod-add-mod (q.head + q.length) q.capacity 1
        ∙ ap (λ k. k % q.capacity) (omega arith)

-- On a well-formed queue that is not empty jp_queue_pop_commit keeps the queue well formed and
-- removes the block at the head from the contents, which is the first.
pub pop_commit_lem :
    (q : Queue)
    → IsQueue q
    → 0 < q.length
    → IsQueue (pop_commit q) × (contents q ≡ block_at q.blocks q.head ∷ contents (pop_commit q))
unfolding pop_commit
pop_commit_lem q v some_block = (
  record {
    some_room = v.some_room;
    small = v.small;
    head_in = mod-lt (add_size q.head 1) v.some_room;
    within = omega (arith, v.within);
    tail_at = v.tail_at ∙ same_end;
    slots = v.slots;
  },
  ap (pending q.blocks q.capacity q.head) length_is
      ∙ ap (λ h. block_at q.blocks q.head ∷ pending q.blocks q.capacity h rest) (sym head_is),
)
  where
    rest : ℕ
    rest = (q.length + 2 ^ 64 - 1) % 2 ^ 64

    length_is : q.length ≡ suc rest
    length_is = omega (arith, v.within, v.small)

    head_is : add_size q.head 1 % q.capacity ≡ (q.head + 1) % q.capacity
    head_is = ap (λ k. k % q.capacity) (omega (arith, v.head_in, v.small))

    same_end :
        (q.head + q.length) % q.capacity ≡ (add_size q.head 1 % q.capacity + rest) % q.capacity
    same_end =
        ap (λ k. (q.head + k) % q.capacity) length_is
        ∙ sym (mod-next q.capacity q.head rest)
        ∙ ap (λ h. (h + rest) % q.capacity) (sym head_is)

-- A finalized queue is the queue with `active` cleared.
pub finalize_lem : (q : Queue) → finalize q ≡ record q { active = false }
unfolding finalize
finalize_lem q = elim (Bool-cases q.active) [ inl on ↦ rw on | inr off ↦ rw off ]

pub finalize-IsQueue : (q : Queue) → IsQueue q → IsQueue (finalize q)
finalize-IsQueue q v = rw (finalize_lem q) (inactive)
  where
    inactive : IsQueue (record q { active = false })
    inactive = omega arith
