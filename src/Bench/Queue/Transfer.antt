-- ===== src/Bench/Queue/Transfer.antt =====
-- The queue benchmark moves as many blocks as it says, and never stands still before.
use jpipe.Common.{
  ℕ, ◌+◌, ◌<◌, ◌≡◌, ◌≢◌, ◌⊎◌, inl, inr, refl, sym, ap, subst, ◌∙◌, Bool, true, false, arith,
  replicate, ◌^◌, some, Bool-cases,
}
use native.Mathlib.Decide.{dec_lt}
use jpipe.Errno.{Errno}
use jpipe.Queue.{Policy, Queue, queue_create, push_sees_active, push_sees_room, pop_sees_block}
use jpipe.Queue.Threads.{
  Side, Producer, Consumer, System, Step, push_inactive, push_active, push_room, push_full,
  push_section, push_woken, write, commit_push, pop_some, pop_none, pop_section, pop_woken,
  commit_pop, finalized,
}
use jpipe.Queue.Threads.Safety.{sleeping_threads}
use jpipe.Bench.Queue.{At, Bench, Turn, push, leave, fill, commit, finish, pop, release, Turns}
use jpipe.Bench.Queue.Steady.{IsTrying, texts, one_byte, WriterIs, ReaderIs, IsSteady}
use jpipe.Bench.Queue.Invariant.{Turns-IsSteady}

-- A wait that ends with no signal.
abbrev pub is_spurious : {s t : System} → Step s t → Bool
is_spurious (push_inactive e f) = false
is_spurious (push_active e f) = false
is_spurious (push_room e f) = false
is_spurious (push_full e f) = false
is_spurious (push_section e) = false
is_spurious (push_woken e) = true
is_spurious (write i b e) = false
is_spurious (commit_push i e) = false
is_spurious (pop_some e f) = false
is_spurious (pop_none e f) = false
is_spurious (pop_section e) = false
is_spurious (pop_woken e) = true
is_spurious (commit_pop i e) = false
is_spurious finalized = false

abbrev pub is_idle : {iterations : ℕ} {b c : Bench} → Turn iterations b c → Bool
is_idle (push st p at less) = is_spurious st
is_idle (leave at idle done) = false
is_idle (fill j at holds) = false
is_idle (commit j at holds) = false
is_idle (finish at) = false
is_idle (pop st p reading) = is_spurious st
is_idle (release j reading holds) = false

-- A thread can go on.
pub record CanMove (iterations : ℕ) (b : Bench) : Type 0 where
  pub next : Bench
  pub turn : Turn iterations b next
  pub awake : is_idle turn ≡ false

-- Both threads have ended, and `data_reader` has taken as many blocks as there are iterations, each of
-- them one byte 65.
pub record HasMoved (iterations : ℕ) (b : Bench) : Type 0 where
  pub writer : b.at ≡ At.ended
  pub reader : b.reading ≡ false
  pub taken : texts b.system.taken ≡ replicate iterations one_byte

module _ {iterations : ℕ} (b : Bench) where
  reader_moves : b.reading ≡ true → b.system.consumer ≢ Consumer.asleep → CanMove iterations b
  reader_moves reading awake = moves b.system.consumer refl
    where
      moves : (c : Consumer) → b.system.consumer ≡ c → CanMove iterations b
      moves Consumer.idle e = elim (Bool-cases (pop_sees_block b.system.queue)) [
        | inl some_block ↦ record {
          next = _;
          turn = pop (pop_some e some_block) tt reading;
          awake = refl;
        }
        | inr no_block ↦ record {
          next = _;
          turn = pop (pop_none e no_block) tt reading;
          awake = refl;
        }
      ]
      moves Consumer.at_lock e = record {
        next = _;
        turn = pop (pop_section e) tt reading;
        awake = refl;
      }
      moves Consumer.asleep e = absurd (awake e)
      moves (Consumer.holds j) e = record { next = _; turn = release j reading e; awake = refl }

  writer_moves :
      b.at ≡ At.pushing
      → b.system.queue.active ≡ true
      → IsTrying iterations b.i b.system.producer
      → b.system.producer ≢ Producer.asleep
      → CanMove iterations b
  unfolding push_sees_active
  writer_moves at active trying awake = moves b.system.producer refl
    where
      moves : (p : Producer) → b.system.producer ≡ p → CanMove iterations b
      moves Producer.idle e = elim (dec_lt b.i iterations) [
        | yes less ↦ record {
          next = _;
          turn = push (push_active e active) tt at less;
          awake = refl;
        }
        | no done ↦ record { next = _; turn = leave at e (omega arith); awake = refl }
      ]
      moves Producer.checked e =
          let less = subst (IsTrying iterations b.i) e trying in
          elim (Bool-cases (push_sees_room b.system.queue)) [
            | inl room ↦ record {
              next = _;
              turn = push (push_room e room) tt at less;
              awake = refl;
            }
            | inr full ↦ record {
              next = _;
              turn = push (push_full e full) tt at less;
              awake = refl;
            }
          ]
      moves Producer.at_lock e = record {
        next = _;
        turn = push (push_section e) tt at (subst (IsTrying iterations b.i) e trying);
        awake = refl;
      }
      moves Producer.asleep e = absurd (awake e)
      moves (Producer.holds j) e = absurd (subst (IsTrying iterations b.i) e trying)

module _ (capacity chunk_size lock not_empty not_full iterations : ℕ) {q : Queue} {err : Errno}
    (some_room : 0 < capacity) (small : capacity + 1 < 2 ^ 64)
    (created : queue_create capacity chunk_size Policy.wait lock not_empty not_full
      ≡ (some q, err)) where
  -- While the queue is active `data_reader` is in its loop.
  reads_on : {b : Bench} → IsSteady iterations q b → b.system.queue.active ≡ true → b.reading ≡ true
  reads_on {b} v active = elim (Bool-cases b.reading) [
    | inl reading ↦ reading
    | inr left ↦ absurd (cc (active, (subst (λ r. ReaderIs r b.system) left v.reader).0))
  ]

  pushing_moves : {b : Bench} → IsSteady iterations q b → b.at ≡ At.pushing → CanMove iterations b
  pushing_moves {b} v at =
      let w = subst (λ a. WriterIs iterations a b.i b.system) at v.writer in
      moves w (b.system.producer) refl
    where
      moves :
          WriterIs iterations At.pushing b.i b.system
          → (p : Producer) → b.system.producer ≡ p
          → CanMove iterations b
      moves w Producer.asleep e =
          reader_moves b (reads_on v w.0)
            (sleeping_threads capacity chunk_size lock not_empty not_full Policy.wait some_room
              small created Side.reader v.reach e).2
      moves w Producer.idle e = writer_moves b at w.0 w.1 (λ f. cc (e, f))
      moves w Producer.checked e = writer_moves b at w.0 w.1 (λ f. cc (e, f))
      moves w Producer.at_lock e = writer_moves b at w.0 w.1 (λ f. cc (e, f))
      moves w (Producer.holds j) e = writer_moves b at w.0 w.1 (λ f. cc (e, f))

  -- On a queue that jp_queue_create returned for the policy to wait and a capacity from 1 to 2^64
  -- - 2, in every state of the two threads of the queue benchmark either both have ended and
  -- data_reader has taken one block for each iteration, each of the byte 65, or a thread can go on
  -- otherwise than by a wake-up with no signal.
  pub queue_bench-HasMoved :
      {b : Bench} → Turns iterations q b → HasMoved iterations b ⊎ CanMove iterations b
  queue_bench-HasMoved {b} ts = result b.at refl
    where
      v : IsSteady iterations q b
      v =
          Turns-IsSteady capacity chunk_size lock not_empty not_full iterations some_room small
            created ts

      writer_is : (a : At) → b.at ≡ a → WriterIs iterations a b.i b.system
      writer_is a at = subst (λ a. WriterIs iterations a b.i b.system) at v.writer

      result : (a : At) → b.at ≡ a → HasMoved iterations b ⊎ CanMove iterations b
      result At.pushing at = inr (pushing_moves v at)
      result At.filling at =
          let w = writer_is At.filling at in
          inr (record { next = _; turn = fill w.2.0 at w.2.1; awake = refl })
      result At.committing at =
          let w = writer_is At.committing at in
          inr (record { next = _; turn = commit w.2.0 at w.2.1; awake = refl })
      result At.finalizing at = inr (record { next = _; turn = finish at; awake = refl })
      result At.ended at =
          let w = writer_is At.ended at in
          elim (Bool-cases b.reading) [
            | inl reading ↦ inr (
                reader_moves b reading (λ asleep. cc (
                  w.0,
                  (sleeping_threads capacity chunk_size lock not_empty not_full Policy.wait
                      some_room small created Side.writer v.reach asleep).0,
                )))
            | inr left ↦ inl (record {
              writer = at;
              reader = left;
              taken =
                  ap texts (sym (subst (λ r. ReaderIs r b.system) left v.reader).1)
                  ∙ v.pushed
                  ∙ ap (λ n. replicate n one_byte) w.1;
            })
          ]
