-- ===== src/Pipeline/Tests.antt =====
-- One line through the reader, a queue of two blocks and the writer.
use jpipe.Common.{
  ℕ, zero, suc, ◌*◌, ◌≡◌, refl, true, false, List, [], ◌∷◌, ◌++◌, map, none, some, arith, codes,
  joined,
}
use jpipe.Errno.{Errno}
use jpipe.Field.{FieldSet}
use jpipe.Json.Prefix.Quotes.{record_text}
use jpipe.Pipeline.{block_of, producer_thread, producer_thread-records}
use jpipe.Queue.{
  Policy, Block, Queue, empty_block, returned, queue_create, push_sees_active, push_sees_room,
  push_commit, pop_sees_block, pop_locked, pop_uncommitted, pop_commit, finalize,
}
use jpipe.Queue.Threads.{
  Producer, Consumer, System, Reach, start, later, push_active, push_room, write, commit_push,
  pop_some, commit_pop, finalized,
}
use jpipe.Reader.{
  Reader, ReadResult, got, end_of_input, Wake, clean_up, read_turn, read_loop, consume_loop,
  reader_consume,
}
use jpipe.Reader.Round.{IsReadOf}
use jpipe.Writer.Output.{Target}
use jpipe.Writer.Text.{cut_text, lines_of}

-- A `read` that returns a line where there is room for it.
abbrev read_line : ℕ → ReadResult
read_line zero = end_of_input
read_line (suc zero) = end_of_input
read_line (suc (suc n)) = got (codes "a\n")

read_line-IsReadOf : (n : ℕ) → IsReadOf n (read_line n)
read_line-IsReadOf zero = tt
read_line-IsReadOf (suc zero) = tt
read_line-IsReadOf (suc (suc n)) = omega arith

abbrev wakes : List Wake
wakes =
    record {
      waited = Errno.ok;
      turns =
          record { push = Errno.ok; read = read_line }
          ∷ record { push = Errno.ok; read = λ n. end_of_input }
          ∷ [];
    }
    ∷ []

abbrev reader : Reader
reader = record {
  block = none;
  queue_err = Errno.ok;
  committed = codes "a\n" ∷ [];
  received = codes "a\n";
  discarded = [];
}

read_all : reader_consume 1024 Errno.ok Errno.ok wakes ≡ clean_up Errno.ok reader
unfolding reader_consume consume_loop read_loop read_turn
read_all = refl

abbrev two_slots : Queue
two_slots = record {
  head = 0;
  tail = 0;
  capacity = 2;
  chunk_size = 1024;
  active = true;
  length = 0;
  policy = Policy.wait;
  blocks = empty_block ∷ empty_block ∷ [];
}

created : queue_create 2 1024 Policy.wait 0 0 0 ≡ (some two_slots, Errno.ok)
unfolding queue_create
created = refl

abbrev line : Block
line = block_of (codes "a\n")

abbrev finished : System
finished = record {
  queue = record two_slots { blocks = line ∷ empty_block ∷ []; head = 1; tail = 1; active = false };
  producer = Producer.idle;
  consumer = Consumer.idle;
  pushed = line ∷ [];
  taken = line ∷ [];
}

reached : Reach two_slots finished
unfolding push_sees_active push_sees_room push_commit pop_sees_block pop_commit finalize
reached =
    later
      (later
        (later
          (later
            (later (later (later start (push_active refl refl)) (push_room refl refl))
              (write 0 line refl))
            (commit_push 0 refl))
          (pop_some refl refl))
        (commit_pop 0 refl))
      finalized

ended : pop_uncommitted finished.queue ≡ returned Errno.eshutting_down none
unfolding pop_uncommitted pop_sees_block pop_locked
ended = refl

abbrev no_fields : FieldSet
no_fields = record { len = 0; cap = 32; fields = [] }

producer_thread-records_example :
    (t : Target) × (producer_thread no_fields 1024 finished.taken [] ≡ some (Errno.ok, t))
    × (t.output
        ≡ [] ++ joined (map (λ l. record_text no_fields l (1024 * 6)) (lines_of reader.received)))
unfolding cut_text
producer_thread-records_example =
    producer_thread-records no_fields 2 1024 0 0 0 Policy.wait Errno.ok Errno.ok wakes []
      (omega arith) (omega arith) (omega arith) (omega arith) created reached ended
      (((tt, read_line-IsReadOf), ((tt, λ n. tt), tt)), tt) read_all refl (omega arith)
      (omega arith)
