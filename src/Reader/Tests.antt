-- ===== src/Reader/Tests.antt =====
-- The reader on a short input, and the theorem at it.
use jpipe.Common.{ℕ, ◌≡◌, refl, List, [], ◌∷◌, none, some, arith, codes, zero, suc}
use jpipe.Errno.{Errno}
use jpipe.Reader.{
  ReadResult, got, end_of_input, again, reading, clean_up, read_turn, read_loop, Wake, consume_loop,
  reader_consume,
}
use jpipe.Reader.Round.{IsReadOf, Delivered}
use jpipe.Reader.Whole.{IsBlocking}
use jpipe.Reader.Blocking.{Delays, reader_consume-Delays}
use jpipe.Reader.Stream.{reader_consume-Delivered}

-- A `read` that returns one byte where there is room.
abbrev one_byte : ℕ → ℕ → ReadResult
one_byte c zero = end_of_input
one_byte c (suc n) = got (c ∷ [])

one_byte-IsReadOf : (c n : ℕ) → IsReadOf n (one_byte c n)
one_byte-IsReadOf c zero = tt
one_byte-IsReadOf c (suc n) = omega arith

abbrev wakes : List Wake
wakes =
    record { waited = Errno.etryagain; turns = [] }
    ∷ record {
      waited = Errno.ok;
      turns =
          record { push = Errno.ok; read = one_byte b'a' }
          ∷ record { push = Errno.ok; read = one_byte b'b' }
          ∷ record { push = Errno.ok; read = one_byte b'c' }
          ∷ record { push = Errno.ok; read = λ n. again }
          ∷ [];
    }
    ∷ record {
      waited = Errno.ok;
      turns =
          record { push = Errno.emsg_should_drop; read = one_byte b'd' }
          ∷ record { push = Errno.emsg_should_drop; read = λ n. end_of_input }
          ∷ [];
    }
    ∷ []

read_all :
    reader_consume 2 Errno.ok Errno.ok wakes
    ≡ clean_up Errno.ok (record {
      block = none;
      queue_err = Errno.emsg_should_drop;
      committed = codes "ab" ∷ codes "c" ∷ [];
      received = codes "abc";
      discarded = codes "d";
    })
unfolding reader_consume consume_loop read_loop read_turn
read_all = refl

reader_consume-Delivered_example : Delivered 2 (reader_consume 2 Errno.ok Errno.ok wakes)
reader_consume-Delivered_example =
    reader_consume-Delivered 2 (omega arith) Errno.ok Errno.ok wakes (
      tt,
      (
        (
          (tt, one_byte-IsReadOf b'a'),
          ((tt, one_byte-IsReadOf b'b'), ((tt, one_byte-IsReadOf b'c'), ((tt, λ n. tt), tt))),
        ),
        (((tt, one_byte-IsReadOf b'd'), ((tt, λ n. tt), tt)), tt),
      ),
    )

-- Three bytes that come one by one, from an input that waits for the fourth.
abbrev waiting_wakes : List Wake
waiting_wakes =
    record {
      waited = Errno.ok;
      turns =
          record { push = Errno.ok; read = one_byte b'a' }
          ∷ record { push = Errno.ok; read = one_byte b'b' }
          ∷ record { push = Errno.ok; read = one_byte b'c' }
          ∷ [];
    }
    ∷ []

one_byte-IsBlocking : (c n : ℕ) → IsBlocking (one_byte c n)
one_byte-IsBlocking c zero = tt
one_byte-IsBlocking c (suc n) = tt

-- The third byte stays with the reader.
third_waits :
    reader_consume 2 Errno.ok Errno.ok waiting_wakes
    ≡ reading (record {
      block = some (codes "c");
      queue_err = Errno.ok;
      committed = codes "ab" ∷ [];
      received = codes "abc";
      discarded = [];
    })
unfolding reader_consume consume_loop read_loop read_turn
third_waits = refl

reader_consume-Delays_example : Delays 2 (reader_consume 2 Errno.ok Errno.ok waiting_wakes)
reader_consume-Delays_example =
    reader_consume-Delays 2 Errno.ok Errno.ok waiting_wakes (omega arith)
      (
        (
          (tt, one_byte-IsReadOf b'a'),
          ((tt, one_byte-IsReadOf b'b'), ((tt, one_byte-IsReadOf b'c'), tt)),
        ),
        tt,
      )
      ((one_byte-IsBlocking b'a', (one_byte-IsBlocking b'b', (one_byte-IsBlocking b'c', tt))), tt)
