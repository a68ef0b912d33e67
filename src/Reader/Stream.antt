-- ===== src/Reader/Stream.antt =====
-- The committed blocks are the input: no byte that was read into a block is lost, changed or moved.
use jpipe.Common.{ℕ, ◌<◌, ◌≡◌, refl, inl, inr, List, [], ◌∷◌, Bool-cases, All, joined}
use jpipe.Errno.{Errno, is_ok}
use jpipe.Reader.{
  Turn, Reader, Next, reading, drained, clean_up, crashed, round, after_turn, read_loop, Wake,
  after_wake, wake_up, consume_loop, new_reader, reader_consume,
}
use jpipe.Reader.Round.{IsTurn, IsWake, Inv, Delivered, round-Delivered}

module _ (chunk_size : ℕ) (pos : 0 < chunk_size) where
  after_turn-Delivered :
      (next : Reader → Next) (n : Next)
      → ((r : Reader) → Inv chunk_size r → Delivered chunk_size (next r))
      → Delivered chunk_size n
      → Delivered chunk_size (after_turn next n)
  after_turn-Delivered next (reading r) h d = h r d
  after_turn-Delivered next (drained r) h d = d
  after_turn-Delivered next (clean_up err r) h d = d
  after_turn-Delivered next crashed h d = d

  read_loop-Delivered :
      (turns : List Turn) (r : Reader)
      → All IsTurn turns
      → Inv chunk_size r
      → Delivered chunk_size (read_loop chunk_size turns r)
  unfolding read_loop
  read_loop-Delivered [] r t v = v
  read_loop-Delivered (turn ∷ turns) r t v =
      after_turn-Delivered (read_loop chunk_size turns) (round chunk_size turn r)
        (λ s w. read_loop-Delivered turns s t.1 w) (round-Delivered chunk_size pos turn r t.0 v)

  after_wake-Delivered :
      (next : Reader → Next) (n : Next)
      → ((r : Reader) → Inv chunk_size r → Delivered chunk_size (next r))
      → Delivered chunk_size n
      → Delivered chunk_size (after_wake next n)
  after_wake-Delivered next (reading r) h d = d
  after_wake-Delivered next (drained r) h d = h r d
  after_wake-Delivered next (clean_up err r) h d = d
  after_wake-Delivered next crashed h d = d

  wake_up-Delivered :
      (next : Reader → Next) (waited : Errno) (turns : List Turn) (r : Reader)
      → ((s : Reader) → Inv chunk_size s → Delivered chunk_size (next s))
      → All IsTurn turns
      → Inv chunk_size r
      → Delivered chunk_size (wake_up chunk_size next (record { waited = waited; turns = turns }) r)
  wake_up-Delivered next Errno.eread_failed turns r h t v = (v, inl (λ k. cc k))
  wake_up-Delivered next Errno.etryagain turns r h t v = h r v
  wake_up-Delivered next _ turns r h t v =
      after_wake-Delivered next (read_loop chunk_size turns r) h (read_loop-Delivered turns r t v)

  consume_loop-Delivered :
      (wakes : List Wake) (r : Reader)
      → All IsWake wakes
      → Inv chunk_size r
      → Delivered chunk_size (consume_loop chunk_size wakes r)
  unfolding consume_loop
  consume_loop-Delivered [] r t v = v
  consume_loop-Delivered (wake ∷ wakes) r t v =
      wake_up-Delivered (consume_loop chunk_size wakes) wake.waited wake.turns r
        (λ s w. consume_loop-Delivered wakes s t.1 w) t.0 v

  new_reader-Inv : Inv chunk_size new_reader
  new_reader-Inv = record { text = unfold joined in refl; filled = tt; room = tt }

  -- For a chunk_size of at least 1, and whatever the poller, the queue and read return within
  -- their contracts, jp_reader_consume never uses a block it does not have; the bytes read into
  -- blocks are, in order, those of the blocks it has committed, of 1 to chunk_size bytes each, and
  -- of the block it holds; and where it leaves with JP_OK all of them are committed.
  pub reader_consume-Delivered :
      (create_err poll_err : Errno) (wakes : List Wake)
      → All IsWake wakes
      → Delivered chunk_size (reader_consume chunk_size create_err poll_err wakes)
  unfolding reader_consume
  reader_consume-Delivered create_err poll_err wakes t =
      let none_yet : new_reader.received ≡ joined new_reader.committed = unfold joined in refl in
      elim (Bool-cases (is_ok create_err)) [
        | inl created ↦ rw created (elim (Bool-cases (is_ok poll_err)) [
          | inl polled ↦ rw polled (consume_loop-Delivered wakes new_reader t new_reader-Inv)
          | inr refused ↦ rw refused (new_reader-Inv, inr none_yet)
        ])
        | inr refused ↦ rw refused (new_reader-Inv, inr none_yet)
      ]
