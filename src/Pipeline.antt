-- ===== src/Pipeline.antt =====
-- The two threads of src/worker.c together: what the reader reads goes through the queue to the
-- writer, and comes out as records.
mod Tests
use jpipe.Common.{
  ℕ, ◌+◌, ◌*◌, ◌^◌, ◌≤◌, ◌<◌, ◌≡◌, ◌≢◌, refl, sym, ap, ap₂, ◌∙◌, subst, ◌⊎◌, inl, inr, List, [],
  ◌∷◌, ◌++◌, map, Option, none, some, arith, length, take, take_all, Bytes, IsByte, All, joined,
}
use jpipe.Errno.{Errno}
use jpipe.Field.{FieldSet}
use jpipe.Json.Prefix.Quotes.{record_text}
use jpipe.Queue.{Policy, Block, Queue, returned, queue_create, pop_uncommitted}
use jpipe.Queue.Threads.{System, Reach}
use jpipe.Queue.Threads.Safety.{drained_at_shutdown}
use jpipe.Reader.{Reader, Next, clean_up, Wake, reader_consume}
use jpipe.Reader.Round.{IsWake, IsFilled, Inv, Delivered}
use jpipe.Reader.Stream.{reader_consume-Delivered}
use jpipe.Writer.{writer_produce}
use jpipe.Writer.Output.{Target, json_sink, new_target}
use jpipe.Writer.Output.Records.{writer_produce-records}
use jpipe.Writer.Produce.{BlocksFit}
use jpipe.Writer.Text.{cut_text, lines_of, ShortCut}

-- A block as the reader commits it, and the bytes of a block that the writer looks at.
abbrev pub block_of : Bytes → Block
block_of bytes = record { bytes = bytes; length = length bytes }

abbrev pub text_of : Block → Bytes
text_of block = take block.length block.bytes

-- `producer_thread_init`, with the blocks that the writer gets of the queue.
unfoldable pub producer_thread : FieldSet → ℕ → List Block → Bytes → Option (Errno × Target)
producer_thread fields chunk_size blocks output =
    writer_produce (json_sink chunk_size) chunk_size (map text_of blocks)
      (new_target fields output [])

text_of-block_of : (blocks : List Bytes) → map text_of (map block_of blocks) ≡ blocks
text_of-block_of [] = refl
text_of-block_of (bytes ∷ blocks) =
    ap₂ ◌∷◌ (take_all bytes (length bytes) refl) (text_of-block_of blocks)

IsFilled-BlocksFit :
    (chunk_size : ℕ) (blocks : List Bytes)
    → All (IsFilled chunk_size) blocks
    → BlocksFit chunk_size blocks
IsFilled-BlocksFit chunk_size [] h = tt
IsFilled-BlocksFit chunk_size (block ∷ blocks) h = (h.0.1, IsFilled-BlocksFit chunk_size blocks h.1)

-- What a reader that leaves with JP_OK has committed.
committed_all :
    (chunk_size : ℕ) (n : Next) {r : Reader}
    → Delivered chunk_size n
    → n ≡ clean_up Errno.ok r
    → BlocksFit chunk_size r.committed × (joined r.committed ≡ r.received)
committed_all chunk_size n {r} d e =
    let (v, all) = subst (Delivered chunk_size) e d in
    (
      IsFilled-BlocksFit chunk_size r.committed v.filled,
      elim all [ inl not_ok ↦ absurd (not_ok refl) | inr same ↦ sym same ],
    )

-- Reader, queue and writer together: where the reader leaves with JP_OK, the blocks it has
-- committed went into a queue that jp_queue_create returned (capacity from 1 to 2^64 - 2,
-- chunk_size from 1 to 131072), the writer has seen the shutdown, no call of writev is short, and
-- every line of the received bytes and what stands behind the last newline are shorter than
-- chunk_size, the writer returns JP_OK and has added to the output the records of all complete
-- lines of the received bytes, in order.
pub producer_thread-records :
    (set : FieldSet) (capacity chunk_size lock not_empty not_full : ℕ) (policy : Policy) {q : Queue}
    {err : Errno} {s : System} {r : Reader} (create_err poll_err : Errno) (wakes : List Wake)
    (output : Bytes)
    → 0 < capacity
    → capacity + 1 < 2 ^ 64
    → 0 < chunk_size
    → chunk_size ≤ 131072
    → queue_create capacity chunk_size policy lock not_empty not_full ≡ (some q, err)
    → Reach q s
    → pop_uncommitted s.queue ≡ returned Errno.eshutting_down none
    → All IsWake wakes
    → reader_consume chunk_size create_err poll_err wakes ≡ clean_up Errno.ok r
    → s.pushed ≡ map block_of r.committed
    → All IsByte r.received
    → ShortCut chunk_size (cut_text [] r.received)
    → (t : Target) × (producer_thread set chunk_size s.taken output ≡ some (Errno.ok, t))
      × (t.output
          ≡ output
            ++ joined (map (λ line. record_text set line (chunk_size * 6)) (lines_of r.received)))
unfolding producer_thread
producer_thread-records set capacity chunk_size lock not_empty not_full policy {s = s} {r = r}
      create_err poll_err wakes output some_room small pos max created run ended w left same bytes
      short =
    let drained =
      drained_at_shutdown capacity chunk_size lock not_empty not_full policy some_room small created
        run ended in
    let taken : map text_of s.taken ≡ r.committed =
      ap (map text_of) (sym drained.1 ∙ same) ∙ text_of-block_of r.committed in
    let (fit, all) =
      committed_all chunk_size (reader_consume chunk_size create_err poll_err wakes)
        (reader_consume-Delivered chunk_size pos create_err poll_err wakes w) left in
    let (t, done, text) =
      writer_produce-records set chunk_size r.committed output max fit
        (subst (All IsByte) (sym all) bytes)
        (subst (λ x. ShortCut chunk_size (cut_text [] x)) (sym all) short) in
    (
      t,
      ap
            (λ blocks.
              writer_produce (json_sink chunk_size) chunk_size blocks (new_target set output []))
            taken
          ∙ done,
      text
          ∙ ap
              (λ x.
                output ++ joined (map (λ line. record_text set line (chunk_size * 6)) (lines_of x)))
              all,
    )
