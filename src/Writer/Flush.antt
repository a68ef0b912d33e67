-- ===== src/Writer/Flush.antt =====
-- A line that is as long as a chunk: the writer writes it as soon as the overflow buffer is full, and its
-- newline, where that comes with the next block, ends a record of its own.
use mathlib.Core.Option
use jpipe.Common.{
  joined, ℕ, zero, suc, ◌+◌, ◌^◌, ◌<◌, ◌≡◌, ◌≢◌, refl, ap, ◌∙◌, inl, inr, true, [], ◌∷◌, ◌++◌,
  Option, none, some, arith, ◌==◌, ==_iff, ltb, Bool-cases, length, length-append, take_all, Bytes,
  All,
}
use jpipe.Writer.{memchr, Sink, round_copied, round_overflow, round_fresh, round, writer_produce}
use jpipe.Writer.Lines.{with_line, cut_block, send}
use jpipe.Writer.Stream.{drop_all}
use jpipe.Writer.Text.{cut_text, lines_of, cut_text-part}
use jpipe.Writer.Produce.{cut_blocks, returned, produce_loop-cut_blocks}

abbrev pub NoNewline : Bytes → Type 0
NoNewline s = All (λ c. c ≢ b'\n') s

memchr-none : (s : Bytes) → NoNewline s → memchr s b'\n' ≡ none
unfolding memchr
memchr-none [] h = refl
memchr-none (b ∷ bs) h = elim (Bool-cases (b == b'\n')) [
  | inl here ↦ absurd (h.0 ((==_iff b b'\n').0 here))
  | inr later ↦ rw later (ap (Option.map suc) (memchr-none bs h.1))
]

module _ (chunk_size : ℕ) (small : chunk_size < 2 ^ 63) where
  -- A block without a newline goes to the empty overflow buffer.
  round-keeps :
      (s : Bytes)
      → NoNewline s
      → round chunk_size (record { start = s; overflow = [] })
        ≡ (none, record { start = []; overflow = s })
  unfolding round round_fresh
  round-keeps s h = rw (memchr-none s h) refl

  copied-full :
      (n : ℕ) (a b : Bytes)
      → n ≡ length b
      → length a + length b ≡ chunk_size
      → round_copied chunk_size none n (record { start = b; overflow = a })
        ≡ (some (a ++ b), record { start = []; overflow = [] })
  unfolding round_copied
  copied-full n a b e full =
      let filled : (length (a ++ b) == chunk_size) ≡ true =
        (==_iff (length (a ++ b)) chunk_size).1 (length-append a b ∙ full) in
      rw (take_all b n e) (rw (drop_all n b e) (rw filled refl))

  -- A block that fills the buffer has its content written.
  round-fills :
      (a b : Bytes)
      → NoNewline b
      → 0 < length a
      → length a + length b ≡ chunk_size
      → round chunk_size (record { start = b; overflow = a })
        ≡ (some (a ++ b), record { start = []; overflow = [] })
  unfolding round round_overflow
  round-fills a b h pos full =
      let more : ltb 0 (length a) ≡ true = ground arith in
      rw more (rw (memchr-none b h) (copied-full _ a b (omega arith) full))

  cut_block-end :
      (fuel : ℕ) (overflow : Bytes)
      → cut_block chunk_size fuel (record { start = []; overflow = overflow }) ≡ ([], overflow)
  unfolding cut_block
  cut_block-end zero overflow = refl
  cut_block-end (suc fuel) overflow = refl

  -- A block that takes one round.
  cut_block-round :
      (fuel : ℕ) (start overflow : Bytes) (line : Option Bytes) (overflow' : Bytes)
      → 0 < fuel
      → 0 < length start
      → round chunk_size (record { start = start; overflow = overflow })
        ≡ (line, record { start = []; overflow = overflow' })
      → cut_block chunk_size fuel (record { start = start; overflow = overflow })
        ≡ with_line line ([], overflow')
  unfolding cut_block
  cut_block-round zero start overflow line overflow' pos some_left e = absurd (omega arith)
  cut_block-round (suc fuel) [] overflow line overflow' pos some_left e = absurd (omega arith)
  cut_block-round (suc fuel) (x ∷ xs) overflow line overflow' pos some_left e =
      ap (λ r. with_line r.0 (cut_block chunk_size fuel r.1)) e
      ∙ ap (with_line line) (cut_block-end fuel overflow')

  -- The newline on its own.
  round-newline :
      round chunk_size (record { start = b'\n' ∷ []; overflow = [] })
      ≡ (some [], record { start = []; overflow = [] })
  unfolding round round_fresh memchr
  round-newline = refl

  cut_blocks-full :
      (a b : Bytes)
      → NoNewline a
      → NoNewline b
      → 0 < length a
      → 0 < length b
      → length a + length b ≡ chunk_size
      → (cut_blocks chunk_size (a ∷ b ∷ (b'\n' ∷ []) ∷ []) []).0 ≡ (a ++ b) ∷ [] ∷ []
  unfolding cut_blocks
  cut_blocks-full a b h k pos_a pos_b full =
      rw
        (cut_block-round (length a + length a + 2) a [] none a (omega arith) pos_a
          (round-keeps a h))
        (rw
          (cut_block-round (length b + length b + 2) b a (some (a ++ b)) [] (omega arith) pos_b
            (round-fills a b k pos_a full))
          (rw
            (cut_block-round 4 (b'\n' ∷ []) [] (some []) [] (omega arith) (omega arith)
              round-newline)
            refl))

one_line :
    (a b : Bytes)
    → NoNewline a
    → NoNewline b
    → cut_text [] (joined (a ∷ b ∷ (b'\n' ∷ []) ∷ [])) ≡ ((a ++ b) ∷ [], [])
unfolding joined
one_line a b h k =
    cut_text-part [] a (b ++ b'\n' ∷ []) h
    ∙ cut_text-part a b (b'\n' ∷ []) k
    ∙ unfold cut_text in refl

-- Where chunk_size is below 2^63 and a line of exactly that length comes in two blocks that are
-- not empty, with its newline in a third one, jp_writer_produce writes the line and behind it an
-- empty record, up to the first failed write; the text has the one line only.
pub writer_produce-full_line :
    {W : Type 0} (sink : Sink W) (chunk_size : ℕ) (a b : Bytes) (w : W)
    → chunk_size < 2 ^ 63
    → NoNewline a
    → NoNewline b
    → 0 < length a
    → 0 < length b
    → length a + length b ≡ chunk_size
    → (writer_produce sink chunk_size (a ∷ b ∷ (b'\n' ∷ []) ∷ []) w
        ≡ some (returned (send sink ((a ++ b) ∷ [] ∷ []) w)))
      × (lines_of (joined (a ∷ b ∷ (b'\n' ∷ []) ∷ [])) ≡ (a ++ b) ∷ [])
unfolding writer_produce
writer_produce-full_line sink chunk_size a b w small h k pos_a pos_b full = (
  produce_loop-cut_blocks sink chunk_size (a ∷ b ∷ (b'\n' ∷ []) ∷ []) [] w small
        (omega arith, (omega arith, (omega arith, tt))) (omega arith)
      ∙ ap (λ lines. some (returned (send sink lines w)))
          (cut_blocks-full chunk_size small a b h k pos_a pos_b full),
  ap (λ cut. cut.0) (one_line a b h k),
)
